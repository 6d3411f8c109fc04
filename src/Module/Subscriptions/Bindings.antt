-- ===== src/Module/Subscriptions/Bindings.antt =====
-- Which handlers KafkaModule has bound after its constructor, and after its destructor.
use mod_event_kafka.Common.{
  ℕ, zero, suc, ◌+◌, ◌<◌, String, ◌≡◌, refl, ap, subst, ◌∙◌, Bool, true, false, List, [], ◌∷◌, ◌++◌,
  map, if_cases, arith, ==_self, ==_iff, All, length,
}
use mathlib.Core.List.{append-nil, append_assoc}
use mod_event_kafka.Common.Tables.Select.{delete_where_none}
use mod_event_kafka.Pipeline.Failure.{Report, ok, failed}
use mod_event_kafka.Module.Subscriptions.{
  FreeSwitch, event_node, node_eq, Binding, Subscription, id_or, name_events, binding_of,
  all_events, bind_events, bind_all, subscribe, unbind, unbind_events, unsubscribe,
}

-- The bindings that the filter asks for, in its order; an empty filter asks for all events.
abbrev pub wanted : FreeSwitch → List Subscription → List Binding
wanted fs [] = all_events fs ∷ []
wanted fs (s ∷ ss) = map (binding_of fs) (s ∷ ss)

-- What a loop that binds leaves: all of them, or those before the one that was refused.
data Bound (fs : FreeSwitch) (accepts : Binding → Bool) (bound : List Binding)
    (ss : List Subscription) : Report (Unit {0}) × List Binding → Type 0 where
  complete : Bound fs accepts bound ss (ok tt, bound ++ map (binding_of fs) ss)
  broken_off :
      (done rest : List Subscription) (s : Subscription) (err : String)
      → ss ≡ done ++ s ∷ rest
      → All (λ x. accepts (binding_of fs x) ≡ true) done
      → accepts (binding_of fs s) ≡ false
      → Bound fs accepts bound ss (failed err, bound ++ map (binding_of fs) done)

one_more :
    (fs : FreeSwitch) (accepts : Binding → Bool) (bound : List Binding) (s : Subscription)
    (ss : List Subscription) (o : Report (Unit {0}) × List Binding)
    → accepts (binding_of fs s) ≡ true
    → Bound fs accepts (bound ++ binding_of fs s ∷ []) ss o
    → Bound fs accepts bound (s ∷ ss) o
one_more fs accepts bound s ss _ taken complete =
    rw (append_assoc bound (binding_of fs s ∷ []) (map (binding_of fs) ss)) complete
one_more fs accepts bound s ss _ taken (broken_off done rest t err e all refused) =
    rw (append_assoc bound (binding_of fs s ∷ []) (map (binding_of fs) done))
      (broken_off (s ∷ done) rest t err (ap (λ l. s ∷ l) e) (taken, all) refused)

bind_events-Bound :
    (fs : FreeSwitch) (accepts : Binding → Bool) (ss : List Subscription) (bound : List Binding)
    → Bound fs accepts bound ss (bind_events fs accepts ss bound)
unfolding bind_events
bind_events-Bound fs accepts [] bound =
    subst (λ l. Bound fs accepts bound [] (ok tt, l)) (append-nil bound) complete
bind_events-Bound fs accepts (s ∷ ss) bound =
    let rest = bind_events-Bound fs accepts ss (bound ++ binding_of fs s ∷ []) in
    if_cases (Bound fs accepts bound (s ∷ ss)) (accepts (binding_of fs s))
      (λ taken. one_more fs accepts bound s ss _ taken rest)
      (λ refused.
        subst (λ l. Bound fs accepts bound (s ∷ ss) (failed _, l)) (append-nil bound)
          (broken_off [] ss s _ refl tt refused))

node_of_binding : (fs : FreeSwitch) (s : Subscription) → (binding_of fs s).node ≡ event_node s.place
unfolding binding_of
node_of_binding fs s =
    if_cases (λ (b : Binding). b.node ≡ event_node s.place) (fs.is_custom s.name) (λ _. refl)
      (λ _. refl)

other_nodes :
    (fs : FreeSwitch) (held : ℕ → ℕ) (i j : ℕ) (names : List String)
    → i < j
    → All
        (λ b. node_eq b.node (event_node i) ≡ false)
        (map (binding_of fs) (name_events fs held j names))
unfolding name_events
other_nodes fs held i j [] lt = tt
other_nodes fs held i j (name ∷ names) lt = (
  rw (node_of_binding fs _) (ground (arith, ==_iff j i)),
  other_nodes fs held i (j + 1) names (omega arith),
)

unbind_first :
    (i : ℕ) (b : Binding) (bound : List Binding)
    → b.node ≡ event_node i
    → All (λ c. node_eq c.node (event_node i) ≡ false) bound
    → unbind (event_node i) (b ∷ bound) ≡ bound
unbind_first i b bound e h =
    let same : node_eq b.node (event_node i) ≡ true = rw e (==_self i) in
    rw same (delete_where_none _ bound h)

unbind_events-named :
    (fs : FreeSwitch) (held : ℕ → ℕ) (i n : ℕ) (names : List String)
    → length names ≡ n
    → unbind_events i n (map (binding_of fs) (name_events fs held i names)) ≡ []
unfolding unbind_events name_events
unbind_events-named fs held i zero [] e = refl
unbind_events-named fs held i (suc n) [] e = absurd (omega arith)
unbind_events-named fs held i zero (name ∷ names) e = absurd (omega arith)
unbind_events-named fs held i (suc n) (name ∷ names) e =
    let sub : Subscription = record {
      place = i;
      name = name;
      event_id = id_or (held i) (fs.name_event name);
    } in
    ap (unbind_events (i + 1) n) (
      unbind_first i (binding_of fs sub) _ (node_of_binding fs sub)
        (other_nodes fs held i (i + 1) names (omega arith)))
    ∙ unbind_events-named fs held (i + 1) n names (omega arith)

length-name_events :
    (fs : FreeSwitch) (held : ℕ → ℕ) (i : ℕ) (names : List String)
    → length (name_events fs held i names) ≡ length names
unfolding name_events
length-name_events fs held i [] = refl
length-name_events fs held i (name ∷ names) = ap suc (length-name_events fs held (i + 1) names)

pub subscribe-wanted :
    (fs : FreeSwitch) (accepts : Binding → Bool) (ss : List Subscription)
    → (subscribe fs accepts ss []).0 ≡ ok tt
    → (subscribe fs accepts ss []).1 ≡ wanted fs ss
unfolding subscribe bind_all
subscribe-wanted fs accepts [] e =
    if_cases (λ (o : Report (Unit {0}) × List Binding). o.0 ≡ ok tt → o.1 ≡ all_events fs ∷ [])
      (accepts (all_events fs)) (λ _ x. refl) (λ _ x. cc) e
subscribe-wanted fs accepts (s ∷ ss) e = completed (bind_events-Bound fs accepts (s ∷ ss) []) e
  where
    completed :
        {o : Report (Unit {0}) × List Binding}
        → Bound fs accepts [] (s ∷ ss) o
        → o.0 ≡ ok tt
        → o.1 ≡ wanted fs (s ∷ ss)
    completed complete x = refl
    completed (broken_off done rest t err k all refused) x = cc

pub unsubscribe-wanted :
    (fs : FreeSwitch) (held : ℕ → ℕ) (names : List String)
    → unsubscribe (length names) (wanted fs (name_events fs held 0 names)) ≡ []
unfolding unsubscribe name_events
unsubscribe-wanted fs held [] = refl
unsubscribe-wanted fs held (name ∷ names) =
    unbind_events-named fs held 0 (suc (length names)) (name ∷ names) refl

-- If the constructor of KafkaModule returns, the handlers bound are those of the filter, one for each
-- of its entries in their order (all events, for an empty filter), and the destructor unbinds them
-- all.
pub unsubscribe-subscribe :
    (fs : FreeSwitch) (held : ℕ → ℕ) (accepts : Binding → Bool) (names : List String)
    → (subscribe fs accepts (name_events fs held 0 names) []).0 ≡ ok tt
    → ((subscribe fs accepts (name_events fs held 0 names) []).1
        ≡ wanted fs (name_events fs held 0 names))
      × (unsubscribe (length names) (subscribe fs accepts (name_events fs held 0 names) []).1 ≡ [])
unsubscribe-subscribe fs held accepts names e =
    let all = subscribe-wanted fs accepts (name_events fs held 0 names) e in
    (all, rw all (unsubscribe-wanted fs held names))

-- If the constructor of KafkaModule throws over a filter that is not empty, FreeSWITCH has refused the
-- handler of an entry and granted those of all entries before it, and exactly these stay bound:
-- nothing unbinds them.
pub subscribe-broken_off :
    (fs : FreeSwitch) (accepts : Binding → Bool) (s : Subscription) (ss : List Subscription)
    (err : String)
    → (subscribe fs accepts (s ∷ ss) []).0 ≡ failed err
    → (done rest : List Subscription) × (t : Subscription) × (s ∷ ss ≡ done ++ t ∷ rest)
      × All (λ x. accepts (binding_of fs x) ≡ true) done
      × (accepts (binding_of fs t) ≡ false)
      × ((subscribe fs accepts (s ∷ ss) []).1 ≡ map (binding_of fs) done)
unfolding subscribe
subscribe-broken_off fs accepts s ss err e = broken (bind_events-Bound fs accepts (s ∷ ss) []) e
  where
    broken :
        {o : Report (Unit {0}) × List Binding}
        → Bound fs accepts [] (s ∷ ss) o
        → o.0 ≡ failed err
        → (done rest : List Subscription) × (t : Subscription) × (s ∷ ss ≡ done ++ t ∷ rest)
          × All (λ x. accepts (binding_of fs x) ≡ true) done
          × (accepts (binding_of fs t) ≡ false)
          × (o.1 ≡ map (binding_of fs) done)
    broken complete x = cc
    broken (broken_off done rest t err' k all refused) x = (done, rest, t, k, all, refused, refl)
