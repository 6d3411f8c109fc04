-- ===== src/Outbox/EventId/Tests.antt =====
-- The id of two draws.
use mod_event_kafka.Common.{◌/◌, ◌%◌, ◌^◌, len, ◌≡◌, refl, text_append}
use mod_event_kafka.Outbox.EventId.{hex, low, high, make_event_id}
use mod_event_kafka.Outbox.EventId.Uniqueness.{make_event_id-injective, len-make_event_id}

first_id :
    make_event_id 81985529216486895 18364758544493064720 ≡ "01234567-89ab-4def-bedc-ba9876543210"
unfolding make_event_id hex low high text_append
first_id = refl

make_event_id-injective_example :
    (7 / 2 ^ 16 % 2 ^ 48 ≡ 61447 / 2 ^ 16 % 2 ^ 48)
    × (7 % 2 ^ 12 ≡ 61447 % 2 ^ 12)
    × (9 % 2 ^ 62 ≡ 9 % 2 ^ 62)
unfolding make_event_id hex low high text_append
make_event_id-injective_example = make_event_id-injective 7 9 61447 9 refl

len-make_event_id_example : len (make_event_id 7 9) ≡ 36
len-make_event_id_example = len-make_event_id 7 9
