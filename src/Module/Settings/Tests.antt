-- ===== src/Module/Settings/Tests.antt =====
-- The settings of event_kafka.conf.xml.
use mod_event_kafka.Common.{
  ◌≡◌, refl, none, some, if◌then◌else◌, pos, is_empty, text_eq, text_append,
}
use mod_event_kafka.Module.Settings.Table.{File, configured}

-- event_kafka.conf.xml, of which the other items have their defaults.
unfoldable shipped : File
unfolding text_eq
shipped = record {
  texts = λ name. if text_eq name "topic-prefix" then some "topic_prefix" else none;
  ints = λ name. if text_eq name "buffer-size" then some (pos 16) else none;
}

shipped-topic : (configured "switch1" (some shipped)).topic ≡ "topic_prefix_switch1"
unfolding shipped text_eq text_append is_empty
shipped-topic = refl

shipped-buffers : (configured "switch1" (some shipped)).buffer_size ≡ pos 16
unfolding shipped text_eq
shipped-buffers = refl
