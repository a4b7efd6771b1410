-- ===== src/Sd/Etcdv3.antt =====
-- sd/etcdv3/client.go: GetEntries. Its instancer has the loop of Watching.
use yoroi.Prelude.{String, some, List}
use yoroi.Sd.Event.{Error}
use yoroi.Sd.Watching.{Entries, failed, found}

-- What Get returns: an error, or the values of the keys.
pub data Got : Type 0 where
  refused : Error → Got
  got : List String → Got

unfoldable pub get_entries : Got → Entries
get_entries (refused err) = failed err
get_entries (got values) = found (some values)
