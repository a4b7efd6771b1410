-- ===== src/Sd/Event.antt =====
-- sd/instancer.go: the notifications that an Instancer sends.
use yoroi.Prelude.{String, Option, none, some, List, []}

-- Go's `error` values are compared by their message alone in this program.
abbrev pub Error : Type 0
Error = String

-- `none` is the nil slice, which `reflect.DeepEqual` tells from the empty one.
pub record Event : Type 0 where
  pub instances : Option (List String)
  pub err : Option Error

-- What a range over the slice, or sorting it, sees.
abbrev pub items : Option (List String) → List String
items none = []
items (some xs) = xs
