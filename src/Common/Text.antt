-- ===== src/Common/Text.antt =====
-- Template strings, on native texts.
use Prim.Native.String
use Prim.Native.String.{String}
use mathlib.Core.Bool.{Bool, not}
use mathlib.Core.Option.{Option, none, some}
use mathlib.Core.List.{List, [], ◌∷◌}
use text.Mathlib.Text.{◌==◌}
use mathlib.Core.Bool.{false}

-- The parts of a template string, joined.
abbrev pub concat : List String → String
concat [] = ""
concat (x ∷ xs) = String.◌++◌ x (concat xs)

-- JavaScript's truth of a text: the empty one is falsy.
abbrev pub truthy : String → Bool
truthy s = not (s == "")

-- The truth of a text that may be `undefined` or `null`.
abbrev pub truthy? : Option String → Bool
truthy? none = false
truthy? (some s) = truthy s
