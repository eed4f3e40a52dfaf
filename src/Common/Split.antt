-- ===== src/Common/Split.antt =====
-- JavaScript's `split('.')` and `slice(0, n)` on native texts.
use Prim.Native.Nat.{ℕ, zero, suc}
use Prim.Native.Char.{Char, code}
use Prim.Native.String
use Prim.Native.String.{String}
use mathlib.Core.Path.{◌≡◌, refl, ◌∙◌, ap}
use mathlib.Core.Bool.{Bool, true, false, not, ◌&&◌}
use mathlib.Core.List.{List, [], ◌∷◌}
use native.Mathlib.Omega.{arith}
use text.Mathlib.TextLemmas.{nil-append, cons-append}
use shield_api.Common.Tests.{eqb, if◌then◌else◌}

abbrev is_dot : Char → Bool
is_dot c = eqb (code c) 46

-- The text has no dot in it.
abbrev pub undotted : String → Bool
undotted String.[] = true
undotted (String.◌∷◌ c s) = not (is_dot c) && undotted s

abbrev prepend : Char → List String → List String
prepend c [] = String.◌∷◌ c String.[] ∷ []
prepend c (p ∷ ps) = String.◌∷◌ c p ∷ ps

abbrev add_char : Char → List String → List String
add_char c parts = if is_dot c then "" ∷ parts else prepend c parts

abbrev pub split_dot : String → List String
split_dot String.[] = "" ∷ []
split_dot (String.◌∷◌ c s) = add_char c (split_dot s)

-- `slice(0, n)`, the length in characters
abbrev pub slice : ℕ → String → String
slice zero s = ""
slice (suc n) String.[] = ""
slice (suc n) (String.◌∷◌ c s) = String.◌∷◌ c (slice n s)

pub undotted-slice : (n : ℕ) (s : String) → undotted s ≡ true → undotted (slice n s) ≡ true
undotted-slice zero s h = refl
undotted-slice (suc n) String.[] h = refl
undotted-slice (suc n) (String.◌∷◌ c s) h = ground (arith, undotted-slice n s)

split-cons :
    (c : Char) (s : String) (ps : List String)
    → is_dot c ≡ false
    → add_char c (s ∷ ps) ≡ String.◌∷◌ c s ∷ ps
split-cons c s ps e = rw e refl

pub split-undotted : (s : String) → undotted s ≡ true → split_dot s ≡ s ∷ []
split-undotted String.[] h = refl
split-undotted (String.◌∷◌ c s) h =
    ap (add_char c) (split-undotted s (ground arith)) ∙ split-cons c s [] (ground arith)

split-dot : (r : String) → split_dot (String.◌++◌ "." r) ≡ "" ∷ split_dot r
split-dot r = ap split_dot (cons-append "." "" r ∙ ap (String.◌∷◌ ".") (nil-append r))

pub split-append :
    (s r : String)
    → undotted s ≡ true
    → split_dot (String.◌++◌ s (String.◌++◌ "." r)) ≡ s ∷ split_dot r
split-append String.[] r h = ap split_dot (nil-append (String.◌++◌ "." r)) ∙ split-dot r
split-append (String.◌∷◌ c s) r h =
    ap split_dot (cons-append c s (String.◌++◌ "." r))
    ∙ ap (add_char c) (split-append s r (ground arith))
    ∙ split-cons c s (split_dot r) (ground arith)
