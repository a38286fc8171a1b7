-- ===== src/Prelude/Text.antt =====
-- Texts: equality as `===`, truthiness, joining, and cutting at a character.
use Prim.Native.String.{String}
use mathlib.Core.Path.{◌≡◌, refl, subst}
use mathlib.Core.Bool.{Bool, true, false, not}
use mathlib.Core.Option.{Option, none, some}
use native.Mathlib.Omega.{arith}
use text.Mathlib.Text.{◌==◌ as text_eq}
use text.Mathlib.TextEquality.{eq_iff}
use nixway_core.Prelude.Tests.{if◌then◌else◌, Bool-cases}
use nixway_core.Prelude.Lists.{any, All}
use mathlib.Core.Logic.{inl, inr}
use mathlib.Core.List.{List, [], ◌∷◌}

-- `a === b` on strings
abbrev pub str_eq : String → String → Bool
str_eq a b = text_eq a b

-- a string as a condition: `""` is falsy
abbrev pub truthy : String → Bool
truthy s = not (text_eq s "")

-- an optional string as a condition: `undefined`, `null` and `""` are falsy
abbrev pub truthy_opt : Option String → Bool
truthy_opt none = false
truthy_opt (some s) = truthy s

-- `o || d`, for an optional string
abbrev pub or_text : Option String → String → String
or_text none d = d
or_text (some s) d = if truthy s then s else d

pub truthy-or_text :
    (o : Option String) (d : String) → truthy d ≡ true → truthy (or_text o d) ≡ true
truthy-or_text none d h = h
truthy-or_text (some s) d h = ground arith

pub str_eq_refl : (s : String) → str_eq s s ≡ true
str_eq_refl s = (eq_iff s s).1 refl

-- whether a text is one of some
abbrev pub among : List String → String → Bool
among values v = any (λ w. str_eq w v) values

-- what holds of every member of a list holds of a text among them
pub among-All :
    (P : String → Type 0) (values : List String) (v : String)
    → among values v ≡ true
    → All P values
    → P v
among-All P [] v h k = ground arith
among-All P (w ∷ values) v h (here, k) = elim (Bool-cases (str_eq w v)) [
  | inl same ↦ subst P ((eq_iff w v).0 same) here
  | inr other ↦ among-All P values v (ground arith) k
]
