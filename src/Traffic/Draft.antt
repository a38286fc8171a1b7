-- ===== src/Traffic/Draft.antt =====
-- The draft, keyed by backend id, and the operations on it.
use nixway_core.Prelude.{
  ℕ, zero, min, String, Bool, true, false, not, List, [], ◌∷◌, Option, none, some, ◌==◌, str_eq,
  or_else, length, any, if◌then◌else◌,
}
use nixway_core.Prelude.Int.{ℤ, pos, negsuc, ◌+ℤ◌, ◌-ℤ◌}
use nixway_core.Models.{TrafficBackend}

-- `Record<string, number>`: each key once, in the order of insertion. Weights are whole numbers.
abbrev pub Draft : Type 0
Draft = List (String × ℤ)

-- `draft[id]`
unfoldable pub weight_of : Draft → String → Option ℤ
weight_of [] id = none
weight_of ((k, w) ∷ draft) id =
    let rest = weight_of draft id in if str_eq k id then some w else rest

-- `{ ...draft, [id]: w }`
unfoldable pub put_weight : Draft → String → ℤ → Draft
put_weight [] id w = (id, w) ∷ []
put_weight ((k, v) ∷ draft) id w =
    let rest = put_weight draft id w in if str_eq k id then (k, w) ∷ draft else (k, v) ∷ rest

-- `Math.max(0, Math.min(100, w))`
abbrev pub clamp : ℤ → ℤ
clamp (pos n) = pos (min 100 n)
clamp (negsuc n) = pos 0

-- the loop of `weightsByBackend`
unfoldable pub weights_from : Draft → List TrafficBackend → Draft
unfolding put_weight
weights_from out [] = out
weights_from out (b ∷ bs) =
    weights_from (put_weight out (TrafficBackend.id b) (clamp (pos (TrafficBackend.weight b)))) bs

unfoldable pub weights_by_backend : List TrafficBackend → Draft
unfolding weights_from
weights_by_backend bs = weights_from [] bs

abbrev pub is_weight : ℤ → ℕ → Bool
is_weight (pos m) n = m == n
is_weight (negsuc m) n = false

-- `(draft[b.id] ?? 0) !== b.weight`
unfoldable pub differs : Draft → TrafficBackend → Bool
differs draft b = not (is_weight (or_else (weight_of draft b.id) (pos 0)) b.weight)

unfoldable pub is_dirty : Draft → List TrafficBackend → Bool
unfolding differs
is_dirty draft bs = if not (length draft == length bs) then true else any (differs draft) bs

-- The effect on `[view.data]`: unsaved edits stay.
unfoldable pub resync : Draft → List TrafficBackend → Draft
unfolding is_dirty weights_by_backend
resync draft bs = if is_dirty draft bs then draft else weights_by_backend bs

-- `setWeight`, where `Math.round` has made the input whole
unfoldable pub set_weight : Draft → String → ℤ → Draft
unfolding put_weight
set_weight draft id raw = put_weight draft id (clamp raw)

unfoldable pub draft_total : Draft → ℤ
draft_total [] = pos 0
draft_total ((k, w) ∷ draft) = w +ℤ draft_total draft

abbrev pub is_zero : ℤ → Bool
is_zero (pos zero) = true
is_zero _ = false

-- `share d sum` is `Math.round((d / sum) * 100)`, in floating point.
module _ (share : ℤ → ℤ → ℤ) where
  -- the loop of `normalise` over the ids
  unfoldable pub scaled : ℤ → ℤ → Draft → Draft
  scaled sum running [] = []
  scaled sum running ((id, w) ∷ []) = (id, pos 100 -ℤ running) ∷ []
  scaled sum running ((id, w) ∷ d ∷ draft) =
      (id, share w sum) ∷ scaled sum (running +ℤ share w sum) (d ∷ draft)

  unfoldable pub normalise : Draft → Draft
  unfolding scaled
  normalise draft =
      if is_zero (draft_total draft) then draft else scaled (draft_total draft) (pos 0) draft
