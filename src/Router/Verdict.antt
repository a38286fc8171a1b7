-- ===== src/Router/Verdict.antt =====
-- How to tell from the parts of a path alone, whatever texts are interpolated, which patterns of a
-- route table take the request.
use mathlib.Core.Option
use nixway_core.Prelude.{
  String, Bool, true, false, ◌&&◌, List, [], ◌∷◌, Option, none, some, map, ◌≡◌, refl, ◌∙◌, arith,
  str_eq, truthy, if◌then◌else◌, Bool-cases, inl, inr,
}
use nixway_core.Http.Types.{Method}
use nixway_core.Endpoints.Types.{Part, lit, arg, text_of}
use nixway_core.Router.Types.{Piece, fixed, param, Route, same_method, matches, handlers_of}
use nixway_core.Router.Reading.{all_segments}

later_segments :
    (part : Part) (parts : List Part)
    → all_segments (part ∷ parts) ≡ true
    → all_segments parts ≡ true
later_segments part parts h = ground arith

first_segment :
    (part : Part) (parts : List Part)
    → all_segments (part ∷ parts) ≡ true
    → truthy (text_of part) ≡ true
first_segment part parts h = ground arith

-- What the parts of a path say about a pattern, whatever the interpolated texts are.
pub data Verdict : Type 0 where
  fits misses unclear : Verdict

abbrev pub both : Verdict → Verdict → Verdict
both misses v = misses
both fits v = v
both unclear misses = misses
both unclear v = unclear

abbrev pub verdict_of : Bool → Verdict
verdict_of true = fits
verdict_of false = misses

unfoldable pub verdict : List Piece → List Part → Verdict
verdict [] [] = fits
verdict [] (part ∷ parts) = misses
verdict (piece ∷ pieces) [] = misses
verdict (fixed f ∷ pieces) (lit s ∷ parts) = both (verdict_of (str_eq f s)) (verdict pieces parts)
verdict (fixed f ∷ pieces) (arg s ∷ parts) = both unclear (verdict pieces parts)
verdict (param name ∷ pieces) (lit s ∷ parts) = both (verdict_of (truthy s)) (verdict pieces parts)
verdict (param name ∷ pieces) (arg s ∷ parts) = verdict pieces parts

-- A verdict that is not unclear is the answer of the test.
abbrev pub Tells : Verdict → Bool → Type 0
Tells fits b = b ≡ true
Tells misses b = b ≡ false
Tells unclear b = Unit

pub Tells-and : (v w : Verdict) (a b : Bool) → Tells v a → Tells w b → Tells (both v w) (a && b)
Tells-and fits fits a b p q = ground arith
Tells-and fits misses a b p q = ground arith
Tells-and fits unclear a b p q = tt
Tells-and misses w a b p q = ground arith
Tells-and unclear fits a b p q = tt
Tells-and unclear misses a b p q = ground arith
Tells-and unclear unclear a b p q = tt

pub Tells-verdict_of : (b : Bool) → Tells (verdict_of b) b
Tells-verdict_of true = refl
Tells-verdict_of false = refl

pub verdict-Tells :
    (pieces : List Piece) (parts : List Part)
    → all_segments parts ≡ true
    → Tells (verdict pieces parts) (matches pieces (map text_of parts))
unfolding verdict matches
verdict-Tells [] [] h = refl
verdict-Tells [] (part ∷ parts) h = refl
verdict-Tells (piece ∷ pieces) [] h = refl
verdict-Tells (fixed f ∷ pieces) (lit s ∷ parts) h =
    Tells-and (verdict_of (str_eq f s)) (verdict pieces parts) (str_eq f s) _
      (Tells-verdict_of (str_eq f s)) (verdict-Tells pieces parts (later_segments (lit s) parts h))
verdict-Tells (fixed f ∷ pieces) (arg s ∷ parts) h =
    Tells-and unclear (verdict pieces parts) (str_eq f s) _ tt
      (verdict-Tells pieces parts (later_segments (arg s) parts h))
verdict-Tells (param name ∷ pieces) (lit s ∷ parts) h =
    Tells-and (verdict_of (truthy s)) (verdict pieces parts) (truthy s) _
      (Tells-verdict_of (truthy s)) (verdict-Tells pieces parts (later_segments (lit s) parts h))
verdict-Tells (param name ∷ pieces) (arg s ∷ parts) h =
    rw (first_segment (arg s) parts h) (verdict-Tells pieces parts (later_segments (arg s) parts h))

abbrev pub add_if : Verdict → String → Option (List String) → Option (List String)
add_if fits handler rest = Option.map (λ l. handler ∷ l) rest
add_if misses handler rest = rest
add_if unclear handler rest = none

-- The handlers that a list of routes selects, if no verdict is unclear.
unfoldable pub selected : List Route → Method → List Part → Option (List String)
unfolding verdict
selected [] method parts = some []
selected (r ∷ routes) method parts =
    let rest = selected routes method parts in
    if same_method r.method method then add_if (verdict r.pieces parts) r.handler rest else rest

pub some_injective : (a b : List String) → some a ≡ some b → a ≡ b
some_injective a b h = cc

add_if_sound :
    (v : Verdict) (b : Bool) (handler : String) (rest : Option (List String))
    (found hs : List String)
    → Tells v b
    → ((l : List String) → rest ≡ some l → found ≡ l)
    → add_if v handler rest ≡ some hs
    → (if b then handler ∷ found else found) ≡ hs
add_if_sound fits b handler none found hs t sound h = cc
add_if_sound fits b handler (some l) found hs t sound h =
    rw (t, sound l refl) (some_injective _ _ h)
add_if_sound misses b handler rest found hs t sound h = rw t (sound hs h)
add_if_sound unclear b handler rest found hs t sound h = cc

handlers_of-cons :
    (r : Route) (routes : List Route) (method : Method) (segs : List String)
    → same_method r.method method ≡ true
    → handlers_of (r ∷ routes) method segs ≡ (
        if matches r.pieces segs
        then r.handler ∷ handlers_of routes method segs
        else handlers_of routes method segs)
unfolding handlers_of
handlers_of-cons r routes method segs same =
    rw same (elim (Bool-cases (matches r.pieces segs)) [ inl e ↦ rw e | inr e ↦ rw e ])

handlers_of-skip :
    (r : Route) (routes : List Route) (method : Method) (segs : List String)
    → same_method r.method method ≡ false
    → handlers_of (r ∷ routes) method segs ≡ handlers_of routes method segs
unfolding handlers_of
handlers_of-skip r routes method segs other = rw other

module _ (method : Method) (parts : List Part) (ok : all_segments parts ≡ true) where
  pub selected_sound :
      (routes : List Route) (hs : List String)
      → selected routes method parts ≡ some hs
      → handlers_of routes method (map text_of parts) ≡ hs
  unfolding selected
  selected_sound [] hs h = unfold handlers_of in some_injective _ _ h
  selected_sound (r ∷ routes) hs h = elim (Bool-cases (same_method r.method method)) [
    | inl same ↦
        handlers_of-cons r routes method _ same
        ∙ add_if_sound (verdict r.pieces parts) _ r.handler (selected routes method parts) _ hs
            (verdict-Tells r.pieces parts ok) (selected_sound routes) (rw (selected, same) at h)
    | inr other ↦
        handlers_of-skip r routes method _ other
        ∙ selected_sound routes hs (rw (selected, other) at h)
  ]
