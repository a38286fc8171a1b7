-- ===== src/Router/Dispatch.antt =====
-- The handlers of a request, read off its parts.
use nixway_core.Prelude.{
  String, Bool, true, false, ◌||◌, List, [], ◌∷◌, ◌++◌, Option, none, some, map, ◌≡◌, refl, arith,
  str_eq, if◌then◌else◌, ◌<>◌,
}
use nixway_core.Http.Types.{Method}
use nixway_core.Endpoints.Types.{Part, lit, arg, Request, text_of, path}
use nixway_core.Router.Types.{Mount, below, is_mounted}
use nixway_core.Router.Reading.{all_segments, segments-target}
use nixway_core.Router.Verdict.{
  Verdict, fits, misses, unclear, both, verdict_of, Tells, Tells-and, Tells-verdict_of, selected,
  selected_sound, some_injective,
}
use nixway_core.Router.TeamTable.{team_routes}
use nixway_core.Router.AppTable.{app_routes}
use nixway_core.Router.OtherTable.{public_routes, other_routes}
use nixway_core.Router.MountTable.{mounts}
use nixway_core.Router.Serve.{handlers_below, handlers_for}

below_verdict : List String → Bool → List Part → Verdict
below_verdict [] subtree [] = verdict_of (if subtree then false else true)
below_verdict [] subtree (part ∷ parts) = verdict_of subtree
below_verdict (r ∷ rs) subtree [] = misses
below_verdict (r ∷ rs) subtree (lit s ∷ parts) =
    both (verdict_of (str_eq r s)) (below_verdict rs subtree parts)
below_verdict (r ∷ rs) subtree (arg s ∷ parts) = both unclear (below_verdict rs subtree parts)

below_verdict-Tells :
    (root : List String) (subtree : Bool) (parts : List Part)
    → Tells (below_verdict root subtree parts) (below root subtree (map text_of parts))
unfolding below_verdict below
below_verdict-Tells [] true [] = refl
below_verdict-Tells [] false [] = refl
below_verdict-Tells [] subtree (part ∷ parts) = Tells-verdict_of subtree
below_verdict-Tells (r ∷ rs) subtree [] = refl
below_verdict-Tells (r ∷ rs) subtree (lit s ∷ parts) =
    Tells-and (verdict_of (str_eq r s)) (below_verdict rs subtree parts) (str_eq r s) _
      (Tells-verdict_of (str_eq r s)) (below_verdict-Tells rs subtree parts)
below_verdict-Tells (r ∷ rs) subtree (arg s ∷ parts) =
    Tells-and unclear (below_verdict rs subtree parts) (str_eq r s) _ tt
      (below_verdict-Tells rs subtree parts)

abbrev either : Verdict → Verdict → Verdict
either fits v = fits
either misses v = v
either unclear fits = fits
either unclear v = unclear

Tells-or : (v w : Verdict) (a b : Bool) → Tells v a → Tells w b → Tells (either v w) (a || b)
Tells-or fits w a b p q = ground arith
Tells-or misses fits a b p q = ground arith
Tells-or misses misses a b p q = ground arith
Tells-or misses unclear a b p q = tt
Tells-or unclear fits a b p q = ground arith
Tells-or unclear misses a b p q = tt
Tells-or unclear unclear a b p q = tt

mount_verdict : List Mount → List Part → Verdict
unfolding below_verdict
mount_verdict [] parts = misses
mount_verdict (m ∷ ms) parts =
    either (below_verdict m.root m.subtree parts) (mount_verdict ms parts)

mount_verdict-Tells :
    (ms : List Mount) (parts : List Part)
    → Tells (mount_verdict ms parts) (is_mounted ms (map text_of parts))
unfolding mount_verdict is_mounted
mount_verdict-Tells [] parts = refl
mount_verdict-Tells (m ∷ ms) parts =
    Tells-or (below_verdict m.root m.subtree parts) (mount_verdict ms parts) _ _
      (below_verdict-Tells m.root m.subtree parts) (mount_verdict-Tells ms parts)

abbrev joined : Option (List String) → Option (List String) → Option (List String)
joined none b = none
joined (some x) none = none
joined (some x) (some y) = some (x ++ y)

abbrev guarded : Verdict → Option (List String) → Option (List String)
guarded fits hs = hs
guarded misses hs = some []
guarded unclear hs = none

-- The handlers of every request with these parts, if the parts decide them.
unfoldable pub decided : Method → List Part → Option (List String)
unfolding selected mount_verdict
decided method parts = joined (selected public_routes method parts) (
    guarded (mount_verdict mounts parts) (
      joined (selected team_routes method parts)
        (joined (selected app_routes method parts) (selected other_routes method parts))))

joined-eq-some :
    (a b : Option (List String)) (hs x y : List String)
    → ((l : List String) → a ≡ some l → x ≡ l)
    → ((l : List String) → b ≡ some l → y ≡ l)
    → joined a b ≡ some hs
    → x ++ y ≡ hs
joined-eq-some none b hs x y f g h = cc
joined-eq-some (some l) none hs x y f g h = cc
joined-eq-some (some l) (some m) hs x y f g h = rw (f l refl, g m refl) (some_injective _ _ h)

guarded_sound :
    (v : Verdict) (b : Bool) (o : Option (List String)) (x hs : List String)
    → Tells v b
    → ((l : List String) → o ≡ some l → x ≡ l)
    → guarded v o ≡ some hs
    → (if b then x else []) ≡ hs
guarded_sound fits b o x hs t f h = rw t (f hs h)
guarded_sound misses b o x hs t f h = rw t (some_injective _ _ h)
guarded_sound unclear b o x hs t f h = cc

handlers_below-decided :
    (method : Method) (parts : List Part) (hs : List String)
    → all_segments parts ≡ true
    → decided method parts ≡ some hs
    → handlers_below method (map text_of parts) ≡ hs
unfolding handlers_below decided
handlers_below-decided method parts hs ok h =
    joined-eq-some _ _ hs _ _ (selected_sound method parts ok public_routes)
      (λ l e.
        guarded_sound _ _ _ _ l (mount_verdict-Tells mounts parts)
          (λ l' e'.
            joined-eq-some _ _ l' _ _ (selected_sound method parts ok team_routes)
              (λ m f.
                joined-eq-some _ _ m _ _ (selected_sound method parts ok app_routes)
                  (selected_sound method parts ok other_routes) f)
              e')
          e)
      h

-- A request whose parts decide its handlers is answered by exactly these: no other registered
-- pattern takes it.
pub handlers_for-decided :
    (r : Request) (hs : List String)
    → all_segments r.parts ≡ true
    → decided r.method r.parts ≡ some hs
    → handlers_for r.method ("/api/v1" <> path r) ≡ hs
unfolding handlers_for
handlers_for-decided r hs ok h =
    rw (segments-target r ok) (handlers_below-decided r.method r.parts hs ok h)
