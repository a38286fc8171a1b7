-- ===== src/Router/Types.antt =====
-- The patterns of net/http's ServeMux as internal/api/router.go writes them. Every path of the API
-- begins with `/api/v1`, which the tables leave out.
use nixway_core.Prelude.{
  String, Bool, true, false, List, [], ◌∷◌, ◌&&◌, str_eq, truthy, filter, any, map, if◌then◌else◌,
}
use nixway_core.Http.Types.{Method, get, post, put, patch, delete}

-- `fixed` is a literal segment and `param` a wildcard `{name}`.
pub data Piece : Type 0 where
  fixed param : String → Piece

pub record Route : Type 0 where
  pub method : Method
  pub pieces : List Piece
  pub handler : String

abbrev pub on_get : List Piece → String → Route
on_get pieces handler = record { method = get; pieces = pieces; handler = handler }

abbrev pub on_post : List Piece → String → Route
on_post pieces handler = record { method = post; pieces = pieces; handler = handler }

abbrev pub on_put : List Piece → String → Route
on_put pieces handler = record { method = put; pieces = pieces; handler = handler }

abbrev pub on_delete : List Piece → String → Route
on_delete pieces handler = record { method = delete; pieces = pieces; handler = handler }

abbrev pub same_method : Method → Method → Bool
same_method get get = true
same_method post post = true
same_method put put = true
same_method patch patch = true
same_method delete delete = true
same_method _ _ = false

-- The documented meaning of a pattern: a literal matches itself, and a wildcard one segment.
unfoldable pub matches : List Piece → List String → Bool
matches [] [] = true
matches [] (s ∷ ss) = false
matches (piece ∷ pieces) [] = false
matches (fixed f ∷ pieces) (s ∷ ss) = str_eq f s && matches pieces ss
matches (param name ∷ pieces) (s ∷ ss) = truthy s && matches pieces ss

-- A mount of the outer mux: a path, and whether it ends in a slash and so takes the whole subtree.
pub record Mount : Type 0 where
  pub root : List String
  pub subtree : Bool

abbrev pub mount : List String → Bool → Mount
mount root subtree = record { root = root; subtree = subtree }

-- the part of a path below a root
unfoldable pub below : List String → Bool → List String → Bool
below [] subtree [] = if subtree then false else true
below [] subtree (s ∷ ss) = subtree
below (r ∷ rs) subtree [] = false
below (r ∷ rs) subtree (s ∷ ss) = str_eq r s && below rs subtree ss

-- the handlers whose registered pattern takes the request
unfoldable pub handlers_of : List Route → Method → List String → List String
unfolding matches
handlers_of routes method segments =
    map (λ r. Route.handler r)
      (filter (λ r. same_method r.method method && matches r.pieces segments) routes)

unfoldable pub is_mounted : List Mount → List String → Bool
unfolding below
is_mounted mounts segments = any (λ m. below (Mount.root m) (Mount.subtree m) segments) mounts
