-- ===== src/Scale/Edits.antt =====
-- The number of replicas.
use nixway_core.Prelude.{ℕ, ◌≤◌, max, List, [], ◌∷◌, arith}
use nixway_core.Prelude.Int.{pos, negsuc}
use nixway_core.Models.{App}
use nixway_core.Scale.Form.{
  Form, initial_replicas, open_form, Edit, decrement, increment, typed, choose, toggle, select_all,
  clear_all, edit,
}

-- the form after some edits
abbrev pub edit_all : Form → List Edit → Form
edit_all f [] = f
edit_all f (e ∷ es) = edit_all (edit f e) es

edit-bounds :
    (f : Form) (e : Edit) (top : ℕ)
    → 999 ≤ top
    → 1 ≤ f.replicas
    → f.replicas ≤ top
    → (1 ≤ (edit f e).replicas) × ((edit f e).replicas ≤ top)
unfolding edit
edit-bounds f decrement top t l u = (omega arith, omega arith)
edit-bounds f increment top t l u = (omega arith, omega arith)
edit-bounds f (typed (pos n)) top t l u = (omega arith, omega arith)
edit-bounds f (typed (negsuc n)) top t l u = (omega arith, omega arith)
edit-bounds f (choose s) top t l u = (l, u)
edit-bounds f (toggle id) top t l u = (l, u)
edit-bounds f (select_all ids) top t l u = (l, u)
edit-bounds f clear_all top t l u = (l, u)

edit_all-bounds :
    (f : Form) (es : List Edit) (top : ℕ)
    → 999 ≤ top
    → 1 ≤ f.replicas
    → f.replicas ≤ top
    → (1 ≤ (edit_all f es).replicas) × ((edit_all f es).replicas ≤ top)
edit_all-bounds f [] top t l u = (l, u)
edit_all-bounds f (e ∷ es) top t l u =
    let (a, b) = edit-bounds f e top t l u in edit_all-bounds (edit f e) es top t a b

-- Whatever the user does, the number of replicas stays at least 1 and at most 999, or the number that
-- the app had where that is more.
pub edit_all-replicas :
    (app : App) (es : List Edit)
    → (1 ≤ (edit_all (open_form app) es).replicas)
      × ((edit_all (open_form app) es).replicas ≤ max 999 (initial_replicas app))
unfolding open_form
edit_all-replicas app es =
    edit_all-bounds (open_form app) es (max 999 (initial_replicas app)) (omega arith) (omega arith)
      (omega arith)
