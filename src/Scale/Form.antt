-- ===== src/Scale/Form.antt =====
-- The state of ScaleClient.tsx and the operations on it.
use nixway_core.Prelude.{
  ℕ, ◌+◌, ◌-◌, min, max, String, Bool, false, not, ◌&&◌, ◌||◌, List, [], ◌∷◌, ◌++◌, Option, none,
  some, ◌==◌, ltb, str_eq, or_else, or_text, length, filter, any, if◌then◌else◌,
}
use nixway_core.Prelude.Int.{ℤ, pos, negsuc}
use nixway_core.Json.{num, str, Members, end, member}
use nixway_core.Models.{App}
use nixway_core.Endpoints.Types.{Platform, texts}

pub record Form : Type 0 where
  pub replicas : ℕ
  pub strategy : String
  pub pinned : List String

-- `Math.max(1, Number(app.replicas) || 1)`
abbrev pub initial_replicas : App → ℕ
initial_replicas app = max 1 (or_else app.replicas 1)

-- the first render
unfoldable pub open_form : App → Form
open_form app = record {
  replicas = initial_replicas app;
  strategy = or_text app.placement_strategy "spread";
  pinned = or_else app.pinned_server_ids [];
}

-- `prev.includes(id)`, and `s.has(x)` of the set of a list
abbrev pub includes : List String → String → Bool
includes ids id = any (λ j. str_eq j id) ids

unfoldable pub same_set : List String → List String → Bool
same_set a b = if not (length a == length b) then false else not (any (λ x. not (includes a x)) b)

unfoldable pub is_changed : App → Form → Bool
unfolding same_set
is_changed app f =
    not (f.replicas == (open_form app).replicas)
    || not (str_eq f.strategy (open_form app).strategy)
    || (str_eq f.strategy "pinned" && not (same_set f.pinned (open_form app).pinned))

unfoldable pub toggle_pinned : List String → String → List String
toggle_pinned prev id =
    if includes prev id then filter (λ j. not (str_eq j id)) prev else prev ++ id ∷ []

pub data Strategy : Type 0 where
  spread binpack pinned : Strategy

-- the keys of `STRATEGY_OPTIONS`
abbrev pub strategy_key : Strategy → String
strategy_key spread = "spread"
strategy_key binpack = "binpack"
strategy_key pinned = "pinned"

-- What the page can do to the form. A typed number is whole, as
-- `Math.trunc` leaves it; a click on a preset types its number. An input that is no finite
-- number changes nothing. All servers are those of the cluster's members.
pub data Edit : Type 0 where
  decrement increment : Edit
  typed : ℤ → Edit
  choose : Strategy → Edit
  toggle : String → Edit
  select_all : List String → Edit
  clear_all : Edit

-- `Math.max(1, Math.min(999, n))`
abbrev pub bounded : ℤ → ℕ
bounded (pos n) = max 1 (min 999 n)
bounded (negsuc n) = 1

unfoldable pub edit : Form → Edit → Form
unfolding toggle_pinned
edit f decrement = record f { replicas = max 1 (f.replicas - 1) }
edit f increment = record f { replicas = min 999 (f.replicas + 1) }
edit f (typed n) = record f { replicas = bounded n }
edit f (choose s) = record f { strategy = strategy_key s }
edit f (toggle id) = record f { pinned = toggle_pinned f.pinned id }
edit f (select_all ids) = record f { pinned = ids }
edit f clear_all = record f { pinned = [] }

-- the input of `appsApi.scale`
pub record ScaleInput : Type 0 where
  pub replicas : ℕ
  pub placement_strategy : String
  pub pinned_server_ids : Option (List String)

abbrev pub scale_input : Form → ScaleInput
scale_input f = record {
  replicas = f.replicas;
  placement_strategy = f.strategy;
  pinned_server_ids = if str_eq f.strategy "pinned" then some f.pinned else none;
}

abbrev pub needs_pinned : Form → Bool
needs_pinned f = str_eq f.strategy "pinned" && (length f.pinned == 0)

-- `handleSubmit`; a lower number of replicas is left to another dialog
unfoldable pub submit_scale : App → Form → Option ScaleInput
unfolding is_changed
submit_scale app f =
    if not (is_changed app f) || needs_pinned f
    then none
    else if ltb f.replicas (initial_replicas app)
    then none
    else some (scale_input f)

-- The dialog that confirms a lower number: its trigger stands in place of the button "Apply".
unfoldable pub confirm_scale : App → Form → Option ScaleInput
unfolding is_changed
confirm_scale app f =
    if not (is_changed app f) || needs_pinned f
    then none
    else if ltb f.replicas (initial_replicas app)
    then some (scale_input f)
    else none

abbrev pins_member : Option (List String) → Members
pins_member none = end
pins_member (some ids) = member "pinned_server_ids" (texts ids) end

-- the body of `appsApi.scale`, without the members that are `undefined`
abbrev pub scale_body : Platform → ScaleInput → Members
scale_body p i =
    member "replicas" (num (p.show i.replicas))
      (member "placement_strategy" (str i.placement_strategy) (pins_member i.pinned_server_ids))
