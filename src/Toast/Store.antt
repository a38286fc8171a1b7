-- ===== src/Toast/Store.antt =====
-- The module's state and its operations: the reducer, the removal timers and the listeners.
use nixway_core.Prelude.{
  ℕ, ◌+◌, ◌%◌, String, Bool, true, false, not, List, [], ◌∷◌, ◌++◌, Option, none, some, map, ◌==◌,
  str_eq, truthy_opt, or_else, first_some, take, filter, any, if◌then◌else◌,
}

-- The title and the description stand for the rendered properties, which the store only copies.
pub record Toast : Type 0 where
  pub id : String
  pub title : Option String
  pub description : Option String
  pub is_open : Bool

-- `Partial<ToasterToast>`
pub record Patch : Type 0 where
  pub id : Option String
  pub title : Option String
  pub description : Option String
  pub is_open : Option Bool

pub data Action : Type 0 where
  add_toast : Toast → Action
  update_toast : Patch → Action
  dismiss_toast : Option String → Action
  remove_toast : Option String → Action

-- `memoryState`, `toastTimeouts` (its keys), `count` and `listeners` of the module; a listener
-- stands as a number that identifies its function.
pub record Store : Type 0 where
  pub toasts : List Toast
  pub timeouts : List String
  pub count : ℕ
  pub listeners : List ℕ

abbrev pub toast_limit : ℕ
toast_limit = 1

-- `Number.MAX_SAFE_INTEGER`
abbrev pub max_safe_integer : ℕ
max_safe_integer = 9007199254740991

abbrev pub has_timeout : List String → String → Bool
has_timeout ids id = any (λ j. str_eq j id) ids

-- `addToRemoveQueue`: one timer for an id at most
unfoldable pub add_to_remove_queue : List String → String → List String
add_to_remove_queue ids id = if has_timeout ids id then ids else ids ++ id ∷ []

-- `state.toasts.forEach((t) => addToRemoveQueue(t.id))`
unfoldable pub queue_all : List String → List Toast → List String
queue_all ids [] = ids
queue_all ids (t ∷ ts) = queue_all (add_to_remove_queue ids t.id) ts

abbrev pub same_id : Option String → String → Bool
same_id none id = false
same_id (some j) id = str_eq id j

-- `{ ...t, ...action.toast }`
abbrev pub merge : Toast → Patch → Toast
merge t p = record {
  id = or_else p.id t.id;
  title = first_some p.title t.title;
  description = first_some p.description t.description;
  is_open = or_else p.is_open t.is_open;
}

unfoldable pub update_one : Patch → Toast → Toast
update_one p t = if same_id p.id t.id then merge t p else t

abbrev pub closes : Option String → String → Bool
closes none id = true
closes (some j) id = str_eq id j

-- `{ ...t, open: false }`
unfoldable pub close_one : Option String → Toast → Toast
close_one target t = if closes target t.id then record t { is_open = false } else t

-- the state that `reducer` returns
unfoldable pub reduce : List Toast → Action → List Toast
reduce ts (add_toast t) = take toast_limit (t ∷ ts)
reduce ts (update_toast p) = map (update_one p) ts
reduce ts (dismiss_toast target) = map (close_one target) ts
reduce ts (remove_toast none) = []
reduce ts (remove_toast (some id)) = filter (λ t. not (str_eq (Toast.id t) id)) ts

-- the timers that `reducer` starts
unfoldable pub start_timers : List String → List Toast → Action → List String
unfolding add_to_remove_queue queue_all
start_timers ids ts (dismiss_toast none) = queue_all ids ts
start_timers ids ts (dismiss_toast (some id)) =
    if truthy_opt (some id) then add_to_remove_queue ids id else queue_all ids ts
start_timers ids ts action = ids

-- `dispatch`, with the calls of the listeners in order
unfoldable pub dispatch : Store → Action → Store × List (ℕ × List Toast)
dispatch s action =
    let after = reduce s.toasts action in
    (
      record s { toasts = after; timeouts = start_timers s.timeouts s.toasts action },
      map (λ l. (l, after)) s.listeners,
    )

-- The callback of a timer. It runs once, and `delete` takes the id out of the map.
unfoldable pub fire : Store → String → Store
fire s id =
    (dispatch (record s { timeouts = filter (λ j. not (str_eq j id)) s.timeouts })
      (remove_toast (some id))).0

module _ (show : ℕ → String) where
  -- `toast`: the store and the new id
  unfoldable pub toast : Store → Option String → Option String → Store × String
  toast s title description =
      let n = (s.count + 1) % max_safe_integer in
      (
        (dispatch (record s { count = n })
            (add_toast (record {
              id = show n;
              title = title;
              description = description;
              is_open = true;
            }))).0,
        show n,
      )

-- the effect of `useToast`, and its clean-up: `splice` at the first index
unfoldable pub subscribe : Store → ℕ → Store
subscribe s l = record s { listeners = s.listeners ++ l ∷ [] }

unfoldable pub remove_first : ℕ → List ℕ → List ℕ
remove_first l [] = []
remove_first l (k ∷ ks) = let rest = remove_first l ks in if k == l then ks else k ∷ rest

unfoldable pub unsubscribe : Store → ℕ → Store
unfolding remove_first
unsubscribe s l = record s { listeners = remove_first l s.listeners }
