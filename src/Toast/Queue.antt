-- ===== src/Toast/Queue.antt =====
-- The timers: every dismissed toast has one.
use nixway_core.Prelude.{
  String, true, false, not, ◌&&◌, ◌||◌, List, [], ◌∷◌, ◌++◌, Option, none, some, map, ◌≡◌, refl,
  Bool-cases, ◌⊎◌, inl, inr, arith, str_eq, str_eq_refl, eq_iff, filter, All, truthy, ◌≢◌,
}
use nixway_core.Toast.Store.{
  Toast, Patch, dismiss_toast, has_timeout, add_to_remove_queue, queue_all, update_one, close_one,
  reduce, start_timers,
}

has_timeout-append :
    (ids js : List String) (id : String)
    → has_timeout (ids ++ js) id ≡ (has_timeout ids id || has_timeout js id)
has_timeout-append [] js id = refl
has_timeout-append (j ∷ ids) js id = ground (arith, has_timeout-append ids js id)

pub has_timeout-add :
    (ids : List String) (id j : String)
    → has_timeout (add_to_remove_queue ids id) j ≡ (has_timeout ids j || str_eq id j)
unfolding add_to_remove_queue
has_timeout-add ids id j = ground (arith, has_timeout-append ids (id ∷ []) j, eq_iff id j)

-- A timer is never lost while others are started.
has_timeout-queue_all :
    (ids : List String) (ts : List Toast) (j : String)
    → has_timeout ids j ≡ true
    → has_timeout (queue_all ids ts) j ≡ true
unfolding queue_all
has_timeout-queue_all ids [] j h = h
has_timeout-queue_all ids (t ∷ ts) j h =
    has_timeout-queue_all (add_to_remove_queue ids t.id) ts j
      (rw (has_timeout-add ids t.id j, h) refl)

-- A toast is still shown, or a timer will remove it.
abbrev pub IsQueued : List String → Toast → Type 0
IsQueued ids t = (t.is_open ≡ true) ⊎ (has_timeout ids t.id ≡ true)

IsQueued-more :
    (ids js : List String) (ts : List Toast)
    → ((j : String) → has_timeout ids j ≡ true → has_timeout js j ≡ true)
    → All (IsQueued ids) ts
    → All (IsQueued js) ts
IsQueued-more ids js [] more h = tt
IsQueued-more ids js (t ∷ ts) more (inl shown, h) = (inl shown, IsQueued-more ids js ts more h)
IsQueued-more ids js (t ∷ ts) more (inr timed, h) =
    (inr (more t.id timed), IsQueued-more ids js ts more h)

pub queue_all-has :
    (ids : List String) (ts : List Toast) → All (λ t. has_timeout (queue_all ids ts) t.id ≡ true) ts
unfolding queue_all
queue_all-has ids [] = tt
queue_all-has ids (t ∷ ts) = (
  has_timeout-queue_all (add_to_remove_queue ids t.id) ts t.id
      (rw (has_timeout-add ids t.id t.id, str_eq_refl) (ground arith)),
  queue_all-has (add_to_remove_queue ids t.id) ts,
)

pub close_one-id : (target : Option String) (t : Toast) → (close_one target t).id ≡ t.id
unfolding close_one
close_one-id target t = ground arith

-- A close of one toast: it is queued afterwards if it was before, or if it is the one.
IsQueued-close_this :
    (ids : List String) (id : String) (t : Toast)
    → IsQueued ids t
    → IsQueued (add_to_remove_queue ids id) (close_one (some id) t)
unfolding close_one
IsQueued-close_this ids id t here = elim (Bool-cases (str_eq t.id id)) [
  | inl same ↦ inr (
      rw (close_one-id (some id) t, has_timeout-add ids id t.id)
        (ground (arith, eq_iff t.id id, eq_iff id t.id)))
  | inr other ↦
      rw (close_one, other)
        (elim here [
          | inl shown ↦ inl shown
          | inr timed ↦ inr (rw (has_timeout-add ids id t.id, timed) refl)
        ])
]

IsQueued-close :
    (ids : List String) (target : Option String) (ts : List Toast)
    → All (λ t. has_timeout ids t.id ≡ true) ts
    → All (IsQueued ids) (map (close_one target) ts)
IsQueued-close ids target [] h = tt
IsQueued-close ids target (t ∷ ts) (here, h) =
    (inr (rw (close_one-id target t) here), IsQueued-close ids target ts h)

IsQueued-close_one :
    (ids : List String) (id : String) (ts : List Toast)
    → All (IsQueued ids) ts
    → All (IsQueued (add_to_remove_queue ids id)) (map (close_one (some id)) ts)
IsQueued-close_one ids id [] h = tt
IsQueued-close_one ids id (t ∷ ts) (here, h) =
    (IsQueued-close_this ids id t here, IsQueued-close_one ids id ts h)

-- The update of `toast(…).update`: it names its toast, and does not close it.
abbrev pub KeepsOpen : Patch → String → Type 0
KeepsOpen p id = (p.id ≡ some id) × (p.is_open ≢ some false)

IsQueued-update_one :
    (ids : List String) (p : Patch) (id : String) (t : Toast)
    → KeepsOpen p id
    → IsQueued ids t
    → IsQueued ids (update_one p t)
unfolding update_one
IsQueued-update_one ids p id t keep here = ground (arith, eq_iff t.id id)

pub IsQueued-update :
    (ids : List String) (p : Patch) (id : String) (ts : List Toast)
    → KeepsOpen p id
    → All (IsQueued ids) ts
    → All (IsQueued ids) (map (update_one p) ts)
IsQueued-update ids p id [] keep h = tt
IsQueued-update ids p id (t ∷ ts) keep (here, h) =
    (IsQueued-update_one ids p id t keep here, IsQueued-update ids p id ts keep h)

-- A dismissal, of one toast or of all, leaves every toast queued.
pub IsQueued-dismiss :
    (ids : List String) (ts : List Toast) (target : Option String)
    → All (IsQueued ids) ts
    → All (IsQueued (start_timers ids ts (dismiss_toast target))) (reduce ts (dismiss_toast target))
unfolding start_timers reduce
IsQueued-dismiss ids ts none h = IsQueued-close (queue_all ids ts) none ts (queue_all-has ids ts)
IsQueued-dismiss ids ts (some id) h = elim (Bool-cases (truthy id)) [
  | inl given ↦ rw given (IsQueued-close_one ids id ts h)
  | inr empty ↦ rw empty (IsQueued-close (queue_all ids ts) (some id) ts (queue_all-has ids ts))
]

pub has_timeout-delete :
    (ids : List String) (id j : String)
    → has_timeout (filter (λ k. not (str_eq k id)) ids) j ≡ (not (str_eq id j) && has_timeout ids j)
has_timeout-delete [] id j = ground arith
has_timeout-delete (k ∷ ids) id j =
    ground (arith, has_timeout-delete ids id j, eq_iff k id, eq_iff k j, eq_iff id j)

-- another timer's end leaves a toast queued
pub IsQueued-kept :
    (ids : List String) (t : Toast) (id : String)
    → str_eq t.id id ≡ false
    → IsQueued ids t
    → IsQueued (filter (λ j. not (str_eq j id)) ids) t
IsQueued-kept ids t id other (inl shown) = inl shown
IsQueued-kept ids t id other (inr timed) =
    inr
      (rw (has_timeout-delete ids id t.id, timed) (ground (arith, eq_iff t.id id, eq_iff id t.id)))
