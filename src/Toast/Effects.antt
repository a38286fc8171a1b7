-- ===== src/Toast/Effects.antt =====
-- What a timer and a new toast do to the store.
use nixway_core.Prelude.{
  ℕ, String, true, false, not, List, [], ◌∷◌, Option, some, ◌≡◌, refl, arith, str_eq, str_eq_refl,
  filter, All, inl, ◌∙◌, Bool-cases, inr, truthy,
}
use nixway_core.Toast.Store.{
  Toast, Store, dismiss_toast, has_timeout, reduce, start_timers, dispatch, fire, toast,
}
use nixway_core.Toast.Queue.{has_timeout-add, has_timeout-delete}

filter-absent :
    (id : String) (ts : List Toast)
    → All (λ t. str_eq (Toast.id t) id ≡ false) (filter (λ t. not (str_eq (Toast.id t) id)) ts)
filter-absent id [] = tt
filter-absent id (t ∷ ts) = elim (Bool-cases (str_eq t.id id)) [
  | inl same ↦ rw same (filter-absent id ts)
  | inr other ↦ rw other (other, filter-absent id ts)
]

-- When the timer of an id that is not empty has run, no toast of that id is held, and the id has no
-- timer left: a later dismissal of that id starts a new one.
pub fire-clears :
    (s : Store) (id : String)
    → truthy id ≡ true
    → All (λ t. str_eq (Toast.id t) id ≡ false) (fire s id).toasts
      × (has_timeout (fire s id).timeouts id ≡ false)
      × (has_timeout (dispatch (fire s id) (dismiss_toast (some id))).0.timeouts id ≡ true)
unfolding fire dispatch reduce start_timers
fire-clears s id given = (
  filter-absent id s.toasts,
  rw (has_timeout-delete s.timeouts id id, str_eq_refl) refl,
  rw given (has_timeout-add _ id id ∙ rw str_eq_refl (ground arith)),
)

-- A new toast replaces whatever was held and is open; no timer is started or stopped.
pub toast-shows :
    (show : ℕ → String) (s : Store) (title description : Option String)
    → let (after, id) = toast show s title description in
      (after.toasts
        ≡ record { id = id; title = title; description = description; is_open = true } ∷ [])
      × (after.timeouts ≡ s.timeouts)
unfolding toast dispatch reduce start_timers
toast-shows show s title description = (refl, refl)
