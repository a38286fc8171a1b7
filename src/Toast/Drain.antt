-- ===== src/Toast/Drain.antt =====
-- The timers of dismissed toasts, fired until none is left.
use nixway_core.Prelude.{
  ℕ, zero, suc, ◌≤◌, String, true, not, List, [], ◌∷◌, none, ◌≡◌, refl, arith, str_eq, str_eq_refl,
  eq_iff, filter, All, length, Bool-cases, inl, inr, map,
}
use nixway_core.Toast.Store.{
  Toast, Store, dismiss_toast, has_timeout, reduce, start_timers, dispatch, fire, close_one,
}
use nixway_core.Toast.Queue.{has_timeout-delete, queue_all-has, close_one-id}

-- Pending timers run, each once, in some order.
pub data Fires : Store → Store → Type 0 where
  none_fires : {s : Store} → Fires s s
  one_fires :
      {s t : Store} (id : String)
      → has_timeout s.timeouts id ≡ true
      → Fires (fire s id) t
      → Fires s t

-- every toast has a timer that is still to run
abbrev AllTimed : Store → Type 0
AllTimed s = All (λ t. has_timeout s.timeouts (Toast.id t) ≡ true) s.toasts

timed-remove :
    (ids : List String) (ts : List Toast) (id : String)
    → All (λ t. has_timeout ids (Toast.id t) ≡ true) ts
    → All
        (λ t. has_timeout (filter (λ j. not (str_eq j id)) ids) (Toast.id t) ≡ true)
        (filter (λ t. not (str_eq (Toast.id t) id)) ts)
timed-remove ids [] id h = tt
timed-remove ids (t ∷ ts) id (here, h) = elim (Bool-cases (str_eq t.id id)) [
  | inl same ↦ rw same (timed-remove ids ts id h)
  | inr other ↦ rw other (
    rw (has_timeout-delete ids id t.id, here) (ground (arith, eq_iff t.id id, eq_iff id t.id)),
    timed-remove ids ts id h,
  )
]

AllTimed-fire : (s : Store) (id : String) → AllTimed s → AllTimed (fire s id)
unfolding fire dispatch reduce start_timers
AllTimed-fire s id h = timed-remove s.timeouts s.toasts id h

timed_close :
    (ids : List String) (ts : List Toast)
    → All (λ t. has_timeout ids (Toast.id t) ≡ true) ts
    → All (λ t. has_timeout ids (Toast.id t) ≡ true) (map (close_one none) ts)
timed_close ids [] h = tt
timed_close ids (t ∷ ts) (here, h) = (rw (close_one-id none t) here, timed_close ids ts h)

AllTimed-dispatch : (s : Store) → AllTimed (dispatch s (dismiss_toast none)).0
unfolding dispatch reduce start_timers
AllTimed-dispatch s = timed_close _ s.toasts (queue_all-has s.timeouts s.toasts)

no_timers :
    (ids : List String) (ts : List Toast)
    → All (λ t. has_timeout ids (Toast.id t) ≡ true) ts
    → ids ≡ []
    → ts ≡ []
no_timers ids [] h e = refl
no_timers [] (t ∷ ts) (here, h) e = ground arith
no_timers (j ∷ ids) (t ∷ ts) h e = ground arith

AllTimed-Fires : {s t : Store} → AllTimed s → Fires s t → AllTimed t
AllTimed-Fires h none_fires = h
AllTimed-Fires {s} h (one_fires id timed f) = AllTimed-Fires (AllTimed-fire s id h) f

filter-shorter :
    (id : String) (ids : List String) → length (filter (λ j. not (str_eq j id)) ids) ≤ length ids
filter-shorter id [] = omega arith
filter-shorter id (j ∷ ids) = ground (arith, filter-shorter id ids)

fire-shorter :
    (s : Store) (id : String) (ids : List String)
    → s.timeouts ≡ id ∷ ids
    → length (fire s id).timeouts ≤ length ids
unfolding fire dispatch start_timers
fire-shorter s id ids e = rw (e, str_eq_refl) (filter-shorter id ids)

-- Some of the timers, one after the other, leave none.
drains :
    (n : ℕ) (s : Store) (ids : List String)
    → s.timeouts ≡ ids
    → length ids ≤ n
    → (t : Store) × Fires s t × (t.timeouts ≡ [])
drains n s [] e l = (s, none_fires, e)
drains zero s (id ∷ ids) e l = ground arith
drains (suc n) s (id ∷ ids) e l =
    let (t, f, g) =
      drains n (fire s id) (fire s id).timeouts refl (omega (arith, fire-shorter s id ids e, l)) in
    (t, one_fires id (rw (e, str_eq_refl) refl) f, g)

-- After all toasts are dismissed, from whatever store, the pending timers can run until none is left,
-- and in whatever order they run, no toast is held once none is left.
pub dismiss-drains :
    (s : Store)
    → ((t : Store) × Fires (dispatch s (dismiss_toast none)).0 t × (t.timeouts ≡ []))
      × ((t : Store)
          → Fires (dispatch s (dismiss_toast none)).0 t
          → t.timeouts ≡ []
          → t.toasts ≡ [])
dismiss-drains s =
    let after = (dispatch s (dismiss_toast none)).0 in
    (
      drains (length after.timeouts) after after.timeouts refl (omega arith),
      λ t f e. no_timers t.timeouts t.toasts (AllTimed-Fires (AllTimed-dispatch s) f) e,
    )
