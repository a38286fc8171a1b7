-- ===== src/Witnesses/Toasts.antt =====
-- The toasts at a concrete store.
use nixway_core.Prelude.{true, [], ◌∷◌, none, some, ◌≡◌}
use nixway_core.Toast.Store.{Toast, Store, dismiss_toast, dispatch, toast}
use nixway_core.Toast.Reach.{IsSound, start, next, shows, dismisses, Reach-IsSound}
use nixway_core.Toast.Drain.{Fires, dismiss-drains}
use nixway_core.Witnesses.Data.{strokes}

abbrev first_store : Store
first_store = record { toasts = []; timeouts = []; count = 0; listeners = [] }

abbrev shown : Toast
shown = record { id = "1"; title = some "Saved"; description = none; is_open = true }

abbrev store : Store
store = record { toasts = shown ∷ []; timeouts = "1" ∷ []; count = 1; listeners = 3 ∷ [] }

Reach-IsSound_example :
    IsSound [] (dispatch (toast strokes first_store (some "Saved") none).0 (dismiss_toast none)).0
Reach-IsSound_example =
    Reach-IsSound strokes (next (next start (shows (some "Saved") none)) (dismisses none))

dismiss-drains_example :
    ((t : Store) × Fires (dispatch store (dismiss_toast none)).0 t × (t.timeouts ≡ []))
    × ((t : Store)
        → Fires (dispatch store (dismiss_toast none)).0 t
        → t.timeouts ≡ []
        → t.toasts ≡ [])
dismiss-drains_example = dismiss-drains store
