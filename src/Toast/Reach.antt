-- ===== src/Toast/Reach.antt =====
-- Every store that the module can come to, by any interleaving of its callers and its timers.
use nixway_core.Prelude.{
  ℕ, ◌≤◌, String, Bool, true, not, List, [], ◌∷◌, Option, some, map, ◌≡◌, refl, arith, str_eq,
  filter, All, length, inl, ap, inr, ◌++◌,
}
use nixway_core.Toast.Store.{
  Toast, Patch, Store, update_toast, dismiss_toast, has_timeout, reduce, start_timers, dispatch,
  fire, toast, subscribe, unsubscribe, update_one, close_one,
}
use nixway_core.Toast.Accounts.{
  IsAccounted, closed_by, IsAccounted-update, IsAccounted-dismiss, IsAccounted-fire,
}

-- Between two operations one toast is held at most, and it is accounted for.
pub record IsSound (closed : List String) (s : Store) : Type 0 where
  pub limited : length s.toasts ≤ 1
  pub accounted : All (IsAccounted closed s.timeouts) s.toasts

-- One operation, with the ids that it closes without a timer: only `toast(…).update` does so, when it
-- is given `open: false`. It names its own toast. A timer runs only if it was started and has not run.
pub data Step (show : ℕ → String) (s : Store) : List String → Store → Type 0 where
  shows : (title description : Option String) → Step show s [] (toast show s title description).0
  updates :
      (p : Patch) (id : String)
      → p.id ≡ some id
      → Step show s (closed_by p.is_open id) (dispatch s (update_toast p)).0
  dismisses : (target : Option String) → Step show s [] (dispatch s (dismiss_toast target)).0
  fires : (id : String) → has_timeout s.timeouts id ≡ true → Step show s [] (fire s id)
  mounts_listener : (l : ℕ) → Step show s [] (subscribe s l)
  unmounts_listener : (l : ℕ) → Step show s [] (unsubscribe s l)

-- The stores that the module can come to, with the ids that updates have closed.
pub data Reach (show : ℕ → String) : List String → Store → Type 0 where
  start : Reach show [] (record { toasts = []; timeouts = []; count = 0; listeners = [] })
  next :
      {closed ids : List String} {s t : Store}
      → Reach show closed s
      → Step show s ids t
      → Reach show (ids ++ closed) t

length-map_toasts : (f : Toast → Toast) (ts : List Toast) → length (map f ts) ≡ length ts
length-map_toasts f [] = refl
length-map_toasts f (t ∷ ts) = ap ℕ.suc (length-map_toasts f ts)

length-filter_toasts : (p : Toast → Bool) (ts : List Toast) → length (filter p ts) ≤ length ts
length-filter_toasts p [] = omega arith
length-filter_toasts p (t ∷ ts) = ground (arith, length-filter_toasts p ts)

Step-IsSound :
    (show : ℕ → String) {closed ids : List String} {s t : Store}
    → IsSound closed s
    → Step show s ids t
    → IsSound (ids ++ closed) t
unfolding dispatch
Step-IsSound show {closed} {ids} {s} i (shows title description) =
    unfold toast reduce start_timers in
    record { limited = omega arith; accounted = (inr (inl refl), tt) }
Step-IsSound show {closed} {ids} {s} i (updates p id named) =
    unfold reduce start_timers in
    record {
      limited = rw (length-map_toasts (update_one p) s.toasts) i.limited;
      accounted =
          IsAccounted-update p.is_open closed s.timeouts p id s.toasts refl named i.accounted;
    }
Step-IsSound show {closed} {ids} {s} i (dismisses target) = record {
  limited = unfold reduce in rw (length-map_toasts (close_one target) s.toasts) i.limited;
  accounted = IsAccounted-dismiss closed s.timeouts s.toasts target i.limited i.accounted;
}
Step-IsSound show {closed} {ids} {s} i (fires id timed) =
    unfold fire start_timers in
    record {
      limited =
          unfold reduce in
          omega
            (arith, length-filter_toasts (λ t. not (str_eq (Toast.id t) id)) s.toasts, i.limited);
      accounted = IsAccounted-fire closed s.timeouts s.toasts id i.accounted;
    }
Step-IsSound show {closed} {ids} {s} i (mounts_listener l) =
    unfold subscribe in record { limited = i.limited; accounted = i.accounted }
Step-IsSound show {closed} {ids} {s} i (unmounts_listener l) =
    unfold unsubscribe in record { limited = i.limited; accounted = i.accounted }

-- In every store that the module can come to at most one toast is held, and a toast that is no longer
-- open has a timer that is still to run, unless an update with `open: false` has named its id.
pub Reach-IsSound :
    (show : ℕ → String) {closed : List String} {s : Store} → Reach show closed s → IsSound closed s
Reach-IsSound show start = record { limited = omega arith; accounted = tt }
Reach-IsSound show (next r st) = Step-IsSound show (Reach-IsSound show r) st
