-- ===== src/Toast/Accounts.antt =====
-- What an operation makes of the toasts that are accounted for.
use mathlib.Core.Path.{subst}
use nixway_core.Prelude.{
  ◌≤◌, String, Bool, true, false, not, List, [], ◌∷◌, Option, some, map, ◌≡◌, refl, arith, str_eq,
  filter, All, length, inl, Bool-cases, inr, ◌⊎◌, none, eq_iff, sym, ◌++◌, among,
}
use nixway_core.Toast.Store.{
  Toast, Patch, dismiss_toast, remove_toast, reduce, start_timers, update_one,
}
use nixway_core.Toast.Queue.{
  IsQueued, KeepsOpen, IsQueued-update, IsQueued-dismiss, IsQueued-kept, close_one-id,
}

-- A toast is open, has a timer that will remove it, or was closed by an update.
abbrev pub IsAccounted : List String → List String → Toast → Type 0
IsAccounted closed ids t = (among closed t.id ≡ true) ⊎ IsQueued ids t

-- the ids that an update closes
abbrev pub closed_by : Option Bool → String → List String
closed_by (some false) id = id ∷ []
closed_by _ id = []

other_way : (a b : String) → str_eq b a ≡ false → str_eq a b ≡ false
other_way a b h = ground (arith, eq_iff a b, eq_iff b a)

update_one-id : (p : Patch) (id : String) (t : Toast) → p.id ≡ some id → (update_one p t).id ≡ t.id
unfolding update_one
update_one-id p id t h = ground (arith, eq_iff t.id id)

-- an update that does not close its toast
IsAccounted-kept :
    (closed ids : List String) (p : Patch) (id : String) (ts : List Toast)
    → KeepsOpen p id
    → All (IsAccounted closed ids) ts
    → All (IsAccounted closed ids) (map (update_one p) ts)
IsAccounted-kept closed ids p id [] keep h = tt
IsAccounted-kept closed ids p id (t ∷ ts) keep (inl c, h) =
    (inl (rw (update_one-id p id t keep.0) c), IsAccounted-kept closed ids p id ts keep h)
IsAccounted-kept closed ids p id (t ∷ ts) keep (inr q, h) = (
  inr (IsQueued-update ids p id (t ∷ []) keep (q, tt)).0,
  IsAccounted-kept closed ids p id ts keep h,
)

-- an update of one toast, whatever it does to the others
IsAccounted-closed_one :
    (closed ids : List String) (p : Patch) (id : String) (t : Toast)
    → p.id ≡ some id
    → IsAccounted closed ids t
    → IsAccounted (id ∷ closed) ids (update_one p t)
IsAccounted-closed_one closed ids p id t named h = elim (Bool-cases (str_eq id t.id)) [
  | inl same ↦ inl (rw (update_one-id p id t named, same) refl)
  | inr other ↦ elim h [
    | inl c ↦
        inl (
          subst (λ k. among (id ∷ closed) k ≡ true) (sym (update_one-id p id t named)) (rw other c))
    | inr q ↦ inr (unfold update_one in rw (named, other_way t.id id other) q)
  ]
]

IsAccounted-closed :
    (closed ids : List String) (p : Patch) (id : String) (ts : List Toast)
    → p.id ≡ some id
    → All (IsAccounted closed ids) ts
    → All (IsAccounted (id ∷ closed) ids) (map (update_one p) ts)
IsAccounted-closed closed ids p id [] named h = tt
IsAccounted-closed closed ids p id (t ∷ ts) named (here, h) = (
  IsAccounted-closed_one closed ids p id t named here,
  IsAccounted-closed closed ids p id ts named h,
)

pub IsAccounted-update :
    (o : Option Bool) (closed ids : List String) (p : Patch) (id : String) (ts : List Toast)
    → p.is_open ≡ o
    → p.id ≡ some id
    → All (IsAccounted closed ids) ts
    → All (IsAccounted (closed_by o id ++ closed) ids) (map (update_one p) ts)
IsAccounted-update none closed ids p id ts e named h =
    IsAccounted-kept closed ids p id ts (named, λ k. ground arith) h
IsAccounted-update (some true) closed ids p id ts e named h =
    IsAccounted-kept closed ids p id ts (named, λ k. ground arith) h
IsAccounted-update (some false) closed ids p id ts e named h =
    IsAccounted-closed closed ids p id ts named h

pub IsAccounted-dismiss :
    (closed ids : List String) (ts : List Toast) (target : Option String)
    → length ts ≤ 1
    → All (IsAccounted closed ids) ts
    → All
        (IsAccounted closed (start_timers ids ts (dismiss_toast target)))
        (reduce ts (dismiss_toast target))
unfolding reduce
IsAccounted-dismiss closed ids [] target l h = tt
IsAccounted-dismiss closed ids (t ∷ []) target l (inl c, h) =
    (inl (rw (close_one-id target t) c), tt)
IsAccounted-dismiss closed ids (t ∷ []) target l (inr q, h) =
    (inr (IsQueued-dismiss ids (t ∷ []) target (q, tt)).0, tt)
IsAccounted-dismiss closed ids (t ∷ u ∷ ts) target l h = ground arith

pub IsAccounted-fire :
    (closed ids : List String) (ts : List Toast) (id : String)
    → All (IsAccounted closed ids) ts
    → All
        (IsAccounted closed (filter (λ j. not (str_eq j id)) ids))
        (reduce ts (remove_toast (some id)))
unfolding reduce
IsAccounted-fire closed ids [] id h = tt
IsAccounted-fire closed ids (t ∷ ts) id (here, h) = elim (Bool-cases (str_eq t.id id)) [
  | inl same ↦ rw same (IsAccounted-fire closed ids ts id h)
  | inr other ↦ rw other (
    elim here [ inl c ↦ inl c | inr q ↦ inr (IsQueued-kept ids t id other q) ],
    IsAccounted-fire closed ids ts id h,
  )
]
