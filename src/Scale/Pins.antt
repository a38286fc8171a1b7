-- ===== src/Scale/Pins.antt =====
-- The pinned servers as a set.
use nixway_core.Prelude.{
  String, true, false, not, ◌&&◌, ◌||◌, List, [], ◌∷◌, ◌++◌, ◌≡◌, refl, arith, str_eq, str_eq_refl,
  eq_iff, any, filter, if◌then◌else◌,
}
use nixway_core.Models.{App}
use nixway_core.Scale.Form.{open_form, includes, same_set, is_changed, toggle_pinned}

includes-append :
    (xs ys : List String) (j : String) → includes (xs ++ ys) j ≡ (includes xs j || includes ys j)
includes-append [] ys j = refl
includes-append (x ∷ xs) ys j = ground (arith, includes-append xs ys j)

includes-filter :
    (xs : List String) (id j : String)
    → includes (filter (λ k. not (str_eq k id)) xs) j ≡ (not (str_eq id j) && includes xs j)
includes-filter [] id j = ground arith
includes-filter (x ∷ xs) id j =
    ground (arith, includes-filter xs id j, eq_iff x id, eq_iff x j, eq_iff id j)

-- A click on a server changes whether that server is pinned, and no other.
pub toggle_pinned-includes :
    (ids : List String) (id j : String)
    → includes (toggle_pinned ids id) j
      ≡ (if str_eq id j then not (includes ids j) else includes ids j)
unfolding toggle_pinned
toggle_pinned-includes ids id j =
    ground (arith, includes-filter ids id j, includes-append ids (id ∷ []) j, eq_iff id j)

included_more :
    (y : String) (ys xs : List String)
    → any (λ x. not (includes ys x)) xs ≡ false
    → any (λ x. not (includes (y ∷ ys) x)) xs ≡ false
included_more y ys [] h = refl
included_more y ys (x ∷ xs) h = ground (arith, included_more y ys xs)

included_self : (xs : List String) → any (λ x. not (includes xs x)) xs ≡ false
included_self [] = refl
included_self (x ∷ xs) =
    let rest = included_more x xs xs (included_self xs) in rw (str_eq_refl x) rest

same_set_self : (xs : List String) → same_set xs xs ≡ true
unfolding same_set
same_set_self xs = let h = included_self xs in ground arith

-- The form as it opens counts as unchanged, for every app.
pub open_form-unchanged : (app : App) → is_changed app (open_form app) ≡ false
unfolding is_changed
open_form-unchanged app =
    let p = same_set_self (open_form app).pinned in
    let s = str_eq_refl (open_form app).strategy in ground arith
