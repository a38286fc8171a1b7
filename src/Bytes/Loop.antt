-- ===== src/Bytes/Loop.antt =====
-- The loop of the `formatBytes` functions, `while (v >= 1024 && i < units.length - 1)`.
use nixway_core.Prelude.{
  ℕ, zero, suc, ◌+◌, ◌*◌, ◌≤◌, ◌<◌, Bool, true, false, not, ◌&&◌, Option, some, none, ◌≡◌, refl,
  sym, ap, ◌∙◌, ◌⊎◌, inl, inr, arith, leb, if◌then◌else◌, Bool-cases,
}
use native.Mathlib.Nat.{mul_assoc}

-- A finite number as a fraction. Halving is exact in floating point, so the loop computes exactly.
pub record Amount : Type 0 where
  pub is_negative : Bool
  pub num : ℕ
  pub den : ℕ

-- `v >= n`
abbrev pub at_least : ℕ → Amount → Bool
at_least n v = not v.is_negative && leb (n * v.den) v.num

-- `v / 1024`
abbrev pub over_1024 : Amount → Amount
over_1024 v = record { is_negative = v.is_negative; num = v.num; den = 1024 * v.den }

-- The loop from `v` and `i` on; `last` is `units.length - 1`, and `none` is the fuel at its end.
unfoldable pub scale : ℕ → ℕ → Amount → ℕ → Option (Amount × ℕ)
scale last zero v i = none
scale last (suc fuel) v i =
    let rest = scale last fuel (over_1024 v) (suc i) in
    if at_least 1024 v && leb (suc i) last then rest else some (v, i)

abbrev pub pow_1024 : ℕ → ℕ
pow_1024 zero = 1
pow_1024 (suc n) = 1024 * pow_1024 n

-- `w`, with the unit `i`, is `v`, and no unit is too large
abbrev pub IsStep : Amount → Amount × ℕ → Type 0
IsStep v (w, i) =
    (w.is_negative ≡ v.is_negative)
    × (w.num ≡ v.num)
    × (w.den ≡ pow_1024 i * v.den)
    × ((i ≡ 0) ⊎ (at_least 1 w ≡ true))

-- a unit of the list, which is the last or leaves less than 1024
abbrev pub IsLast : ℕ → Amount × ℕ → Type 0
IsLast last (w, i) = (i ≤ last) × ((i ≡ last) ⊎ (at_least 1024 w ≡ false))

abbrev Scales : ℕ → ℕ → Amount → Amount × ℕ → Type 0
Scales last fuel v (w, i) =
    (r : Amount × ℕ) × (scale last fuel w i ≡ some r) × IsStep v r × IsLast last r

over_1024-at_least : (w : Amount) → at_least 1024 w ≡ true → at_least 1 (over_1024 w) ≡ true
over_1024-at_least w h = ground arith

over_1024-IsStep :
    (v w : Amount) (i : ℕ)
    → IsStep v (w, i)
    → at_least 1024 w ≡ true
    → IsStep v (over_1024 w, suc i)
over_1024-IsStep v w i (n, m, d, o) h = (
  n,
  m,
  ap (λ k. 1024 * k) d ∙ sym (mul_assoc 1024 (pow_1024 i) v.den),
  inr (over_1024-at_least w h),
)

unit_left :
    (last i : ℕ) (w : Amount)
    → i ≤ last
    → (at_least 1024 w && leb (suc i) last) ≡ false
    → (i ≡ last) ⊎ (at_least 1024 w ≡ false)
unit_left last i w l done = elim (Bool-cases (at_least 1024 w)) [
  | inl large ↦ inl (ground arith)
  | inr small ↦ inr small
]

scale-steps :
    (last fuel : ℕ) (v w : Amount) (i : ℕ)
    → IsStep v (w, i)
    → i ≤ last
    → last < fuel + i
    → Scales last fuel v (w, i)
unfolding scale
scale-steps last zero v w i s l f = ground arith
scale-steps last (suc fuel) v w i s l f = elim (Bool-cases (at_least 1024 w && leb (suc i) last)) [
  | inl more ↦ rw more (
      scale-steps last fuel v (over_1024 w) (suc i) (over_1024-IsStep v w i s (ground arith))
        (ground arith) (omega arith))
  | inr done ↦ rw done ((w, i), refl, s, (l, unit_left last i w (omega arith) done))
]

-- On every number, with at least as much fuel as there are units, the loop ends: at a unit of the
-- list, with the number divided by 1024 once for each step, below 1024 unless the unit is the last,
-- and not below 1 unless the unit is the first.
pub scale-terminates :
    (last fuel : ℕ) (v : Amount)
    → last < fuel
    → (r : Amount × ℕ) × (scale last fuel v 0 ≡ some r) × IsStep v r × IsLast last r
scale-terminates last fuel v f =
    scale-steps last fuel v v 0 (refl, refl, omega arith, inl refl) (omega arith) (omega arith)
