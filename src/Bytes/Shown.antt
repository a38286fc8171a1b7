-- ===== src/Bytes/Shown.antt =====
-- What the `formatBytes` functions show.
use nixway_core.Prelude.{
  ℕ, zero, suc, ◌-◌, ◌*◌, ◌≤◌, String, false, not, ◌&&◌, List, Option, some, none, ◌<>◌, or_else,
  ◌==◌, leb, length, get_elem?, get_elem?-some, ◌≡◌, refl, sym, ap, ◌∙◌, inl, inr, Bool-cases,
  arith,
}
use native.Mathlib.Nat.{mul_assoc}
use nixway_core.Bytes.Loop.{Amount, at_least, over_1024, scale, IsStep, IsLast, scale-terminates}
use nixway_core.Bytes.Format.{
  Numerals, iec_units, more_units, first_units, hundred_digits, ten_digits, first_digits,
  below_zero, finite, unit_text, scaled_text, volumes_text, metrics_text, database_text, live_text,
  resources_text, first_text, backup_text,
}

module _ (n : Numerals) where
  -- a text of `v` in a unit of the list that suits it
  abbrev pub IsShown : List String → (Amount → ℕ → ℕ) → Amount → Option String → Type 0
  IsShown units digits v text =
      (r : Amount × ℕ) × (u : String) × (get_elem? units r.1 ≡ some u)
      × (text ≡ some (n.to_fixed r.0 (digits r.0 r.1) <> (" " <> u)))
      × IsStep v r
      × IsLast (length units - 1) r

  scaled_text_of :
      (units : List String) (digits : Amount → ℕ → ℕ) (v : Amount) (r : Amount × ℕ) (u : String)
      → scale (length units - 1) (length units) v 0 ≡ some r
      → get_elem? units r.1 ≡ some u
      → scaled_text n units digits v ≡ some (n.to_fixed r.0 (digits r.0 r.1) <> (" " <> u))
  unfolding scaled_text
  scaled_text_of units digits v r u e g =
      ap
        (λ o. elim o as (λ x. Option String) [
          | none ↦ none
          | some q ↦ some (unit_text n units digits q)
        ])
        e
      ∙ ap (λ o. some (n.to_fixed r.0 (digits r.0 r.1) <> (" " <> or_else o "undefined"))) g

  scaled_text-IsShown :
      (units : List String) (digits : Amount → ℕ → ℕ) (v : Amount)
      → 1 ≤ length units
      → IsShown units digits v (scaled_text n units digits v)
  scaled_text-IsShown units digits v h =
      let (r, e, s, l) = scale-terminates (length units - 1) (length units) v (omega arith) in
      let (u, g) = get_elem?-some units r.1 (omega (arith, l.0)) in
      (r, u, g, scaled_text_of units digits v r u e g, s, l)

  -- A finite number that is not 0 or below 0 is shown in every table of the clients that scales it in
  -- a loop, in a unit of the table's list: divided by 1024 once for each step to the unit, below 1024
  -- unless the unit is the last, and not below 1 unless the unit is the first.
  pub texts-IsShown :
      (v : Amount)
      → below_zero v ≡ false
      → (v.num == 0) ≡ false
      → IsShown iec_units hundred_digits v (volumes_text n (finite v))
        × IsShown iec_units hundred_digits v (metrics_text n (finite v))
        × IsShown iec_units hundred_digits v (database_text n (some v))
        × IsShown more_units ten_digits v (live_text n (some v))
        × IsShown more_units ten_digits v (resources_text n (some v))
        × IsShown first_units first_digits v (first_text n v)
  unfolding volumes_text metrics_text database_text live_text resources_text first_text
  texts-IsShown v above some_bytes =
      let iec = scaled_text-IsShown iec_units hundred_digits v (omega arith) in
      let more = scaled_text-IsShown more_units ten_digits v (omega arith) in
      (
        iec,
        iec,
        iec,
        rw above more,
        rw above more,
        rw some_bytes (scaled_text-IsShown first_units first_digits v (omega arith)),
      )

  abbrev pub backup_unit : Amount → ℕ → String
  backup_unit v zero = n.show v <> " B"
  backup_unit v (suc zero) = n.to_fixed v 1 <> " KB"
  backup_unit v (suc (suc zero)) = n.to_fixed v 1 <> " MB"
  backup_unit v (suc (suc (suc _))) = n.to_fixed v 2 <> " GB"

  at_least-over_1024 : (k : ℕ) (v : Amount) → at_least k (over_1024 v) ≡ at_least (k * 1024) v
  at_least-over_1024 k v = ap (λ m. not v.is_negative && leb m v.num) (sym (mul_assoc k 1024 v.den))

  -- The four tests of the backups' table choose the number and the unit that the loop over the units
  -- up to GB ends with, for every finite number.
  pub backup_text-scale :
      (v : Amount)
      → (r : Amount × ℕ) × (scale 3 4 v 0 ≡ some r) × (backup_text n (some v) ≡ backup_unit r.0 r.1)
  unfolding scale backup_text
  backup_text-scale v =
      let mega = at_least-over_1024 1024 v in
      let giga = at_least-over_1024 1024 (over_1024 v) ∙ at_least-over_1024 (1024 * 1024) v in
      elim (Bool-cases (at_least 1024 v)) [
        | inr low ↦ rw low ((v, 0), refl, refl)
        | inl high ↦ elim (Bool-cases (at_least (1024 * 1024) v)) [
          | inr low ↦ rw (high, mega, low) ((over_1024 v, 1), refl, refl)
          | inl higher ↦ elim (Bool-cases (at_least (1024 * 1024 * 1024) v)) [
            | inr low ↦
                rw (high, mega, higher, giga, low) ((over_1024 (over_1024 v), 2), refl, refl)
            | inl all ↦
                rw (high, mega, higher, giga, all)
                  ((over_1024 (over_1024 (over_1024 v)), 3), ground arith, refl)
          ]
        ]
      ]
