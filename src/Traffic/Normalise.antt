-- ===== src/Traffic/Normalise.antt =====
-- "Normalise to 100".
use nixway_core.Prelude.{
  ◌+◌, ◌-◌, ◌<◌, String, false, [], ◌∷◌, ◌++◌, ◌≡◌, ◌≢◌, refl, ap, map, ◌∙◌, sym,
}
use nixway_core.Prelude.Int.{
  ℤ, pos, negsuc, ◌+ℤ◌, ◌-ℤ◌, pos_part, neg_part, +ℤ_assoc, sub_add, zero_add, int_laws,
}
use nixway_core.Traffic.Draft.{Draft, draft_total, scaled, normalise, is_zero}

total-ne-nil : (draft : Draft) → is_zero (draft_total draft) ≡ false → draft ≢ []
unfolding draft_total
total-ne-nil [] h e = cc
total-ne-nil (d ∷ draft) h e = cc

module _ (share : ℤ → ℤ → ℤ) where
  total-scaled :
      (sum running : ℤ) (draft : Draft)
      → draft ≢ []
      → running +ℤ draft_total (scaled share sum running draft) ≡ pos 100
  unfolding scaled draft_total
  total-scaled sum running [] h = absurd (h refl)
  total-scaled sum running ((id, w) ∷ []) h = sub_add running (pos 100)
  total-scaled sum running ((id, w) ∷ d ∷ draft) h =
      +ℤ_assoc running (share w sum) _
      ∙ total-scaled sum (running +ℤ share w sum) (d ∷ draft) (λ e. cc)

  keys-scaled :
      (sum running : ℤ) (draft : Draft)
      → map (λ e. e.0) (scaled share sum running draft) ≡ map (λ e. e.0) draft
  unfolding scaled
  keys-scaled sum running [] = refl
  keys-scaled sum running ((id, w) ∷ []) = refl
  keys-scaled sum running ((id, w) ∷ d ∷ draft) =
      ap (λ l. id ∷ l) (keys-scaled sum (running +ℤ share w sum) (d ∷ draft))

  -- However the shares round, normalising a draft whose total is not zero gives weights that total
  -- exactly 100, for the same backends in the same order.
  pub normalise-total :
      (draft : Draft)
      → is_zero (draft_total draft) ≡ false
      → (draft_total (normalise share draft) ≡ pos 100)
        × (map (λ e. e.0) (normalise share draft) ≡ map (λ e. e.0) draft)
  unfolding normalise
  normalise-total draft h = rw h (
    sym (zero_add _) ∙ total-scaled (draft_total draft) (pos 0) draft (total-ne-nil draft h),
    keys-scaled (draft_total draft) (pos 0) draft,
  )

  -- the sum of the shares of some entries
  abbrev shares : ℤ → Draft → ℤ
  shares sum [] = pos 0
  shares sum (e ∷ draft) = share e.1 sum +ℤ shares sum draft

  abbrev shared : ℤ → Draft → Draft
  shared sum draft = map (λ e. (e.0, share e.1 sum)) draft

  scaled-append :
      (sum running : ℤ) (draft : Draft) (id : String) (w : ℤ)
      → scaled share sum running (draft ++ (id, w) ∷ [])
        ≡ shared sum draft ++ (id, pos 100 -ℤ (running +ℤ shares sum draft)) ∷ []
  unfolding scaled
  scaled-append sum running [] id w = ap (λ r. (id, pos 100 -ℤ r) ∷ []) (omega int_laws)
  scaled-append sum running (e ∷ []) id w =
      ap (λ r. (e.0, share e.1 sum) ∷ (id, pos 100 -ℤ r) ∷ []) (omega int_laws)
  scaled-append sum running (e ∷ d ∷ draft) id w =
      ap (λ l. (e.0, share e.1 sum) ∷ l)
        (scaled-append sum (running +ℤ share e.1 sum) (d ∷ draft) id w
          ∙ ap (λ r. shared sum (d ∷ draft) ++ (id, pos 100 -ℤ r) ∷ [])
              (sym (+ℤ_assoc running (share e.1 sum) (shares sum (d ∷ draft)))))

  -- Every entry but the last gets its rounded share, and the last one what is left of 100: a negative
  -- weight, wherever the shares before it round up to more than 100.
  pub normalise-last :
      (draft : Draft) (id : String) (w : ℤ)
      → is_zero (draft_total (draft ++ (id, w) ∷ [])) ≡ false
      → let sum = draft_total (draft ++ (id, w) ∷ []) in
        normalise share (draft ++ (id, w) ∷ [])
        ≡ shared sum draft ++ (id, pos 100 -ℤ (pos 0 +ℤ shares sum draft)) ∷ []
  unfolding normalise
  normalise-last draft id w h =
      rw h (scaled-append (draft_total (draft ++ (id, w) ∷ [])) (pos 0) draft id w)

-- What is left of 100 behind more than 100 is negative.
pub rest_negative :
    (a : ℤ)
    → 100 + neg_part a < pos_part a
    → pos 100 -ℤ (pos 0 +ℤ a) ≡ negsuc (pos_part a - neg_part a - 101)
rest_negative a h = omega int_laws
