-- ===== src/Traffic/Sync.antt =====
-- The draft against what the server reports.
use nixway_core.Prelude.{
  ℕ, ◌+◌, ◌≤◌, min, String, true, false, not, List, [], ◌∷◌, none, some, ◌≡◌, refl, ap, arith, any,
  length, All, str_eq, eq_iff, or_else, ◌==◌, Bool-cases, inl, inr, if◌then◌else◌, ◌∙◌, sym,
  str_eq_refl,
}
use nixway_core.Prelude.Int.{ℤ, pos, negsuc}
use nixway_core.Models.{TrafficBackend}
use nixway_core.Traffic.Draft.{
  Draft, weight_of, put_weight, clamp, weights_from, weights_by_backend, is_weight, differs,
  is_dirty, resync, set_weight,
}

pub weight_of-put_weight :
    (draft : Draft) (id j : String) (w : ℤ)
    → weight_of (put_weight draft id w) j ≡ (if str_eq id j then some w else weight_of draft j)
unfolding weight_of put_weight
weight_of-put_weight [] id j w = refl
weight_of-put_weight ((k, v) ∷ draft) id j w =
    ground (arith, weight_of-put_weight draft id j w, eq_iff k id, eq_iff k j, eq_iff id j)

-- an id that no backend of the list has
abbrev IsNew : String → List TrafficBackend → Type 0
IsNew id bs = All (λ b. str_eq (TrafficBackend.id b) id ≡ false) bs

abbrev pub Distinct : List TrafficBackend → Type 0
Distinct [] = Unit
Distinct (b ∷ bs) = IsNew (TrafficBackend.id b) bs × Distinct bs

weight_of-weights_from :
    (out : Draft) (bs : List TrafficBackend) (id : String)
    → IsNew id bs
    → weight_of (weights_from out bs) id ≡ weight_of out id
unfolding weights_from
weight_of-weights_from out [] id h = refl
weight_of-weights_from out (b ∷ bs) id (other, h) =
    weight_of-weights_from (put_weight out b.id (clamp (pos b.weight))) bs id h
    ∙ rw (weight_of-put_weight, other)

-- After the loop every backend has its own clamped weight.
weights_from-All :
    (out : Draft) (bs : List TrafficBackend)
    → Distinct bs
    → All
        (λ b.
          weight_of (weights_from out bs) (TrafficBackend.id b)
          ≡ some (clamp (pos (TrafficBackend.weight b))))
        bs
unfolding weights_from
weights_from-All out [] h = tt
weights_from-All out (b ∷ bs) (new, h) = (
  weight_of-weights_from (put_weight out b.id (clamp (pos b.weight))) bs b.id new
      ∙ rw (weight_of-put_weight, str_eq_refl),
  weights_from-All (put_weight out b.id (clamp (pos b.weight))) bs h,
)

length-put_weight :
    (draft : Draft) (id : String) (w : ℤ)
    → weight_of draft id ≡ none
    → length (put_weight draft id w) ≡ length draft + 1
unfolding weight_of put_weight
length-put_weight [] id w h = refl
length-put_weight ((k, v) ∷ draft) id w h = ground (arith, length-put_weight draft id w)

-- the draft has no weight for any of the backends
abbrev AreNew : Draft → List TrafficBackend → Type 0
AreNew out bs = All (λ b. weight_of out (TrafficBackend.id b) ≡ none) bs

AreNew-put_weight :
    (out : Draft) (id : String) (w : ℤ) (bs : List TrafficBackend)
    → IsNew id bs
    → AreNew out bs
    → AreNew (put_weight out id w) bs
AreNew-put_weight out id w [] new h = tt
AreNew-put_weight out id w (b ∷ bs) (other, new) (h, hs) = (
  weight_of-put_weight out id b.id w ∙ ground (arith, eq_iff id b.id, eq_iff b.id id),
  AreNew-put_weight out id w bs new hs,
)

length-weights_from :
    (out : Draft) (bs : List TrafficBackend)
    → Distinct bs
    → AreNew out bs
    → length (weights_from out bs) ≡ length out + length bs
unfolding weights_from
length-weights_from out [] h new = omega arith
length-weights_from out (b ∷ bs) (other, h) (n, new) =
    length-weights_from (put_weight out b.id (clamp (pos b.weight))) bs h
      (AreNew-put_weight out b.id (clamp (pos b.weight)) bs other new)
    ∙ rw (length-put_weight out b.id (clamp (pos b.weight)) n) (omega arith)

AreNew-nil : (bs : List TrafficBackend) → AreNew [] bs
unfolding weight_of
AreNew-nil [] = tt
AreNew-nil (b ∷ bs) = (refl, AreNew-nil bs)

-- the weights that the server accepts
abbrev pub Bounded : List TrafficBackend → Type 0
Bounded bs = All (λ b. TrafficBackend.weight b ≤ 100) bs

differs-none :
    (draft : Draft) (bs : List TrafficBackend)
    → Bounded bs
    → All
        (λ b. weight_of draft (TrafficBackend.id b) ≡ some (clamp (pos (TrafficBackend.weight b))))
        bs
    → any (differs draft) bs ≡ false
unfolding differs
differs-none draft [] small h = refl
differs-none draft (b ∷ bs) (s, small) (e, h) = rw (e, differs-none draft bs small h) (ground arith)

-- For backends with different ids and weights up to 100, the draft that `weightsByBackend` makes
-- from them is not dirty against them.
pub is_dirty-weights_by_backend :
    (bs : List TrafficBackend)
    → Distinct bs
    → Bounded bs
    → is_dirty (weights_by_backend bs) bs ≡ false
unfolding is_dirty weights_by_backend
is_dirty-weights_by_backend bs h small =
    rw
      (
        length-weights_from [] bs h (AreNew-nil bs),
        differs-none (weights_from [] bs) bs small (weights_from-All [] bs h),
      )
      (ground arith)

abbrev pub weight_or_zero : Draft → TrafficBackend → ℤ
weight_or_zero draft b = or_else (weight_of draft (TrafficBackend.id b)) (pos 0)

is_weight-pos : (w : ℤ) (n : ℕ) → is_weight w n ≡ true → w ≡ pos n
is_weight-pos (pos m) n h = ap pos (ground arith)
is_weight-pos (negsuc m) n h = cc

-- a backend whose weight the draft has: the fresh draft shows no other weight
agree :
    (draft : Draft) (b : TrafficBackend) (fresh : Draft)
    → TrafficBackend.weight b ≤ 100
    → weight_of fresh (TrafficBackend.id b) ≡ some (clamp (pos (TrafficBackend.weight b)))
    → differs draft b ≡ false
    → weight_or_zero fresh b ≡ weight_or_zero draft b
unfolding differs
agree draft b fresh small e h =
    ap (λ o. or_else o (pos 0)) e
    ∙ ap pos (omega (arith, small))
    ∙ sym (is_weight-pos (weight_or_zero draft b) b.weight (ground arith))

agree-All :
    (draft : Draft) (bs : List TrafficBackend) (fresh : Draft)
    → Bounded bs
    → All
        (λ b. weight_of fresh (TrafficBackend.id b) ≡ some (clamp (pos (TrafficBackend.weight b))))
        bs
    → any (differs draft) bs ≡ false
    → All (λ b. weight_or_zero fresh b ≡ weight_or_zero draft b) bs
agree-All draft [] fresh small e h = tt
agree-All draft (b ∷ bs) fresh (s, small) (e, es) h =
    (agree draft b fresh s e (ground arith), agree-All draft bs fresh small es (ground arith))

refl-All :
    (draft : Draft) (bs : List TrafficBackend)
    → All (λ b. weight_or_zero draft b ≡ weight_or_zero draft b) bs
refl-All draft [] = tt
refl-All draft (b ∷ bs) = (refl, refl-All draft bs)

-- Whatever the server now reports, the effect on `[view.data]` leaves every reported backend with
-- the weight that the draft had for it before (0 where it had none), for backends with different
-- ids and weights up to 100.
pub resync-unchanged :
    (draft : Draft) (bs : List TrafficBackend)
    → Distinct bs
    → Bounded bs
    → All (λ b. weight_or_zero (resync draft bs) b ≡ weight_or_zero draft b) bs
unfolding resync is_dirty weights_by_backend
resync-unchanged draft bs h small = elim (Bool-cases (not (length draft == length bs))) [
  | inl e ↦ rw e (refl-All draft bs)
  | inr e ↦ elim (Bool-cases (any (differs draft) bs)) [
    | inl d ↦ rw (e, d) (refl-All draft bs)
    | inr d ↦ rw (e, d) (agree-All draft bs (weights_from [] bs) small (weights_from-All [] bs h) d)
  ]
]

clamp-bounds : (raw : ℤ) → (n : ℕ) × ((n ≤ 100) × (clamp raw ≡ pos n))
clamp-bounds (pos n) = (min 100 n, (omega arith, refl))
clamp-bounds (negsuc n) = (0, (omega arith, refl))

-- Dragging a slider stores, for that backend, the nearest weight from 0 to 100, and leaves the
-- weights of the others.
pub set_weight-weight_of :
    (draft : Draft) (id j : String) (raw : ℤ)
    → (weight_of (set_weight draft id raw) j
        ≡ (if str_eq id j then some (clamp raw) else weight_of draft j))
      × ((n : ℕ) × ((n ≤ 100) × (clamp raw ≡ pos n)))
unfolding set_weight
set_weight-weight_of draft id j raw =
    (weight_of-put_weight draft id j (clamp raw), clamp-bounds raw)
