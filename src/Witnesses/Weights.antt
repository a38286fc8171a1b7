-- ===== src/Witnesses/Weights.antt =====
-- The traffic weights of two backends.
use nixway_core.Prelude.{String, false, List, [], ◌∷◌, ◌≡◌, refl, All, map, ℕ, arith}
use nixway_core.Prelude.Int.{pos, ◌+ℤ◌, ◌-ℤ◌}
use nixway_core.Models.{TrafficBackend}
use nixway_core.Traffic.Draft.{Draft, weights_by_backend, is_dirty, resync, draft_total, normalise}
use nixway_core.Traffic.Sync.{resync-unchanged, is_dirty-weights_by_backend, weight_or_zero}
use nixway_core.Traffic.Normalise.{normalise-total, normalise-last}

abbrev backend : String → ℕ → TrafficBackend
backend id weight = record {
  id = id;
  route_id = "r1";
  deployment_id = "d1";
  label = "blue";
  weight = weight;
  status = "active";
  created_at = "";
  updated_at = "";
  deployment_status = "healthy";
  replicas_ready = 1;
  replicas_desired = 1;
  commit_sha = "";
  image_tag = "";
}

abbrev two : List TrafficBackend
two = backend "b1" 90 ∷ backend "b2" 10 ∷ []

abbrev edited : Draft
edited = ("b1", pos 50) ∷ ("b2", pos 50) ∷ []

resync-unchanged_example :
    All (λ b. weight_or_zero (resync edited two) b ≡ weight_or_zero edited b) two
resync-unchanged_example =
    resync-unchanged edited two ((refl, tt), (tt, tt)) (omega arith, (omega arith, tt))

is_dirty-weights_by_backend_example : is_dirty (weights_by_backend two) two ≡ false
is_dirty-weights_by_backend_example =
    is_dirty-weights_by_backend two ((refl, tt), (tt, tt)) (omega arith, (omega arith, tt))

normalise-total_example :
    (draft_total (normalise (λ d t. d) edited) ≡ pos 100)
    × (map (λ e. e.0) (normalise (λ d t. d) edited) ≡ map (λ e. e.0) edited)
unfolding draft_total ◌+ℤ◌
normalise-total_example = normalise-total (λ d t. d) edited refl

normalise-last_example : normalise (λ d t. d) edited ≡ ("b1", pos 50) ∷ ("b2", pos 50) ∷ []
unfolding draft_total ◌+ℤ◌ ◌-ℤ◌
normalise-last_example = normalise-last (λ d t. d) (("b1", pos 50) ∷ []) "b2" (pos 50) refl
