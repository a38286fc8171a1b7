-- ===== src/Scale/Server.antt =====
-- DeployHandler.ScaleApp of internal/api/handler/deploy.go, with the tests of Service.ScaleApp in
-- internal/deploy/service.go.
use nixway_core.Prelude.{
  ℕ, String, Bool, true, not, ◌&&◌, List, [], ◌∷◌, Option, none, some, ◌<>◌, str_eq, any, among,
  if◌then◌else◌,
}
use nixway_core.Prelude.Int.{ℤ, pos, leb_ℤ}
use nixway_core.Json.{Json, Members, end, member, get_member}
use nixway_core.AppUpdate.Decode.{◌>>=◌, as_string, as_strings, Decoder, as_int32}
use nixway_core.AppUpdate.Server.{constraints_or, pins_or, or_current}

-- the columns of an app's row that scaling writes
pub record ScaleRow : Type 0 where
  pub replicas : ℤ
  pub placement_strategy : String
  pub placement_constraints : Json
  pub pinned_server_ids : List String

-- the request, once decoded; the constraints are merged with the current ones
pub record ScaleRequest : Type 0 where
  pub replicas : ℤ
  pub placement_strategy : String
  pub placement_constraints : Json
  pub pinned_server_ids : Option (List String)

pub data ScaleAnswer : Type 0 where
  fails : ℕ → String → ScaleAnswer
  updates : ScaleRow → ScaleAnswer

abbrev scale_fields : List String
scale_fields =
    "replicas" ∷ "placement_strategy" ∷ "placement_constraints" ∷ "pinned_server_ids" ∷ []

unfoldable pub scale_known : Members → Bool
scale_known end = true
scale_known (member key v ms) = any (λ f. str_eq f key) scale_fields && scale_known ms

abbrev pub known_strategies : List String
known_strategies = "spread" ∷ "binpack" ∷ "pinned" ∷ []

-- `fmt.Errorf`, for the text that `%q` quotes
module _ (d : Decoder) (quoted : String → String) where
  unfoldable pub decode_scale : Members → Json → Option ScaleRequest
  decode_scale ms current = if not (scale_known ms) then none else do
    replicas ← as_int32 d (get_member "replicas" ms)
    strategy ← as_string (get_member "placement_strategy" ms)
    pinned ← as_strings (get_member "pinned_server_ids" ms)
    constraints ← constraints_or (get_member "placement_constraints" ms) current
    some (record {
      replicas = replicas;
      placement_strategy = strategy;
      placement_constraints = constraints;
      pinned_server_ids = pinned;
    })

  -- the tests of the service, up to `UpdateAppScaling`
  abbrev pub scale_row : ScaleRow → ScaleAnswer
  scale_row row =
      if among known_strategies row.placement_strategy
      then updates row
      else fails 400 ("unknown placement strategy " <> quoted row.placement_strategy)

  abbrev scale_pins : ScaleRequest → ScaleRow → Option (List String) → ScaleAnswer
  scale_pins q row none = fails 400 "invalid pinned_server_ids"
  scale_pins q row (some pins) = scale_row (record {
    replicas = q.replicas;
    placement_strategy = or_current d.is_uuid q.placement_strategy row.placement_strategy;
    placement_constraints = q.placement_constraints;
    pinned_server_ids = pins;
  })

  abbrev answer_scale : Option ScaleRequest → ScaleRow → ScaleAnswer
  answer_scale none row = fails 400 "invalid request body"
  answer_scale (some q) row =
      if leb_ℤ q.replicas (pos 0)
      then fails 400 "replicas must be greater than zero"
      else scale_pins q row (pins_or d.is_uuid q.pinned_server_ids row.pinned_server_ids)

  -- the handler, on the row of an app that is found
  unfoldable pub handle_scale : Members → ScaleRow → ScaleAnswer
  unfolding decode_scale
  handle_scale ms row = answer_scale (decode_scale ms row.placement_constraints) row
