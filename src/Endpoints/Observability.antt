-- ===== src/Endpoints/Observability.antt =====
-- Calls of observabilityApi, apps/web-v2/lib/api.ts lines 827 to 873. An input object that
-- a caller passes stands as the members of its JSON.
use nixway_core.Prelude.{ℕ, String, [], ◌∷◌, ◌++◌, Option, none, some}
use nixway_core.Json.{obj, Members}
use nixway_core.Http.Types.{get, post, put, delete}
use nixway_core.Models.{MetricRange, range_name}
use nixway_core.Endpoints.Types.{
  arg, lit, Request, Platform, Params, query_of, set_text, set_number,
}

-- `AlertsScopeQuery`
pub record AlertsScope : Type 0 where
  pub scope_type : Option String
  pub scope_id : Option String

abbrev pub scope_params : AlertsScope → Params
scope_params s = set_text "scope_type" s.scope_type ++ set_text "scope_id" s.scope_id

-- the options of `listEvents`
pub record EventOptions : Type 0 where
  pub limit : Option ℕ
  pub scope_type : Option String
  pub scope_id : Option String

abbrev pub event_params : Platform → EventOptions → Params
event_params p o =
    set_number p "limit" o.limit
    ++ (set_text "scope_type" o.scope_type ++ set_text "scope_id" o.scope_id)

abbrev pub latest_params : String → String → Params
latest_params scope_type scope_id = ("scope_type", scope_type) ∷ ("scope_id", scope_id) ∷ []

abbrev pub range_params : Platform → String → String → String → MetricRange → Option ℕ → Params
range_params p scope_type scope_id metric range limit =
    ("scope_type", scope_type)
    ∷ ("scope_id", scope_id)
    ∷ ("metric", metric)
    ∷ ("range", range_name range)
    ∷ set_number p "limit" limit

pub data ObservabilityCall : Type 0 where
  list_channels : String → ObservabilityCall
  create_channel : String → Members → ObservabilityCall
  list_alerts : String → AlertsScope → ObservabilityCall
  create_alert : String → Members → ObservabilityCall
  update_alert : String → String → Members → ObservabilityCall
  delete_alert : String → String → ObservabilityCall
  evaluate_alerts : String → ObservabilityCall
  list_events : String → EventOptions → ObservabilityCall
  latest_metrics : String → String → String → ObservabilityCall
  metric_range : String → String → String → String → MetricRange → (Option ℕ) → ObservabilityCall

module _ (p : Platform) where
  unfoldable pub observability_request : ObservabilityCall → Request
  observability_request (list_channels team_id) = record {
    method = get;
    parts = lit "teams" ∷ arg team_id ∷ lit "observability" ∷ lit "channels" ∷ [];
    query = none;
    body = none;
  }
  observability_request (create_channel team_id input) = record {
    method = post;
    parts = lit "teams" ∷ arg team_id ∷ lit "observability" ∷ lit "channels" ∷ [];
    query = none;
    body = some (obj input);
  }
  observability_request (list_alerts team_id scope) = record {
    method = get;
    parts = lit "teams" ∷ arg team_id ∷ lit "observability" ∷ lit "alerts" ∷ [];
    query = query_of p (scope_params scope);
    body = none;
  }
  observability_request (create_alert team_id input) = record {
    method = post;
    parts = lit "teams" ∷ arg team_id ∷ lit "observability" ∷ lit "alerts" ∷ [];
    query = none;
    body = some (obj input);
  }
  observability_request (update_alert team_id alert_id input) = record {
    method = put;
    parts = lit "teams" ∷ arg team_id ∷ lit "observability" ∷ lit "alerts" ∷ arg alert_id ∷ [];
    query = none;
    body = some (obj input);
  }
  observability_request (delete_alert team_id alert_id) = record {
    method = delete;
    parts = lit "teams" ∷ arg team_id ∷ lit "observability" ∷ lit "alerts" ∷ arg alert_id ∷ [];
    query = none;
    body = none;
  }
  observability_request (evaluate_alerts team_id) = record {
    method = post;
    parts = lit "teams" ∷ arg team_id ∷ lit "observability" ∷ lit "alerts" ∷ lit "evaluate" ∷ [];
    query = none;
    body = none;
  }
  observability_request (list_events team_id opts) = record {
    method = get;
    parts = lit "teams" ∷ arg team_id ∷ lit "observability" ∷ lit "events" ∷ [];
    query = query_of p (event_params p opts);
    body = none;
  }
  observability_request (latest_metrics team_id scope_type scope_id) = record {
    method = get;
    parts = lit "teams" ∷ arg team_id ∷ lit "observability" ∷ lit "metrics" ∷ [];
    query = some (p.search_params (latest_params scope_type scope_id));
    body = none;
  }
  observability_request (metric_range team_id scope_type scope_id metric range limit) = record {
    method = get;
    parts = lit "teams" ∷ arg team_id ∷ lit "observability" ∷ lit "metrics" ∷ [];
    query = some (p.search_params (range_params p scope_type scope_id metric range limit));
    body = none;
  }
