-- ===== src/Models/Observability.antt =====
-- Notifications, alerts, metrics, traffic and autoscaling of apps/web-v2/lib/types.ts.
use nixway_core.Prelude.{String, Bool, List, Option}
use nixway_core.Json.{Json}
use nixway_core.Models.{Number, TrafficBackend}
use nixway_core.Models.Delivery.{ScalingEvent}

pub record NotificationChannel : Type 0 where
  pub id : String
  pub team_id : String
  pub name : String
  pub channel_type : String
  pub target : String
  pub enabled : Bool
  pub created_at : String
  pub updated_at : String

pub record AlertRule : Type 0 where
  pub id : String
  pub team_id : String
  pub scope_type : String
  pub scope_id : String
  pub name : String
  pub metric_name : String
  pub comparison : String
  pub threshold : Number
  pub duration_seconds : Number
  pub severity : String
  pub enabled : Bool
  pub notification_channels : List String
  pub last_state : String
  pub last_value : Option Number
  pub last_evaluated_at : Option String
  pub state_changed_at : Option String
  pub created_at : String
  pub updated_at : String

pub record MetricSample : Type 0 where
  pub id : Option Number
  pub scope_type : String
  pub scope_id : String
  pub metric_name : String
  pub value : Number
  pub labels : Option Json
  pub sampled_at : String

pub record AlertEvent : Type 0 where
  pub id : String
  pub rule_id : String
  pub team_id : String
  pub scope_type : String
  pub scope_id : String
  pub state : String
  pub metric_value : Option Number
  pub threshold : Number
  pub message : String
  pub notified_at : Option String
  pub created_at : String

pub record TrafficRoute : Type 0 where
  pub id : String
  pub app_id : String
  pub environment_id : String
  pub domain : String
  pub mode : String
  pub status : String
  pub created_at : String
  pub updated_at : String

pub record TrafficEvent : Type 0 where
  pub id : String
  pub route_id : String
  pub actor_id : Option String
  pub actor_type : String
  pub event_type : String
  pub message : String
  pub metadata : Option Json
  pub created_at : String

pub record TrafficView : Type 0 where
  pub route : Option TrafficRoute
  pub backends : List TrafficBackend
  pub events : List TrafficEvent

pub record AutoscalingRule : Type 0 where
  pub id : String
  pub app_id : String
  pub name : String
  pub metric_name : String
  pub comparison : String
  pub threshold : Number
  pub duration_seconds : Number
  pub action_type : String
  pub action_value : Number
  pub min_replicas : Number
  pub max_replicas : Number
  pub cooldown_up_seconds : Number
  pub cooldown_down_seconds : Number
  pub enabled : Bool
  pub last_triggered_at : Option String
  pub created_at : String
  pub updated_at : String

pub record AutoscaleEvaluation : Type 0 where
  pub rule_id : String
  pub rule_name : String
  pub metric_name : String
  pub metric_value : Number
  pub triggered : Bool
  pub message : String
  pub event : Option ScalingEvent
