-- ===== src/Contract.antt =====
-- Every call of the API objects in apps/web-v2/lib/api.ts against the routes of
-- internal/api/router.go.
pub mod Auth
pub mod Teams
pub mod Servers
pub mod Clusters
pub mod Sources
pub mod Apps
pub mod Delivery
pub mod Databases
pub mod Volumes
pub mod Observability
pub mod DockerHub
pub mod Bodies
use nixway_core.Prelude.{String, ◌<>◌, List, [], ◌∷◌, Option, some, true, ◌≡◌, refl}
use nixway_core.Endpoints.Types.{Platform, Request, path}
use nixway_core.Endpoints.Auth.{AuthCall, auth_request}
use nixway_core.Endpoints.Teams.{TeamsCall, teams_request}
use nixway_core.Endpoints.Servers.{ServersCall, servers_request}
use nixway_core.Endpoints.Clusters.{ClustersCall, clusters_request}
use nixway_core.Endpoints.Sources.{SourcesCall, sources_request}
use nixway_core.Endpoints.Apps.{AppsCall, apps_request}
use nixway_core.Endpoints.Delivery.{DeliveryCall, delivery_request}
use nixway_core.Endpoints.Databases.{DatabasesCall, databases_request}
use nixway_core.Endpoints.Volumes.{VolumesCall, volumes_request}
use nixway_core.Endpoints.Observability.{ObservabilityCall, observability_request}
use nixway_core.Endpoints.DockerHub.{
  DockerHubCall, docker_hub_request, search_images, list_image_tags,
}
use Auth.{auth_handler, auth_verdict}
use Teams.{teams_handler, teams_verdict}
use Servers.{servers_handler, servers_verdict}
use Clusters.{clusters_handler, clusters_verdict}
use Sources.{sources_handler, sources_verdict}
use Apps.{apps_handler, apps_verdict}
use Delivery.{delivery_handler, delivery_verdict}
use Databases.{databases_handler, databases_verdict}
use Volumes.{volumes_handler, volumes_verdict}
use Observability.{observability_handler, observability_verdict}
use DockerHub.{docker_hub_verdict}
use Bodies.{
  has_fit_body, IsSent, has_fit_body-IsSent, auth_request-has_fit_body, teams_request-has_fit_body,
  servers_request-has_fit_body, clusters_request-has_fit_body, sources_request-has_fit_body,
  apps_request-has_fit_body, delivery_request-has_fit_body, databases_request-has_fit_body,
  volumes_request-has_fit_body, observability_request-has_fit_body,
}
use nixway_core.Json.{Json}
use nixway_core.Router.Reading.{all_segments}
use nixway_core.Router.Serve.{handlers_for}
use nixway_core.Router.Dispatch.{decided, handlers_for-decided}

-- a call of one of the API objects, `dockerHubApi` apart
pub data Call : Type 0 where
  auth : AuthCall → Call
  teams : TeamsCall → Call
  servers : ServersCall → Call
  clusters : ClustersCall → Call
  sources : SourcesCall → Call
  apps : AppsCall → Call
  delivery : DeliveryCall → Call
  databases : DatabasesCall → Call
  volumes : VolumesCall → Call
  observability : ObservabilityCall → Call

abbrev pub call_request : Platform → Call → Request
call_request p (auth c) = auth_request p c
call_request p (teams c) = teams_request p c
call_request p (servers c) = servers_request p c
call_request p (clusters c) = clusters_request p c
call_request p (sources c) = sources_request p c
call_request p (apps c) = apps_request p c
call_request p (delivery c) = delivery_request p c
call_request p (databases c) = databases_request p c
call_request p (volumes c) = volumes_request p c
call_request p (observability c) = observability_request p c

abbrev pub call_handler : Call → String
call_handler (auth c) = auth_handler c
call_handler (teams c) = teams_handler c
call_handler (servers c) = servers_handler c
call_handler (clusters c) = clusters_handler c
call_handler (sources c) = sources_handler c
call_handler (apps c) = apps_handler c
call_handler (delivery c) = delivery_handler c
call_handler (databases c) = databases_handler c
call_handler (volumes c) = volumes_handler c
call_handler (observability c) = observability_handler c

call_verdict :
    (p : Platform) (c : Call)
    → decided (call_request p c).method (call_request p c).parts ≡ some (call_handler c ∷ [])
call_verdict p (auth c) = auth_verdict p c
call_verdict p (teams c) = teams_verdict p c
call_verdict p (servers c) = servers_verdict p c
call_verdict p (clusters c) = clusters_verdict p c
call_verdict p (sources c) = sources_verdict p c
call_verdict p (apps c) = apps_verdict p c
call_verdict p (delivery c) = delivery_verdict p c
call_verdict p (databases c) = databases_verdict p c
call_verdict p (volumes c) = volumes_verdict p c
call_verdict p (observability c) = observability_verdict p c

-- Every call, with whatever arguments that stay one segment of the path, reaches exactly one
-- registered pattern of the API, and that pattern's handler is the one that the call is meant for.
-- The calls of `dockerHubApi` are excepted.
pub call-served :
    (p : Platform) (c : Call)
    → all_segments (call_request p c).parts ≡ true
    → handlers_for (call_request p c).method ("/api/v1" <> path (call_request p c))
      ≡ call_handler c ∷ []
call-served p c ok =
    handlers_for-decided (call_request p c) (call_handler c ∷ []) ok (call_verdict p c)

call-has_fit_body : (p : Platform) (c : Call) → has_fit_body (call_request p c) ≡ true
call-has_fit_body p (auth c) = auth_request-has_fit_body p c
call-has_fit_body p (teams c) = teams_request-has_fit_body p c
call-has_fit_body p (servers c) = servers_request-has_fit_body p c
call-has_fit_body p (clusters c) = clusters_request-has_fit_body p c
call-has_fit_body p (sources c) = sources_request-has_fit_body p c
call-has_fit_body p (apps c) = apps_request-has_fit_body p c
call-has_fit_body p (delivery c) = delivery_request-has_fit_body p c
call-has_fit_body p (databases c) = databases_request-has_fit_body p c
call-has_fit_body p (volumes c) = volumes_request-has_fit_body p c
call-has_fit_body p (observability c) = observability_request-has_fit_body p c

-- Every call, made without options, is well-typed for `fetch`: it is sent without body and headers,
-- or with another method than GET, the JSON of an object and the headers that announce JSON. The
-- calls of `dockerHubApi` are excepted.
pub call-IsSent :
    (stringify : Json → String) (p : Platform) (c : Call) → IsSent stringify (call_request p c)
call-IsSent stringify p c = has_fit_body-IsSent stringify (call_request p c) (call-has_fit_body p c)

docker_hub-segments :
    (p : Platform) (c : DockerHubCall) → all_segments (docker_hub_request p c).parts ≡ true
unfolding docker_hub_request
docker_hub-segments p (search_images q) = refl
docker_hub-segments p (list_image_tags image) = refl

-- No call of `dockerHubApi` reaches a handler: no registered pattern of the API takes its request.
pub docker_hub-unserved :
    (p : Platform) (c : DockerHubCall)
    → handlers_for (docker_hub_request p c).method ("/api/v1" <> path (docker_hub_request p c)) ≡ []
docker_hub-unserved p c =
    handlers_for-decided (docker_hub_request p c) [] (docker_hub-segments p c)
      (docker_hub_verdict p c)
