-- ===== src/Contract/Bodies.antt =====
-- The bodies of the calls of the API objects in apps/web-v2/lib/api.ts.
use nixway_core.Prelude.{
  Bool, true, false, Option, none, some, List, [], ◌∷◌, String, ◌≡◌, ◌≢◌, ◌⊎◌, inl, inr, refl,
  arith,
}
use nixway_core.Json.{Json, obj, Members}
use nixway_core.Http.Types.{Method, get, post, put, patch, delete, spread, put_header, json_content}
use nixway_core.Http.Client.{fetch_call, merged_headers}
use nixway_core.Endpoints.Types.{Platform, Request, Part, path}
use nixway_core.Endpoints.Auth.{AuthCall, auth_request}
use nixway_core.Endpoints.Teams.{TeamsCall, teams_request}
use nixway_core.Endpoints.Servers.{ServersCall, servers_request}
use nixway_core.Endpoints.Clusters.{ClustersCall, clusters_request}
use nixway_core.Endpoints.Sources.{SourcesCall, sources_request}
use nixway_core.Endpoints.Apps.{AppsCall, apps_request}
use nixway_core.Endpoints.Delivery.{DeliveryCall, delivery_request}
use nixway_core.Endpoints.Databases.{DatabasesCall, databases_request}
use nixway_core.Endpoints.Volumes.{VolumesCall, volumes_request}
use nixway_core.Endpoints.Observability.{ObservabilityCall, observability_request}
use nixway_core.Endpoints.DockerHub.{DockerHubCall, docker_hub_request}

abbrev takes_body : Method → Bool
takes_body get = false
takes_body _ = true

abbrev fits : Method → Option Json → Bool
fits method none = true
fits method (some (obj _)) = takes_body method
fits method (some _) = false

-- whether the body of a request, if it has one, is an object and goes with another method than GET,
-- with which `fetch` takes no body
abbrev pub has_fit_body : Request → Bool
has_fit_body r = fits r.method r.body

module _ (p : Platform) where
  pub auth_request-has_fit_body : (c : AuthCall) → has_fit_body (auth_request p c) ≡ true
  unfolding auth_request
  auth_request-has_fit_body c = ground arith

  pub teams_request-has_fit_body : (c : TeamsCall) → has_fit_body (teams_request p c) ≡ true
  unfolding teams_request
  teams_request-has_fit_body c = ground arith

  pub servers_request-has_fit_body : (c : ServersCall) → has_fit_body (servers_request p c) ≡ true
  unfolding servers_request
  servers_request-has_fit_body c = ground arith

  pub clusters_request-has_fit_body :
      (c : ClustersCall) → has_fit_body (clusters_request p c) ≡ true
  unfolding clusters_request
  clusters_request-has_fit_body c = ground arith

  pub sources_request-has_fit_body : (c : SourcesCall) → has_fit_body (sources_request p c) ≡ true
  unfolding sources_request
  sources_request-has_fit_body c = ground arith

  pub apps_request-has_fit_body : (c : AppsCall) → has_fit_body (apps_request p c) ≡ true
  unfolding apps_request
  apps_request-has_fit_body c = ground arith

  pub delivery_request-has_fit_body :
      (c : DeliveryCall) → has_fit_body (delivery_request p c) ≡ true
  unfolding delivery_request
  delivery_request-has_fit_body c = ground arith

  pub databases_request-has_fit_body :
      (c : DatabasesCall) → has_fit_body (databases_request p c) ≡ true
  unfolding databases_request
  databases_request-has_fit_body c = ground arith

  pub volumes_request-has_fit_body : (c : VolumesCall) → has_fit_body (volumes_request p c) ≡ true
  unfolding volumes_request
  volumes_request-has_fit_body c = ground arith

  pub observability_request-has_fit_body :
      (c : ObservabilityCall) → has_fit_body (observability_request p c) ≡ true
  unfolding observability_request
  observability_request-has_fit_body c = ground arith

  pub docker_hub_request-has_fit_body :
      (c : DockerHubCall) → has_fit_body (docker_hub_request p c) ≡ true
  unfolding docker_hub_request
  docker_hub_request-has_fit_body c = ground arith

-- what `fetch` is called with: nothing to send, or an object as JSON, announced as such
abbrev pub IsSent : (Json → String) → Request → Type 0
IsSent stringify r =
    let call = fetch_call stringify r.method (path r) r.body none in
    ((call.body ≡ none) × (call.headers ≡ []))
    ⊎ ((call.method ≢ get)
        × (call.headers ≡ json_content ∷ [])
        × ((m : Members) × (call.body ≡ some (stringify (obj m)))))

takes_body-ne : (method : Method) → takes_body method ≡ true → method ≢ get
takes_body-ne get h = ground arith
takes_body-ne post h = λ e. ground arith
takes_body-ne put h = λ e. ground arith
takes_body-ne patch h = λ e. ground arith
takes_body-ne delete h = λ e. ground arith

is_sent :
    (stringify : Json → String) (method : Method) (parts : List Part) (query : Option String)
    (body : Option Json)
    → fits method body ≡ true
    → IsSent stringify (record { method = method; parts = parts; query = query; body = body })
unfolding fetch_call merged_headers spread put_header
is_sent stringify method parts query none h = inl (refl, refl)
is_sent stringify method parts query (some (obj m)) h =
    inr (takes_body-ne method h, refl, (m, refl))
is_sent stringify method parts query (some _) h = ground arith

-- A request whose body is fit is sent without body and headers, or with another method than GET and
-- an object as JSON that the headers announce.
pub has_fit_body-IsSent :
    (stringify : Json → String) (r : Request) → has_fit_body r ≡ true → IsSent stringify r
has_fit_body-IsSent stringify r h = is_sent stringify r.method r.parts r.query r.body h
