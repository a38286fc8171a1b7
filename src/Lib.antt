-- ===== src/Lib.antt =====
-- Verification library of nixway-core, a platform that runs apps on a team's own servers. Its web
-- clients are written in TypeScript and speak to an API written in Go; the library models the logic
-- of the clients and, of the API, what the clients rely on.
--
-- Parts, and the files that model them:
-- * the fetch wrappers `request` of apps/web-v2/lib/api.ts (Http/Client), of
--   apps/web-v2/lib/server-api.ts (Http/Server) and of apps/web/src/lib/api.ts (Http/Legacy). Each
--   has the arguments of `fetch` as `fetch_call` and, as `settle`, the way from a response to a
--   value, an ApiError or another exception. `JSON.parse` and `JSON.stringify` are parameters;
-- * the API objects of apps/web-v2/lib/api.ts (Endpoints): one data type of calls per group and one
--   function from a call to its request, the path as its parts;
-- * the data of apps/web-v2/lib/types.ts (Models): an interface is a record, a closed union of texts
--   a data type with its texts, and an open one a text. Numbers stand as literals where they may
--   have a fraction or a sign;
-- * the routes of internal/api/router.go (Router): the tables of patterns and mounts, the reading of
--   a target, and which handlers take a request. The matching of patterns is that of net/http's
--   ServeMux as documented. `handlers_for` lists every matching pattern, so that a list of one is
--   the handler that the mux runs, whatever its rules of precedence;
-- * the calls against the routes (Contract): Contract.antt states the result for every call, and
--   each child file has the handlers that its calls are meant for;
-- * the update of an app (AppUpdate): AppHandler.Update of internal/api/handler/app.go with
--   Service.Update of internal/app/service.go, which replaces every field, the checks of
--   sql/migrations/00005_projects_deployments.sql, and two callers of it,
--   the form of apps/web-v2/components/apps/AppOverview.tsx and `removeDomain` of api.ts;
-- * the toasts of apps/web/src/hooks/use-toast.ts (Toast): the store, its operations as functions,
--   and the reachable stores as a relation of steps, timers included, with the ids that an update
--   has closed;
-- * the traffic weights of apps/web-v2/components/apps/TrafficClient.tsx (Traffic): the draft and
--   its operations. The rounded share of a weight is a parameter, since it is computed in floating
--   point; what is proved holds however it rounds;
-- * the live views (Live): the state machine of
--   apps/web-v2/components/databases/ProvisionConsole.tsx, whose runs are a relation of steps, a fatal
--   failure of its EventSource included, and the buffer of apps/web-v2/components/apps/LogStream.tsx, which is cut at 5000 lines;
-- * the scopes of API tokens (TokenScopes): what apps/web-v2/components/teams/CreateTokenDialog.tsx
--   asks for, against the checks of internal/api/middleware/rbac.go and internal/model/model.go;
-- * the session and the active team (Session): apps/web-v2/lib/auth.ts, apps/web-v2/lib/team.ts and
--   `switchTo` of apps/web-v2/components/layout/TeamSwitcher.tsx;
-- * the scale form (Scale) of apps/web-v2/components/apps/ScaleClient.tsx: its edits as a data type,
--   what it sends, and DeployHandler.ScaleApp of internal/api/handler/deploy.go with the tests of
--   ScaleApp in internal/deploy/service.go, up to the stored row;
-- * the command palette (Palette) of apps/web-v2/components/layout/CommandPalette.tsx: its list, the
--   search, the groups that it renders and the keys, which count in the flat list;
-- * the byte counts (Bytes): the `formatBytes` functions of
--   apps/web-v2/components/volumes/VolumesClient.tsx, observability/MetricsPanel.tsx,
--   databases/DatabaseDetailClient.tsx, servers/ServerLiveMetrics.tsx and
--   servers/ResourcesPanel.tsx beside it, and of apps/web/src/routes/_app/volumes.$teamId.tsx and
--   apps/web/src/components/database-backups.tsx. Their loop runs on fuel, and the number of units
--   is enough; a number is an exact fraction, since a division by 1024 rounds nothing;
-- * the creation of an app (CreateApp): apps/web-v2/components/apps/CreateAppDialog.tsx against
--   AppHandler.Create of internal/api/handler/app.go with Service.Create of
--   internal/app/service.go;
-- * autoscaling (Autoscale): the dialog of apps/web-v2/components/apps/AutoscaleClient.tsx,
--   DeployHandler.CreateAutoscalingRule of internal/api/handler/deploy.go with the checks of
--   sql/migrations/00009_autoscaling_health_lb.sql, and EvaluateAutoscaling of
--   internal/deploy/service.go. The orders of float64 are parameters, and so is which steps of
--   ScaleApp fail, before or after the row is updated; a sum of replicas wraps as an int32;
-- * the variables of an app (EnvVars): the dialog of
--   apps/web-v2/components/apps/EnvVarsClient.tsx, and the handlers of
--   internal/api/handler/app_env_var.go that create and update one;
-- * alerts (Alerts): evaluateRule of internal/observability/service.go, whose histories are a
--   relation of steps, the alert dialog of
--   apps/web-v2/components/notifications/NotificationsClient.tsx, and
--   ObservabilityHandler.CreateAlert of internal/api/handler/observability.go with the checks of
--   sql/migrations/00011_observability.sql;
-- * the query console (QueryGate): the editor of
--   apps/web-v2/components/databases/QueryConsoleClient.tsx, the validation of ExecuteQuery in
--   internal/database/query.go and the tests of runSQLQuery in apps/agent/db_query.go. A query is
--   the list of its code points, and strings.ToUpper is a parameter;
-- * the order of a database (Provision): ProvisionDialog of
--   apps/web-v2/components/databases/DatabasesListClient.tsx, whose states are a relation of steps,
--   and Get and GetVersion of internal/template/registry.go.
--
-- Prelude has the names, tests and list lemmas that the files share, and Prelude/Int the integers.
-- Numbers are natural, or integers where the code can make them negative. Loops are structural
-- recursion, but for the one of `formatBytes`, whose fuel is said above. Strings are compared and joined as in the source;
-- encodeURIComponent, URLSearchParams and String(n) are the fields of a record `Platform`.
--
-- A request target is read without percent-decoding; a parameter of a path is a text that needs
-- none. The classes ApiError of api.ts and ServerApiError of server-api.ts stand as one outcome.
--
-- Not modelled: rendering, React's scheduling, React Query's cache, the network, the database, and
-- the services of the API beyond what is named above. Input objects that a caller of an API object
-- passes through stand as the members of their JSON.
--
-- Witnesses has the theorems at concrete inputs.
pub mod Prelude
pub mod Json
pub mod Http
pub mod Models
pub mod Endpoints
pub mod Router
pub mod Contract
pub mod AppUpdate
pub mod Toast
pub mod Traffic
pub mod TokenScopes
pub mod Live
pub mod Session
pub mod Scale
pub mod Palette
pub mod Bytes
pub mod CreateApp
pub mod Autoscale
pub mod EnvVars
pub mod Alerts
pub mod QueryGate
pub mod Provision
pub mod Witnesses
