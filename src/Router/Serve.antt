-- ===== src/Router/Serve.antt =====
-- Which handlers the API runs for a request target, internal/api/router.go.
use nixway_core.Prelude.{String, ◌&&◌, List, [], ◌∷◌, ◌++◌, str_eq, if◌then◌else◌}
use nixway_core.Http.Types.{Method}
use nixway_core.Router.Types.{handlers_of, is_mounted}
use nixway_core.Router.Target.{segments}
use nixway_core.Router.TeamTable.{team_routes}
use nixway_core.Router.AppTable.{app_routes}
use nixway_core.Router.OtherTable.{public_routes, other_routes}
use nixway_core.Router.MountTable.{mounts}

-- The public routes answer by themselves; the protected ones are reached through a mount.
unfoldable pub handlers_below : Method → List String → List String
unfolding handlers_of is_mounted
handlers_below method segs =
    handlers_of public_routes method segs
    ++ (if is_mounted mounts segs
        then handlers_of team_routes method segs
          ++ (handlers_of app_routes method segs ++ handlers_of other_routes method segs)
        else [])

abbrev pub behind_api : Method → List String → List String
behind_api method (a ∷ b ∷ segs) =
    if str_eq a "api" && str_eq b "v1" then handlers_below method segs else []
behind_api method _ = []

-- every handler with a registered pattern that takes the target
unfoldable pub handlers_for : Method → String → List String
unfolding handlers_below segments
handlers_for method target = behind_api method (segments target)
