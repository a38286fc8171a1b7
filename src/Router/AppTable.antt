-- ===== src/Router/AppTable.antt =====
-- Protected routes below /apps and /projects, internal/api/router.go.
use nixway_core.Prelude.{List, [], ◌∷◌}
use nixway_core.Router.Types.{fixed, param, Route, on_get, on_post, on_put, on_delete}

-- `protected.HandleFunc` of every path that begins with /api/v1/apps or /api/v1/projects
abbrev pub app_routes : List Route
app_routes =
    on_post (fixed "projects" ∷ param "projectId" ∷ fixed "environments" ∷ [])
      "projectH.CreateEnvironment"
    ∷ on_get (fixed "projects" ∷ param "projectId" ∷ fixed "environments" ∷ [])
        "projectH.ListEnvironments"
    ∷ on_post (fixed "projects" ∷ param "projectId" ∷ fixed "apps" ∷ []) "appH.Create"
    ∷ on_get (fixed "projects" ∷ param "projectId" ∷ fixed "apps" ∷ []) "appH.List"
    ∷ on_get (fixed "projects" ∷ param "projectId" ∷ fixed "apps" ∷ param "appId" ∷ []) "appH.Get"
    ∷ on_put (fixed "projects" ∷ param "projectId" ∷ fixed "apps" ∷ param "appId" ∷ [])
        "appH.Update"
    ∷ on_delete (fixed "projects" ∷ param "projectId" ∷ fixed "apps" ∷ param "appId" ∷ [])
        "appH.Delete"
    ∷ on_get (fixed "apps" ∷ param "appId" ∷ fixed "env-vars" ∷ []) "appEnvVarH.List"
    ∷ on_post (fixed "apps" ∷ param "appId" ∷ fixed "env-vars" ∷ []) "appEnvVarH.Create"
    ∷ on_post
        (fixed "apps" ∷ param "appId" ∷ fixed "env-vars" ∷ param "varId" ∷ fixed "reveal" ∷ [])
        "appEnvVarH.Reveal"
    ∷ on_put (fixed "apps" ∷ param "appId" ∷ fixed "env-vars" ∷ param "varId" ∷ [])
        "appEnvVarH.Update"
    ∷ on_delete (fixed "apps" ∷ param "appId" ∷ fixed "env-vars" ∷ param "varId" ∷ [])
        "appEnvVarH.Delete"
    ∷ on_get (fixed "apps" ∷ param "appId" ∷ []) "appH.GetDirect"
    ∷ on_post (fixed "apps" ∷ param "appId" ∷ fixed "domain" ∷ []) "appH.SetDomain"
    ∷ on_post (fixed "apps" ∷ param "appId" ∷ fixed "domain" ∷ fixed "verify" ∷ [])
        "appH.VerifyDomain"
    ∷ on_post (fixed "apps" ∷ param "appId" ∷ fixed "builds" ∷ []) "buildH.TriggerBuild"
    ∷ on_get (fixed "apps" ∷ param "appId" ∷ fixed "builds" ∷ []) "buildH.List"
    ∷ on_get (fixed "apps" ∷ param "appId" ∷ fixed "builds" ∷ param "buildId" ∷ []) "buildH.Get"
    ∷ on_get (fixed "apps" ∷ param "appId" ∷ fixed "builds" ∷ param "buildId" ∷ fixed "logs" ∷ [])
        "buildH.StreamLogs"
    ∷ on_post (fixed "apps" ∷ param "appId" ∷ fixed "deployments" ∷ []) "deployH.TriggerDeploy"
    ∷ on_get (fixed "apps" ∷ param "appId" ∷ fixed "deployments" ∷ []) "deployH.List"
    ∷ on_get (fixed "apps" ∷ param "appId" ∷ fixed "deployments" ∷ param "deployId" ∷ [])
        "deployH.Get"
    ∷ on_get
        (fixed "apps" ∷ param "appId" ∷ fixed "deployments" ∷ param "deployId" ∷ fixed "logs" ∷ [])
        "deployH.StreamLogs"
    ∷ on_get
        (fixed "apps"
          ∷ param "appId"
          ∷ fixed "deployments"
          ∷ param "deployId"
          ∷ fixed "targets"
          ∷ [])
        "deployH.ListTargets"
    ∷ on_post (fixed "apps" ∷ param "appId" ∷ fixed "rollback" ∷ []) "deployH.Rollback"
    ∷ on_post (fixed "apps" ∷ param "appId" ∷ fixed "scale" ∷ []) "deployH.ScaleApp"
    ∷ on_get (fixed "apps" ∷ param "appId" ∷ fixed "scaling-events" ∷ [])
        "deployH.ListScalingEvents"
    ∷ on_post (fixed "apps" ∷ param "appId" ∷ fixed "autoscaling-rules" ∷ [])
        "deployH.CreateAutoscalingRule"
    ∷ on_get (fixed "apps" ∷ param "appId" ∷ fixed "autoscaling-rules" ∷ [])
        "deployH.ListAutoscalingRules"
    ∷ on_delete (fixed "apps" ∷ param "appId" ∷ fixed "autoscaling-rules" ∷ param "ruleId" ∷ [])
        "deployH.DeleteAutoscalingRule"
    ∷ on_post (fixed "apps" ∷ param "appId" ∷ fixed "autoscaling" ∷ fixed "evaluate" ∷ [])
        "deployH.EvaluateAutoscaling"
    ∷ on_get (fixed "apps" ∷ param "appId" ∷ fixed "traffic" ∷ []) "deployH.GetTraffic"
    ∷ on_put (fixed "apps" ∷ param "appId" ∷ fixed "traffic" ∷ []) "deployH.UpdateTraffic"
    ∷ on_post
        (fixed "apps"
          ∷ param "appId"
          ∷ fixed "traffic"
          ∷ fixed "backends"
          ∷ param "backendId"
          ∷ fixed "promote"
          ∷ [])
        "deployH.PromoteTrafficBackend"
    ∷ on_get (fixed "apps" ∷ param "appId" ∷ fixed "logs" ∷ []) "deployH.ContainerLogs"
    ∷ on_post (fixed "apps" ∷ param "appId" ∷ fixed "cleanup" ∷ []) "deployH.CleanupDeployments"
    ∷ on_get (fixed "apps" ∷ param "appId" ∷ fixed "replicas" ∷ []) "deployH.ListReplicas"
    ∷ on_post
        (fixed "apps"
          ∷ param "appId"
          ∷ fixed "containers"
          ∷ param "containerName"
          ∷ fixed "restart"
          ∷ [])
        "deployH.RestartContainer"
    ∷ on_post
        (fixed "apps"
          ∷ param "appId"
          ∷ fixed "containers"
          ∷ param "containerName"
          ∷ fixed "stop"
          ∷ [])
        "deployH.StopContainer"
    ∷ on_get
        (fixed "apps"
          ∷ param "appId"
          ∷ fixed "containers"
          ∷ param "containerName"
          ∷ fixed "inspect"
          ∷ [])
        "deployH.InspectContainer"
    ∷ on_get (fixed "apps" ∷ param "appId" ∷ fixed "logs" ∷ fixed "search" ∷ [])
        "deployH.SearchLogs"
    ∷ on_get (fixed "apps" ∷ param "appId" ∷ fixed "logs" ∷ fixed "history" ∷ [])
        "deployH.HistoricalLogs"
    ∷ on_put (fixed "apps" ∷ param "appId" ∷ fixed "resources" ∷ []) "appH.UpdateResources"
    ∷ on_put (fixed "apps" ∷ param "appId" ∷ fixed "registry-credential" ∷ [])
        "appH.SetRegistryCredential"
    ∷ on_get (fixed "apps" ∷ param "appId" ∷ fixed "terminal" ∷ []) "containerTermH.Connect"
    ∷ on_post (fixed "projects" ∷ param "projectId" ∷ fixed "databases" ∷ []) "databaseH.Provision"
    ∷ on_get (fixed "projects" ∷ param "projectId" ∷ fixed "databases" ∷ []) "databaseH.List"
    ∷ on_get (fixed "projects" ∷ param "projectId" ∷ fixed "databases" ∷ param "databaseId" ∷ [])
        "databaseH.Get"
    ∷ on_get
        (fixed "projects"
          ∷ param "projectId"
          ∷ fixed "databases"
          ∷ param "databaseId"
          ∷ fixed "provision-stream"
          ∷ [])
        "databaseH.StreamProvisionLogs"
    ∷ on_delete (fixed "projects" ∷ param "projectId" ∷ fixed "databases" ∷ param "databaseId" ∷ [])
        "databaseH.Delete"
    ∷ on_post
        (fixed "projects"
          ∷ param "projectId"
          ∷ fixed "databases"
          ∷ param "databaseId"
          ∷ fixed "stop"
          ∷ [])
        "databaseH.Stop"
    ∷ on_post
        (fixed "projects"
          ∷ param "projectId"
          ∷ fixed "databases"
          ∷ param "databaseId"
          ∷ fixed "start"
          ∷ [])
        "databaseH.Start"
    ∷ on_post
        (fixed "projects"
          ∷ param "projectId"
          ∷ fixed "databases"
          ∷ param "databaseId"
          ∷ fixed "rebind-volume"
          ∷ [])
        "databaseH.RebindVolume"
    ∷ on_post
        (fixed "projects"
          ∷ param "projectId"
          ∷ fixed "databases"
          ∷ param "databaseId"
          ∷ fixed "links"
          ∷ [])
        "databaseH.LinkDatabase"
    ∷ on_get
        (fixed "projects"
          ∷ param "projectId"
          ∷ fixed "databases"
          ∷ param "databaseId"
          ∷ fixed "links"
          ∷ [])
        "databaseH.ListLinks"
    ∷ on_delete
        (fixed "projects"
          ∷ param "projectId"
          ∷ fixed "databases"
          ∷ param "databaseId"
          ∷ fixed "links"
          ∷ param "linkId"
          ∷ [])
        "databaseH.UnlinkDatabase"
    ∷ on_post
        (fixed "projects"
          ∷ param "projectId"
          ∷ fixed "databases"
          ∷ param "databaseId"
          ∷ fixed "rotate"
          ∷ [])
        "databaseH.RotateCredentials"
    ∷ on_get
        (fixed "projects"
          ∷ param "projectId"
          ∷ fixed "databases"
          ∷ param "databaseId"
          ∷ fixed "rotations"
          ∷ [])
        "databaseH.ListRotations"
    ∷ on_post
        (fixed "projects"
          ∷ param "projectId"
          ∷ fixed "databases"
          ∷ param "databaseId"
          ∷ fixed "backups"
          ∷ [])
        "databaseH.CreateBackup"
    ∷ on_get
        (fixed "projects"
          ∷ param "projectId"
          ∷ fixed "databases"
          ∷ param "databaseId"
          ∷ fixed "backups"
          ∷ [])
        "databaseH.ListBackups"
    ∷ on_get
        (fixed "projects"
          ∷ param "projectId"
          ∷ fixed "databases"
          ∷ param "databaseId"
          ∷ fixed "backups"
          ∷ param "backupId"
          ∷ [])
        "databaseH.GetBackup"
    ∷ on_delete
        (fixed "projects"
          ∷ param "projectId"
          ∷ fixed "databases"
          ∷ param "databaseId"
          ∷ fixed "backups"
          ∷ param "backupId"
          ∷ [])
        "databaseH.DeleteBackup"
    ∷ on_post
        (fixed "projects"
          ∷ param "projectId"
          ∷ fixed "databases"
          ∷ param "databaseId"
          ∷ fixed "restore"
          ∷ [])
        "databaseH.Restore"
    ∷ on_post (fixed "projects" ∷ param "projectId" ∷ fixed "saved-queries" ∷ [])
        "dbToolingH.SaveQuery"
    ∷ on_get (fixed "projects" ∷ param "projectId" ∷ fixed "saved-queries" ∷ [])
        "dbToolingH.ListSavedQueriesByProject"
    ∷ []
