-- ===== src/Router/TeamTable.antt =====
-- Protected routes below /teams, internal/api/router.go.
use nixway_core.Prelude.{List, [], ◌∷◌}
use nixway_core.Router.Types.{fixed, param, Route, on_get, on_post, on_put, on_delete}

-- `protected.HandleFunc` of every path that begins with /api/v1/teams
abbrev pub team_routes : List Route
team_routes =
    on_post (fixed "teams" ∷ []) "teamH.Create"
    ∷ on_get (fixed "teams" ∷ []) "teamH.List"
    ∷ on_get (fixed "teams" ∷ param "id" ∷ []) "teamH.Get"
    ∷ on_put (fixed "teams" ∷ param "id" ∷ []) "teamH.Update"
    ∷ on_delete (fixed "teams" ∷ param "id" ∷ []) "teamH.Delete"
    ∷ on_get (fixed "teams" ∷ param "id" ∷ fixed "members" ∷ []) "teamH.ListMembers"
    ∷ on_put (fixed "teams" ∷ param "id" ∷ fixed "members" ∷ param "userID" ∷ [])
        "teamH.UpdateMember"
    ∷ on_delete (fixed "teams" ∷ param "id" ∷ fixed "members" ∷ param "userID" ∷ [])
        "teamH.RemoveMember"
    ∷ on_post (fixed "teams" ∷ param "id" ∷ fixed "invites" ∷ []) "teamH.CreateInvite"
    ∷ on_get (fixed "teams" ∷ param "id" ∷ fixed "invites" ∷ []) "teamH.ListInvites"
    ∷ on_delete (fixed "teams" ∷ param "id" ∷ fixed "invites" ∷ param "inviteID" ∷ [])
        "teamH.CancelInvite"
    ∷ on_post (fixed "teams" ∷ param "id" ∷ fixed "tokens" ∷ []) "tokenH.Create"
    ∷ on_get (fixed "teams" ∷ param "id" ∷ fixed "tokens" ∷ []) "tokenH.List"
    ∷ on_delete (fixed "teams" ∷ param "id" ∷ fixed "tokens" ∷ param "tokenID" ∷ []) "tokenH.Revoke"
    ∷ on_get (fixed "teams" ∷ param "id" ∷ fixed "audit-logs" ∷ []) "auditH.List"
    ∷ on_post (fixed "teams" ∷ param "id" ∷ fixed "ssh-keys" ∷ []) "sshKeyH.Create"
    ∷ on_get (fixed "teams" ∷ param "id" ∷ fixed "ssh-keys" ∷ []) "sshKeyH.List"
    ∷ on_get (fixed "teams" ∷ param "id" ∷ fixed "ssh-keys" ∷ param "keyID" ∷ []) "sshKeyH.Get"
    ∷ on_delete (fixed "teams" ∷ param "id" ∷ fixed "ssh-keys" ∷ param "keyID" ∷ [])
        "sshKeyH.Delete"
    ∷ on_post (fixed "teams" ∷ param "id" ∷ fixed "servers" ∷ []) "serverH.Create"
    ∷ on_get (fixed "teams" ∷ param "id" ∷ fixed "servers" ∷ []) "serverH.List"
    ∷ on_get (fixed "teams" ∷ param "id" ∷ fixed "servers" ∷ param "serverId" ∷ []) "serverH.Get"
    ∷ on_put (fixed "teams" ∷ param "id" ∷ fixed "servers" ∷ param "serverId" ∷ []) "serverH.Update"
    ∷ on_put (fixed "teams" ∷ param "id" ∷ fixed "servers" ∷ param "serverId" ∷ fixed "role" ∷ [])
        "serverH.SetRole"
    ∷ on_delete (fixed "teams" ∷ param "id" ∷ fixed "servers" ∷ param "serverId" ∷ [])
        "serverH.Delete"
    ∷ on_post
        (fixed "teams" ∷ param "id" ∷ fixed "servers" ∷ param "serverId" ∷ fixed "cleanup" ∷ [])
        "serverH.Cleanup"
    ∷ on_get
        (fixed "teams" ∷ param "id" ∷ fixed "servers" ∷ param "serverId" ∷ fixed "metrics" ∷ [])
        "serverH.Metrics"
    ∷ on_get (fixed "teams" ∷ param "id" ∷ fixed "servers" ∷ param "serverId" ∷ fixed "tags" ∷ [])
        "tagH.List"
    ∷ on_post (fixed "teams" ∷ param "id" ∷ fixed "servers" ∷ param "serverId" ∷ fixed "tags" ∷ [])
        "tagH.Set"
    ∷ on_delete
        (fixed "teams"
          ∷ param "id"
          ∷ fixed "servers"
          ∷ param "serverId"
          ∷ fixed "tags"
          ∷ param "key"
          ∷ [])
        "tagH.Delete"
    ∷ on_post
        (fixed "teams" ∷ param "id" ∷ fixed "servers" ∷ param "serverId" ∷ fixed "provision" ∷ [])
        "provisionH.Start"
    ∷ on_get
        (fixed "teams" ∷ param "id" ∷ fixed "servers" ∷ param "serverId" ∷ fixed "provision" ∷ [])
        "provisionH.Status"
    ∷ on_get
        (fixed "teams"
          ∷ param "id"
          ∷ fixed "servers"
          ∷ param "serverId"
          ∷ fixed "provision"
          ∷ param "jobId"
          ∷ fixed "logs"
          ∷ [])
        "provisionH.StreamLogs"
    ∷ on_post
        (fixed "teams"
          ∷ param "id"
          ∷ fixed "servers"
          ∷ param "serverId"
          ∷ fixed "provision"
          ∷ fixed "retry"
          ∷ [])
        "provisionH.Retry"
    ∷ on_get
        (fixed "teams" ∷ param "id" ∷ fixed "servers" ∷ param "serverId" ∷ fixed "terminal" ∷ [])
        "terminalH.Connect"
    ∷ on_post (fixed "teams" ∷ param "id" ∷ fixed "clusters" ∷ []) "clusterH.Create"
    ∷ on_get (fixed "teams" ∷ param "id" ∷ fixed "clusters" ∷ []) "clusterH.List"
    ∷ on_get (fixed "teams" ∷ param "id" ∷ fixed "clusters" ∷ param "clusterId" ∷ []) "clusterH.Get"
    ∷ on_put (fixed "teams" ∷ param "id" ∷ fixed "clusters" ∷ param "clusterId" ∷ [])
        "clusterH.Update"
    ∷ on_delete (fixed "teams" ∷ param "id" ∷ fixed "clusters" ∷ param "clusterId" ∷ [])
        "clusterH.Delete"
    ∷ on_get
        (fixed "teams" ∷ param "id" ∷ fixed "clusters" ∷ param "clusterId" ∷ fixed "members" ∷ [])
        "clusterH.ListMembers"
    ∷ on_post
        (fixed "teams" ∷ param "id" ∷ fixed "clusters" ∷ param "clusterId" ∷ fixed "members" ∷ [])
        "clusterH.AddMember"
    ∷ on_delete
        (fixed "teams"
          ∷ param "id"
          ∷ fixed "clusters"
          ∷ param "clusterId"
          ∷ fixed "members"
          ∷ param "serverId"
          ∷ [])
        "clusterH.RemoveMember"
    ∷ on_get (fixed "teams" ∷ param "id" ∷ fixed "clusters" ∷ param "clusterId" ∷ fixed "mesh" ∷ [])
        "clusterH.MeshHealth"
    ∷ on_post
        (fixed "teams"
          ∷ param "id"
          ∷ fixed "clusters"
          ∷ param "clusterId"
          ∷ fixed "mesh"
          ∷ fixed "regenerate"
          ∷ [])
        "clusterH.RegenerateMesh"
    ∷ on_get
        (fixed "teams"
          ∷ param "id"
          ∷ fixed "clusters"
          ∷ param "clusterId"
          ∷ fixed "mesh"
          ∷ fixed "logs"
          ∷ [])
        "clusterH.StreamMeshLogs"
    ∷ on_get
        (fixed "teams" ∷ param "id" ∷ fixed "clusters" ∷ param "clusterId" ∷ fixed "events" ∷ [])
        "clusterH.ListEvents"
    ∷ on_post (fixed "teams" ∷ param "id" ∷ fixed "github" ∷ fixed "manifest" ∷ [])
        "githubH.CreateManifest"
    ∷ on_post (fixed "teams" ∷ param "id" ∷ fixed "github" ∷ fixed "callback" ∷ [])
        "githubH.HandleCallback"
    ∷ on_get (fixed "teams" ∷ param "id" ∷ fixed "github" ∷ fixed "app" ∷ []) "githubH.GetApp"
    ∷ on_delete (fixed "teams" ∷ param "id" ∷ fixed "github" ∷ fixed "app" ∷ []) "githubH.DeleteApp"
    ∷ on_get (fixed "teams" ∷ param "id" ∷ fixed "github" ∷ fixed "installations" ∷ [])
        "githubH.ListInstallations"
    ∷ on_post
        (fixed "teams" ∷ param "id" ∷ fixed "github" ∷ fixed "installations" ∷ fixed "sync" ∷ [])
        "githubH.SyncInstallations"
    ∷ on_get
        (fixed "teams"
          ∷ param "id"
          ∷ fixed "github"
          ∷ fixed "installations"
          ∷ param "installationId"
          ∷ fixed "repos"
          ∷ [])
        "githubH.ListRepos"
    ∷ on_post (fixed "teams" ∷ param "id" ∷ fixed "registries" ∷ []) "registryH.Create"
    ∷ on_get (fixed "teams" ∷ param "id" ∷ fixed "registries" ∷ []) "registryH.List"
    ∷ on_get (fixed "teams" ∷ param "id" ∷ fixed "registries" ∷ param "registryId" ∷ [])
        "registryH.Get"
    ∷ on_put (fixed "teams" ∷ param "id" ∷ fixed "registries" ∷ param "registryId" ∷ [])
        "registryH.Update"
    ∷ on_delete (fixed "teams" ∷ param "id" ∷ fixed "registries" ∷ param "registryId" ∷ [])
        "registryH.Delete"
    ∷ on_post
        (fixed "teams"
          ∷ param "id"
          ∷ fixed "registries"
          ∷ param "registryId"
          ∷ fixed "validate"
          ∷ [])
        "registryH.Revalidate"
    ∷ on_post (fixed "teams" ∷ param "id" ∷ fixed "secrets" ∷ []) "secretH.Create"
    ∷ on_get (fixed "teams" ∷ param "id" ∷ fixed "secrets" ∷ []) "secretH.List"
    ∷ on_get (fixed "teams" ∷ param "id" ∷ fixed "secrets" ∷ param "secretId" ∷ []) "secretH.Get"
    ∷ on_post
        (fixed "teams" ∷ param "id" ∷ fixed "secrets" ∷ param "secretId" ∷ fixed "reveal" ∷ [])
        "secretH.Reveal"
    ∷ on_put (fixed "teams" ∷ param "id" ∷ fixed "secrets" ∷ param "secretId" ∷ []) "secretH.Update"
    ∷ on_delete (fixed "teams" ∷ param "id" ∷ fixed "secrets" ∷ param "secretId" ∷ [])
        "secretH.Delete"
    ∷ on_post (fixed "teams" ∷ param "teamId" ∷ fixed "projects" ∷ []) "projectH.Create"
    ∷ on_get (fixed "teams" ∷ param "teamId" ∷ fixed "projects" ∷ []) "projectH.List"
    ∷ on_get (fixed "teams" ∷ param "teamId" ∷ fixed "projects" ∷ param "projectId" ∷ [])
        "projectH.Get"
    ∷ on_put (fixed "teams" ∷ param "teamId" ∷ fixed "projects" ∷ param "projectId" ∷ [])
        "projectH.Update"
    ∷ on_delete (fixed "teams" ∷ param "teamId" ∷ fixed "projects" ∷ param "projectId" ∷ [])
        "projectH.Delete"
    ∷ on_get (fixed "teams" ∷ param "id" ∷ fixed "servers" ∷ param "serverId" ∷ fixed "logs" ∷ [])
        "deployH.ServerLogs"
    ∷ on_get (fixed "teams" ∷ param "id" ∷ fixed "observability" ∷ fixed "metrics" ∷ [])
        "observabilityH.Metrics"
    ∷ on_get (fixed "teams" ∷ param "id" ∷ fixed "observability" ∷ fixed "alerts" ∷ [])
        "observabilityH.ListAlerts"
    ∷ on_post (fixed "teams" ∷ param "id" ∷ fixed "observability" ∷ fixed "alerts" ∷ [])
        "observabilityH.CreateAlert"
    ∷ on_put
        (fixed "teams" ∷ param "id" ∷ fixed "observability" ∷ fixed "alerts" ∷ param "alertId" ∷ [])
        "observabilityH.UpdateAlert"
    ∷ on_delete
        (fixed "teams" ∷ param "id" ∷ fixed "observability" ∷ fixed "alerts" ∷ param "alertId" ∷ [])
        "observabilityH.DeleteAlert"
    ∷ on_post
        (fixed "teams"
          ∷ param "id"
          ∷ fixed "observability"
          ∷ fixed "alerts"
          ∷ fixed "evaluate"
          ∷ [])
        "observabilityH.EvaluateAlerts"
    ∷ on_get (fixed "teams" ∷ param "id" ∷ fixed "observability" ∷ fixed "events" ∷ [])
        "observabilityH.Events"
    ∷ on_get (fixed "teams" ∷ param "id" ∷ fixed "observability" ∷ fixed "channels" ∷ [])
        "observabilityH.ListChannels"
    ∷ on_post (fixed "teams" ∷ param "id" ∷ fixed "observability" ∷ fixed "channels" ∷ [])
        "observabilityH.CreateChannel"
    ∷ on_post (fixed "teams" ∷ param "id" ∷ fixed "observability" ∷ fixed "silences" ∷ [])
        "observabilityH.CreateSilence"
    ∷ on_get
        (fixed "teams"
          ∷ param "id"
          ∷ fixed "clusters"
          ∷ param "clusterId"
          ∷ fixed "observability"
          ∷ fixed "scrape-config"
          ∷ [])
        "observabilityH.ClusterScrapeConfig"
    ∷ on_post
        (fixed "teams"
          ∷ param "id"
          ∷ fixed "clusters"
          ∷ param "clusterId"
          ∷ fixed "observability"
          ∷ fixed "scrape-config"
          ∷ fixed "sync"
          ∷ [])
        "observabilityH.SyncClusterScrapeConfig"
    ∷ on_post (fixed "teams" ∷ param "id" ∷ fixed "volumes" ∷ []) "volumeH.Create"
    ∷ on_get (fixed "teams" ∷ param "id" ∷ fixed "volumes" ∷ []) "volumeH.List"
    ∷ on_get (fixed "teams" ∷ param "id" ∷ fixed "volumes" ∷ param "volumeId" ∷ []) "volumeH.Get"
    ∷ on_delete (fixed "teams" ∷ param "id" ∷ fixed "volumes" ∷ param "volumeId" ∷ [])
        "volumeH.Delete"
    ∷ on_post
        (fixed "teams" ∷ param "id" ∷ fixed "volumes" ∷ param "volumeId" ∷ fixed "attach" ∷ [])
        "volumeH.Attach"
    ∷ on_post
        (fixed "teams" ∷ param "id" ∷ fixed "volumes" ∷ param "volumeId" ∷ fixed "detach" ∷ [])
        "volumeH.Detach"
    ∷ on_post (fixed "teams" ∷ param "id" ∷ fixed "volumes" ∷ param "volumeId" ∷ fixed "move" ∷ [])
        "volumeH.Move"
    ∷ on_post
        (fixed "teams" ∷ param "id" ∷ fixed "volumes" ∷ param "volumeId" ∷ fixed "snapshot" ∷ [])
        "volumeH.Snapshot"
    ∷ on_post
        (fixed "teams" ∷ param "id" ∷ fixed "volumes" ∷ param "volumeId" ∷ fixed "resize" ∷ [])
        "volumeH.Resize"
    ∷ on_get
        (fixed "teams" ∷ param "id" ∷ fixed "volumes" ∷ param "volumeId" ∷ fixed "snapshots" ∷ [])
        "volumeH.ListSnapshots"
    ∷ []
