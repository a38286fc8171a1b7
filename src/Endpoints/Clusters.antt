-- ===== src/Endpoints/Clusters.antt =====
-- Calls of clustersApi, clusterMembersApi, meshApi, projectsApi and environmentsApi, apps/web-v2/lib/api.ts lines 316 to 366. An input object that
-- a caller passes stands as the members of its JSON.
use nixway_core.Prelude.{String, [], ◌∷◌, none, some}
use nixway_core.Json.{str, obj, Members, end, member}
use nixway_core.Http.Types.{get, post, put, delete}
use nixway_core.Endpoints.Types.{arg, lit, Request, Platform}

pub data ClustersCall : Type 0 where
  list_clusters : String → ClustersCall
  get_cluster : String → String → ClustersCall
  create_cluster : String → Members → ClustersCall
  update_cluster : String → String → Members → ClustersCall
  remove_cluster : String → String → ClustersCall
  list_members : String → String → ClustersCall
  add_member : String → String → String → ClustersCall
  remove_member : String → String → String → ClustersCall
  mesh_health : String → String → ClustersCall
  regenerate_mesh : String → String → ClustersCall
  list_projects : String → ClustersCall
  get_project : String → String → ClustersCall
  create_project : String → Members → ClustersCall
  update_project : String → String → Members → ClustersCall
  remove_project : String → String → ClustersCall
  list_environments : String → ClustersCall
  create_environment : String → String → ClustersCall

module _ (p : Platform) where
  unfoldable pub clusters_request : ClustersCall → Request
  clusters_request (list_clusters team_id) = record {
    method = get;
    parts = lit "teams" ∷ arg team_id ∷ lit "clusters" ∷ [];
    query = none;
    body = none;
  }
  clusters_request (get_cluster team_id cluster_id) = record {
    method = get;
    parts = lit "teams" ∷ arg team_id ∷ lit "clusters" ∷ arg cluster_id ∷ [];
    query = none;
    body = none;
  }
  clusters_request (create_cluster team_id input) = record {
    method = post;
    parts = lit "teams" ∷ arg team_id ∷ lit "clusters" ∷ [];
    query = none;
    body = some (obj input);
  }
  clusters_request (update_cluster team_id cluster_id patch) = record {
    method = put;
    parts = lit "teams" ∷ arg team_id ∷ lit "clusters" ∷ arg cluster_id ∷ [];
    query = none;
    body = some (obj patch);
  }
  clusters_request (remove_cluster team_id cluster_id) = record {
    method = delete;
    parts = lit "teams" ∷ arg team_id ∷ lit "clusters" ∷ arg cluster_id ∷ [];
    query = none;
    body = none;
  }
  clusters_request (list_members team_id cluster_id) = record {
    method = get;
    parts = lit "teams" ∷ arg team_id ∷ lit "clusters" ∷ arg cluster_id ∷ lit "members" ∷ [];
    query = none;
    body = none;
  }
  clusters_request (add_member team_id cluster_id server_id) = record {
    method = post;
    parts = lit "teams" ∷ arg team_id ∷ lit "clusters" ∷ arg cluster_id ∷ lit "members" ∷ [];
    query = none;
    body = some (obj (member "server_id" (str server_id) end));
  }
  clusters_request (remove_member team_id cluster_id server_id) = record {
    method = delete;
    parts =
        lit "teams"
        ∷ arg team_id
        ∷ lit "clusters"
        ∷ arg cluster_id
        ∷ lit "members"
        ∷ arg server_id
        ∷ [];
    query = none;
    body = none;
  }
  clusters_request (mesh_health team_id cluster_id) = record {
    method = get;
    parts = lit "teams" ∷ arg team_id ∷ lit "clusters" ∷ arg cluster_id ∷ lit "mesh" ∷ [];
    query = none;
    body = none;
  }
  clusters_request (regenerate_mesh team_id cluster_id) = record {
    method = post;
    parts =
        lit "teams"
        ∷ arg team_id
        ∷ lit "clusters"
        ∷ arg cluster_id
        ∷ lit "mesh"
        ∷ lit "regenerate"
        ∷ [];
    query = none;
    body = none;
  }
  clusters_request (list_projects team_id) = record {
    method = get;
    parts = lit "teams" ∷ arg team_id ∷ lit "projects" ∷ [];
    query = none;
    body = none;
  }
  clusters_request (get_project team_id project_id) = record {
    method = get;
    parts = lit "teams" ∷ arg team_id ∷ lit "projects" ∷ arg project_id ∷ [];
    query = none;
    body = none;
  }
  clusters_request (create_project team_id input) = record {
    method = post;
    parts = lit "teams" ∷ arg team_id ∷ lit "projects" ∷ [];
    query = none;
    body = some (obj input);
  }
  clusters_request (update_project team_id project_id patch) = record {
    method = put;
    parts = lit "teams" ∷ arg team_id ∷ lit "projects" ∷ arg project_id ∷ [];
    query = none;
    body = some (obj patch);
  }
  clusters_request (remove_project team_id project_id) = record {
    method = delete;
    parts = lit "teams" ∷ arg team_id ∷ lit "projects" ∷ arg project_id ∷ [];
    query = none;
    body = none;
  }
  clusters_request (list_environments project_id) = record {
    method = get;
    parts = lit "projects" ∷ arg project_id ∷ lit "environments" ∷ [];
    query = none;
    body = none;
  }
  clusters_request (create_environment project_id name) = record {
    method = post;
    parts = lit "projects" ∷ arg project_id ∷ lit "environments" ∷ [];
    query = none;
    body = some (obj (member "name" (str name) end));
  }
