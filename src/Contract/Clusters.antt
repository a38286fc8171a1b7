-- ===== src/Contract/Clusters.antt =====
-- The handler in internal/api/router.go that each call of Endpoints/Clusters.antt is meant for, and the
-- verdict of the route tables on it.
use nixway_core.Prelude.{String, [], ◌∷◌, some, ◌≡◌, refl}
use nixway_core.Endpoints.Types.{Platform}
use nixway_core.Endpoints.Clusters.{
  ClustersCall, clusters_request, list_clusters, get_cluster, create_cluster, update_cluster,
  remove_cluster, list_members, add_member, remove_member, mesh_health, regenerate_mesh,
  list_projects, get_project, create_project, update_project, remove_project, list_environments,
  create_environment,
}
use nixway_core.Router.Dispatch.{decided}

abbrev pub clusters_handler : ClustersCall → String
clusters_handler (list_clusters _) = "clusterH.List"
clusters_handler (get_cluster _ _) = "clusterH.Get"
clusters_handler (create_cluster _ _) = "clusterH.Create"
clusters_handler (update_cluster _ _ _) = "clusterH.Update"
clusters_handler (remove_cluster _ _) = "clusterH.Delete"
clusters_handler (list_members _ _) = "clusterH.ListMembers"
clusters_handler (add_member _ _ _) = "clusterH.AddMember"
clusters_handler (remove_member _ _ _) = "clusterH.RemoveMember"
clusters_handler (mesh_health _ _) = "clusterH.MeshHealth"
clusters_handler (regenerate_mesh _ _) = "clusterH.RegenerateMesh"
clusters_handler (list_projects _) = "projectH.List"
clusters_handler (get_project _ _) = "projectH.Get"
clusters_handler (create_project _ _) = "projectH.Create"
clusters_handler (update_project _ _ _) = "projectH.Update"
clusters_handler (remove_project _ _) = "projectH.Delete"
clusters_handler (list_environments _) = "projectH.ListEnvironments"
clusters_handler (create_environment _ _) = "projectH.CreateEnvironment"

pub clusters_verdict :
    (p : Platform) (c : ClustersCall)
    → decided (clusters_request p c).method (clusters_request p c).parts
      ≡ some (clusters_handler c ∷ [])
unfolding decided clusters_request
clusters_verdict p (list_clusters _) = refl
clusters_verdict p (get_cluster _ _) = refl
clusters_verdict p (create_cluster _ _) = refl
clusters_verdict p (update_cluster _ _ _) = refl
clusters_verdict p (remove_cluster _ _) = refl
clusters_verdict p (list_members _ _) = refl
clusters_verdict p (add_member _ _ _) = refl
clusters_verdict p (remove_member _ _ _) = refl
clusters_verdict p (mesh_health _ _) = refl
clusters_verdict p (regenerate_mesh _ _) = refl
clusters_verdict p (list_projects _) = refl
clusters_verdict p (get_project _ _) = refl
clusters_verdict p (create_project _ _) = refl
clusters_verdict p (update_project _ _ _) = refl
clusters_verdict p (remove_project _ _) = refl
clusters_verdict p (list_environments _) = refl
clusters_verdict p (create_environment _ _) = refl
