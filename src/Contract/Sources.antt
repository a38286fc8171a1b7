-- ===== src/Contract/Sources.antt =====
-- The handler in internal/api/router.go that each call of Endpoints/Sources.antt is meant for, and the
-- verdict of the route tables on it.
use nixway_core.Prelude.{String, [], ◌∷◌, some, ◌≡◌, refl}
use nixway_core.Endpoints.Types.{Platform}
use nixway_core.Endpoints.Sources.{
  SourcesCall, sources_request, get_app, create_manifest, github_callback, delete_app,
  installations, sync_installations, repos, list_registries, create_registry, update_registry,
  remove_registry, validate_registry,
}
use nixway_core.Router.Dispatch.{decided}

abbrev pub sources_handler : SourcesCall → String
sources_handler (get_app _) = "githubH.GetApp"
sources_handler (create_manifest _) = "githubH.CreateManifest"
sources_handler (github_callback _ _) = "githubH.HandleCallback"
sources_handler (delete_app _) = "githubH.DeleteApp"
sources_handler (installations _) = "githubH.ListInstallations"
sources_handler (sync_installations _) = "githubH.SyncInstallations"
sources_handler (repos _ _) = "githubH.ListRepos"
sources_handler (list_registries _) = "registryH.List"
sources_handler (create_registry _ _) = "registryH.Create"
sources_handler (update_registry _ _ _) = "registryH.Update"
sources_handler (remove_registry _ _) = "registryH.Delete"
sources_handler (validate_registry _ _) = "registryH.Revalidate"

pub sources_verdict :
    (p : Platform) (c : SourcesCall)
    → decided (sources_request p c).method (sources_request p c).parts
      ≡ some (sources_handler c ∷ [])
unfolding decided sources_request
sources_verdict p (get_app _) = refl
sources_verdict p (create_manifest _) = refl
sources_verdict p (github_callback _ _) = refl
sources_verdict p (delete_app _) = refl
sources_verdict p (installations _) = refl
sources_verdict p (sync_installations _) = refl
sources_verdict p (repos _ _) = refl
sources_verdict p (list_registries _) = refl
sources_verdict p (create_registry _ _) = refl
sources_verdict p (update_registry _ _ _) = refl
sources_verdict p (remove_registry _ _) = refl
sources_verdict p (validate_registry _ _) = refl
