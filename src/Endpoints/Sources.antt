-- ===== src/Endpoints/Sources.antt =====
-- Calls of githubApi and registriesApi, apps/web-v2/lib/api.ts lines 375 to 423. An input object that
-- a caller passes stands as the members of its JSON.
use nixway_core.Prelude.{ℕ, String, [], ◌∷◌, none, some}
use nixway_core.Json.{str, obj, Members, end, member}
use nixway_core.Http.Types.{get, post, put, delete}
use nixway_core.Endpoints.Types.{arg, lit, Request, Platform}

pub data SourcesCall : Type 0 where
  get_app : String → SourcesCall
  create_manifest : String → SourcesCall
  github_callback : String → String → SourcesCall
  delete_app : String → SourcesCall
  installations : String → SourcesCall
  sync_installations : String → SourcesCall
  repos : String → ℕ → SourcesCall
  list_registries : String → SourcesCall
  create_registry : String → Members → SourcesCall
  update_registry : String → String → Members → SourcesCall
  remove_registry : String → String → SourcesCall
  validate_registry : String → String → SourcesCall

module _ (p : Platform) where
  unfoldable pub sources_request : SourcesCall → Request
  sources_request (get_app team_id) = record {
    method = get;
    parts = lit "teams" ∷ arg team_id ∷ lit "github" ∷ lit "app" ∷ [];
    query = none;
    body = none;
  }
  sources_request (create_manifest team_id) = record {
    method = post;
    parts = lit "teams" ∷ arg team_id ∷ lit "github" ∷ lit "manifest" ∷ [];
    query = none;
    body = some (obj end);
  }
  sources_request (github_callback team_id code) = record {
    method = post;
    parts = lit "teams" ∷ arg team_id ∷ lit "github" ∷ lit "callback" ∷ [];
    query = none;
    body = some (obj (member "code" (str code) end));
  }
  sources_request (delete_app team_id) = record {
    method = delete;
    parts = lit "teams" ∷ arg team_id ∷ lit "github" ∷ lit "app" ∷ [];
    query = none;
    body = none;
  }
  sources_request (installations team_id) = record {
    method = get;
    parts = lit "teams" ∷ arg team_id ∷ lit "github" ∷ lit "installations" ∷ [];
    query = none;
    body = none;
  }
  sources_request (sync_installations team_id) = record {
    method = post;
    parts = lit "teams" ∷ arg team_id ∷ lit "github" ∷ lit "installations" ∷ lit "sync" ∷ [];
    query = none;
    body = none;
  }
  sources_request (repos team_id installation_id) = record {
    method = get;
    parts =
        lit "teams"
        ∷ arg team_id
        ∷ lit "github"
        ∷ lit "installations"
        ∷ arg (p.show installation_id)
        ∷ lit "repos"
        ∷ [];
    query = none;
    body = none;
  }
  sources_request (list_registries team_id) = record {
    method = get;
    parts = lit "teams" ∷ arg team_id ∷ lit "registries" ∷ [];
    query = none;
    body = none;
  }
  sources_request (create_registry team_id input) = record {
    method = post;
    parts = lit "teams" ∷ arg team_id ∷ lit "registries" ∷ [];
    query = none;
    body = some (obj input);
  }
  sources_request (update_registry team_id id input) = record {
    method = put;
    parts = lit "teams" ∷ arg team_id ∷ lit "registries" ∷ arg id ∷ [];
    query = none;
    body = some (obj input);
  }
  sources_request (remove_registry team_id id) = record {
    method = delete;
    parts = lit "teams" ∷ arg team_id ∷ lit "registries" ∷ arg id ∷ [];
    query = none;
    body = none;
  }
  sources_request (validate_registry team_id id) = record {
    method = post;
    parts = lit "teams" ∷ arg team_id ∷ lit "registries" ∷ arg id ∷ lit "validate" ∷ [];
    query = none;
    body = none;
  }
