-- ===== src/Witnesses/Api.antt =====
-- Requests of the client, and updates of an app, at concrete inputs.
use nixway_core.Prelude.{true, [], ◌∷◌, none, some, ◌≡◌, refl, ◌<>◌}
use nixway_core.Prelude.Int.{pos}
use nixway_core.Json.{null}
use nixway_core.Http.Types.{get, post}
use nixway_core.Endpoints.Types.{path}
use nixway_core.Endpoints.Apps.{rollback, apps_request, remove_domain_body}
use nixway_core.Endpoints.DockerHub.{search_images, docker_hub_request}
use nixway_core.Router.Serve.{handlers_for}
use nixway_core.Contract.Bodies.{IsSent}
use nixway_core.Endpoints.Teams.{create_team, teams_request}
use nixway_core.Contract.{call-IsSent, teams, apps, call-served, docker_hub-unserved}
use nixway_core.AppUpdate.Decode.{Decoder}
use nixway_core.AppUpdate.Server.{Row, fails, updated, handle_update}
use nixway_core.AppUpdate.Form.{Inputs, Reader, is_dirty, save_patch, handle_save}
use nixway_core.AppUpdate.Effects.{handle_save-refused, domainless, remove_domain-resets}
use nixway_core.Witnesses.Data.{plain_platform, shop}

call-served_example :
    handlers_for post ("/api/v1" <> path (apps_request plain_platform (rollback "a1" none)))
    ≡ "deployH.Rollback" ∷ []
unfolding apps_request
call-served_example = call-served plain_platform (apps (rollback "a1" none)) refl

docker_hub-unserved_example :
    handlers_for get ("/api/v1" <> path (docker_hub_request plain_platform (search_images "nginx")))
    ≡ []
unfolding docker_hub_request
docker_hub-unserved_example = docker_hub-unserved plain_platform (search_images "nginx")

abbrev stored_row : Row
stored_row = record {
  name = "shop";
  branch = some "main";
  root_path = "web";
  auto_deploy = true;
  builder = "nixpacks";
  dockerfile_path = "";
  port = pos 8080;
  health_check_path = "/up";
  health_check_interval = pos 30;
  health_check_timeout = pos 5;
  replicas = pos 2;
  subdomain = some "shop";
  custom_domain = some "shop.example.com";
  status = "active";
  placement_strategy = "pinned";
  placement_constraints = null;
  pinned_server_ids = "s1" ∷ [];
}

abbrev typed : Inputs
typed = record { name = "shop two"; replicas = "3"; port = "8080"; health_path = "/up" }

abbrev plain_reader : Reader
plain_reader = record { trim = λ s. s; number = λ s. some 1 }

abbrev decoder : Decoder
decoder = record { int32 = λ l. some (pos 1); is_uuid = λ s. true }

handle_save-refused_example :
    handle_update decoder (save_patch plain_platform plain_reader typed) stored_row
    ≡ fails 500 "failed to update app"
unfolding handle_save is_dirty
handle_save-refused_example =
    handle_save-refused decoder plain_platform plain_reader shop typed
      (save_patch plain_platform plain_reader typed) stored_row refl

remove_domain-resets_example :
    handle_update decoder (remove_domain_body plain_platform shop) stored_row
    ≡ updated (domainless decoder shop stored_row (pos 1) (pos 1))
remove_domain-resets_example =
    remove_domain-resets decoder plain_platform shop stored_row (pos 1) (pos 1) refl refl refl refl
      refl

call-IsSent_example : IsSent (λ v. "{}") (teams_request plain_platform (create_team "ops"))
call-IsSent_example = call-IsSent (λ v. "{}") plain_platform (teams (create_team "ops"))
