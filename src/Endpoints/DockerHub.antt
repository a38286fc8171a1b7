-- ===== src/Endpoints/DockerHub.antt =====
-- Calls of dockerHubApi, apps/web-v2/lib/api.ts lines 427 to 432. An input object that
-- a caller passes stands as the members of its JSON.
use nixway_core.Prelude.{String, [], ◌∷◌, none, some, ◌<>◌}
use nixway_core.Http.Types.{get}
use nixway_core.Endpoints.Types.{lit, Request, Platform}

pub data DockerHubCall : Type 0 where
  search_images : String → DockerHubCall
  list_image_tags : String → DockerHubCall

module _ (p : Platform) where
  unfoldable pub docker_hub_request : DockerHubCall → Request
  docker_hub_request (search_images q) = record {
    method = get;
    parts = lit "docker-hub" ∷ lit "search" ∷ [];
    query = some ("q=" <> p.encode q);
    body = none;
  }
  docker_hub_request (list_image_tags image) = record {
    method = get;
    parts = lit "docker-hub" ∷ lit "tags" ∷ [];
    query = some ("image=" <> p.encode image);
    body = none;
  }
