-- ===== src/Contract/DockerHub.antt =====
-- The route tables verdict on the calls of Endpoints/DockerHub.antt.
use nixway_core.Prelude.{[], some, ◌≡◌, refl}
use nixway_core.Endpoints.Types.{Platform}
use nixway_core.Endpoints.DockerHub.{
  DockerHubCall, docker_hub_request, search_images, list_image_tags,
}
use nixway_core.Router.Dispatch.{decided}

pub docker_hub_verdict :
    (p : Platform) (c : DockerHubCall)
    → decided (docker_hub_request p c).method (docker_hub_request p c).parts ≡ some ([])
unfolding decided docker_hub_request
docker_hub_verdict p (search_images _) = refl
docker_hub_verdict p (list_image_tags _) = refl
