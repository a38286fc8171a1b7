-- ===== src/Endpoints/Volumes.antt =====
-- Calls of volumesApi, apps/web-v2/lib/api.ts lines 740 to 757. An input object that
-- a caller passes stands as the members of its JSON.
use nixway_core.Prelude.{ℕ, String, [], ◌∷◌, none, some}
use nixway_core.Json.{num, str, obj, Members, end, member}
use nixway_core.Http.Types.{get, post, delete}
use nixway_core.Endpoints.Types.{arg, lit, Request, Platform}

pub data VolumesCall : Type 0 where
  list_volumes : String → VolumesCall
  get_volume : String → String → VolumesCall
  create_volume : String → Members → VolumesCall
  remove_volume : String → String → VolumesCall
  attach : String → String → Members → VolumesCall
  detach : String → String → VolumesCall
  move : String → String → String → VolumesCall
  resize : String → String → ℕ → VolumesCall
  snapshot : String → String → VolumesCall
  list_snapshots : String → String → VolumesCall

module _ (p : Platform) where
  unfoldable pub volumes_request : VolumesCall → Request
  volumes_request (list_volumes team_id) = record {
    method = get;
    parts = lit "teams" ∷ arg team_id ∷ lit "volumes" ∷ [];
    query = none;
    body = none;
  }
  volumes_request (get_volume team_id volume_id) = record {
    method = get;
    parts = lit "teams" ∷ arg team_id ∷ lit "volumes" ∷ arg volume_id ∷ [];
    query = none;
    body = none;
  }
  volumes_request (create_volume team_id input) = record {
    method = post;
    parts = lit "teams" ∷ arg team_id ∷ lit "volumes" ∷ [];
    query = none;
    body = some (obj input);
  }
  volumes_request (remove_volume team_id volume_id) = record {
    method = delete;
    parts = lit "teams" ∷ arg team_id ∷ lit "volumes" ∷ arg volume_id ∷ [];
    query = none;
    body = none;
  }
  volumes_request (attach team_id volume_id input) = record {
    method = post;
    parts = lit "teams" ∷ arg team_id ∷ lit "volumes" ∷ arg volume_id ∷ lit "attach" ∷ [];
    query = none;
    body = some (obj input);
  }
  volumes_request (detach team_id volume_id) = record {
    method = post;
    parts = lit "teams" ∷ arg team_id ∷ lit "volumes" ∷ arg volume_id ∷ lit "detach" ∷ [];
    query = none;
    body = none;
  }
  volumes_request (move team_id volume_id target_server_id) = record {
    method = post;
    parts = lit "teams" ∷ arg team_id ∷ lit "volumes" ∷ arg volume_id ∷ lit "move" ∷ [];
    query = none;
    body = some (obj (member "target_server_id" (str target_server_id) end));
  }
  volumes_request (resize team_id volume_id new_size_gb) = record {
    method = post;
    parts = lit "teams" ∷ arg team_id ∷ lit "volumes" ∷ arg volume_id ∷ lit "resize" ∷ [];
    query = none;
    body = some (obj (member "new_size_gb" (num (p.show new_size_gb)) end));
  }
  volumes_request (snapshot team_id volume_id) = record {
    method = post;
    parts = lit "teams" ∷ arg team_id ∷ lit "volumes" ∷ arg volume_id ∷ lit "snapshot" ∷ [];
    query = none;
    body = none;
  }
  volumes_request (list_snapshots team_id volume_id) = record {
    method = get;
    parts = lit "teams" ∷ arg team_id ∷ lit "volumes" ∷ arg volume_id ∷ lit "snapshots" ∷ [];
    query = none;
    body = none;
  }
