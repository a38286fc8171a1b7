-- ===== src/Contract/Volumes.antt =====
-- The handler in internal/api/router.go that each call of Endpoints/Volumes.antt is meant for, and the
-- verdict of the route tables on it.
use nixway_core.Prelude.{String, [], ◌∷◌, some, ◌≡◌, refl}
use nixway_core.Endpoints.Types.{Platform}
use nixway_core.Endpoints.Volumes.{
  VolumesCall, volumes_request, list_volumes, get_volume, create_volume, remove_volume, attach,
  detach, move, resize, snapshot, list_snapshots,
}
use nixway_core.Router.Dispatch.{decided}

abbrev pub volumes_handler : VolumesCall → String
volumes_handler (list_volumes _) = "volumeH.List"
volumes_handler (get_volume _ _) = "volumeH.Get"
volumes_handler (create_volume _ _) = "volumeH.Create"
volumes_handler (remove_volume _ _) = "volumeH.Delete"
volumes_handler (attach _ _ _) = "volumeH.Attach"
volumes_handler (detach _ _) = "volumeH.Detach"
volumes_handler (move _ _ _) = "volumeH.Move"
volumes_handler (resize _ _ _) = "volumeH.Resize"
volumes_handler (snapshot _ _) = "volumeH.Snapshot"
volumes_handler (list_snapshots _ _) = "volumeH.ListSnapshots"

pub volumes_verdict :
    (p : Platform) (c : VolumesCall)
    → decided (volumes_request p c).method (volumes_request p c).parts
      ≡ some (volumes_handler c ∷ [])
unfolding decided volumes_request
volumes_verdict p (list_volumes _) = refl
volumes_verdict p (get_volume _ _) = refl
volumes_verdict p (create_volume _ _) = refl
volumes_verdict p (remove_volume _ _) = refl
volumes_verdict p (attach _ _ _) = refl
volumes_verdict p (detach _ _) = refl
volumes_verdict p (move _ _ _) = refl
volumes_verdict p (resize _ _ _) = refl
volumes_verdict p (snapshot _ _) = refl
volumes_verdict p (list_snapshots _ _) = refl
