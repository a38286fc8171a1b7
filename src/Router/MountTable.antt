-- ===== src/Router/MountTable.antt =====
-- The mounts of the protected mux, internal/api/router.go.
use nixway_core.Prelude.{List, [], ◌∷◌, true, false}
use nixway_core.Router.Types.{Mount, mount}

-- `mux.Handle`, behind the auth middleware
abbrev pub mounts : List Mount
mounts =
    mount ("auth" ∷ "logout" ∷ []) false
    ∷ mount ("auth" ∷ "me" ∷ []) false
    ∷ mount ("teams" ∷ []) false
    ∷ mount ("teams" ∷ []) true
    ∷ mount ("invites" ∷ []) true
    ∷ mount ("projects" ∷ []) true
    ∷ mount ("apps" ∷ []) true
    ∷ mount ("discover" ∷ []) false
    ∷ mount ("templates" ∷ []) false
    ∷ mount ("templates" ∷ []) true
    ∷ mount ("admin" ∷ []) true
    ∷ mount ("databases" ∷ []) true
    ∷ []
