-- ===== src/Router/OtherTable.antt =====
-- The other routes below /api/v1, internal/api/router.go.
use nixway_core.Prelude.{List, [], ◌∷◌}
use nixway_core.Router.Types.{fixed, param, Route, on_get, on_post}

-- `mux.HandleFunc`: the public routes
abbrev pub public_routes : List Route
public_routes =
    on_post (fixed "auth" ∷ fixed "signup" ∷ []) "authH.Signup"
    ∷ on_post (fixed "auth" ∷ fixed "login" ∷ []) "authH.Login"
    ∷ on_post (fixed "auth" ∷ fixed "verify-email" ∷ []) "authH.VerifyEmail"
    ∷ on_post (fixed "auth" ∷ fixed "resend-verification" ∷ []) "authH.ResendVerification"
    ∷ on_post (fixed "auth" ∷ fixed "forgot-password" ∷ []) "authH.ForgotPassword"
    ∷ on_post (fixed "auth" ∷ fixed "reset-password" ∷ []) "authH.ResetPassword"
    ∷ on_post (fixed "webhooks" ∷ fixed "github" ∷ param "appId" ∷ []) "webhookH.HandleGitHub"
    ∷ on_post (fixed "webhooks" ∷ fixed "github" ∷ fixed "team" ∷ param "teamId" ∷ [])
        "webhookH.HandleGitHubTeam"
    ∷ []

-- `protected.HandleFunc` of every other path
abbrev pub other_routes : List Route
other_routes =
    on_post (fixed "auth" ∷ fixed "logout" ∷ []) "authH.Logout"
    ∷ on_get (fixed "auth" ∷ fixed "me" ∷ []) "authH.Me"
    ∷ on_post (fixed "invites" ∷ fixed "accept" ∷ []) "teamH.AcceptInvite"
    ∷ on_get (fixed "docker-hub" ∷ fixed "search" ∷ []) "dockerHubH.SearchImages"
    ∷ on_get (fixed "docker-hub" ∷ fixed "tags" ∷ []) "dockerHubH.ListTags"
    ∷ on_get (fixed "templates" ∷ []) "templateH.List"
    ∷ on_get (fixed "templates" ∷ param "slug" ∷ []) "templateH.Get"
    ∷ on_get (fixed "templates" ∷ param "slug" ∷ fixed "versions" ∷ []) "templateH.ListVersions"
    ∷ on_get (fixed "databases" ∷ param "databaseId" ∷ []) "databaseH.GetByID"
    ∷ on_get (fixed "databases" ∷ param "databaseId" ∷ fixed "terminal" ∷ []) "dbToolingH.Terminal"
    ∷ on_get (fixed "databases" ∷ param "databaseId" ∷ fixed "schemas" ∷ [])
        "dbToolingH.ListSchemas"
    ∷ on_get
        (fixed "databases"
          ∷ param "databaseId"
          ∷ fixed "schemas"
          ∷ param "schema"
          ∷ fixed "tables"
          ∷ [])
        "dbToolingH.ListTables"
    ∷ on_get
        (fixed "databases"
          ∷ param "databaseId"
          ∷ fixed "schemas"
          ∷ param "schema"
          ∷ fixed "tables"
          ∷ param "table"
          ∷ fixed "rows"
          ∷ [])
        "dbToolingH.GetTableRows"
    ∷ on_post (fixed "databases" ∷ param "databaseId" ∷ fixed "query" ∷ []) "dbToolingH.RunQuery"
    ∷ on_get (fixed "databases" ∷ param "databaseId" ∷ fixed "query-history" ∷ [])
        "dbToolingH.ListQueryHistory"
    ∷ on_get (fixed "databases" ∷ param "databaseId" ∷ fixed "redis" ∷ fixed "keys" ∷ [])
        "dbToolingH.RedisListKeys"
    ∷ on_get (fixed "databases" ∷ param "databaseId" ∷ fixed "redis" ∷ fixed "key" ∷ [])
        "dbToolingH.RedisGetKey"
    ∷ on_get (fixed "databases" ∷ param "databaseId" ∷ fixed "redis" ∷ fixed "info" ∷ [])
        "dbToolingH.RedisInfo"
    ∷ on_get (fixed "databases" ∷ param "databaseId" ∷ fixed "redis" ∷ fixed "config" ∷ [])
        "dbToolingH.RedisConfig"
    ∷ on_get (fixed "databases" ∷ param "databaseId" ∷ fixed "mongo" ∷ fixed "collections" ∷ [])
        "dbToolingH.MongoListCollections"
    ∷ on_get
        (fixed "databases"
          ∷ param "databaseId"
          ∷ fixed "mongo"
          ∷ fixed "collections"
          ∷ param "collection"
          ∷ fixed "find"
          ∷ [])
        "dbToolingH.MongoFind"
    ∷ on_get
        (fixed "databases"
          ∷ param "databaseId"
          ∷ fixed "mongo"
          ∷ fixed "collections"
          ∷ param "collection"
          ∷ fixed "doc"
          ∷ [])
        "dbToolingH.MongoGetDocument"
    ∷ on_post (fixed "discover" ∷ []) "discoverH.Discover"
    ∷ on_get (fixed "admin" ∷ fixed "platform" ∷ fixed "storage" ∷ fixed "status" ∷ [])
        "platformStorageH.Status"
    ∷ []
