-- ===== src/Palette/Items.antt =====
-- The list of what the palette can open.
use nixway_core.Prelude.{String, List, [], ◌∷◌, ◌++◌, Option, none, some, map, ◌<>◌, or_else}
use nixway_core.Models.{App}
use nixway_core.Models.Clusters.{Project, Cluster}
use nixway_core.Models.Servers.{Server}
use nixway_core.Models.Databases.{Database, Volume}

-- The icon is left out.
pub record PaletteItem : Type 0 where
  pub id : String
  pub group : String
  pub label : String
  pub hint : Option String
  pub href : String

abbrev nav : String → String → String → PaletteItem
nav id label href = record { id = id; group = "Navigate"; label = label; hint = none; href = href }

abbrev pub nav_items : List PaletteItem
nav_items =
    nav "nav-overview" "Overview" "/dashboard"
    ∷ nav "nav-activity" "Activity" "/activity"
    ∷ nav "nav-servers" "Servers" "/servers"
    ∷ nav "nav-clusters" "Clusters" "/clusters"
    ∷ nav "nav-projects" "Projects" "/projects"
    ∷ nav "nav-databases" "Databases" "/databases"
    ∷ nav "nav-volumes" "Volumes" "/volumes"
    ∷ nav "nav-sshkeys" "SSH Keys" "/ssh-keys"
    ∷ nav "nav-teams" "Teams" "/teams"
    ∷ nav "nav-settings" "Settings" "/settings"
    ∷ []

-- The data of the six queries; `none` is a query without data yet. An app and a database stand with
-- their project.
pub record Sources : Type 0 where
  pub projects : Option (List Project)
  pub apps : Option (List (App × Project))
  pub servers : Option (List Server)
  pub clusters : Option (List Cluster)
  pub databases : Option (List (Database × Project))
  pub volumes : Option (List Volume)

unfoldable pub project_item : Project → PaletteItem
project_item p = record {
  id = "proj-" <> p.id;
  group = "Projects";
  label = p.name;
  hint = some p.slug;
  href = "/projects/" <> (p.id <> "/overview");
}

unfoldable pub app_item : App × Project → PaletteItem
app_item (a, p) = record {
  id = "app-" <> a.id;
  group = "Apps";
  label = a.name;
  hint = some p.name;
  href = "/apps/" <> (a.id <> "/overview");
}

unfoldable pub server_item : Server → PaletteItem
server_item s = record {
  id = "srv-" <> s.id;
  group = "Servers";
  label = s.name;
  hint = some s.public_ip;
  href = "/servers/" <> (s.id <> "/overview");
}

unfoldable pub cluster_item : Cluster → PaletteItem
cluster_item c = record {
  id = "clu-" <> c.id;
  group = "Clusters";
  label = c.name;
  hint = some c.region;
  href = "/clusters/" <> (c.id <> "/overview");
}

unfoldable pub database_item : Database × Project → PaletteItem
database_item (d, p) = record {
  id = "db-" <> d.id;
  group = "Databases";
  label = d.name;
  hint = some (p.name <> (" · " <> (d.template_slug <> (" " <> d.version))));
  href = "/projects/" <> (p.id <> ("/databases/" <> d.id));
}

unfoldable pub volume_item : Volume → PaletteItem
volume_item v = record {
  id = "vol-" <> v.id;
  group = "Volumes";
  label = v.name;
  hint = some (v.size_gb <> (" GiB · " <> v.status));
  href = "/volumes";
}

-- the loops that build `items`
unfoldable pub palette_items : Sources → List PaletteItem
palette_items s =
    nav_items
    ++ (map project_item (or_else s.projects [])
        ++ (map app_item (or_else s.apps [])
            ++ (map server_item (or_else s.servers [])
                ++ (map cluster_item (or_else s.clusters [])
                    ++ (map database_item (or_else s.databases [])
                        ++ map volume_item (or_else s.volumes []))))))
