-- ===== src/Provision/Registry.antt =====
-- Get and GetVersion of internal/template/registry.go, on the list of templates that the API hands out.
use nixway_core.Prelude.{
  String, Bool, List, [], ◌∷◌, Option, none, some, ◌<>◌, str_eq, find, if◌then◌else◌,
}
use nixway_core.Models.Databases.{TemplateVersion, Template}

-- `bySlug` keeps the last index of a slug
abbrev pub template_after : Bool → Template → Option Template → Option Template
template_after same t (some u) = some u
template_after same t none = if same then some t else none

abbrev pub template_by_slug : List Template → String → Option Template
template_by_slug [] slug = none
template_by_slug (t ∷ ts) slug = template_after (str_eq t.slug slug) t (template_by_slug ts slug)

pub data Lookup : Type 0 where
  found : TemplateVersion → Lookup
  unknown : String → Lookup

-- `fmt.Errorf`, for the texts that `%q` quotes
module _ (quoted : String → String) where
  abbrev version_found : String → String → Option TemplateVersion → Lookup
  version_found slug version none =
      unknown ("version " <> (quoted version <> (" not found for template " <> quoted slug)))
  version_found slug version (some v) = found v

  abbrev lookup_version : String → String → Option Template → Lookup
  lookup_version slug version none = unknown ("template not found: " <> slug)
  lookup_version slug version (some t) =
      version_found slug version (find (λ v. str_eq v.version version) t.versions)

  unfoldable pub get_version : List Template → String → String → Lookup
  get_version ts slug version = lookup_version slug version (template_by_slug ts slug)
