-- ===== src/Json.antt =====
-- JSON values, as JSON.parse yields them and JSON.stringify takes them.
use nixway_core.Prelude.{Bool, Option, none, some, String, str_eq, if◌then◌else◌}

-- A number stands as its literal text. An object's members stand in order; arrays and objects have
-- lists of their own.
mutual
  pub data Json : Type 0 where
    null : Json
    bool : Bool → Json
    num : String → Json
    str : String → Json
    arr : Items → Json
    obj : Members → Json

  pub data Items : Type 0 where
    nil : Items
    cons : Json → Items → Items

  pub data Members : Type 0 where
    end : Members
    member : String → Json → Members → Members

-- `v[key]`: the last member of that name, as JSON.parse keeps it
unfoldable pub get_member : String → Members → Option Json
get_member key end = none
get_member key (member k v ms) = elim (get_member key ms) [
  | none ↦ if str_eq k key then some v else none
  | some w ↦ some w
]

-- `typeof v === "string"`, with the string
abbrev pub as_text : Option Json → Option String
as_text (some (str s)) = some s
as_text _ = none

-- `data && typeof data === "object" && key in data && typeof data[key] === "string"`, with the
-- string. `null` is falsy, and an array has no such key.
unfoldable pub text_member : String → Option Json → Option String
unfolding get_member
text_member key (some (obj ms)) = as_text (get_member key ms)
text_member key _ = none
