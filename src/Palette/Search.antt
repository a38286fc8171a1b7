-- ===== src/Palette/Search.antt =====
-- The search, the groups and the keys.
use nixway_core.Prelude.{
  String, Bool, not, List, [], ◌∷◌, ◌++◌, Option, none, ◌<>◌, str_eq, truthy, or_else, filter,
  length, get_elem?, if◌then◌else◌,
}
use nixway_core.Prelude.Int.{ℤ, pos, negsuc, ◌+ℤ◌, ◌-ℤ◌, min_ℤ, max_ℤ}
use nixway_core.Palette.Items.{PaletteItem}

-- the string methods `trim`, `toLowerCase` and `includes`
pub record TextMethods : Type 0 where
  pub trim : String → String
  pub lower : String → String
  pub includes : String → String → Bool

unfoldable pub matches_needle : TextMethods → String → PaletteItem → Bool
matches_needle t needle it = t.includes (t.lower (it.label <> (" " <> or_else it.hint ""))) needle

unfoldable pub filtered : TextMethods → String → List PaletteItem → List PaletteItem
unfolding matches_needle
filtered t query items =
    if not (truthy (t.lower (t.trim query)))
    then items
    else filter (matches_needle t (t.lower (t.trim query))) items

-- a `Map` from a group's name to its items, in the order of insertion
abbrev pub Groups : Type 0
Groups = List (String × List PaletteItem)

-- one turn of the loop of `groups`
unfoldable pub add_item : Groups → PaletteItem → Groups
add_item [] it = (it.group, it ∷ []) ∷ []
add_item ((g, list) ∷ gs) it =
    let rest = add_item gs it in
    if str_eq g it.group then (g, list ++ it ∷ []) ∷ gs else (g, list) ∷ rest

unfoldable pub add_items : Groups → List PaletteItem → Groups
unfolding add_item
add_items gs [] = gs
add_items gs (it ∷ items) = add_items (add_item gs it) items

-- the rows as they are rendered, group by group; `runningIdx` counts them
unfoldable pub rows : Groups → List PaletteItem
rows [] = []
rows ((g, list) ∷ gs) = list ++ rows gs

-- `list[i]`
abbrev pub item_at : List PaletteItem → ℤ → Option PaletteItem
item_at items (pos n) = get_elem? items n
item_at items (negsuc n) = none

-- the row that is shown as active: the one whose running index is `active`
unfoldable pub highlighted : List PaletteItem → ℤ → Option PaletteItem
unfolding rows add_items
highlighted flat active = item_at (rows (add_items [] flat)) active

pub data Key : Type 0 where
  arrow_down arrow_up : Key

-- `handleKey` on the arrows
unfoldable pub move : List PaletteItem → ℤ → Key → ℤ
move flat i arrow_down = min_ℤ (pos (length flat) -ℤ pos 1) (i +ℤ pos 1)
move flat i arrow_up = max_ℤ (pos 0) (i -ℤ pos 1)

-- `handleKey` on Enter: the item that is opened
unfoldable pub enter : List PaletteItem → ℤ → Option PaletteItem
enter flat active = item_at flat active
