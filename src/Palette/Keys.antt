-- ===== src/Palette/Keys.antt =====
-- The keys of the palette, which act on the active row.
use nixway_core.Prelude.{
  ℕ, suc, ◌≤◌, String, List, [], ◌∷◌, some, ◌≡◌, refl, sym, ap, arith, length, get_elem?-some,
}
use nixway_core.Prelude.Int.{ℤ, pos, negsuc, pos_part, neg_part, +ℤ_parts, -ℤ_parts}
use nixway_core.Palette.Items.{PaletteItem, Sources, palette_items}
use nixway_core.Palette.Search.{
  TextMethods, filtered, item_at, highlighted, Key, arrow_down, arrow_up, move, enter,
}
use nixway_core.Palette.Order.{rows-filtered}

-- Enter opens the item of the row that is shown as active, and nothing where no row is, for every
-- state of the queries, search and position.
pub enter-highlighted :
    (s : Sources) (t : TextMethods) (query : String) (active : ℤ)
    → enter (filtered t query (palette_items s)) active
      ≡ highlighted (filtered t query (palette_items s)) active
unfolding enter highlighted
enter-highlighted s t query active = ap (λ l. item_at l active) (sym (rows-filtered s t query))

-- the position after some keys
abbrev pub moves : List PaletteItem → ℤ → List Key → ℤ
moves flat i [] = i
moves flat i (k ∷ ks) = moves flat (move flat i k) ks

-- a position among `n` rows
abbrev pub Within : ℕ → ℤ → Type 0
Within n i = (neg_part i ≡ 0) × (suc (pos_part i) ≤ n)

move-Within :
    (flat : List PaletteItem) (i : ℤ) (k : Key)
    → Within (length flat) i
    → Within (length flat) (move flat i k)
unfolding move
move-Within flat i arrow_down h =
    ground (arith, +ℤ_parts i (pos 1), -ℤ_parts (pos (length flat)) (pos 1))
move-Within flat i arrow_up h = ground (arith, -ℤ_parts i (pos 1))

moves-Within :
    (flat : List PaletteItem) (i : ℤ) (ks : List Key)
    → Within (length flat) i
    → Within (length flat) (moves flat i ks)
moves-Within flat i [] h = h
moves-Within flat i (k ∷ ks) h = moves-Within flat (move flat i k) ks (move-Within flat i k h)

item_at-some :
    (flat : List PaletteItem) (i : ℤ)
    → Within (length flat) i
    → (it : PaletteItem) × (item_at flat i ≡ some it)
item_at-some flat (pos n) (z, h) = get_elem?-some flat n h
item_at-some flat (negsuc n) (z, h) = ground arith

-- From the first row of a list with an item, every sequence of arrow keys leads to a position that
-- is not negative and below the length, and Enter opens an item there.
pub enter-moves :
    (flat : List PaletteItem) (ks : List Key)
    → 1 ≤ length flat
    → Within (length flat) (moves flat (pos 0) ks)
      × ((it : PaletteItem) × (enter flat (moves flat (pos 0) ks) ≡ some it))
unfolding enter
enter-moves flat ks h =
    let w = moves-Within flat (pos 0) ks (refl, h) in
    (w, item_at-some flat (moves flat (pos 0) ks) w)
