-- ===== src/Palette/Order.antt =====
-- The order of the rows, and the flat list the keys count in.
use nixway_core.Prelude.{
  String, Bool, false, ◌||◌, List, [], ◌∷◌, ◌++◌, map, ◌≡◌, refl, sym, ap, ◌∙◌, arith, str_eq,
  str_eq_refl, truthy, or_else, filter, any, All, Bool-cases, inl, inr,
}
use mathlib.Core.List.{append-nil, append_assoc}
use nixway_core.Palette.Items.{
  PaletteItem, Sources, nav_items, project_item, app_item, server_item, cluster_item, database_item,
  volume_item, palette_items,
}
use nixway_core.Palette.Search.{
  TextMethods, matches_needle, filtered, Groups, add_item, add_items, rows,
}

abbrev has_group : Groups → String → Bool
has_group gs g = any (λ e. str_eq e.0 g) gs

abbrev InGroup : String → List PaletteItem → Type 0
InGroup g items = All (λ it. PaletteItem.group it ≡ g) items

add_item-last :
    (gs : Groups) (g : String) (list : List PaletteItem) (it : PaletteItem)
    → has_group gs g ≡ false
    → it.group ≡ g
    → add_item (gs ++ (g, list) ∷ []) it ≡ gs ++ (g, list ++ it ∷ []) ∷ []
unfolding add_item
add_item-last [] g list it new e = rw (e, str_eq_refl) refl
add_item-last ((h, l) ∷ gs) g list it new e = ground (arith, add_item-last gs g list it)

add_item-new :
    (gs : Groups) (it : PaletteItem)
    → has_group gs it.group ≡ false
    → add_item gs it ≡ gs ++ (it.group, it ∷ []) ∷ []
unfolding add_item
add_item-new [] it new = refl
add_item-new ((h, l) ∷ gs) it new = ground (arith, add_item-new gs it)

add_items-block :
    (gs : Groups) (g : String) (list items : List PaletteItem)
    → has_group gs g ≡ false
    → InGroup g items
    → add_items (gs ++ (g, list) ∷ []) items ≡ gs ++ (g, list ++ items) ∷ []
unfolding add_items
add_items-block gs g list [] new h = ap (λ l. gs ++ (g, l) ∷ []) (sym (append-nil list))
add_items-block gs g list (it ∷ items) new (e, h) =
    ap (λ gs'. add_items gs' items) (add_item-last gs g list it new e)
    ∙ add_items-block gs g (list ++ it ∷ []) items new h
    ∙ ap (λ l. gs ++ (g, l) ∷ []) (append_assoc list (it ∷ []) items)

-- the groups with one more, if it has an item
with_block : Groups → String → List PaletteItem → Groups
with_block gs g [] = gs
with_block gs g (it ∷ items) = gs ++ (g, it ∷ items) ∷ []

add_items-fresh :
    (gs : Groups) (g : String) (items : List PaletteItem)
    → has_group gs g ≡ false
    → InGroup g items
    → add_items gs items ≡ with_block gs g items
unfolding add_items with_block
add_items-fresh gs g [] new h = refl
add_items-fresh gs g (it ∷ items) new (e, h) =
    ap (λ gs'. add_items gs' items)
      (add_item-new gs it (rw e new) ∙ ap (λ k. gs ++ (k, it ∷ []) ∷ []) e)
    ∙ add_items-block gs g (it ∷ []) items new h

rows-append : (gs hs : Groups) → rows (gs ++ hs) ≡ rows gs ++ rows hs
unfolding rows
rows-append [] hs = refl
rows-append ((g, l) ∷ gs) hs =
    ap (λ r. l ++ r) (rows-append gs hs) ∙ sym (append_assoc l (rows gs) (rows hs))

rows-with_block :
    (gs : Groups) (g : String) (items : List PaletteItem)
    → rows (with_block gs g items) ≡ rows gs ++ items
unfolding with_block rows
rows-with_block gs g [] = sym (append-nil (rows gs))
rows-with_block gs g (it ∷ items) =
    rows-append gs ((g, it ∷ items) ∷ []) ∙ ap (λ l. rows gs ++ l) (append-nil (it ∷ items))

has_group-append :
    (gs hs : Groups) (g : String) → has_group (gs ++ hs) g ≡ (has_group gs g || has_group hs g)
has_group-append [] hs g = refl
has_group-append (e ∷ gs) hs g = ground (arith, has_group-append gs hs g)

has_group-with_block :
    (gs : Groups) (g h : String) (items : List PaletteItem)
    → has_group gs h ≡ false
    → str_eq g h ≡ false
    → has_group (with_block gs g items) h ≡ false
unfolding with_block
has_group-with_block gs g h [] new other = new
has_group-with_block gs g h (it ∷ items) new other =
    has_group-append gs ((g, it ∷ items) ∷ []) h ∙ rw (new, other) refl

add_items-append :
    (gs : Groups) (xs ys : List PaletteItem)
    → add_items gs (xs ++ ys) ≡ add_items (add_items gs xs) ys
unfolding add_items
add_items-append gs [] ys = refl
add_items-append gs (x ∷ xs) ys = add_items-append (add_item gs x) xs ys

-- runs of items, each run of one group
abbrev Blocks : Type 0
Blocks = List (String × List PaletteItem)

abbrev joined : Blocks → List PaletteItem
joined [] = []
joined ((g, items) ∷ bs) = items ++ joined bs

abbrev Fresh : Groups → Blocks → Type 0
Fresh gs bs = All (λ b. has_group gs b.0 ≡ false) bs

abbrev AreBlocks : Blocks → Type 0
AreBlocks [] = Unit
AreBlocks ((g, items) ∷ bs) = InGroup g items × All (λ b. str_eq g b.0 ≡ false) bs × AreBlocks bs

Fresh-with_block :
    (gs : Groups) (g : String) (items : List PaletteItem) (bs : Blocks)
    → Fresh gs bs
    → All (λ b. str_eq g b.0 ≡ false) bs
    → Fresh (with_block gs g items) bs
Fresh-with_block gs g items [] f o = tt
Fresh-with_block gs g items (b ∷ bs) (f, fs) (o, os) =
    (has_group-with_block gs g b.0 items f o, Fresh-with_block gs g items bs fs os)

rows-add_items :
    (gs : Groups) (bs : Blocks)
    → AreBlocks bs
    → Fresh gs bs
    → rows (add_items gs (joined bs)) ≡ rows gs ++ joined bs
unfolding add_items
rows-add_items gs [] h f = sym (append-nil (rows gs))
rows-add_items gs ((g, items) ∷ bs) (i, o, h) (f, fs) =
    ap rows (
      add_items-append gs items (joined bs)
      ∙ ap (λ gs'. add_items gs' (joined bs)) (add_items-fresh gs g items f i))
    ∙ rows-add_items (with_block gs g items) bs h (Fresh-with_block gs g items bs fs o)
    ∙ ap (λ l. l ++ joined bs) (rows-with_block gs g items)
    ∙ append_assoc (rows gs) items (joined bs)

Fresh-nil : (bs : Blocks) → Fresh [] bs
Fresh-nil [] = tt
Fresh-nil (b ∷ bs) = (refl, Fresh-nil bs)

-- Grouped in runs of different groups, the rows are the items in their order.
rows_of_blocks : (bs : Blocks) → AreBlocks bs → rows (add_items [] (joined bs)) ≡ joined bs
unfolding rows
rows_of_blocks bs h = rows-add_items [] bs h (Fresh-nil bs)

filter-append_items :
    (p : PaletteItem → Bool) (xs ys : List PaletteItem)
    → filter p (xs ++ ys) ≡ filter p xs ++ filter p ys
filter-append_items p [] ys = refl
filter-append_items p (x ∷ xs) ys = ground (arith, filter-append_items p xs ys)

filter_blocks : (PaletteItem → Bool) → Blocks → Blocks
filter_blocks p [] = []
filter_blocks p ((g, items) ∷ bs) = (g, filter p items) ∷ filter_blocks p bs

filter-joined :
    (p : PaletteItem → Bool) (bs : Blocks) → filter p (joined bs) ≡ joined (filter_blocks p bs)
unfolding filter_blocks
filter-joined p [] = refl
filter-joined p ((g, items) ∷ bs) =
    filter-append_items p items (joined bs) ∙ ap (λ l. filter p items ++ l) (filter-joined p bs)

InGroup-filter :
    (p : PaletteItem → Bool) (g : String) (items : List PaletteItem)
    → InGroup g items
    → InGroup g (filter p items)
InGroup-filter p g [] h = tt
InGroup-filter p g (it ∷ items) (e, h) = elim (Bool-cases (p it)) [
  | inl kept ↦ rw kept (e, InGroup-filter p g items h)
  | inr gone ↦ rw gone (InGroup-filter p g items h)
]

others-filter_blocks :
    (p : PaletteItem → Bool) (g : String) (bs : Blocks)
    → All (λ b. str_eq g b.0 ≡ false) bs
    → All (λ b. str_eq g b.0 ≡ false) (filter_blocks p bs)
unfolding filter_blocks
others-filter_blocks p g [] o = tt
others-filter_blocks p g ((h, items) ∷ bs) (o, os) = (o, others-filter_blocks p g bs os)

AreBlocks-filter_blocks :
    (p : PaletteItem → Bool) (bs : Blocks) → AreBlocks bs → AreBlocks (filter_blocks p bs)
unfolding filter_blocks
AreBlocks-filter_blocks p [] h = tt
AreBlocks-filter_blocks p ((g, items) ∷ bs) (i, o, h) =
    (InGroup-filter p g items i, others-filter_blocks p g bs o, AreBlocks-filter_blocks p bs h)

InGroup-map {ℓ} :
    {A : Type ℓ} (f : A → PaletteItem) (g : String) (xs : List A)
    → ((x : A) → (f x).group ≡ g)
    → InGroup g (map f xs)
InGroup-map f g [] h = tt
InGroup-map f g (x ∷ xs) h = (h x, InGroup-map f g xs h)

blocks : Sources → Blocks
blocks s =
    ("Navigate", nav_items)
    ∷ ("Projects", map project_item (or_else s.projects []))
    ∷ ("Apps", map app_item (or_else s.apps []))
    ∷ ("Servers", map server_item (or_else s.servers []))
    ∷ ("Clusters", map cluster_item (or_else s.clusters []))
    ∷ ("Databases", map database_item (or_else s.databases []))
    ∷ ("Volumes", map volume_item (or_else s.volumes []))
    ∷ []

joined-blocks : (s : Sources) → joined (blocks s) ≡ palette_items s
unfolding blocks palette_items
joined-blocks s = rw append-nil refl

AreBlocks-blocks : (s : Sources) → AreBlocks (blocks s)
unfolding blocks project_item app_item server_item cluster_item database_item volume_item
AreBlocks-blocks s = (
  (refl, (refl, (refl, (refl, (refl, (refl, (refl, (refl, (refl, (refl, tt)))))))))),
  (refl, (refl, (refl, (refl, (refl, (refl, tt)))))),
  (
    InGroup-map project_item "Projects" (or_else s.projects []) (λ p. refl),
    (refl, (refl, (refl, (refl, (refl, tt))))),
    (
      InGroup-map app_item "Apps" (or_else s.apps []) (λ (a, p). refl),
      (refl, (refl, (refl, (refl, tt)))),
      (
        InGroup-map server_item "Servers" (or_else s.servers []) (λ v. refl),
        (refl, (refl, (refl, tt))),
        (
          InGroup-map cluster_item "Clusters" (or_else s.clusters []) (λ c. refl),
          (refl, (refl, tt)),
          (
            InGroup-map database_item "Databases" (or_else s.databases []) (λ (d, p). refl),
            (refl, tt),
            (InGroup-map volume_item "Volumes" (or_else s.volumes []) (λ v. refl), tt, tt),
          ),
        ),
      ),
    ),
  ),
)

-- For every state of the queries and every search, the rows of the groups, one group after the
-- other, are the found items in the order of the flat list.
pub rows-filtered :
    (s : Sources) (t : TextMethods) (query : String)
    → rows (add_items [] (filtered t query (palette_items s))) ≡ filtered t query (palette_items s)
unfolding filtered
rows-filtered s t query =
    let found = filter_blocks (matches_needle t (t.lower (t.trim query))) (blocks s) in
    let all = rows_of_blocks (blocks s) (AreBlocks-blocks s) in
    let some_found =
      rows_of_blocks found (AreBlocks-filter_blocks _ (blocks s) (AreBlocks-blocks s)) in
    let e = filter-joined (matches_needle t (t.lower (t.trim query))) (blocks s) in
    elim (Bool-cases (truthy (t.lower (t.trim query)))) [
      | inl given ↦ rw (given, sym (joined-blocks s), e) some_found
      | inr empty ↦ rw (empty, sym (joined-blocks s)) all
    ]
