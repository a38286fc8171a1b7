-- ===== src/Witnesses/Palettes.antt =====
-- The command palette at concrete data.
use nixway_core.Prelude.{true, [], none, some, ◌≡◌}
use nixway_core.Prelude.Int.{pos}
use nixway_core.Palette.Items.{Sources, palette_items}
use nixway_core.Palette.Search.{TextMethods, filtered, highlighted, enter}
use nixway_core.Palette.Keys.{enter-highlighted}

abbrev methods : TextMethods
methods = record { trim = λ s. s; lower = λ s. s; includes = λ hay needle. true }

abbrev sources : Sources
sources = record {
  projects = some [];
  apps = none;
  servers = none;
  clusters = none;
  databases = none;
  volumes = none;
}

enter-highlighted_example :
    enter (filtered methods "s" (palette_items sources)) (pos 1)
    ≡ highlighted (filtered methods "s" (palette_items sources)) (pos 1)
enter-highlighted_example = enter-highlighted sources methods "s" (pos 1)
