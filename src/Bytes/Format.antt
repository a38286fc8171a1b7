-- ===== src/Bytes/Format.antt =====
-- The `formatBytes` functions: what precedes and follows their loop.
use nixway_core.Prelude.{
  ℕ, ◌-◌, ◌*◌, String, Bool, not, ◌&&◌, ◌||◌, List, [], ◌∷◌, Option, some, none, ◌<>◌, ◌==◌, leb,
  length, get_elem?, or_else, if◌then◌else◌,
}
use nixway_core.Bytes.Loop.{Amount, at_least, over_1024, scale}

-- the methods of a number, `v.toFixed(digits)` and `String(v)`
pub record Numerals : Type 0 where
  pub to_fixed : Amount → ℕ → String
  pub show : Amount → String

abbrev pub iec_units : List String
iec_units = "B" ∷ "KiB" ∷ "MiB" ∷ "GiB" ∷ "TiB" ∷ []

abbrev pub more_units : List String
more_units = "B" ∷ "KiB" ∷ "MiB" ∷ "GiB" ∷ "TiB" ∷ "PiB" ∷ []

abbrev pub first_units : List String
first_units = "B" ∷ "KB" ∷ "MB" ∷ "GB" ∷ "TB" ∷ []

-- `v >= 100 || i === 0 ? 0 : 1`
abbrev pub hundred_digits : Amount → ℕ → ℕ
hundred_digits v i = if at_least 100 v || i == 0 then 0 else 1

-- `n >= 10 ? 0 : 1`
abbrev pub ten_digits : Amount → ℕ → ℕ
ten_digits v i = if at_least 10 v then 0 else 1

-- `value < 10 && i > 0 ? 1 : 0`
abbrev pub first_digits : Amount → ℕ → ℕ
first_digits v i = if not (at_least 10 v) && leb 1 i then 1 else 0

-- `bytes < 0`
abbrev pub below_zero : Amount → Bool
below_zero v = v.is_negative && leb 1 v.num

-- An argument: no number, NaN or an infinity, or a finite number.
pub data Reading : Type 0 where
  missing not_finite : Reading
  finite : Amount → Reading

module _ (n : Numerals) where
  abbrev pub unit_text : List String → (Amount → ℕ → ℕ) → Amount × ℕ → String
  unit_text units digits (v, i) =
      n.to_fixed v (digits v i) <> (" " <> or_else (get_elem? units i) "undefined")

  -- the loop and the template after it; `none` is a loop that runs out of fuel
  unfoldable pub scaled_text : List String → (Amount → ℕ → ℕ) → Amount → Option String
  scaled_text units digits v = elim (scale (length units - 1) (length units) v 0) [
    | none ↦ none
    | some r ↦ some (unit_text units digits r)
  ]

  -- components/volumes/VolumesClient.tsx
  unfoldable pub volumes_text : Reading → Option String
  unfolding scaled_text
  volumes_text missing = some "—"
  volumes_text not_finite = some "—"
  volumes_text (finite v) = scaled_text iec_units hundred_digits v

  -- components/observability/MetricsPanel.tsx; a sample is a number
  unfoldable pub metrics_text : Reading → Option String
  unfolding scaled_text
  metrics_text missing = some "—"
  metrics_text not_finite = some "—"
  metrics_text (finite v) = scaled_text iec_units hundred_digits v

  -- components/databases/DatabaseDetailClient.tsx; `none` is `null`
  unfoldable pub database_text : Option Amount → Option String
  unfolding scaled_text
  database_text none = some "—"
  database_text (some v) = scaled_text iec_units hundred_digits v

  -- components/servers/ServerLiveMetrics.tsx
  unfoldable pub live_text : Option Amount → Option String
  unfolding scaled_text
  live_text none = some "—"
  live_text (some v) =
      let text = scaled_text more_units ten_digits v in if below_zero v then some "—" else text

  -- components/servers/ResourcesPanel.tsx
  unfoldable pub resources_text : Option Amount → Option String
  unfolding scaled_text
  resources_text none = some "—"
  resources_text (some v) =
      let text = scaled_text more_units ten_digits v in if below_zero v then some "—" else text

  -- routes/_app/volumes.$teamId.tsx of the first client
  unfoldable pub first_text : Amount → Option String
  unfolding scaled_text
  first_text v =
      let text = scaled_text first_units first_digits v in if v.num == 0 then some "0 B" else text

  -- components/database-backups.tsx of the first client
  unfoldable pub backup_text : Option Amount → String
  backup_text none = "—"
  backup_text (some v) =
      if not (at_least 1024 v)
      then n.show v <> " B"
      else if not (at_least (1024 * 1024) v)
      then n.to_fixed (over_1024 v) 1 <> " KB"
      else if not (at_least (1024 * 1024 * 1024) v)
      then n.to_fixed (over_1024 (over_1024 v)) 1 <> " MB"
      else n.to_fixed (over_1024 (over_1024 (over_1024 v))) 2 <> " GB"
