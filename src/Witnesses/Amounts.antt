-- ===== src/Witnesses/Amounts.antt =====
-- Byte counts at concrete values.
use nixway_core.Prelude.{ℕ, false, some, ◌≡◌, refl, arith}
use nixway_core.Bytes.Loop.{Amount, scale, IsStep, IsLast, scale-terminates}
use nixway_core.Bytes.Format.{
  Numerals, finite, iec_units, more_units, first_units, hundred_digits, ten_digits, first_digits,
  volumes_text, metrics_text, database_text, live_text, resources_text, first_text,
}
use nixway_core.Bytes.Shown.{IsShown, texts-IsShown}
use nixway_core.Witnesses.Data.{strokes}

abbrev three_kilo : Amount
three_kilo = record { is_negative = false; num = 3072; den = 1 }

abbrev numerals : Numerals
numerals = record { to_fixed = λ v digits. strokes digits; show = λ v. "1" }

scale-terminates_example :
    (r : Amount × ℕ) × (scale 4 5 three_kilo 0 ≡ some r) × IsStep three_kilo r × IsLast 4 r
scale-terminates_example = scale-terminates 4 5 three_kilo (omega arith)

texts-IsShown_example :
    IsShown numerals iec_units hundred_digits three_kilo (volumes_text numerals (finite three_kilo))
    × IsShown numerals iec_units hundred_digits three_kilo
        (metrics_text numerals (finite three_kilo))
    × IsShown numerals iec_units hundred_digits three_kilo
        (database_text numerals (some three_kilo))
    × IsShown numerals more_units ten_digits three_kilo (live_text numerals (some three_kilo))
    × IsShown numerals more_units ten_digits three_kilo (resources_text numerals (some three_kilo))
    × IsShown numerals first_units first_digits three_kilo (first_text numerals three_kilo)
texts-IsShown_example = texts-IsShown numerals three_kilo refl refl
