-- ===== src/AppUpdate/Form.antt =====
-- The form "Identity & runtime" of apps/web-v2/components/apps/AppOverview.tsx.
use nixway_core.Prelude.{
  ℕ, String, Bool, false, ◌||◌, not, Option, none, some, ◌==◌, str_eq, truthy, or_else,
  if◌then◌else◌,
}
use nixway_core.Json.{num, str, Members, end, member}
use nixway_core.Models.{App}
use nixway_core.Endpoints.Types.{Platform}

-- the texts in the form's inputs
pub record Inputs : Type 0 where
  pub name : String
  pub replicas : String
  pub port : String
  pub health_path : String

-- `s.trim()`, and `Number(s)`, where `none` is NaN
pub record Reader : Type 0 where
  pub trim : String → String
  pub number : String → Option ℕ

pub data Saved : Type 0 where
  refused : String → Saved
  unchanged : Saved
  saves : Members → Saved

-- `n || d`
abbrev pub number_or : Option ℕ → ℕ → ℕ
number_or none d = d
number_or (some ℕ.zero) d = d
number_or (some n) d = n

-- `Number(s) === n`; NaN equals nothing
abbrev is_number : Option ℕ → ℕ → Bool
is_number none n = false
is_number (some m) n = m == n

abbrev pub text_or : String → String → String
text_or s d = if truthy s then s else d

module _ (p : Platform) (r : Reader) where
  unfoldable pub is_dirty : App → Inputs → Bool
  is_dirty app i =
      not (str_eq (r.trim i.name) app.name)
      || not (is_number (r.number i.replicas) (or_else app.replicas 1))
      || not (is_number (r.number i.port) (or_else app.port 3000))
      || not (str_eq (r.trim i.health_path) (or_else app.health_check_path "/"))

  -- the patch of the mutation `save`
  abbrev pub save_patch : Inputs → Members
  save_patch i = member "name" (str (r.trim i.name)) (
      member "replicas" (num (p.show (number_or (r.number i.replicas) 1))) (
        member "port" (num (p.show (number_or (r.number i.port) 3000)))
          (member "health_check_path" (str (text_or (r.trim i.health_path) "/")) end)))

  unfoldable pub handle_save : App → Inputs → Saved
  unfolding is_dirty
  handle_save app i =
      if not (truthy (r.trim i.name))
      then refused "Name is required."
      else if not (is_dirty app i)
      then unchanged
      else saves (save_patch i)
