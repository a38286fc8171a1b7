-- ===== src/AppUpdate/Decode.antt =====
-- The decoder of request bodies, respond.DecodeJSON of the API, by the type of a field.
use nixway_core.Prelude.{String, Bool, false, List, [], ◌∷◌, Option, none, some}
use nixway_core.Prelude.Int.{ℤ, pos}
use nixway_core.Json.{Json, null, bool, num, str, arr, Items, nil, cons}

infixl 5 ◌>>=◌
abbrev pub ◌>>=◌ {ℓ κ} : {A : Type ℓ} {B : Type κ} → Option A → (A → Option B) → Option B
none >>= f = none
some a >>= f = f a

-- A missing member and `null` leave the zero value; a member of another type is refused.
abbrev pub as_string : Option Json → Option String
as_string none = some ""
as_string (some null) = some ""
as_string (some (str s)) = some s
as_string _ = none

unfoldable pub as_pointer : Option Json → Option (Option String)
as_pointer none = some none
as_pointer (some null) = some none
as_pointer (some (str s)) = some (some s)
as_pointer _ = none

abbrev pub as_bool : Option Json → Option Bool
as_bool none = some false
as_bool (some null) = some false
as_bool (some (bool b)) = some b
as_bool _ = none

abbrev pub as_number : Option Json → Option String
as_number none = some "0"
as_number (some null) = some "0"
as_number (some (num n)) = some n
as_number _ = none

-- The decoder's reading of a number's literal as an int32, and `uuid.Parse`.
pub record Decoder : Type 0 where
  pub int32 : String → Option ℤ
  pub is_uuid : String → Bool

abbrev pub as_int32 : Decoder → Option Json → Option ℤ
as_int32 d none = some (pos 0)
as_int32 d (some null) = some (pos 0)
as_int32 d (some (num l)) = d.int32 l
as_int32 d _ = none

unfoldable pub strings_of : Items → Option (List String)
strings_of nil = some []
strings_of (cons (str s) items) = elim (strings_of items) [ none ↦ none | some ss ↦ some (s ∷ ss) ]
strings_of (cons _ items) = none

unfoldable pub as_strings : Option Json → Option (Option (List String))
as_strings none = some none
as_strings (some null) = some none
as_strings (some (arr items)) = elim (strings_of items) [ none ↦ none | some ss ↦ some (some ss) ]
as_strings _ = none
