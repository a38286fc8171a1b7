-- ===== src/QueryGate/Keyword.antt =====
-- firstQueryKeyword of internal/database/query.go. A query stands as the list of its code points.
use nixway_core.Prelude.{ℕ, Bool, ◌&&◌, ◌||◌, List, [], ◌∷◌, ◌==◌, leb, any, if◌then◌else◌}

abbrev pub one_of : List ℕ → ℕ → Bool
one_of codes c = any (λ d. d == c) codes

-- the white space that `strings.TrimSpace` removes
abbrev pub is_space : ℕ → Bool
is_space c =
    one_of (9 ∷ 10 ∷ 11 ∷ 12 ∷ 13 ∷ 32 ∷ 133 ∷ 160 ∷ 5760 ∷ 8232 ∷ 8233 ∷ 8239 ∷ 8287 ∷ 12288 ∷ [])
      c
    || (leb 8192 c && leb c 8202)

-- the cut set of `strings.TrimLeft`: ( " ` ' [ and a space, a tab, a line feed and a semicolon
abbrev pub is_cut : ℕ → Bool
is_cut c = one_of (40 ∷ 34 ∷ 96 ∷ 39 ∷ 91 ∷ 32 ∷ 9 ∷ 10 ∷ 59 ∷ []) c

-- the separators of `strings.FieldsFunc`
abbrev pub is_separator : ℕ → Bool
is_separator c = one_of (32 ∷ 9 ∷ 10 ∷ 13 ∷ 59 ∷ 40 ∷ []) c

abbrev pub trim_left : (ℕ → Bool) → List ℕ → List ℕ
trim_left p [] = []
trim_left p (c ∷ s) = let rest = trim_left p s in if p c then rest else c ∷ s

-- a character before the rest of a text that is trimmed on the right
abbrev pub trim_before : Bool → ℕ → List ℕ → List ℕ
trim_before b c [] = if b then [] else c ∷ []
trim_before b c (d ∷ s) = c ∷ d ∷ s

abbrev pub trim_right : (ℕ → Bool) → List ℕ → List ℕ
trim_right p [] = []
trim_right p (c ∷ s) = trim_before (p c) c (trim_right p s)

abbrev pub trim_space : List ℕ → List ℕ
trim_space s = trim_right is_space (trim_left is_space s)

abbrev pub take_until : (ℕ → Bool) → List ℕ → List ℕ
take_until p [] = []
take_until p (c ∷ s) = let rest = take_until p s in if p c then [] else c ∷ rest

-- `parts[0]`, or nothing where there is no part
abbrev pub first_field : List ℕ → List ℕ
first_field s = take_until is_separator (trim_left is_separator s)

-- the word before `strings.ToUpper`
unfoldable pub first_word : List ℕ → List ℕ
first_word query = first_field (trim_left is_cut (trim_space query))
