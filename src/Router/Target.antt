-- ===== src/Router/Target.antt =====
-- A request target as the server reads it: the path up to `?` or `#`, cut at its slashes. It is not
-- percent-decoded, and a backslash stands for itself.
use Prim.Native.Char.{Char, code}
use Prim.Native.String
use Prim.Native.String.{String, [], ◌∷◌}
use mathlib.Core.List.{List, [], ◌∷◌}
use nixway_core.Prelude.{Bool, true, ◌&&◌, not, ◌==◌, str_eq, if◌then◌else◌}

-- neither a slash nor the end of the path
abbrev pub is_plain : Char → Bool
is_plain c = not (code c == b'/') && not (code c == b'?') && not (code c == b'#')

abbrev pub all_plain : String → Bool
all_plain [] = true
all_plain (c ∷ s) = is_plain c && all_plain s

-- A text that stays one segment of the path: not empty, with no character that ends a segment, and
-- not one of the names that URL parsing resolves.
abbrev pub is_segment : String → Bool
is_segment s = all_plain s && not (str_eq s "") && not (str_eq s ".") && not (str_eq s "..")

abbrev pub push : String → Char → String
push s c = String.◌++◌ s (c ∷ [])

-- `cur` is what has been read of the current segment.
unfoldable pub segments_from : String → String → List String
segments_from cur [] = cur ∷ []
segments_from cur (c ∷ s) =
    let closed = segments_from [] s in
    let longer = segments_from (push cur c) s in
    if code c == b'/' then cur ∷ closed else if is_plain c then longer else cur ∷ []

-- the segments behind the leading slash
unfoldable pub segments : String → List String
unfolding segments_from
segments [] = []
segments (c ∷ s) = segments_from [] s
