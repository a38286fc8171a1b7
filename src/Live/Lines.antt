-- ===== src/Live/Lines.antt =====
-- The buffer of LogStream.tsx.
use nixway_core.Prelude.{ℕ, zero, suc, ◌-◌, String, List, [], ◌∷◌, ◌++◌, length, ltb, if◌then◌else◌}

abbrev pub max_lines : ℕ
max_lines = 5000

-- what `xs.splice(0, n)` leaves
abbrev pub drop : ℕ → List String → List String
drop zero xs = xs
drop (suc n) [] = []
drop (suc n) (x ∷ xs) = drop n xs

-- the update of `es.onmessage`
unfoldable pub push_line : List String → String → List String
push_line prev line =
    let next = prev ++ line ∷ [] in
    if ltb max_lines (length next) then drop (length next - max_lines) next else next

-- the buffer after some messages
unfoldable pub push_all : List String → List String → List String
unfolding push_line
push_all lines [] = lines
push_all lines (d ∷ ds) = push_all (push_line lines d) ds
