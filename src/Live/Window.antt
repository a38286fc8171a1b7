-- ===== src/Live/Window.antt =====
-- What the log viewer shows of a stream.
use nixway_core.Prelude.{
  ℕ, zero, suc, ◌+◌, ◌-◌, ◌≤◌, String, List, [], ◌∷◌, ◌++◌, ◌≡◌, refl, sym, ap, ◌∙◌, arith, length,
  length-append, ltb, Bool-cases, inl, inr,
}
use nixway_core.Live.Lines.{max_lines, drop, push_line, push_all}

drop-append : (n : ℕ) (xs ys : List String) → n ≤ length xs → drop n (xs ++ ys) ≡ drop n xs ++ ys
drop-append zero xs ys h = refl
drop-append (suc n) [] ys h = absurd (omega arith)
drop-append (suc n) (x ∷ xs) ys h = drop-append n xs ys (omega arith)

drop_nil : (n : ℕ) → drop n [] ≡ []
drop_nil zero = refl
drop_nil (suc n) = refl

drop-drop : (n m : ℕ) (xs : List String) → drop n (drop m xs) ≡ drop (m + n) xs
drop-drop n zero xs = ap (λ k. drop k xs) (omega arith)
drop-drop n (suc m) [] = drop_nil n ∙ sym (drop_nil (suc m + n))
drop-drop n (suc m) (x ∷ xs) =
    let step : suc (m + n) ≡ suc m + n = omega arith in
    drop-drop n m xs ∙ ap (λ k. drop k (x ∷ xs)) step

length-drop : (n : ℕ) (xs : List String) → length (drop n xs) ≡ length xs - n
length-drop zero xs = omega arith
length-drop (suc n) [] = omega arith
length-drop (suc n) (x ∷ xs) = length-drop n xs ∙ omega arith

-- the last lines of a history, as many as the buffer holds
abbrev pub window : List String → List String
window history = drop (length history - max_lines) history

push_line-window :
    (history : List String) (d : String) → push_line (window history) d ≡ window (history ++ d ∷ [])
unfolding push_line
push_line-window history d =
    let same = sym (drop-append (length history - max_lines) history (d ∷ []) (omega arith)) in
    let len = length-append (window history) (d ∷ []) in
    let cut = length-drop (length history - max_lines) history in
    let all = length-append history (d ∷ []) in
    elim (Bool-cases (ltb max_lines (length (window history ++ d ∷ [])))) [
      | inl over ↦ rw over (
          ap (λ l. drop (length (window history ++ d ∷ []) - max_lines) l) same
          ∙ drop-drop (length (window history ++ d ∷ []) - max_lines) (length history - max_lines)
              (history ++ d ∷ [])
          ∙ ap (λ k. drop k (history ++ d ∷ [])) (ground arith))
      | inr fits ↦ rw fits (same ∙ ap (λ k. drop k (history ++ d ∷ [])) (ground arith))
    ]

append_assoc_lines : (xs ys zs : List String) → (xs ++ ys) ++ zs ≡ xs ++ (ys ++ zs)
append_assoc_lines [] ys zs = refl
append_assoc_lines (x ∷ xs) ys zs = ap (λ l. x ∷ l) (append_assoc_lines xs ys zs)

append_nil_lines : (xs : List String) → xs ++ [] ≡ xs
append_nil_lines [] = refl
append_nil_lines (x ∷ xs) = ap (λ l. x ∷ l) (append_nil_lines xs)

push_all-window : (history ds : List String) → push_all (window history) ds ≡ window (history ++ ds)
unfolding push_all
push_all-window history [] = ap window (sym (append_nil_lines history))
push_all-window history (d ∷ ds) =
    ap (λ l. push_all l ds) (push_line-window history d)
    ∙ push_all-window (history ++ d ∷ []) ds
    ∙ ap window (append_assoc_lines history (d ∷ []) ds)

-- After any messages the viewer holds exactly the last 5000 of them, in order: all of them, where
-- there are no more.
pub push_all-last : (ds : List String) → push_all [] ds ≡ window ds
push_all-last ds = push_all-window [] ds
