-- ===== src/Toast/Listeners.antt =====
-- The listeners that `useToast` registers.
use nixway_core.Prelude.{ℕ, false, List, [], ◌∷◌, ◌++◌, ◌≡◌, arith, any, ◌==◌}
use nixway_core.Toast.Store.{Store, subscribe, unsubscribe, remove_first}

remove_first-append :
    (l : ℕ) (ks : List ℕ) → any (λ k. k == l) ks ≡ false → remove_first l (ks ++ l ∷ []) ≡ ks
unfolding remove_first
remove_first-append l [] h = ground arith
remove_first-append l (k ∷ ks) h = ground (arith, remove_first-append l ks)

-- A component that is not yet registered leaves the listeners as they were when it mounts and
-- unmounts.
pub unsubscribe-subscribe :
    (s : Store) (l : ℕ) → any (λ k. k == l) s.listeners ≡ false → unsubscribe (subscribe s l) l ≡ s
unfolding unsubscribe subscribe
unsubscribe-subscribe s l h = λ i. record s { listeners = remove_first-append l s.listeners h i }
