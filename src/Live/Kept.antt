-- ===== src/Live/Kept.antt =====
-- What a run of the console does to the stored log, and after the last frame.
use nixway_core.Prelude.{
  String, Bool, true, List, [], ◌∷◌, ◌++◌, none, some, ◌≡◌, refl, inl, inr, any, Bool-cases, truthy,
  sym, ◌∙◌, ap,
}
use nixway_core.Models.Databases.{ProvisionLogEntry}
use nixway_core.Live.Console.{
  Console, is_true, open_console, on_open, on_error, same_event, stamp, add_event, on_message,
}
use nixway_core.Live.Lifecycle.{Step, opens, breaks, receives, Run, opened, further}

append_assoc_events : (xs ys zs : List ProvisionLogEntry) → (xs ++ ys) ++ zs ≡ xs ++ (ys ++ zs)
append_assoc_events [] ys zs = refl
append_assoc_events (x ∷ xs) ys zs = ap (λ l. x ∷ l) (append_assoc_events xs ys zs)

append_nil_events : (xs : List ProvisionLogEntry) → xs ++ [] ≡ xs
append_nil_events [] = refl
append_nil_events (x ∷ xs) = ap (λ l. x ∷ l) (append_nil_events xs)

add_event-keeps :
    (initial more : List ProvisionLogEntry) (e : ProvisionLogEntry)
    → (rest : List ProvisionLogEntry) × (add_event (initial ++ more) e ≡ initial ++ rest)
unfolding add_event
add_event-keeps initial more e = elim (Bool-cases (any (same_event e) (initial ++ more))) [
  | inl old ↦ (more, rw old refl)
  | inr new ↦ (more ++ e ∷ [], rw new (append_assoc_events initial more (e ∷ [])))
]

Step-keeps :
    (initial : List ProvisionLogEntry) {c d : Console}
    → (more : List ProvisionLogEntry) × (c.events ≡ initial ++ more)
    → Step c d
    → (more : List ProvisionLogEntry) × (d.events ≡ initial ++ more)
Step-keeps initial (more, e) (opens o) = unfold on_open in (more, e)
Step-keeps initial (more, e) (breaks fatal o) = unfold on_error in (more, e)
Step-keeps initial (more, e) (receives now none o) = unfold on_message in (more, e)
Step-keeps initial (more, e) (receives now (some frame) o) =
    unfold on_message in
    let (rest, k) = add_event-keeps initial more (stamp now frame) in
    (rest, ap (λ l. add_event l (stamp now frame)) e ∙ k)

-- The stored log stays at the head of what the console lists, in its order.
pub Run-keeps :
    (initial : List ProvisionLogEntry) (live : Bool) {c : Console}
    → Run initial live c
    → (more : List ProvisionLogEntry) × (c.events ≡ initial ++ more)
Run-keeps initial live opened = unfold open_console in ([], sym (append_nil_events initial))
Run-keeps initial live (further r st) = Step-keeps initial (Run-keeps initial live r) st

stamp-terminal : (now : String) (e : ProvisionLogEntry) → (stamp now e).terminal ≡ e.terminal
stamp-terminal now e = elim (Bool-cases (truthy e.at)) [ inl h ↦ rw h | inr h ↦ rw h ]

terminal-closed :
    (now : String) (c : Console) (frame : ProvisionLogEntry)
    → is_true frame.terminal ≡ true
    → (on_message now c (some frame)).is_closed ≡ true
unfolding on_message
terminal-closed now c frame t = rw (stamp-terminal now frame, t) refl

-- When a terminal frame has come, no handler runs any more: whatever it says, no further step leaves
-- the console.
pub terminal-stops :
    (now : String) (c : Console) (frame : ProvisionLogEntry)
    → is_true frame.terminal ≡ true
    → (d : Console) → ¬ Step (on_message now c (some frame)) d
terminal-stops now c frame t d (opens o) = let k = terminal-closed now c frame t in cc
terminal-stops now c frame t d (breaks fatal o) = let k = terminal-closed now c frame t in cc
terminal-stops now c frame t d (receives later next o) = let k = terminal-closed now c frame t in cc
