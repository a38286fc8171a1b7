-- ===== src/Live/Lifecycle.antt =====
-- What every run of the console keeps to.
use nixway_core.Prelude.{
  String, Bool, true, false, not, ◌||◌, List, [], ◌∷◌, ◌++◌, Option, none, some, ◌≡◌, refl, inl,
  inr, arith, any, All, All-append, find, Bool-cases, if◌then◌else◌, ◌∙◌,
}
use nixway_core.Models.Databases.{ProvisionLogEntry}
use nixway_core.Live.Console.{
  Status, connecting, streaming, success, failed, idle, Console, is_true, outcome, initial_status,
  is_connecting, is_streaming, status_of, open_console, on_open, on_error, same_event, stamp,
  add_event, on_message,
}

-- A closed EventSource calls no handler any more.
pub data Step (c : Console) : Console → Type 0 where
  opens : c.is_closed ≡ false → Step c (on_open c)
  breaks : (fatal : Bool) → c.is_closed ≡ false → Step c (on_error fatal c)
  receives :
      (now : String) (frame : Option ProvisionLogEntry)
      → c.is_closed ≡ false
      → Step c (on_message now c frame)

pub data Run (initial : List ProvisionLogEntry) (live : Bool) : Console → Type 0 where
  opened : Run initial live (open_console initial live)
  further : {c d : Console} → Run initial live c → Step c d → Run initial live d

-- no two events have the same time, step and message
abbrev pub NoRepeats : List ProvisionLogEntry → Type 0
NoRepeats [] = Unit
NoRepeats (e ∷ es) = All (λ f. same_event f e ≡ false) es × NoRepeats es

abbrev pub is_waiting : Status → Bool
is_waiting connecting = true
is_waiting streaming = true
is_waiting _ = false

-- The status says that the console waits exactly while the stream is open, or when it was lost, and a
-- lost stream is closed.
pub record IsConsistent (c : Console) : Type 0 where
  pub listed : NoRepeats c.events
  pub waits : is_waiting c.status ≡ (not c.is_closed || c.is_lost)
  pub lost_closed : (not c.is_lost || c.is_closed) ≡ true

NoRepeats-add :
    (es : List ProvisionLogEntry) (e : ProvisionLogEntry)
    → any (same_event e) es ≡ false
    → NoRepeats es
    → NoRepeats (es ++ e ∷ [])
NoRepeats-add [] e new h = (tt, tt)
NoRepeats-add (f ∷ es) e new (here, h) = (
  All-append (λ g. same_event g f ≡ false) es (e ∷ []) here (ground arith, tt),
  NoRepeats-add es e (ground arith) h,
)

NoRepeats-add_event :
    (es : List ProvisionLogEntry) (e : ProvisionLogEntry)
    → NoRepeats es
    → NoRepeats (add_event es e)
unfolding add_event
NoRepeats-add_event es e h = elim (Bool-cases (any (same_event e) es)) [
  | inl old ↦ rw old h
  | inr new ↦ rw new (NoRepeats-add es e new h)
]

outcome-waits : (e : ProvisionLogEntry) → is_waiting (outcome e) ≡ false
outcome-waits e = ground arith

status_of-waits :
    (found : Option ProvisionLogEntry) (live : Bool)
    → is_waiting (status_of found live)
      ≡ (not (not live || not (is_connecting (status_of found live))) || false)
status_of-waits none live = ground arith
status_of-waits (some e) live = ground arith

opened-waits : (s : Status) → is_waiting (if is_connecting s then streaming else s) ≡ is_waiting s
opened-waits connecting = refl
opened-waits streaming = refl
opened-waits success = refl
opened-waits failed = refl
opened-waits idle = refl

broken-waits : (s : Status) → is_waiting (if is_streaming s then connecting else s) ≡ is_waiting s
broken-waits connecting = refl
broken-waits streaming = refl
broken-waits success = refl
broken-waits failed = refl
broken-waits idle = refl

received-waits :
    (terminal closed lost : Bool) (e : ProvisionLogEntry) (s : Status)
    → closed ≡ false
    → (not lost || closed) ≡ true
    → is_waiting s ≡ (not closed || lost)
    → is_waiting (if terminal then outcome e else s)
      ≡ (not (if terminal then true else closed) || lost)
received-waits true closed lost e s o l h = ground (arith, outcome-waits e)
received-waits false closed lost e s o l h = h

lost-waits :
    (fatal closed lost waiting : Bool)
    → closed ≡ false
    → waiting ≡ (not closed || lost)
    → waiting ≡ (not (if fatal then true else closed) || (if fatal then true else lost))
lost-waits fatal closed lost waiting o h = ground arith

lost-closed :
    (fatal closed lost : Bool)
    → (not lost || closed) ≡ true
    → (not (if fatal then true else lost) || (if fatal then true else closed)) ≡ true
lost-closed true closed lost h = refl
lost-closed false closed lost h = h

received-closed :
    (terminal closed lost : Bool)
    → (not lost || closed) ≡ true
    → (not lost || (if terminal then true else closed)) ≡ true
received-closed true closed lost h = ground arith
received-closed false closed lost h = h

Step-IsConsistent : {c d : Console} → IsConsistent c → Step c d → IsConsistent d
Step-IsConsistent {c} i (opens o) =
    unfold on_open in
    record {
      listed = i.listed;
      waits = opened-waits c.status ∙ i.waits;
      lost_closed = i.lost_closed;
    }
Step-IsConsistent {c} i (breaks fatal o) =
    unfold on_error in
    record {
      listed = i.listed;
      waits =
          broken-waits c.status
          ∙ lost-waits fatal c.is_closed c.is_lost (is_waiting c.status) o i.waits;
      lost_closed = lost-closed fatal c.is_closed c.is_lost i.lost_closed;
    }
Step-IsConsistent {c} i (receives now none o) = unfold on_message in i
Step-IsConsistent {c} i (receives now (some frame) o) =
    unfold on_message in
    record {
      listed = NoRepeats-add_event c.events (stamp now frame) i.listed;
      waits =
          received-waits (is_true (stamp now frame).terminal) c.is_closed c.is_lost
            (stamp now frame) c.status o i.lost_closed i.waits;
      lost_closed =
          received-closed (is_true (stamp now frame).terminal) c.is_closed c.is_lost i.lost_closed;
    }

-- However the stream opens, breaks and delivers, if no two events of the stored log have the same
-- time, step and message then no two events that the console lists have, where an event that came
-- without a time has that of its arrival. The console waits for events exactly while the stream is
-- open, or once it has closed itself after a fatal failure.
pub Run-IsConsistent :
    (initial : List ProvisionLogEntry) (live : Bool)
    → NoRepeats initial
    → {c : Console} → Run initial live c
    → IsConsistent c
Run-IsConsistent initial live h opened =
    unfold open_console initial_status in
    record {
      listed = h;
      waits = status_of-waits (find (λ e. is_true (ProvisionLogEntry.terminal e)) initial) live;
      lost_closed = refl;
    }
Run-IsConsistent initial live h (further r st) =
    Step-IsConsistent (Run-IsConsistent initial live h r) st
