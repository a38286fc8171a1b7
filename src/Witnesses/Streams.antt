-- ===== src/Witnesses/Streams.antt =====
-- The live views at concrete streams.
use nixway_core.Prelude.{String, Bool, true, List, [], ◌∷◌, Option, none, some, ◌≡◌, refl}
use nixway_core.Models.Databases.{ProvisionLogEntry}
use nixway_core.Live.Console.{Console, open_console, on_open, on_error, on_message, initial_status}
use nixway_core.Live.Lifecycle.{
  opens, breaks, receives, Run, opened, further, IsConsistent, Run-IsConsistent,
}
use nixway_core.Live.Lines.{push_all}
use nixway_core.Live.Window.{window, push_all-last}

abbrev entry : String → Option Bool → ProvisionLogEntry
entry step terminal = record {
  step = step;
  level = "info";
  message = step;
  terminal = terminal;
  success = some true;
  at = "";
}

abbrev stored : List ProvisionLogEntry
stored = entry "queued" none ∷ []

abbrev delivered : Console
delivered = on_message "noon" (on_open (open_console stored true)) (some (entry "pull" none))

three_steps : Run stored true (on_error true delivered)
unfolding open_console on_open on_message initial_status
three_steps =
    further
      (further (further opened (opens refl)) (receives "noon" (some (entry "pull" none)) refl))
      (breaks true refl)

Run-IsConsistent_example : IsConsistent (on_error true delivered)
Run-IsConsistent_example = Run-IsConsistent stored true (tt, tt) three_steps

push_all-last_example : push_all [] ("one" ∷ "two" ∷ []) ≡ window ("one" ∷ "two" ∷ [])
push_all-last_example = push_all-last ("one" ∷ "two" ∷ [])
