-- ===== src/Live/Console.antt =====
-- The state of ProvisionConsole.tsx and the handlers of its EventSource, for one subscription: a
-- change of the properties that the effect depends on opens another.
use nixway_core.Prelude.{
  String, Bool, true, false, not, ◌&&◌, ◌||◌, List, [], ◌∷◌, ◌++◌, Option, none, some, str_eq,
  truthy, any, find, if◌then◌else◌,
}
use nixway_core.Models.Databases.{ProvisionLogEntry}

pub data Status : Type 0 where
  connecting streaming success failed idle : Status

-- `is_closed` holds where the stream was closed, or never opened, and `is_lost` where it closed itself.
pub record Console : Type 0 where
  pub events : List ProvisionLogEntry
  pub status : Status
  pub is_closed : Bool
  pub is_lost : Bool

-- an optional Boolean as a condition
abbrev pub is_true : Option Bool → Bool
is_true none = false
is_true (some b) = b

abbrev pub outcome : ProvisionLogEntry → Status
outcome e = if is_true e.success then success else failed

-- the status for the first terminal event, if there is one
abbrev pub status_of : Option ProvisionLogEntry → Bool → Status
status_of none live = if live then connecting else idle
status_of (some e) live = outcome e

unfoldable pub initial_status : List ProvisionLogEntry → Bool → Status
initial_status events live =
    status_of (find (λ e. is_true (ProvisionLogEntry.terminal e)) events) live

abbrev pub is_connecting : Status → Bool
is_connecting connecting = true
is_connecting _ = false

-- the first render and the effect that opens the stream
unfoldable pub open_console : List ProvisionLogEntry → Bool → Console
open_console initial live = record {
  events = initial;
  status = initial_status initial live;
  is_closed = not live || not (is_connecting (initial_status initial live));
  is_lost = false;
}

-- `es.onopen`
unfoldable pub on_open : Console → Console
on_open c = record c { status = if is_connecting c.status then streaming else c.status }

abbrev pub is_streaming : Status → Bool
is_streaming streaming = true
is_streaming _ = false

-- `es.onerror`: the stream reconnects by itself, unless the failure is fatal, such as an answer with
-- an error status; then it has closed itself.
unfoldable pub on_error : Bool → Console → Console
on_error fatal c = record c {
  status = if is_streaming c.status then connecting else c.status;
  is_closed = if fatal then true else c.is_closed;
  is_lost = if fatal then true else c.is_lost;
}

abbrev pub same_event : ProvisionLogEntry → ProvisionLogEntry → Bool
same_event e p = str_eq p.at e.at && str_eq p.step e.step && str_eq p.message e.message

-- A live frame may come without `at`, which then stands as the empty text; `now` is the client's
-- time.
abbrev pub stamp : String → ProvisionLogEntry → ProvisionLogEntry
stamp now e = if truthy e.at then e else record e { at = now }

-- the update of `setEvents`
unfoldable pub add_event : List ProvisionLogEntry → ProvisionLogEntry → List ProvisionLogEntry
add_event prev e = if any (same_event e) prev then prev else prev ++ e ∷ []

-- `es.onmessage`; `none` is a frame that does not parse
unfoldable pub on_message : String → Console → Option ProvisionLogEntry → Console
unfolding add_event
on_message now c none = c
on_message now c (some frame) =
    let e = stamp now frame in
    record {
      events = add_event c.events e;
      status = if is_true e.terminal then outcome e else c.status;
      is_closed = if is_true e.terminal then true else c.is_closed;
      is_lost = c.is_lost;
    }
