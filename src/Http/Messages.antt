-- ===== src/Http/Messages.antt =====
-- What an ApiError of the three wrappers says, and what they make of the API's error body
-- (internal/api/respond/respond.go).
use nixway_core.Prelude.{
  ℕ, ◌==◌, String, [], ◌∷◌, true, false, Option, none, some, ◌≡◌, refl, ◌≢◌, arith, if◌then◌else◌,
  truthy, or_text, or_else, first_some, truthy-or_text, eq_iff,
}
use nixway_core.Json.{Json, str, obj, Members, end, member, get_member, text_member, as_text}
use nixway_core.Http.Types.{Response, api_error, is_ok}
use nixway_core.Http.Client
use nixway_core.Http.Server
use nixway_core.Http.Server.{pick_from}
use nixway_core.Http.Legacy

-- `respond.Error`: the members of the body that every handler writes on an error; `omitempty` leaves
-- an empty message out.
unfoldable pub error_body : String → String → Members
error_body status_text msg =
    member "error" (str status_text) (if truthy msg then member "message" (str msg) end else end)

module _ (parse : String → Option Json) (res : Response) where
  error_message-truthy :
      (body : Option Json) → truthy (Client.error_message parse body res.status_text) ≡ true
  unfolding Client.error_message
  error_message-truthy body = truthy-or_text (text_member "error" body) _ (
      truthy-or_text (text_member "message" body) _
        (truthy-or_text (some res.status_text) "Request failed" refl))

  -- An ApiError of the browser's wrapper always has a message to show: it is never the empty text.
  pub settle-message_truthy :
      {status : ℕ} {message : String} {code : Option String}
      → Client.settle parse res ≡ api_error status message code
      → truthy message ≡ true
  unfolding Client.settle
  settle-message_truthy h = ground (arith, error_message-truthy (Client.body_data parse res.text))

-- The response carries the body of `respond.Error`, with a status name and a message.
record Envelope (parse : String → Option Json) (res : Response) (name msg : String) : Type 0 where
  bad : is_ok res.status ≡ false
  text : truthy res.text ≡ true
  name_given : truthy name ≡ true
  msg_given : truthy msg ≡ true
  sent : parse res.text ≡ some (obj (error_body name msg))

module _ {parse : String → Option Json} {res : Response} {name msg : String}
    (e : Envelope parse res name msg) where
  not_empty : (res.status == 204) ≡ false
  not_empty = let b = e.bad in ground arith

  members :
      (get_member "error" (error_body name msg) ≡ some (str name))
      × (get_member "message" (error_body name msg) ≡ some (str msg))
      × (get_member "code" (error_body name msg) ≡ none)
  unfolding error_body get_member
  members = rw (e.msg_given) (refl, refl, refl)

  client_envelope : Client.settle parse res ≡ api_error res.status name none
  unfolding Client.settle Client.error_message text_member
  client_envelope =
      let m = members in
      rw (not_empty, e.bad, e.text, e.sent) (rw (m.0, m.1, m.2, e.name_given) refl)

  server_envelope : Server.settle parse res ≡ api_error res.status name none
  unfolding Server.settle
  server_envelope = let m = members in rw (not_empty, e.bad, e.text, e.sent) (rw (m.0, m.2) refl)

  legacy_envelope :
      (to_text : Json → String) → Legacy.settle parse to_text res ≡ api_error res.status msg none
  unfolding Legacy.settle
  legacy_envelope to_text =
      let m = members in rw (not_empty, e.bad, e.sent) (rw (m.1, e.msg_given) refl)

-- On a failed response whose body parses as what `respond.Error` writes for a name and a message,
-- neither of them empty, both wrappers of the second client throw an ApiError with the name, and the
-- first client's throws one with the message.
pub envelope_messages :
    (parse : String → Option Json) (to_text : Json → String) (res : Response) (name msg : String)
    → is_ok res.status ≡ false
    → truthy res.text ≡ true
    → truthy name ≡ true
    → truthy msg ≡ true
    → parse res.text ≡ some (obj (error_body name msg))
    → (Client.settle parse res ≡ api_error res.status name none)
      × (Server.settle parse res ≡ api_error res.status name none)
      × (Legacy.settle parse to_text res ≡ api_error res.status msg none)
envelope_messages parse to_text res name msg bad text name_given msg_given sent =
    let e : Envelope parse res name msg = record {
      bad = bad;
      text = text;
      name_given = name_given;
      msg_given = msg_given;
      sent = sent;
    } in
    (client_envelope e, server_envelope e, legacy_envelope e to_text)

first_some-none : (o : Option String) → first_some o none ≡ o
first_some-none none = refl
first_some-none (some s) = refl

-- `pickString` finds what the browser's chain of tests finds.
pick_two :
    (a b : String) (body : Option Json)
    → pick_from (a ∷ b ∷ []) body ≡ first_some (text_member a body) (text_member b body)
unfolding pick_from text_member
pick_two a b (some (obj ms)) = rw (first_some-none (as_text (get_member b ms)))
pick_two a b _ = refl

pick_one : (a : String) (body : Option Json) → pick_from (a ∷ []) body ≡ text_member a body
unfolding pick_from text_member
pick_one a (some (obj ms)) = first_some-none (as_text (get_member a ms))
pick_one a _ = refl

same_choice :
    (e m : Option String) (st d : String)
    → e ≢ some ""
    → m ≢ some ""
    → truthy st ≡ true
    → or_else (first_some e m) st ≡ or_text e (or_text m (or_text (some st) d))
same_choice none none st d p q h = rw h
same_choice none (some m) st d p q h = ground (arith, eq_iff m "")
same_choice (some e) m st d p q h = ground (arith, eq_iff e "")

-- The server's wrapper answers as the browser's does, to every response whose status text is not
-- empty and whose body has no empty text under `error` or `message`.
pub server_settle-eq-client_settle :
    (parse : String → Option Json) (res : Response)
    → truthy res.status_text ≡ true
    → text_member "error" (Client.body_data parse res.text) ≢ some ""
    → text_member "message" (Client.body_data parse res.text) ≢ some ""
    → Server.settle parse res ≡ Client.settle parse res
unfolding Server.settle Client.settle Client.error_message
server_settle-eq-client_settle parse res given no_error no_message =
    rw
      (
        pick_one "code" (Client.body_data parse res.text),
        pick_two "error" "message" (Client.body_data parse res.text),
        same_choice (text_member "error" (Client.body_data parse res.text))
            (text_member "message" (Client.body_data parse res.text)) res.status_text
            "Request failed" no_error no_message given,
      )
      refl

-- Where they part: a failed response with no body and no status text, as HTTP/2 sends it, gives an
-- empty message in the server's wrapper and "Request failed" in the browser's.
pub bare_failure :
    (parse : String → Option Json) (res : Response)
    → is_ok res.status ≡ false
    → res.text ≡ ""
    → res.status_text ≡ ""
    → (Server.settle parse res ≡ api_error res.status "" none)
      × (Client.settle parse res ≡ api_error res.status "Request failed" none)
unfolding Client.settle Server.settle Client.error_message text_member
bare_failure parse res bad no_text no_status =
    let full : (res.status == 204) ≡ false = ground arith in
    (rw (full, bad, no_text, no_status) refl, rw (full, bad, no_text, no_status) refl)
