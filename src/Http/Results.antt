-- ===== src/Http/Results.antt =====
-- Which results the wrappers of api.ts and server-api.ts hand to their callers.
use nixway_core.Prelude.{
  ◌==◌, [], ◌∷◌, String, true, false, not, Option, none, some, ◌≡◌, refl, ◌≢◌, ◌⊎◌, arith,
  Bool-cases, inl, inr, if◌then◌else◌,
}
use nixway_core.Json.{Json, null, bool, num, str, arr, obj, text_member}
use nixway_core.Http.Types.{Response, Outcome, value, api_error, is_ok, defined}
use nixway_core.Http.Client
use nixway_core.Http.Server
use nixway_core.Http.Server.{pick_from}

-- How a wrapper answers a response: a value exactly on a 2xx status, and otherwise an ApiError with
-- the response's status.
abbrev pub Answers : Response → Outcome (Option Json) → Type 0
Answers res outcome =
    ((is_ok res.status ≡ true) × ((v : Option Json) × (outcome ≡ value v)))
    ⊎ ((is_ok res.status ≡ false)
        × ((m : String) × (c : Option String) × (outcome ≡ api_error res.status m c)))

abbrev answer : Response → Option Json → String → Option String → Outcome (Option Json)
answer res body m c =
    if res.status == 204
    then value none
    else if not (is_ok res.status)
    then api_error res.status m c
    else value (defined body)

answer-Answers :
    (res : Response) (body : Option Json) (m : String) (c : Option String)
    → Answers res (answer res body m c)
answer-Answers res body m c = elim (Bool-cases (is_ok res.status)) [
  | inl good ↦ elim (Bool-cases (res.status == 204)) [
    | inl empty ↦ inl (good, (none, rw empty))
    | inr full ↦ inl (good, (defined body, rw (full, good) refl))
  ]
  | inr bad ↦
      let full : (res.status == 204) ≡ false = ground arith in
      inr (bad, (m, c, rw (full, bad) refl))
]

defined-ne-null : (body : Option Json) → defined body ≢ some null
defined-ne-null none h = cc
defined-ne-null (some null) h = cc
defined-ne-null (some (bool b)) h = cc
defined-ne-null (some (num n)) h = cc
defined-ne-null (some (str s)) h = cc
defined-ne-null (some (arr xs)) h = cc
defined-ne-null (some (obj ms)) h = cc

module _ (parse : String → Option Json) (res : Response) where
  -- On every response the browser's wrapper returns a value if the status is 2xx, and otherwise
  -- throws an ApiError that carries the response's status.
  pub settle-Answers : Answers res (Client.settle parse res)
  unfolding Client.settle
  settle-Answers =
      answer-Answers res (Client.body_data parse res.text)
        (Client.error_message parse (Client.body_data parse res.text) res.status_text)
        (text_member "code" (Client.body_data parse res.text))

  -- So does the server's wrapper.
  pub server_settle-Answers : Answers res (Server.settle parse res)
  unfolding Server.settle
  server_settle-Answers =
      answer-Answers res (Client.body_data parse res.text)
        (Server.error_message parse (Client.body_data parse res.text) res.status_text)
        (pick_from ("code" ∷ []) (Client.body_data parse res.text))

  -- A caller of the browser's wrapper never receives `null`, whatever the server sends: a body `null`
  -- arrives as `undefined`.
  pub settle-ne-null : Client.settle parse res ≢ value (some null)
  unfolding Client.settle
  settle-ne-null h = ground (arith, defined-ne-null (Client.body_data parse res.text))
