-- ===== src/Scale/Sent.antt =====
-- What the API makes of what the form sends.
use nixway_core.Prelude.{
  ℕ, ◌≤◌, String, Bool, true, false, not, ◌||◌, List, [], ◌∷◌, Option, none, some, ◌≡◌, refl, ap,
  ◌∙◌, arith, Bool-cases, inl, inr, ltb, str_eq, truthy, among, among-All, length, if◌then◌else◌,
  ◌≢◌, ◌⊎◌,
}
use nixway_core.Prelude.Int.{pos, leb_ℤ}
use nixway_core.Json.{get_member}
use nixway_core.Models.{App}
use nixway_core.Endpoints.Types.{Platform}
use nixway_core.AppUpdate.Decode.{Decoder, as_strings}
use nixway_core.AppUpdate.Server.{pins_or}
use nixway_core.AppUpdate.Effects.{all_uuids, parse_ids_of_uuids, as_strings-texts}
use nixway_core.Scale.Form.{
  Form, initial_replicas, open_form, is_changed, Strategy, spread, binpack, pinned, strategy_key,
  Edit, decrement, increment, typed, choose, toggle, select_all, clear_all, edit, ScaleInput,
  scale_input, needs_pinned, submit_scale, confirm_scale, scale_body,
}
use nixway_core.Scale.Edits.{edit_all, edit_all-replicas}
use nixway_core.Scale.Server.{ScaleRow, updates, known_strategies, scale_known, handle_scale}

-- Whether the input is sent: at once, or after a confirmation.
abbrev pub IsSentBy : App → Form → ScaleInput → Type 0
IsSentBy app f i = (submit_scale app f ≡ some i) ⊎ (confirm_scale app f ≡ some i)

passed :
    (blocked low : Bool) (x i : ScaleInput) (a b : Option ScaleInput)
    → (a ≡ none) ⊎ (a ≡ some x)
    → (b ≡ none) ⊎ (b ≡ some x)
    → (if blocked then none else if low then a else b) ≡ some i
    → (blocked ≡ false) × (i ≡ x)
passed true low x i a b p q h = absurd cc
passed false true x i a b (inl p) q h = absurd cc
passed false true x i a b (inr p) q h = (refl, cc)
passed false false x i a b p (inl q) h = absurd cc
passed false false x i a b p (inr q) h = (refl, cc)

sent-scale_input :
    (app : App) (f : Form) (i : ScaleInput)
    → IsSentBy app f i
    → ((not (is_changed app f) || needs_pinned f) ≡ false) × (i ≡ scale_input f)
unfolding submit_scale confirm_scale
sent-scale_input app f i (inl h) =
    passed (not (is_changed app f) || needs_pinned f) (ltb f.replicas (initial_replicas app))
      (scale_input f) i none (some (scale_input f)) (inl refl) (inr refl) h
sent-scale_input app f i (inr h) =
    passed (not (is_changed app f) || needs_pinned f) (ltb f.replicas (initial_replicas app))
      (scale_input f) i (some (scale_input f)) none (inr refl) (inl refl) h

unblocked : (changed needs : Bool) → (not changed || needs) ≡ false → needs ≡ false
unblocked changed needs h = ground arith

-- every strategy of the page is one that the API knows
choose-known : (s : Strategy) → among known_strategies (strategy_key s) ≡ true
choose-known spread = refl
choose-known binpack = refl
choose-known pinned = refl

edit-strategy :
    (f : Form) (e : Edit)
    → among known_strategies f.strategy ≡ true
    → among known_strategies (edit f e).strategy ≡ true
unfolding edit
edit-strategy f decrement h = h
edit-strategy f increment h = h
edit-strategy f (typed n) h = h
edit-strategy f (choose s) h = choose-known s
edit-strategy f (toggle id) h = h
edit-strategy f (select_all ids) h = h
edit-strategy f clear_all h = h

edit_all-strategy :
    (f : Form) (es : List Edit)
    → among known_strategies f.strategy ≡ true
    → among known_strategies (edit_all f es).strategy ≡ true
edit_all-strategy f [] h = h
edit_all-strategy f (e ∷ es) h = edit_all-strategy (edit f e) es (edit-strategy f e h)

known-truthy : (s : String) → among known_strategies s ≡ true → truthy s ≡ true
known-truthy s h = among-All (λ v. truthy v ≡ true) known_strategies s h (refl, (refl, (refl, tt)))

as_strings-none : as_strings none ≡ some none
unfolding as_strings
as_strings-none = refl

above_zero : (n : ℕ) → 1 ≤ n → leb_ℤ (pos n) (pos 0) ≡ false
above_zero n h = ground arith

module _ (d : Decoder) (quoted : String → String) (p : Platform) where
  -- the row that the form asks for
  abbrev pub scaled_row : Form → ScaleRow → ScaleRow
  scaled_row f row = record {
    replicas = pos f.replicas;
    placement_strategy = f.strategy;
    placement_constraints = row.placement_constraints;
    pinned_server_ids = if str_eq f.strategy "pinned" then f.pinned else row.pinned_server_ids;
  }

  handle_scale-input :
      (f : Form) (row : ScaleRow)
      → 1 ≤ f.replicas
      → among known_strategies f.strategy ≡ true
      → d.int32 (p.show f.replicas) ≡ some (pos f.replicas)
      → all_uuids d.is_uuid f.pinned ≡ true
      → handle_scale d quoted (scale_body p (scale_input f)) row ≡ updates (scaled_row f row)
  unfolding handle_scale scale_known get_member pins_or
  handle_scale-input f row least known read ids =
      let given = known-truthy f.strategy known in
      let positive = above_zero f.replicas least in
      elim (Bool-cases (str_eq f.strategy "pinned")) [
        | inl pins ↦
            rw (pins, as_strings-texts f.pinned, read, positive)
              (rw (parse_ids_of_uuids d.is_uuid f.pinned ids) (rw (given, known) refl))
        | inr other ↦ rw (other, as_strings-none, read, positive) (rw (given, known) refl)
      ]

  -- a form that may be sent names a server where the strategy is to pin
  pinned_given :
      (f : Form) → needs_pinned f ≡ false → (str_eq f.strategy "pinned" ≡ false) ⊎ (f.pinned ≢ [])
  pinned_given f pins = elim (Bool-cases (str_eq f.strategy "pinned")) [
    | inr other ↦ inl other
    | inl pins_some ↦
        inr
          (λ none_left. let l : length f.pinned ≡ 0 = ap length none_left in absurd (ground arith))
  ]

  -- Whatever the user does to the form of an app with a strategy that the API knows, if the pinned
  -- servers are UUIDs and the decoder reads the number of replicas then what is sent, at once or after
  -- the confirmation of a lower number, passes all tests: the API stores the form's replicas and
  -- strategy, and with the strategy "pinned" its servers, which are one at least, or else keeps the
  -- app's.
  pub sent-handle_scale :
      (app : App) (es : List Edit) (i : ScaleInput) (row : ScaleRow)
      → among known_strategies (open_form app).strategy ≡ true
      → d.int32 (p.show (edit_all (open_form app) es).replicas)
        ≡ some (pos (edit_all (open_form app) es).replicas)
      → all_uuids d.is_uuid (edit_all (open_form app) es).pinned ≡ true
      → IsSentBy app (edit_all (open_form app) es) i
      → (handle_scale d quoted (scale_body p i) row
          ≡ updates (scaled_row (edit_all (open_form app) es) row))
        × ((str_eq (edit_all (open_form app) es).strategy "pinned" ≡ false)
            ⊎ ((edit_all (open_form app) es).pinned ≢ []))
  sent-handle_scale app es i row known read ids sent =
      let f = edit_all (open_form app) es in
      let (free, same) = sent-scale_input app f i sent in
      (
        ap (λ j. handle_scale d quoted (scale_body p j) row) same
            ∙ handle_scale-input f row (edit_all-replicas app es).0
                (edit_all-strategy (open_form app) es known) read ids,
        pinned_given f (unblocked (is_changed app f) (needs_pinned f) free),
      )
