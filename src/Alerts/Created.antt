-- ===== src/Alerts/Created.antt =====
-- What becomes of the rules that the dialog sends.
use nixway_core.Prelude.{
  ℕ, suc, String, true, false, not, List, [], ◌∷◌, none, some, ◌≡◌, refl, ap, ◌∙◌, arith, truthy,
  str_eq, any, among, among-All, if◌then◌else◌,
}
use mathlib.Core.Path.{ap₂}
use nixway_core.Prelude.Int.{pos}
use nixway_core.Json.{get_member, Members}
use nixway_core.Endpoints.Types.{texts}
use nixway_core.AppUpdate.Decode.{as_number, Decoder, as_int32}
use nixway_core.AppUpdate.Effects.{strings_of-items}
use nixway_core.CreateApp.Dialog.{Runtime, numeric_or}
use nixway_core.Alerts.Dialog.{AlertFields, alert_input, add_alert}
use nixway_core.Alerts.Server.{
  AlertRequest, alert_known, nil_id, Scopes, AlertAnswer, fails, created, has_valid_columns,
  as_uuids, decode_alert, answer_alert, handle_alert, alert_error, answer_checked,
}

module _ (d : Decoder) (r : Runtime) where
  -- the rule that the dialog asks for
  abbrev pub asked_alert : AlertFields → ℕ → String → AlertRequest
  asked_alert f n threshold = record {
    scope_type = f.scope_type;
    scope_id = f.scope_id;
    name = r.trim f.name;
    metric_name = f.metric;
    comparison = f.comparison;
    threshold = threshold;
    duration_seconds = pos (suc n);
    severity = f.severity;
    enabled = true;
    notification_channels = some f.picked;
  }

  -- The decoder reads what the dialog sends: the threshold and a positive duration as numbers, and the
  -- ids of the scope and of the channels as UUIDs.
  pub record IsReadable (f : AlertFields) (n : ℕ) (threshold : String) : Type 0 where
    pub threshold_read : as_number (some (numeric_or (r.number f.threshold) "0")) ≡ some threshold
    pub duration_read :
        as_int32 d (some (numeric_or (r.number f.duration) "0")) ≡ some (pos (suc n))
    pub scope_read : d.is_uuid f.scope_id ≡ true
    pub channels_read : any (λ s. not (d.is_uuid s)) f.picked ≡ false

  -- The choices of the dialog that have a value, and a scope that is not the nil UUID.
  pub record IsChosen (f : AlertFields) : Type 0 where
    pub scope_chosen : str_eq f.scope_id nil_id ≡ false
    pub type_chosen : truthy f.scope_type ≡ true
    pub metric_chosen : truthy f.metric ≡ true
    pub comparison_chosen : truthy f.comparison ≡ true
    pub severity_chosen : truthy f.severity ≡ true

  as_uuids-picked :
      (ids : List String)
      → any (λ s. not (d.is_uuid s)) ids ≡ false
      → as_uuids d (some (texts ids)) ≡ some (some ids)
  as_uuids-picked ids h = rw (strings_of-items ids, h) refl

  decode_alert-input :
      (f : AlertFields) (n : ℕ) (threshold : String)
      → IsReadable f n threshold
      → decode_alert d (alert_input r f) ≡ some (asked_alert f n threshold)
  unfolding decode_alert alert_input alert_known get_member
  decode_alert-input f n threshold h =
      rw (h.threshold_read, h.duration_read, h.scope_read, as_uuids-picked f.picked h.channels_read)
        refl

  -- what the checks of the table leave of a rule
  abbrev pub stored_alert : AlertRequest → AlertAnswer
  stored_alert a =
      if has_valid_columns a then created a else fails 500 "failed to create alert rule"

  alert_error-asked_alert :
      (f : AlertFields) (n : ℕ) (threshold : String)
      → IsChosen f
      → truthy (r.trim f.name) ≡ true
      → alert_error (asked_alert f n threshold) ≡ none
  alert_error-asked_alert f n threshold c named =
      rw
        (
          c.scope_chosen, c.type_chosen, named, c.metric_chosen, c.comparison_chosen,
          c.severity_chosen,
        )
        (ground arith)

  answer_alert-asked_alert :
      (scopes : Scopes) (f : AlertFields) (n : ℕ) (threshold : String)
      → IsChosen f
      → truthy (r.trim f.name) ≡ true
      → scopes.in_team f.scope_type f.scope_id ≡ true
      → answer_alert scopes (some (asked_alert f n threshold))
        ≡ stored_alert (asked_alert f n threshold)
  answer_alert-asked_alert scopes f n threshold c named here =
      ap₂ (λ e b. answer_checked e b (asked_alert f n threshold))
        (alert_error-asked_alert f n threshold c named) here

  add_alert-named :
      (f : AlertFields) (ms : Members)
      → add_alert r f ≡ some ms
      → (truthy (r.trim f.name) ≡ true) × (ms ≡ alert_input r f)
  unfolding add_alert
  add_alert-named f ms sent = ground arith

  -- If a rule that the dialog sends is readable and all its choices are made, for a scope of the team,
  -- then the handler stores it as it was asked for, where the table's checks take it, and otherwise
  -- answers with status 500.
  pub add_alert-handle_alert :
      (scopes : Scopes) (f : AlertFields) (ms : Members) (n : ℕ) (threshold : String)
      → add_alert r f ≡ some ms
      → IsReadable f n threshold
      → IsChosen f
      → scopes.in_team f.scope_type f.scope_id ≡ true
      → handle_alert d scopes ms ≡ stored_alert (asked_alert f n threshold)
  unfolding handle_alert
  add_alert-handle_alert scopes f ms n threshold sent h c here =
      let (named, e) = add_alert-named f ms sent in
      ap (handle_alert d scopes) e
      ∙ ap (answer_alert scopes) (decode_alert-input f n threshold h)
      ∙ answer_alert-asked_alert scopes f n threshold c named here

  -- If a rule that the dialog sends is readable and all its choices are made, for a scope of the team,
  -- but its comparison is one of `==` and `!=`, which the dialog offers, the handler answers with status
  -- 500.
  pub add_alert-unstored :
      (scopes : Scopes) (f : AlertFields) (ms : Members) (n : ℕ) (threshold : String)
      → add_alert r f ≡ some ms
      → IsReadable f n threshold
      → IsChosen f
      → scopes.in_team f.scope_type f.scope_id ≡ true
      → among ("eq" ∷ "ne" ∷ []) f.comparison ≡ true
      → handle_alert d scopes ms ≡ fails 500 "failed to create alert rule"
  add_alert-unstored scopes f ms n threshold sent h c here off =
      add_alert-handle_alert scopes f ms n threshold sent h c here
      ∙ among-All
          (λ v.
            stored_alert (record (asked_alert f n threshold) { comparison = v })
            ≡ fails 500 "failed to create alert rule")
          ("eq" ∷ "ne" ∷ []) f.comparison off (refl, (refl, tt))
