-- ===== src/Witnesses/Scales.antt =====
-- The scale form at concrete inputs.
use nixway_core.Prelude.{
  ◌≤◌, max, true, false, List, [], ◌∷◌, some, inl, ◌≡◌, refl, ◌⊎◌, ◌≢◌, str_eq,
}
use nixway_core.Prelude.Int.{pos}
use nixway_core.Json.{null}
use nixway_core.AppUpdate.Decode.{Decoder}
use nixway_core.Scale.Form.{
  Form, open_form, initial_replicas, Edit, increment, decrement, toggle, edit, is_changed, same_set,
  toggle_pinned, scale_input, scale_body, submit_scale,
}
use nixway_core.Scale.Server.{ScaleRow, updates, handle_scale}
use nixway_core.Scale.Edits.{edit_all, edit_all-replicas}
use nixway_core.Scale.Sent.{scaled_row, sent-handle_scale}
use nixway_core.Witnesses.Data.{shop, plain_platform}

edit_all-replicas_example :
    (1 ≤ (edit_all (open_form shop) (decrement ∷ increment ∷ toggle "s2" ∷ [])).replicas)
    × ((edit_all (open_form shop) (decrement ∷ increment ∷ toggle "s2" ∷ [])).replicas
        ≤ max 999 (initial_replicas shop))
edit_all-replicas_example = edit_all-replicas shop (decrement ∷ increment ∷ toggle "s2" ∷ [])

abbrev decoder : Decoder
decoder = record { int32 = λ l. some (pos 2); is_uuid = λ s. true }

abbrev row : ScaleRow
row = record {
  replicas = pos 1;
  placement_strategy = "pinned";
  placement_constraints = null;
  pinned_server_ids = "s1" ∷ [];
}

abbrev edits : List Edit
edits = increment ∷ toggle "s2" ∷ []

abbrev wider : Form
wider = record { replicas = 2; strategy = "pinned"; pinned = "s1" ∷ "s2" ∷ [] }

sent-handle_scale_example :
    (handle_scale decoder (λ s. s) (scale_body plain_platform (scale_input wider)) row
      ≡ updates (scaled_row decoder (λ s. s) plain_platform wider row))
    × ((str_eq "pinned" "pinned" ≡ false) ⊎ (wider.pinned ≢ []))
unfolding open_form edit submit_scale toggle_pinned is_changed same_set
sent-handle_scale_example =
    sent-handle_scale decoder (λ s. s) plain_platform shop edits (scale_input wider) row refl refl
      refl (inl refl)
