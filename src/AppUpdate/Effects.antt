-- ===== src/AppUpdate/Effects.antt =====
-- What the two callers of the total-replace update leave of an app's row.
use nixway_core.Prelude.{
  String, Bool, true, false, not, Option, none, some, List, [], ◌∷◌, ◌≡◌, refl, sym, ap, ◌∙◌, arith,
  or_else, truthy, ◌&&◌, among, inl, inr, Bool-cases, if◌then◌else◌,
}
use nixway_core.Prelude.Int.{ℤ, pos}
use nixway_core.Json.{null, Members, get_member}
use nixway_core.Models.{App}
use nixway_core.Endpoints.Types.{Platform, texts, items_of, nullable}
use nixway_core.Endpoints.Apps.{remove_domain_body}
use nixway_core.AppUpdate.Decode.{Decoder, as_pointer, as_strings, strings_of}
use nixway_core.AppUpdate.Server.{
  Row, UpdateAnswer, fails, updated, known, parse_ids, pins_or, or_current, default_strategy,
  builders, statuses, write_row, handle_update,
}
use nixway_core.AppUpdate.Form.{
  Inputs, Reader, number_or, refused, unchanged, saves, is_dirty, save_patch, handle_save,
}

saved_patch :
    (named changed : Bool) (x ms : Members)
    → (if not named
        then refused "Name is required."
        else if not changed
        then unchanged
        else saves x)
      ≡ saves ms
    → x ≡ ms
saved_patch true true x ms h = cc
saved_patch true false x ms h = absurd cc
saved_patch false changed x ms h = absurd cc

-- the answer to the form's patch, by the decoder's readings of its two numbers
abbrev pub refusal : Option ℤ → Option ℤ → UpdateAnswer
refusal (some port) (some replicas) = fails 500 "failed to update app"
refusal _ _ = fails 400 "invalid request body"

module _ (d : Decoder) (p : Platform) (r : Reader) where
  decode-save_patch :
      (port replicas : Option ℤ) (i : Inputs) (row : Row)
      → d.int32 (p.show (number_or (r.number i.port) 3000)) ≡ port
      → d.int32 (p.show (number_or (r.number i.replicas) 1)) ≡ replicas
      → handle_update d (save_patch p r i) row ≡ refusal port replicas
  unfolding handle_update known get_member as_strings as_pointer pins_or
  decode-save_patch (some n) (some m) i row hp hr = rw (hp, hr) refl
  decode-save_patch (some n) none i row hp hr = rw (hp, hr) refl
  decode-save_patch none replicas i row hp hr = rw hp refl

  -- Whatever the form "Identity & runtime" saves, the API refuses it: with status 500, since the
  -- missing builder is written as an empty text and the table's check does not take this, or with
  -- status 400 where the port or the number of replicas is no int32.
  pub handle_save-refused :
      (app : App) (i : Inputs) (ms : Members) (row : Row)
      → handle_save p r app i ≡ saves ms
      → handle_update d ms row
        ≡ refusal
            (d.int32 (p.show (number_or (r.number i.port) 3000)))
            (d.int32 (p.show (number_or (r.number i.replicas) 1)))
  unfolding handle_save
  handle_save-refused app i ms row h =
      let same =
        saved_patch (truthy (r.trim i.name)) (is_dirty p r app i) (save_patch p r i) ms h in
      ap (λ x. handle_update d x row) (sym same) ∙ decode-save_patch _ _ i row refl refl

pub strings_of-items : (ss : List String) → strings_of (items_of ss) ≡ some ss
unfolding strings_of
strings_of-items [] = refl
strings_of-items (s ∷ ss) = rw (strings_of-items ss)

pub as_strings-texts : (ss : List String) → as_strings (some (texts ss)) ≡ some (some ss)
unfolding as_strings
as_strings-texts ss = rw (strings_of-items ss, as_strings)

as_pointer-nullable : (o : Option String) → as_pointer (some (nullable o)) ≡ some o
unfolding as_pointer
as_pointer-nullable none = refl
as_pointer-nullable (some s) = refl

as_pointer-none : as_pointer none ≡ some none
unfolding as_pointer
as_pointer-none = refl

as_pointer-null : as_pointer (some null) ≡ some none
unfolding as_pointer
as_pointer-null = refl

-- every text is a UUID
abbrev pub all_uuids : (String → Bool) → List String → Bool
all_uuids is_uuid [] = true
all_uuids is_uuid (s ∷ ss) = (truthy s && is_uuid s) && all_uuids is_uuid ss

pub parse_ids_of_uuids :
    (is_uuid : String → Bool) (ss : List String)
    → all_uuids is_uuid ss ≡ true
    → parse_ids is_uuid ss ≡ some ss
unfolding parse_ids
parse_ids_of_uuids is_uuid [] h = refl
parse_ids_of_uuids is_uuid (s ∷ ss) h = ground (arith, parse_ids_of_uuids is_uuid ss)

-- The row that the removal of a custom domain writes, for the decoder's readings of the app's port
-- and replicas.
abbrev pub domainless : Decoder → App → Row → ℤ → ℤ → Row
domainless d app row port replicas = record {
  name = app.name;
  branch = app.branch;
  root_path = or_else app.root_path "";
  auto_deploy = or_else app.auto_deploy false;
  builder = or_else app.builder "";
  dockerfile_path = or_else app.dockerfile_path "";
  port = port;
  health_check_path = or_else app.health_check_path "";
  health_check_interval = pos 0;
  health_check_timeout = pos 0;
  replicas = replicas;
  subdomain = none;
  custom_domain = none;
  status = or_current d.is_uuid app.status "active";
  placement_strategy =
      default_strategy d.is_uuid
        (or_current d.is_uuid (or_else app.placement_strategy "spread") row.placement_strategy);
  placement_constraints = row.placement_constraints;
  pinned_server_ids = or_else app.pinned_server_ids [];
}

remove_domain-write_row :
    (d : Decoder) (p : Platform) (app : App) (row : Row) (port replicas : ℤ)
    → d.int32 (p.show (or_else app.port 0)) ≡ some port
    → d.int32 (p.show (or_else app.replicas 1)) ≡ some replicas
    → all_uuids d.is_uuid (or_else app.pinned_server_ids []) ≡ true
    → handle_update d (remove_domain_body p app) row
      ≡ write_row d (domainless d app row port replicas)
unfolding handle_update known get_member pins_or
remove_domain-write_row d p app row port replicas hp hr h = rw (as_pointer-nullable) (
    rw (as_pointer-none) (
      rw (as_pointer-null)
        (rw (as_strings-texts) (rw (hp, hr, parse_ids_of_uuids d.is_uuid _ h) refl))))

status_or_active :
    (is_uuid : String → Bool) (s : String)
    → among statuses s ≡ true
    → among statuses (or_current is_uuid s "active") ≡ true
status_or_active is_uuid s h = elim (Bool-cases (truthy s)) [
  | inl given ↦ rw given h
  | inr empty ↦ rw empty refl
]

-- Removing the custom domain of an app whose builder and status are those of the table's checks, whose
-- port and replicas are int32 and whose pinned servers are UUIDs writes back the app's own values, or
-- the defaults of `removeDomain` where the app has none, and clears the custom domain; but the
-- subdomain is cleared too, and both health check times become zero, whatever the row had.
pub remove_domain-resets :
    (d : Decoder) (p : Platform) (app : App) (row : Row) (port replicas : ℤ)
    → among builders (or_else app.builder "") ≡ true
    → among statuses app.status ≡ true
    → d.int32 (p.show (or_else app.port 0)) ≡ some port
    → d.int32 (p.show (or_else app.replicas 1)) ≡ some replicas
    → all_uuids d.is_uuid (or_else app.pinned_server_ids []) ≡ true
    → handle_update d (remove_domain_body p app) row ≡ updated (domainless d app row port replicas)
remove_domain-resets d p app row port replicas built valid hp hr h =
    remove_domain-write_row d p app row port replicas hp hr h
    ∙ rw (built, status_or_active d.is_uuid app.status valid) refl
