-- ===== src/CreateApp/Created.antt =====
-- What the handler makes of what the dialog sends.
use nixway_core.Prelude.{
  ℕ, suc, String, Bool, true, false, [], Option, none, some, ◌≡◌, refl, ap, ◌∙◌, arith, truthy,
  or_text, truthy-or_text, sym, Bool-cases, inl, inr, ◌||◌, ◌<>◌, if◌then◌else◌,
}
use nixway_core.Prelude.Int.{pos}
use nixway_core.Json.{Json, bool, str, Members, end, member, get_member}
use nixway_core.AppUpdate.Decode.{as_pointer, as_strings, Decoder, as_int32}
use nixway_core.AppUpdate.Server.{parse_ids}
use nixway_core.CreateApp.Dialog.{
  Source, github, docker_image, source_name, is_github, Fields, Runtime, numeric_or, optional,
  given, image_reference, installation, create_input, creates, submit_create,
}
use nixway_core.CreateApp.Server.{NewApp, create_known, as_id, handle_create}

-- A row with the defaults of the handler for what the dialog does not send.
abbrev row_of :
    String
    → Source
    → Option String
    → Option String
    → Option String
    → Option String
    → String
    → ℕ
    → ℕ
    → NewApp
row_of name source installation repo branch image path port replicas = record {
  name = name;
  source_type = source_name source;
  github_installation_id = installation;
  repo_full_name = repo;
  branch = branch;
  root_path = "/";
  auto_deploy = is_github source;
  docker_image = image;
  registry_credential_id = none;
  builder = "auto";
  dockerfile_path = "Dockerfile";
  port = pos (suc port);
  health_check_path = path;
  health_check_interval = pos 5;
  health_check_timeout = pos 60;
  replicas = pos (suc replicas);
  subdomain = none;
  placement_strategy = "spread";
  placement_constraints = none;
  pinned_server_ids = [];
}

abbrev common_input : Json → Json → String → Bool → Members
common_input port replicas path deploys = member "port" port (
    member "replicas" replicas (
      member "health_check_path" (str path) (
        member "builder" (str "auto")
          (member "root_path" (str "/") (member "auto_deploy" (bool deploys) end)))))

module _ (d : Decoder) where
  github_created :
      (name repo path : String) (installation branch : Option String) (port replicas : Json)
      (m n : ℕ)
      → truthy name ≡ true
      → truthy path ≡ true
      → as_id d installation ≡ some installation
      → as_int32 d (some port) ≡ some (pos (suc m))
      → as_int32 d (some replicas) ≡ some (pos (suc n))
      → handle_create d (
          member "name" (str name) (
            member "source_type" (str "github") (
              optional "github_installation_id" installation (
                member "repo_full_name"
                  (str repo)
                  (optional "branch" branch (common_input port replicas path true))))))
        ≡ some (row_of name github installation (some repo) branch none path m n)
  unfolding handle_create create_known get_member as_pointer as_strings parse_ids
  github_created name repo path none none port replicas m n ok slash id p q =
      rw (p, q, ok, slash) refl
  github_created name repo path none (some b) port replicas m n ok slash id p q =
      rw (p, q, ok, slash) refl
  github_created name repo path (some i) none port replicas m n ok slash id p q =
      rw (p, q, ok, slash, id) refl
  github_created name repo path (some i) (some b) port replicas m n ok slash id p q =
      rw (p, q, ok, slash, id) refl

  docker_created :
      (name image path : String) (port replicas : Json) (m n : ℕ)
      → truthy name ≡ true
      → truthy path ≡ true
      → as_int32 d (some port) ≡ some (pos (suc m))
      → as_int32 d (some replicas) ≡ some (pos (suc n))
      → handle_create d (
          member "name" (str name) (
            member "source_type"
              (str "docker_image")
              (member "docker_image" (str image) (common_input port replicas path false))))
        ≡ some (row_of name docker_image none none none (some image) path m n)
  unfolding handle_create create_known get_member as_pointer as_strings parse_ids
  docker_created name image path port replicas m n ok slash p q = rw (p, q, ok, slash) refl

  module _ (r : Runtime) where
    -- the path that the dialog sends, `/` where the field is blank
    abbrev health_path : Fields → String
    health_path f = or_text (some (r.trim f.health_check_path)) "/"

    -- the installation that is sent
    abbrev pub sent_id : Source → Fields → Option String
    sent_id github f = installation r f
    sent_id docker_image f = none

    -- the image that a dialog with an image asks for, with a tag unless it was typed as a whole
    abbrev tagged_image : Fields → String
    tagged_image f =
        if f.image_manual
        then r.trim f.image
        else r.trim f.image <> (":" <> r.trim (if truthy f.tag then f.tag else "latest"))

    image_reference-tagged :
        (f : Fields) → truthy (r.trim f.image) ≡ true → image_reference r f ≡ tagged_image f
    unfolding image_reference
    image_reference-tagged f h = elim (Bool-cases f.image_manual) [
      | inl manual ↦ rw manual refl
      | inr picked ↦ rw (picked, h) refl
    ]

    -- The row that a submission asks for.
    abbrev pub asked : Source → Fields → ℕ → ℕ → NewApp
    asked github f =
        row_of (r.trim f.name) github (installation r f) (some (r.trim f.repo))
          (given (r.trim f.branch)) none (health_path f)
    asked docker_image f =
        row_of (r.trim f.name) docker_image none none none (some (tagged_image f)) (health_path f)

    asked_of :
        (source : Source) (f : Fields) (m n : ℕ)
        → f.source ≡ source
        → truthy (r.trim f.name) ≡ true
        → (is_github source || truthy (r.trim f.image)) ≡ true
        → as_id d (sent_id source f) ≡ some (sent_id source f)
        → as_int32 d (some (numeric_or (r.number f.port) "3000")) ≡ some (pos (suc m))
        → as_int32 d (some (numeric_or (r.number f.replicas) "1")) ≡ some (pos (suc n))
        → handle_create d (create_input r f) ≡ some (asked source f m n)
    unfolding create_input
    asked_of github f m n s ok i id p q = rw s (
        github_created (r.trim f.name) (r.trim f.repo) (health_path f) (installation r f)
          (given (r.trim f.branch)) _ _ m n ok
          (truthy-or_text (some (r.trim f.health_check_path)) "/" refl) id p q)
    asked_of docker_image f m n s ok i id p q =
        rw (s, sym (image_reference-tagged f i))
          (docker_created (r.trim f.name) (image_reference r f) (health_path f) _ _ m n ok
            (truthy-or_text (some (r.trim f.health_check_path)) "/" refl) p q)

    submit_create-creates :
        (f : Fields) (ms : Members)
        → submit_create r f ≡ creates ms
        → (truthy (r.trim f.name) ≡ true)
          × ((is_github f.source || truthy (r.trim f.image)) ≡ true)
          × (ms ≡ create_input r f)
    unfolding submit_create
    submit_create-creates f ms sent = ground arith

    -- If the handler's decoder reads the port and the replicas that the dialog sends as positive
    -- numbers, and the id of the installation is a UUID where one is sent, the handler takes whatever
    -- the dialog submits, and inserts the row of the trimmed fields: those of the chosen source only,
    -- a picked image with its tag or `latest`, `/` for a blank path, and the handler's defaults for
    -- what the dialog does not ask.
    pub submit_create-handle_create :
        (f : Fields) (ms : Members) (m n : ℕ)
        → submit_create r f ≡ creates ms
        → as_id d (sent_id f.source f) ≡ some (sent_id f.source f)
        → as_int32 d (some (numeric_or (r.number f.port) "3000")) ≡ some (pos (suc m))
        → as_int32 d (some (numeric_or (r.number f.replicas) "1")) ≡ some (pos (suc n))
        → handle_create d ms ≡ some (asked f.source f m n)
    submit_create-handle_create f ms m n sent id p q =
        let (named, chosen, e) = submit_create-creates f ms sent in
        ap (handle_create d) e ∙ asked_of f.source f m n refl named chosen id p q
