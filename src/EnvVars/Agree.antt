-- ===== src/EnvVars/Agree.antt =====
-- The dialog's tests against the handler's.
use nixway_core.Prelude.{
  String, true, none, some, ◌≡◌, refl, ◌∙◌, ◌⊎◌, inl, inr, truthy, str_eq, any, Bool-cases,
  if◌then◌else◌,
}
use nixway_core.Json.{get_member}
use nixway_core.EnvVars.Dialog.{
  is_key, VarFields, refused, creates, key_error, var_input, submit_var, reserved_keys,
}
use nixway_core.EnvVars.Server.{validate_env_key, fails, Rows, create_valid, handle_create_var}

-- The two lists of tests come out alike.
AreAlike : String → Type 0
AreAlike k =
    ((key_error k ≡ none) × (validate_env_key k ≡ ""))
    ⊎ ((e : String) × (key_error k ≡ some e) × (truthy (validate_env_key k) ≡ true))

keys-AreAlike : (k : String) → AreAlike k
unfolding AreAlike validate_env_key
keys-AreAlike k = elim (Bool-cases (str_eq k "")) [
  | inl blank ↦ rw blank (inr ("Key is required.", refl, refl))
  | inr given ↦ elim (Bool-cases (is_key k)) [
    | inr malformed ↦ rw (given, malformed) (inr (_, refl, refl))
    | inl formed ↦ elim (Bool-cases (any (λ j. str_eq j k) reserved_keys)) [
      | inl reserved ↦ rw (given, formed, reserved) (inr (_, refl, refl))
      | inr free ↦ rw (given, formed, free) (inl (refl, refl))
    ]
  ]
]

module _ (trim : String → String) (environment : String) (rows : Rows) where
  handle_create_var-input :
      (f : VarFields)
      → handle_create_var rows (var_input trim environment f) ≡ (
          if truthy (validate_env_key (trim f.key))
          then fails 400 (validate_env_key (trim f.key))
          else create_valid rows environment (trim f.key) f.value)
  unfolding handle_create_var get_member
  handle_create_var-input f = refl

  -- what becomes of a new variable: it is sent and stored, or both sides refuse it
  abbrev pub IsMirrored : VarFields → Type 0
  IsMirrored f =
      ((submit_var trim environment f ≡ creates (var_input trim environment f))
        × (handle_create_var rows (var_input trim environment f)
            ≡ create_valid rows environment (trim f.key) f.value))
      ⊎ ((e : String) × (submit_var trim environment f ≡ refused e)
          × (handle_create_var rows (var_input trim environment f)
              ≡ fails 400 (validate_env_key (trim f.key))))

  -- With a value that is not empty, the dialog sends a new variable exactly if its trimmed key passes
  -- the handler's test: then the handler stores the value under this key, if the environment is
  -- found, and otherwise it would answer with status 400.
  pub submit_var-handle_create_var :
      (f : VarFields) → f.existing ≡ none → truthy f.value ≡ true → IsMirrored f
  unfolding submit_var AreAlike
  submit_var-handle_create_var f new given =
      let stored = handle_create_var-input f in
      elim (keys-AreAlike (trim f.key)) [
        | inl (fine, valid) ↦ inl (rw (new, fine, given) refl, stored ∙ rw valid refl)
        | inr (e, wrong, invalid) ↦ inr (e, rw (new, wrong) refl, stored ∙ rw invalid refl)
      ]
