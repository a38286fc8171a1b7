-- ===== src/TokenScopes/Submit.antt =====
-- When the dialog of CreateTokenDialog.tsx asks for a token.
use nixway_core.Prelude.{
  String, true, false, List, [], ◌∷◌, ◌++◌, none, some, ◌≡◌, refl, ◌↔◌, ◌⊎◌, inl, inr, All, truthy,
  if◌then◌else◌,
}
use nixway_core.TokenScopes.Dialog.{
  Level, no_access, read, write, Resource, resource_list, scopes_of, collect, levels_to_scopes,
  refused, creates, handle_submit,
}

-- no resource of the list may be read or written
abbrev pub NoAccess : (Resource → Level) → List Resource → Type 0
NoAccess levels rs = All (λ r. levels r ≡ no_access) rs

scopes_of-nil :
    (r : Resource) (level : Level) (rest : List String)
    → (scopes_of r level ++ rest ≡ []) ↔ ((level ≡ no_access) × (rest ≡ []))
unfolding scopes_of
scopes_of-nil r no_access rest = (λ e. (refl, e), λ p. p.1)
scopes_of-nil r read rest = (λ e. cc, λ p. let e = p.0 in cc)
scopes_of-nil r write rest = (λ e. cc, λ p. let e = p.0 in cc)

collect-nil :
    (levels : Resource → Level) (rs : List Resource) → (collect levels rs ≡ []) ↔ NoAccess levels rs
unfolding collect
collect-nil levels [] = (λ e. tt, λ p. refl)
collect-nil levels (r ∷ rs) =
    let here = scopes_of-nil r (levels r) (collect levels rs) in
    let later = collect-nil levels rs in
    (λ e. let (a, b) = here.0 e in (a, later.0 b), λ p. here.1 (p.0, later.1 p.1))

cases_of_scopes :
    (xs : List String) → (xs ≡ []) ⊎ ((x : String) × (rest : List String) × (xs ≡ x ∷ rest))
cases_of_scopes [] = inl refl
cases_of_scopes (x ∷ xs) = inr (x, xs, refl)

-- With a name that is not blank, and without full admin, the dialog refuses exactly where every
-- resource is left without access; otherwise it asks for a token with the trimmed name and the scopes
-- of the levels.
pub handle_submit-cases :
    (trim : String → String) (name : String) (levels : Resource → Level) (expires_in : String)
    → truthy (trim name) ≡ true
    → ((NoAccess levels resource_list)
        × (handle_submit trim name false levels expires_in
            ≡ refused "Choose at least one scope, or enable Full admin."))
      ⊎ ((¬ NoAccess levels resource_list)
          × (handle_submit trim name false levels expires_in
              ≡ creates
                  (trim name)
                  (levels_to_scopes false levels)
                  (if truthy expires_in then some expires_in else none)))
unfolding handle_submit levels_to_scopes
handle_submit-cases trim name levels expires_in given =
    elim (cases_of_scopes (collect levels resource_list)) [
      | inl e ↦ inl ((collect-nil levels resource_list).0 e, rw (given, e) refl)
      | inr (x, rest, e) ↦
          inr (λ p. let k = (collect-nil levels resource_list).1 p in cc, rw (given, e) refl)
    ]
