-- ===== src/Provision/Offered.antt =====
-- What the dialog orders, in every state it can come to.
use text.Mathlib.TextEquality.{eq_iff}
use nixway_core.Prelude.{
  String, Bool, true, false, List, [], ◌∷◌, Option, none, some, ◌≡◌, refl, sym, ap, ◌∙◌, ◌⊎◌, inl,
  inr, arith, str_eq, str_eq_refl, any, find, Bool-cases,
}
use nixway_core.Models.Databases.{DatabaseProvisionResult, TemplateVersion, Template}
use nixway_core.Provision.Dialog.{
  Dialog, is_default_version, version_or, first_version, default_version, find_template,
  first_template_slug, first_dialog, select_template, reset, set_open, continue_with,
  handle_continue, on_created, on_failed, on_terminal,
}
use nixway_core.Provision.Registry.{template_after, template_by_slug}

-- No two templates of a list have the same slug.
abbrev pub AreDistinct : List Template → Type 0
AreDistinct [] = Unit
AreDistinct (t ∷ ts) = (any (λ u. str_eq u.slug t.slug) ts ≡ false) × AreDistinct ts

template_by_slug-none :
    (ts : List Template) (slug : String)
    → any (λ u. str_eq u.slug slug) ts ≡ false
    → template_by_slug ts slug ≡ none
template_by_slug-none [] slug h = refl
template_by_slug-none (t ∷ ts) slug h = elim (Bool-cases (str_eq t.slug slug)) [
  | inl same ↦ ground arith
  | inr other ↦ rw (template_by_slug-none ts slug (ground arith), other) refl
]

template_after-other : (t : Template) (o : Option Template) → template_after false t o ≡ o
template_after-other t none = refl
template_after-other t (some u) = refl

-- with distinct slugs the first template of a slug is the last one
pub find_template-template_by_slug :
    (ts : List Template) (slug : String)
    → AreDistinct ts
    → find_template ts slug ≡ template_by_slug ts slug
find_template-template_by_slug [] slug distinct = refl
find_template-template_by_slug (t ∷ ts) slug (alone, distinct) =
    elim (Bool-cases (str_eq t.slug slug)) [
      | inl same ↦
          let later =
            template_by_slug-none ts slug (
              ap (λ s. any (λ u. str_eq u.slug s) ts) (sym ((eq_iff t.slug slug).0 same))
              ∙ alone) in
          rw (later, same) refl
      | inr other ↦
          rw (find_template-template_by_slug ts slug distinct, other)
            (sym (template_after-other t (template_by_slug ts slug)))
    ]

-- What is chosen: no version, or one of the template that the slug names.
abbrev pub IsVersionOf : String → Template → Type 0
IsVersionOf version t = any (λ v. str_eq v.version version) t.versions ≡ true

unfoldable pub IsOfferedBy : Option Template → String → Type 0
IsOfferedBy tmpl version =
    (version ≡ "") ⊎ ((t : Template) × (tmpl ≡ some t) × IsVersionOf version t)

same_version : (v w : TemplateVersion) → some v ≡ some w → str_eq v.version w.version ≡ true
same_version v w h = ap (λ o. str_eq v.version (version_or o "")) (sym h) ∙ str_eq_refl v.version

find-any :
    (vs : List TemplateVersion) (v : TemplateVersion)
    → find is_default_version vs ≡ some v
    → any (λ w. str_eq w.version v.version) vs ≡ true
find-any [] v h = ground arith
find-any (w ∷ vs) v h = elim (Bool-cases (is_default_version w)) [
  | inl chosen ↦ let here = same_version w v (rw chosen at h) in ground arith
  | inr other ↦ let later = find-any vs v (rw other at h) in ground arith
]

first_version-any :
    (vs : List TemplateVersion)
    → (first_version vs ≡ "") ⊎ (any (λ v. str_eq v.version (first_version vs)) vs ≡ true)
first_version-any [] = inl refl
first_version-any (v ∷ vs) = let here = str_eq_refl v.version in inr (ground arith)

version_or-any :
    (vs : List TemplateVersion) (o : Option TemplateVersion)
    → find is_default_version vs ≡ o
    → (version_or o (first_version vs) ≡ "")
      ⊎ (any (λ v. str_eq v.version (version_or o (first_version vs))) vs ≡ true)
version_or-any vs none h = first_version-any vs
version_or-any vs (some v) h = inr (find-any vs v h)

default_version-IsOfferedBy : (o : Option Template) → IsOfferedBy o (default_version o)
unfolding IsOfferedBy
default_version-IsOfferedBy none = inl refl
default_version-IsOfferedBy (some t) = elim (version_or-any t.versions _ refl) [
  | inl empty ↦ inl empty
  | inr known ↦ inr (t, refl, known)
]

module _ (templates : List Template) where
  unfoldable pub IsOffered : Dialog → Type 0
  IsOffered d = IsOfferedBy (find_template templates d.slug) d.version

  -- What the dialog's pickers, inputs, buttons and console do to it, in any order: the pickers offer
  -- the listed slugs and the versions of the selected template.
  pub data Reach : Dialog → Type 0 where
    mounted : Reach (first_dialog templates)
    picked :
        {d : Dialog} (slug : String) (t : Template)
        → Reach d
        → find_template templates slug ≡ some t
        → Reach (select_template templates slug d)
    versioned :
        {d : Dialog} (version : String) (t : Template)
        → Reach d
        → find_template templates d.slug ≡ some t
        → IsVersionOf version t
        → Reach (record d { version = version })
    typed :
        {d : Dialog} (name server_id size cpu memory schedule retention : String)
        → Reach d
        → Reach (record d {
          name = name;
          server_id = server_id;
          size = size;
          cpu = cpu;
          memory = memory;
          schedule = schedule;
          retention = retention;
        })
    toggled : {d : Dialog} (v : Bool) → Reach d → Reach (set_open templates v d)
    created : {d : Dialog} (r : DatabaseProvisionResult) → Reach d → Reach (on_created r d)
    failed_with : {d : Dialog} (e : String) → Reach d → Reach (on_failed e d)
    ended : {d : Dialog} (ok : Bool) → Reach d → Reach (on_terminal ok d)
    continued :
        {d : Dialog} (project_id : String)
        → Reach d
        → Reach (handle_continue templates project_id d).0

  select-IsOffered : (slug : String) (d : Dialog) → IsOffered (select_template templates slug d)
  unfolding IsOffered select_template
  select-IsOffered slug d = default_version-IsOfferedBy (find_template templates slug)

  reset-IsOffered : (d : Dialog) → IsOffered (reset templates d)
  unfolding IsOffered reset select_template
  reset-IsOffered d =
      default_version-IsOfferedBy (find_template templates (first_template_slug templates))

  set_open-IsOffered : (v : Bool) (d : Dialog) → IsOffered d → IsOffered (set_open templates v d)
  unfolding IsOffered
  set_open-IsOffered true d h = h
  set_open-IsOffered false d h = reset-IsOffered (record d { is_open = false })

  on_terminal-IsOffered : (ok : Bool) (d : Dialog) → IsOffered d → IsOffered (on_terminal ok d)
  unfolding IsOffered
  on_terminal-IsOffered true d h = h
  on_terminal-IsOffered false d h = h

  continue-IsOffered :
      (o : Option DatabaseProvisionResult) (d : Dialog)
      → IsOffered d
      → IsOffered (continue_with templates o d)
  continue-IsOffered none d h = h
  continue-IsOffered (some r) d h = reset-IsOffered (record d { is_open = false })

  pub Reach-IsOffered : (d : Dialog) → Reach d → IsOffered d
  unfolding IsOffered IsOfferedBy first_dialog
  Reach-IsOffered d mounted =
      default_version-IsOfferedBy (find_template templates (first_template_slug templates))
  Reach-IsOffered d (picked slug t run known) = select-IsOffered slug _
  Reach-IsOffered d (versioned version t run known listed) = inr (t, known, listed)
  Reach-IsOffered d (typed name server_id size cpu memory schedule retention run) =
      Reach-IsOffered _ run
  Reach-IsOffered d (toggled v run) = set_open-IsOffered v _ (Reach-IsOffered _ run)
  Reach-IsOffered d (created r run) = Reach-IsOffered _ run
  Reach-IsOffered d (failed_with e run) = Reach-IsOffered _ run
  Reach-IsOffered d (ended ok run) = on_terminal-IsOffered ok _ (Reach-IsOffered _ run)
  Reach-IsOffered d (continued {d = e} project_id run) =
      continue-IsOffered e.result e (Reach-IsOffered e run)
