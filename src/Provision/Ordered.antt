-- ===== src/Provision/Ordered.antt =====
-- The orders of the dialog against the look-up of their template and version.
use nixway_core.Prelude.{
  String, true, List, [], ◌∷◌, Option, none, some, ◌≡◌, refl, sym, ap, ◌∙◌, inl, inr, arith, str_eq,
  truthy, any, find, Bool-cases,
}
use nixway_core.Models.Databases.{TemplateVersion, Template}
use nixway_core.CreateApp.Dialog.{Runtime}
use nixway_core.Provision.Dialog.{
  Dialog, ProvisionInput, Provisioning, refused, sends, find_template, provision_input, to_cluster,
  submit_provision,
}
use nixway_core.Provision.Registry.{found, get_version}
use nixway_core.Provision.Offered.{
  AreDistinct, IsOfferedBy, IsOffered, Reach, Reach-IsOffered, find_template-template_by_slug,
}

any-find :
    (vs : List TemplateVersion) (version : String)
    → any (λ v. str_eq v.version version) vs ≡ true
    → (v : TemplateVersion) × (find (λ w. str_eq w.version version) vs ≡ some v)
any-find [] version h = ground arith
any-find (w ∷ vs) version h = elim (Bool-cases (str_eq w.version version)) [
  | inl same ↦ (w, rw same refl)
  | inr other ↦ let (v, later) = any-find vs version (ground arith) in (v, rw other later)
]

module _ (r : Runtime) where
  input_of : Provisioning → ProvisionInput → ProvisionInput
  input_of (refused e) i = i
  input_of (sends j) i = j

  to_cluster-sends :
      (cluster_id : Option String) (d : Dialog) (i : ProvisionInput)
      → to_cluster r cluster_id d ≡ sends i
      → (c : String) × (i ≡ provision_input r c d)
  unfolding provision_input input_of
  to_cluster-sends none d i h = ground arith
  to_cluster-sends (some c) d i h = elim (Bool-cases (truthy c)) [
    | inl chosen ↦ (c, sym (ap (λ s. input_of s i) (rw chosen at h)))
    | inr missing ↦ let refusal = rw missing at h in ground arith
  ]

  submit_provision-sends :
      (cluster_id : Option String) (d : Dialog) (i : ProvisionInput)
      → submit_provision r cluster_id d ≡ sends i
      → (truthy d.version ≡ true) × ((c : String) × (i ≡ provision_input r c d))
  unfolding submit_provision
  submit_provision-sends cluster_id d i h = elim (Bool-cases (truthy (r.trim d.name))) [
    | inr blank ↦ let refusal = rw blank at h in ground arith
    | inl named ↦ elim (Bool-cases (truthy d.slug)) [
      | inr none_picked ↦ let refusal = rw (named, none_picked) at h in ground arith
      | inl picked ↦ elim (Bool-cases (truthy d.version)) [
        | inr none_chosen ↦ let refusal = rw (named, picked, none_chosen) at h in ground arith
        | inl chosen ↦ (chosen, to_cluster-sends cluster_id d i (rw (named, picked, chosen) at h))
      ]
    ]
  ]

module _ (quoted : String → String) (templates : List Template) where
  get_version-IsOffered :
      (slug version : String)
      → AreDistinct templates
      → IsOfferedBy (find_template templates slug) version
      → truthy version ≡ true
      → (v : TemplateVersion) × (get_version quoted templates slug version ≡ found v)
  unfolding get_version IsOfferedBy
  get_version-IsOffered slug version distinct (inl empty) chosen =
      let absurd = ap truthy empty in ground arith
  get_version-IsOffered slug version distinct (inr (t, known, listed)) chosen =
      let (v, first) = any-find t.versions version listed in
      (v, rw (sym (find_template-template_by_slug templates slug distinct) ∙ known, first) refl)

  -- In every state that the dialog comes to on a list of templates with distinct slugs, whatever it
  -- sends names a template and a version that GetVersion finds in this list.
  pub submit_provision-get_version :
      (r : Runtime) (cluster_id : Option String) (d : Dialog) (i : ProvisionInput)
      → AreDistinct templates
      → Reach templates d
      → submit_provision r cluster_id d ≡ sends i
      → (v : TemplateVersion) × (get_version quoted templates i.template_slug i.version ≡ found v)
  unfolding IsOffered provision_input
  submit_provision-get_version r cluster_id d i distinct run sent =
      let (chosen, (c, input)) = submit_provision-sends r cluster_id d i sent in
      let (v, known) =
        get_version-IsOffered d.slug d.version distinct (Reach-IsOffered templates d run) chosen in
      (v, ap (λ j. get_version quoted templates j.template_slug j.version) input ∙ known)
