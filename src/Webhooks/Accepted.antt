-- ===== src/Webhooks/Accepted.antt =====
-- What the validating webhooks accept.
use quorum_based_manifests_g.Common.{
  ℤ, pos, negsuc, ◌≤ℤ◌, leb_ℤ, Bool, true, false, not, ◌&&◌, List, [], ◌∷◌, ◌++◌, Option, none,
  some, String, ◌≡◌, refl, subst, Bool-cases, inl, inr, arith,
}
use quorum_based_manifests_g.Api.Template.{ManifestRequestTemplate}
use quorum_based_manifests_g.RuleWebhook.{RuleError}
use quorum_based_manifests_g.Template.Compare.{
  FieldError, same_int, same_spec, error_if, validate_version_updated,
}
use quorum_based_manifests_g.Template.Immutable.{validate_immutable_keeps, validate_immutable-Nil}
use quorum_based_manifests_g.Webhooks.Template.{
  Complaint, allowed, answer_of, fields, rule_complaint, rule_error, validate_update,
}

pub answer-allowed : (es : List Complaint) → answer_of es ≡ allowed → es ≡ []
answer-allowed [] h = refl
answer-allowed (e ∷ es) h = absurd (cc)

pub fields-Nil : (es : List FieldError) → fields es ≡ [] → es ≡ []
unfolding fields
fields-Nil [] h = refl
fields-Nil (e ∷ es) h = absurd (cc)

append-Nil : (xs ys : List Complaint) → xs ++ ys ≡ [] → (xs ≡ []) × (ys ≡ [])
append-Nil [] ys h = (refl, h)
append-Nil (x ∷ xs) ys h = absurd (cc)

pub error_if-clear :
    (bad : Bool) (path detail : String) → error_if bad path detail [] ≡ [] → bad ≡ false
error_if-clear false path detail h = refl
error_if-clear true path detail h = absurd (cc)

same_int-eq : (a b : ℤ) → same_int a b ≡ true → a ≡ b
same_int-eq (pos a) (pos b) h = ground arith
same_int-eq (negsuc a) (negsuc b) h = ground arith
same_int-eq (pos a) (negsuc b) h = absurd (cc)
same_int-eq (negsuc a) (pos b) h = absurd (cc)

-- A changed spec needs a later version; an unchanged one has the same.
version_rises :
    (same : Bool) (old_version new_version : ℤ)
    → (same ≡ true → same_int old_version new_version ≡ true)
    → (not same && leb_ℤ new_version old_version) ≡ false
    → old_version ≤ℤ new_version
version_rises true old_version new_version k h =
    subst (λ v. old_version ≤ℤ v) (same_int-eq old_version new_version (k refl)) (omega arith)
version_rises false old_version new_version k h = ground arith

rule_complaint-none : (r : Option RuleError) → rule_complaint r ≡ [] → r ≡ none
rule_complaint-none none h = refl
rule_complaint-none (some e) h = absurd (cc)

template_same :
    (a b : ManifestRequestTemplate)
    → same_spec a.spec b.spec ≡ true
    → same_int a.spec.version b.spec.version ≡ true
unfolding same_spec
template_same a b s = elim (Bool-cases (same_int a.spec.version b.spec.version)) [
  | inl e ↦ e
  | inr e ↦ let h = rw e at s in cc
]

template_version :
    (old_mrt new_mrt : ManifestRequestTemplate)
    → validate_version_updated old_mrt new_mrt [] ≡ []
    → old_mrt.spec.version ≤ℤ new_mrt.spec.version
unfolding validate_version_updated same_spec
template_version old_mrt new_mrt h =
    version_rises _ old_mrt.spec.version new_mrt.spec.version (template_same old_mrt new_mrt)
      (error_if-clear _ _ _ h)

-- An update of a template that the webhook allows does not lower the version, keeps the
-- Application (in Argo CD's namespace), the request, the approval and the governance folder, and
-- has a rule that the check of the approval rule accepts.
pub update-allowed :
    (old_mrt new_mrt : ManifestRequestTemplate)
    → validate_update old_mrt new_mrt ≡ allowed
    → (old_mrt.spec.version ≤ℤ new_mrt.spec.version)
      × (old_mrt.spec.application ≡ new_mrt.spec.application)
      × (new_mrt.spec.application.namespace ≡ "argocd")
      × (old_mrt.spec.msr ≡ new_mrt.spec.msr)
      × (old_mrt.spec.mca ≡ new_mrt.spec.mca)
      × (old_mrt.spec.governance_folder_path ≡ new_mrt.spec.governance_folder_path)
      × (rule_error new_mrt ≡ none)
unfolding validate_update
update-allowed old_mrt new_mrt h =
    let (no_fields, no_rule) = append-Nil _ _ (answer-allowed _ h) in
    let (kept, rises) = validate_immutable-Nil old_mrt new_mrt _ (fields-Nil _ no_fields) in
    let (app, space, msr, mca, folder) = validate_immutable_keeps old_mrt new_mrt kept in
    (
      template_version old_mrt new_mrt rises,
      app,
      space,
      msr,
      mca,
      folder,
      rule_complaint-none _ no_rule,
    )
