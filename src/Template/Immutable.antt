-- ===== src/Template/Immutable.antt =====
-- What ValidateImmutableFields of the MRT controller keeps.
use quorum_based_manifests_g.Common.{
  both_true, Bool, true, false, not, List, [], ◌∷◌, ◌++◌, String, ◌==◌, eq_iff, ◌≡◌, refl, subst,
}
use quorum_based_manifests_g.Api.{ManifestRef}
use quorum_based_manifests_g.Api.Template.{ManifestRequestTemplate}
use quorum_based_manifests_g.Template.Compare.{
  FieldError, same_ref, error_if, same_option, same_pgp, same_ssh, notifications_changed,
  validate_immutable_fields,
}

append_not_nil : (errs : List FieldError) (e : FieldError) → errs ++ e ∷ [] ≡ [] → true ≡ false
append_not_nil [] e h = cc
append_not_nil (f ∷ errs) e h = cc

-- No error before and none after: the test has found nothing bad.
error_if-Nil :
    (same : Bool) (path detail : String) (errs : List FieldError)
    → error_if (not same) path detail errs ≡ []
    → (same ≡ true) × (errs ≡ [])
error_if-Nil true path detail errs h = (refl, h)
error_if-Nil false path detail errs h = let c = append_not_nil errs _ h in cc

same_ref-eq : (a b : ManifestRef) → same_ref a b ≡ true → a ≡ b
same_ref-eq a b h =
    let (name, space) = both_true (a.name == b.name) (a.namespace == b.namespace) h in
    λ i. record {
      name = (eq_iff a.name b.name).0 name i;
      namespace = (eq_iff a.namespace b.namespace).0 space i;
    }

-- A template that passes the validation against the one in the cluster has its Application, which is
-- in Argo CD's namespace, its request, its approval and its governance folder.
pub validate_immutable_keeps :
    (old_mrt new_mrt : ManifestRequestTemplate)
    → validate_immutable_fields old_mrt new_mrt [] ≡ []
    → (old_mrt.spec.application ≡ new_mrt.spec.application)
      × (new_mrt.spec.application.namespace ≡ "argocd")
      × (old_mrt.spec.msr ≡ new_mrt.spec.msr)
      × (old_mrt.spec.mca ≡ new_mrt.spec.mca)
      × (old_mrt.spec.governance_folder_path ≡ new_mrt.spec.governance_folder_path)
unfolding validate_immutable_fields
validate_immutable_keeps old_mrt new_mrt h =
    let (folder, h1) =
      error_if-Nil (old_mrt.spec.governance_folder_path == new_mrt.spec.governance_folder_path) _ _
        _ h in
    let (mca, h2) = error_if-Nil (same_ref old_mrt.spec.mca new_mrt.spec.mca) _ _ _ h1 in
    let (msr, h3) = error_if-Nil (same_ref old_mrt.spec.msr new_mrt.spec.msr) _ _ _ h2 in
    let (space, h4) = error_if-Nil (new_mrt.spec.application.namespace == "argocd") _ _ _ h3 in
    let (app, h5) =
      error_if-Nil (same_ref old_mrt.spec.application new_mrt.spec.application) _ _ _ h4 in
    (
      same_ref-eq _ _ app,
      (eq_iff _ _).0 space,
      same_ref-eq _ _ msr,
      same_ref-eq _ _ mca,
      (eq_iff _ _).0 folder,
    )

error_if-errs :
    (bad : Bool) (path detail : String) (errs : List FieldError)
    → error_if bad path detail errs ≡ []
    → errs ≡ []
error_if-errs true path detail errs h = let c = append_not_nil errs _ h in cc
error_if-errs false path detail errs h = h

errors_before :
    (old_mrt new_mrt : ManifestRequestTemplate) (errs : List FieldError)
    → validate_immutable_fields old_mrt new_mrt errs ≡ []
    → errs ≡ []
unfolding validate_immutable_fields
errors_before old_mrt new_mrt errs h =
    let h0 =
      error_if-errs
        (not (old_mrt.spec.governance_folder_path == new_mrt.spec.governance_folder_path)) _ _ _
        h in
    let h1 = error_if-errs (not (same_ref old_mrt.spec.mca new_mrt.spec.mca)) _ _ _ h0 in
    let h2 = error_if-errs (not (same_ref old_mrt.spec.msr new_mrt.spec.msr)) _ _ _ h1 in
    let h3 = error_if-errs (not (new_mrt.spec.application.namespace == "argocd")) _ _ _ h2 in
    let h4 =
      error_if-errs (not (same_ref old_mrt.spec.application new_mrt.spec.application)) _ _ _ h3 in
    let h5 =
      error_if-errs (notifications_changed old_mrt.spec.notifications new_mrt.spec.notifications) _
        _ _ h4 in
    let h6 =
      error_if-errs (not (same_option same_pgp old_mrt.spec.pgp new_mrt.spec.pgp)) _ _ _ h5 in
    error_if-errs (not (same_ssh old_mrt.spec.ssh new_mrt.spec.ssh)) _ _ _ h6

-- The validation keeps the errors before it.
pub validate_immutable-Nil :
    (old_mrt new_mrt : ManifestRequestTemplate) (errs : List FieldError)
    → validate_immutable_fields old_mrt new_mrt errs ≡ []
    → (validate_immutable_fields old_mrt new_mrt [] ≡ []) × (errs ≡ [])
validate_immutable-Nil old_mrt new_mrt errs h =
    let none_before = errors_before old_mrt new_mrt errs h in
    (subst (λ e. validate_immutable_fields old_mrt new_mrt e ≡ []) none_before h, none_before)
