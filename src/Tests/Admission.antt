-- ===== src/Tests/Admission.antt =====
-- Concrete requests for the admission webhook.
use quorum_based_manifests_g.Common.{[], ◌∷◌, some, ◌+++◌, ◌≡◌, ◌↔◌, refl, ok, err}
use quorum_based_manifests_g.Api.Approval.{ManifestChangeApproval}
use quorum_based_manifests_g.Api.Template.{ManifestRequestTemplate, Application}
use quorum_based_manifests_g.Kube.{governance_finalizer}
use quorum_based_manifests_g.Approval.Save.{create_new_mca_history_record_from_spec}
use quorum_based_manifests_g.Admission.{
  Request, allowed, handle, serve, get_application, get_revision_from_application,
  parse_tracking_id, validate_and_get_mrt,
}
use quorum_based_manifests_g.Admission.Decision.{IsAllowed, Approved, Governs, handle-IsAllowed_iff}
use quorum_based_manifests_g.Admission.Initialization.{uninitialized_allowed}
use quorum_based_manifests_g.Admission.Tracking.{parse-tracking_id_lem}
use quorum_based_manifests_g.Tests.Approval.{kube_example, mca_example, mrt_example, app_example}

abbrev approved_mca : ManifestChangeApproval
approved_mca = record mca_example {
  status = record mca_example.status {
    approval_history = create_new_mca_history_record_from_spec mca_example 7 ∷ [];
  };
}

abbrev synced : Application
synced = record app_example { operation_sync = some "c1" }

-- A request on a resource of the Application, for a cluster with one template.
abbrev request : ManifestRequestTemplate → Request
request mrt = record {
  kind = "Deployment";
  decode_tracking_id = ok "app:apps/Deployment:default/web";
  decode_application = err "not an Application";
  get_application = λ key. ok synced;
  list_mrts = ok (mrt ∷ []);
  list_mcas = ok (approved_mca ∷ []);
}

abbrev initialized_mrt : ManifestRequestTemplate
initialized_mrt = record mrt_example {
  metadata = record mrt_example.metadata { finalizers = governance_finalizer ∷ [] };
}

initialized-Governs : Governs (request initialized_mrt) synced initialized_mrt
unfolding get_application validate_and_get_mrt parse_tracking_id
initialized-Governs = (refl, refl)

fresh-Governs : Governs (request mrt_example) synced mrt_example
unfolding get_application validate_and_get_mrt parse_tracking_id
fresh-Governs = (refl, refl)

handle-IsAllowed_iff_example :
    IsAllowed (handle kube_example (request initialized_mrt) []).0
    ↔ Approved (request initialized_mrt) initialized_mrt (get_revision_from_application synced)
handle-IsAllowed_iff_example =
    handle-IsAllowed_iff kube_example (request initialized_mrt) [] synced initialized_mrt
      initialized-Governs refl

-- The request above is allowed.
approved_request : IsAllowed (handle kube_example (request initialized_mrt) []).0
unfolding handle create_new_mca_history_record_from_spec
approved_request = tt

uninitialized_allowed_example :
    (handle kube_example
      (request mrt_example)
      (serve kube_example (request mrt_example ∷ request initialized_mrt ∷ []) [])).0
    ≡ allowed "Governance initialization revision, allow by default"
uninitialized_allowed_example =
    uninitialized_allowed kube_example (request mrt_example ∷ request initialized_mrt ∷ [])
      (request mrt_example) synced mrt_example fresh-Governs refl

parse-tracking_id_lem_example :
    parse_tracking_id ("app" +++ (":" +++ ("/Pod" +++ (":" +++ "default/web"))))
    ≡ some ("app", "argocd")
parse-tracking_id_lem_example =
    parse-tracking_id_lem "app" "/Pod" "default/web" (refl, (refl, (refl, tt)))
      (refl, (refl, (refl, (refl, tt))))
