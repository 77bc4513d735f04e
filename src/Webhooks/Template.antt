-- ===== src/Webhooks/Template.antt =====
-- kubernetes/internal/webhook/v1alpha1/manifestrequesttemplate_webhook.go: the webhook of templates.
use quorum_based_manifests_g.Common.{
  Bool, true, false, not, List, [], ◌∷◌, ◌++◌, Option, none, some, String, ◌==◌, ◌+++◌, Result, ok,
  err, with_context, insert, if◌then◌else◌,
}
use quorum_based_manifests_g.Api.{ManifestRef}
use quorum_based_manifests_g.Api.Template.{ManifestRequestTemplate, Application}
use quorum_based_manifests_g.Kube.{Kube, governance_finalizer}
use quorum_based_manifests_g.Admission.{get_revision_from_application}
use quorum_based_manifests_g.RuleWebhook.{RuleError, get_members_map, is_approval_rule_valid}
use quorum_based_manifests_g.Template.Compare.{
  FieldError, error_if, validate_version_updated, validate_immutable_fields,
}
use quorum_based_manifests_g.Webhooks.GitUrl.{Urls, same_git_repository}

-- An entry of `allErrs`.
pub data Complaint : Type 0 where
  field : FieldError → Complaint
  bad_rule : RuleError → Complaint

-- A webhook's answer: nil, an Invalid error with the list, or another error.
pub data Answer : Type 0 where
  allowed : Answer
  invalid : List Complaint → Answer
  failed : String → Answer

abbrev pub answer_of : List Complaint → Answer
answer_of [] = allowed
answer_of (e ∷ es) = invalid (e ∷ es)

unfoldable pub fields : List FieldError → List Complaint
fields [] = []
fields (e ∷ es) = field e ∷ fields es

abbrev pub rule_complaint : Option RuleError → List Complaint
rule_complaint none = []
rule_complaint (some e) = bad_rule e ∷ []

-- `QubmangoMRTCreationCommitAnnotation`
abbrev pub creation_commit_annotation : String
creation_commit_annotation = "governance.nazar.grynko.com/mrt-creation-commit-sha"

abbrev pub get_error : ManifestRequestTemplate → String → String
get_error mrt e =
    with_context
      ("get Application " +++ mrt.spec.application.namespace +++ ":" +++ mrt.spec.application.name
        +++ " for MRT " +++ mrt.metadata.namespace +++ ":" +++ mrt.metadata.name)
      e

-- The Application of the template, as the client answers.
unfoldable pub set_creation_commit_annotation_on_mrt :
    ManifestRequestTemplate → Result Application → Result ManifestRequestTemplate
unfolding insert get_revision_from_application
set_creation_commit_annotation_on_mrt mrt (err e) = err (get_error mrt e)
set_creation_commit_annotation_on_mrt mrt (ok application) = ok (record mrt {
  metadata = record mrt.metadata {
    annotations =
        insert creation_commit_annotation (get_revision_from_application application)
          mrt.metadata.annotations;
  };
})

abbrev pub annotated : Result ManifestRequestTemplate → Result ManifestRequestTemplate
annotated (ok mrt) = ok mrt
annotated (err e) = err (with_context "set creation commit annotation on MRT" e)

unfoldable pub rule_error : ManifestRequestTemplate → Option RuleError
unfolding is_approval_rule_valid get_members_map
rule_error mrt =
    is_approval_rule_valid mrt.spec.require (get_members_map mrt.spec.governors.members)

unfoldable pub validate_update : ManifestRequestTemplate → ManifestRequestTemplate → Answer
unfolding fields validate_version_updated validate_immutable_fields rule_error
validate_update old_mrt new_mrt = answer_of (
    fields (validate_immutable_fields old_mrt new_mrt (validate_version_updated old_mrt new_mrt []))
    ++ rule_complaint (rule_error new_mrt))

module _ (kube : Kube) (u : Urls) (get_application : ManifestRef → Result Application) where
  unfoldable pub default : ManifestRequestTemplate → Result ManifestRequestTemplate
  unfolding set_creation_commit_annotation_on_mrt
  default mrt =
      if not (kube.contains_finalizer mrt.metadata governance_finalizer)
      then annotated
          (set_creation_commit_annotation_on_mrt mrt (get_application mrt.spec.application))
      else ok mrt

  -- The complaint on the URL behind those before it.
  abbrev pub with_same : List Complaint → Result Bool → Answer
  with_same complaints (err e) =
      failed (with_context "compare Application and MRT git repository URLs" e)
  with_same complaints (ok true) = answer_of complaints
  with_same complaints (ok false) = answer_of (
      complaints
      ++ field (record {
        path = "spec.gitRepository.ssh.url";
        detail =
            "SSH repository URL must have the same host, organization and name as Application RepoURL";
      })
        ∷ [])

  abbrev pub with_application :
      ManifestRequestTemplate → List Complaint → Result Application → Answer
  with_application mrt complaints (err e) = failed (get_error mrt e)
  with_application mrt complaints (ok application) =
      with_same complaints (same_git_repository u mrt.spec.ssh.url application.repo_url)

  unfoldable pub validate_create : ManifestRequestTemplate → Answer
  unfolding fields same_git_repository rule_error
  validate_create mrt =
      with_application mrt
        (fields (
            error_if (not (mrt.spec.application.namespace == "argocd"))
              "spec.argoCDApplication.namespace"
              "dynamic namespaces are not supported yet, must be 'argocd'" [])
          ++ rule_complaint (rule_error mrt))
        (get_application mrt.spec.application)
