-- ===== src/Webhooks/Requests.antt =====
-- kubernetes/internal/webhook/v1alpha1/manifestsigningrequest_webhook.go and
-- manifestchangeapproval_webhook.go: a change of the spec of a request or of an approval needs a
-- later version. Nothing else is checked; creation and deletion are always allowed.
use quorum_based_manifests_g.Common.{leb_ℤ, Bool, not, ◌&&◌, [], String, ◌==◌}
use quorum_based_manifests_g.Api.{VersionedManifestRef, Locations, Signature}
use quorum_based_manifests_g.Api
use quorum_based_manifests_g.Template.Compare.{
  same_int, same_list, same_change, same_governors, same_rule, error_if,
}
use quorum_based_manifests_g.Webhooks.Template.{Answer, answer_of, fields}

abbrev pub same_versioned : VersionedManifestRef → VersionedManifestRef → Bool
same_versioned a b = a.name == b.name && a.namespace == b.namespace && same_int a.version b.version

abbrev pub same_locations : Locations → Locations → Bool
same_locations a b = a.governance_path == b.governance_path && a.source_path == b.source_path

abbrev pub same_signature : Signature → Signature → Bool
same_signature a b = a.signer == b.signer

-- `reflect.DeepEqual(oldMSR.Spec, newMSR.Spec)`
unfoldable pub same_msr_spec :
    Api.Signing.ManifestSigningRequestSpec → Api.Signing.ManifestSigningRequestSpec → Bool
unfolding same_list same_rule
same_msr_spec a b =
    same_int a.version b.version
    && a.commit_sha == b.commit_sha
    && a.previous_commit_sha == b.previous_commit_sha
    && same_versioned a.mrt b.mrt
    && a.public_key == b.public_key
    && a.git_repository_url == b.git_repository_url
    && same_locations a.locations b.locations
    && same_list same_change a.changes b.changes
    && same_governors a.governors b.governors
    && same_rule a.require b.require

-- `reflect.DeepEqual(oldMCA.Spec, newMCA.Spec)`
unfoldable pub same_mca_spec :
    Api.Approval.ManifestChangeApprovalSpec → Api.Approval.ManifestChangeApprovalSpec → Bool
unfolding same_list same_rule
same_mca_spec a b =
    same_int a.version b.version
    && a.commit_sha == b.commit_sha
    && a.previous_commit_sha == b.previous_commit_sha
    && same_versioned a.mrt b.mrt
    && same_versioned a.msr b.msr
    && a.public_key == b.public_key
    && a.git_repository_url == b.git_repository_url
    && same_locations a.locations b.locations
    && same_list same_change a.changes b.changes
    && same_governors a.governors b.governors
    && same_rule a.require b.require
    && same_list same_signature a.collected_signatures b.collected_signatures

abbrev pub version_message : String
version_message = "version must be incremented on change"

unfoldable pub validate_msr_update :
    Api.Signing.ManifestSigningRequest → Api.Signing.ManifestSigningRequest → Answer
unfolding fields same_msr_spec
validate_msr_update old_msr new_msr = answer_of (
    fields (
      error_if
        (not (same_msr_spec old_msr.spec new_msr.spec)
          && leb_ℤ new_msr.spec.version old_msr.spec.version)
        "spec.version" version_message []))

unfoldable pub validate_mca_update :
    Api.Approval.ManifestChangeApproval → Api.Approval.ManifestChangeApproval → Answer
unfolding fields same_mca_spec
validate_mca_update old_mca new_mca = answer_of (
    fields (
      error_if
        (not (same_mca_spec old_mca.spec new_mca.spec)
          && leb_ℤ new_mca.spec.version old_mca.spec.version)
        "spec.version" version_message []))
