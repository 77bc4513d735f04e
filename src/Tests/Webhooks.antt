-- ===== src/Tests/Webhooks.antt =====
-- The validating webhooks at concrete objects.
use quorum_based_manifests_g.Common.{true, ok, ◌+++◌, pos, ◌≤ℤ◌, [], ◌∷◌, none, ◌≡◌, refl}
use quorum_based_manifests_g.Api.Template.{ManifestRequestTemplate}
use quorum_based_manifests_g.Api.Signing.{ManifestSigningRequest}
use quorum_based_manifests_g.Api.Approval.{ManifestChangeApproval}
use quorum_based_manifests_g.Webhooks.Template.{rule_error, validate_update}
use quorum_based_manifests_g.Webhooks.Requests.{validate_msr_update, validate_mca_update}
use quorum_based_manifests_g.Webhooks.Accepted.{update-allowed}
use quorum_based_manifests_g.Template.Paths.{has_prefix}
use quorum_based_manifests_g.Webhooks.GitUrl.{Urls, same_git_repository}
use quorum_based_manifests_g.Webhooks.SameUrl.{same_url_forms}
use quorum_based_manifests_g.Webhooks.Updates.{
  here, next, Advances, msr_terms, mca_terms, msr_updates, mca_updates,
}
use quorum_based_manifests_g.Tests.Approval.{mrt_example, mca_example}
use quorum_based_manifests_g.Tests.Signing.{msr_example}

abbrev argocd_mrt : ManifestRequestTemplate
argocd_mrt = record mrt_example {
  spec = record mrt_example.spec {
    application = record { name = "app"; namespace = "argocd" };
    governors = record {
      notification_channels = [];
      members = record { alias = "alice"; public_key = "A" } ∷ [];
    };
  };
}

-- The same with a later version.
abbrev later_mrt : ManifestRequestTemplate
later_mrt = record argocd_mrt { spec = record argocd_mrt.spec { version = pos 7 } }

update-allowed_example :
    (argocd_mrt.spec.version ≤ℤ later_mrt.spec.version)
    × (argocd_mrt.spec.application ≡ later_mrt.spec.application)
    × (later_mrt.spec.application.namespace ≡ "argocd")
    × (argocd_mrt.spec.msr ≡ later_mrt.spec.msr)
    × (argocd_mrt.spec.mca ≡ later_mrt.spec.mca)
    × (argocd_mrt.spec.governance_folder_path ≡ later_mrt.spec.governance_folder_path)
    × (rule_error later_mrt ≡ none)
update-allowed_example = update-allowed argocd_mrt later_mrt (unfold validate_update in refl)

abbrev later_msr : ManifestSigningRequest
later_msr = record msr_example {
  spec = record msr_example.spec { version = pos 2; commit_sha = "c2" };
}

msr_updates_example : Advances (msr_terms msr_example) (msr_terms later_msr)
msr_updates_example =
    msr_updates {a = msr_example} {b = later_msr}
      (next {c = later_msr} here (unfold validate_msr_update in refl))

abbrev later_mca : ManifestChangeApproval
later_mca = record mca_example {
  spec = record mca_example.spec { version = pos 9; commit_sha = "c9" };
}

mca_updates_example : Advances (mca_terms mca_example) (mca_terms later_mca)
mca_updates_example =
    mca_updates {a = mca_example} {b = later_mca}
      (next {c = later_mca} here (unfold validate_mca_update in refl))

abbrev urls_example : Urls
urls_example = record {
  trim_space = λ s. s;
  to_lower = λ s. s;
  parse = λ s. ok ("git.io", "/org/repo.git");
}

same_url_forms_example :
    same_git_repository urls_example
      (("git@" +++ "git.io") +++ (":" +++ ("org/repo" +++ ".git")))
      "https://git.io/org/repo.git"
    ≡ ok true
unfolding has_prefix
same_url_forms_example =
    same_url_forms urls_example "git.io" "org/repo" "https://git.io/org/repo.git"
      (refl, (refl, (refl, (refl, (refl, (refl, tt)))))) refl refl refl refl
