-- ===== src/Template/Compare.antt =====
-- What the MRT controller compares: two templates, and the changes of a request with the files of a
-- revision. `reflect.DeepEqual` also tells a nil slice from an empty one, which are one list here.
use quorum_based_manifests_g.Common.{
  ℤ, pos, negsuc, leb_ℤ, nat_eq, length, Bool, true, false, not, ◌&&◌, ◌||◌, List, [], ◌∷◌, ◌++◌,
  Option, none, some, String, ◌==◌, ◌+++◌, lookup, insert, if◌then◌else◌,
}
use quorum_based_manifests_g.Api.{
  ManifestRef, FileChange, FileChangeStatus, new, updated, deleted, unknown, NotificationChannel,
  Governor, GovernorList, ApprovalRule, rule, Rules, nil, cons,
}
use quorum_based_manifests_g.Api.Signing.{ManifestSigningRequest}
use quorum_based_manifests_g.Api.Template.{
  GitSsh, PgpPrivateKeySecret, SlackSecret, NotificationConfig, ManifestRequestTemplateSpec,
  ManifestRequestTemplate,
}
use quorum_based_manifests_g.Template.Paths.{has_prefix, has_suffix, clean, join}

abbrev pub same_ref : ManifestRef → ManifestRef → Bool
same_ref a b = a.name == b.name && a.namespace == b.namespace

-- DeepEqual on a pointer
abbrev pub same_option {ℓ} : {A : Type ℓ} → (A → A → Bool) → Option A → Option A → Bool
same_option same none none = true
same_option same (some a) (some b) = same a b
same_option same none (some b) = false
same_option same (some a) none = false

-- DeepEqual on a slice
unfoldable pub same_list {ℓ} : {A : Type ℓ} → (A → A → Bool) → List A → List A → Bool
same_list same [] [] = true
same_list same [] (y ∷ ys) = false
same_list same (x ∷ xs) [] = false
same_list same (x ∷ xs) (y ∷ ys) = let rest = same_list same xs ys in same x y && rest

abbrev pub same_int : ℤ → ℤ → Bool
same_int (pos a) (pos b) = nat_eq a b
same_int (negsuc a) (negsuc b) = nat_eq a b
same_int (pos a) (negsuc b) = false
same_int (negsuc a) (pos b) = false

abbrev pub same_bool : Bool → Bool → Bool
same_bool true b = b
same_bool false b = not b

abbrev pub same_ssh : GitSsh → GitSsh → Bool
same_ssh a b = a.url == b.url && same_option same_ref a.secrets_ref b.secrets_ref

abbrev pub same_pgp : PgpPrivateKeySecret → PgpPrivateKeySecret → Bool
same_pgp a b = a.public_key == b.public_key && same_ref a.secrets_ref b.secrets_ref

abbrev pub same_slack : SlackSecret → SlackSecret → Bool
same_slack a b = same_ref a.secrets_ref b.secrets_ref

abbrev pub same_notifications : NotificationConfig → NotificationConfig → Bool
same_notifications a b = same_option same_slack a.slack b.slack

abbrev pub same_channel : NotificationChannel → NotificationChannel → Bool
same_channel a b = same_option (λ s t. s.channel_id == t.channel_id) a.slack b.slack

abbrev pub same_governor : Governor → Governor → Bool
same_governor a b = a.alias == b.alias && a.public_key == b.public_key

abbrev pub same_governors : GovernorList → GovernorList → Bool
same_governors a b =
    same_list same_channel a.notification_channels b.notification_channels
    && same_list same_governor a.members b.members

unfoldable mutual
  pub same_rule : ApprovalRule → ApprovalRule → Bool
  same_rule (rule n all rs signer) (rule m all' rs' signer') =
      let children = same_rules rs rs' in
      same_option same_int n m && same_option same_bool all all' && signer == signer' && children

  pub same_rules : Rules → Rules → Bool
  same_rules nil nil = true
  same_rules nil (cons r rs) = false
  same_rules (cons r rs) nil = false
  same_rules (cons r rs) (cons q qs) =
      let rest = same_rules rs qs in let first = same_rule r q in first && rest

-- `reflect.DeepEqual(oldMRT.Spec, newMRT.Spec)`
unfoldable pub same_spec : ManifestRequestTemplateSpec → ManifestRequestTemplateSpec → Bool
unfolding same_list same_rule
same_spec a b =
    same_int a.version b.version
    && same_ssh a.ssh b.ssh
    && same_option same_pgp a.pgp b.pgp
    && same_option same_notifications a.notifications b.notifications
    && same_ref a.application b.application
    && same_ref a.msr b.msr
    && same_ref a.mca b.mca
    && a.governance_folder_path == b.governance_folder_path
    && same_governors a.governors b.governors
    && same_rule a.require b.require

-- field.Error, without the value
pub record FieldError : Type 0 where
  pub path : String
  pub detail : String

abbrev pub error_if : Bool → String → String → List FieldError → List FieldError
error_if bad path detail errs =
    if bad then errs ++ record { path = path; detail = detail } ∷ [] else errs

unfoldable pub validate_version_updated :
    ManifestRequestTemplate → ManifestRequestTemplate → List FieldError → List FieldError
unfolding same_spec
validate_version_updated old_mrt new_mrt all_errs =
    error_if
      (not (same_spec old_mrt.spec new_mrt.spec) && leb_ℤ new_mrt.spec.version old_mrt.spec.version)
      "spec.version" "version must be incremented on change" all_errs

-- Both have a secret, and the secrets differ.
abbrev pub slack_changed : Option SlackSecret → Option SlackSecret → Bool
slack_changed (some a) (some b) = not (same_slack a b)
slack_changed (some a) none = false
slack_changed none b = false

abbrev pub notifications_changed : Option NotificationConfig → Option NotificationConfig → Bool
notifications_changed (some a) (some b) = slack_changed a.slack b.slack
notifications_changed (some a) none = false
notifications_changed none b = false

unfoldable pub validate_immutable_fields :
    ManifestRequestTemplate → ManifestRequestTemplate → List FieldError → List FieldError
validate_immutable_fields old_mrt new_mrt all_errs =
    let ssh =
      error_if (not (same_ssh old_mrt.spec.ssh new_mrt.spec.ssh)) "spec.gitRepository.ssh"
        "ssh is immutable and cannot be changed after creation" all_errs in
    let pgp =
      error_if (not (same_option same_pgp old_mrt.spec.pgp new_mrt.spec.pgp)) "spec.pgp"
        "pgp is immutable and cannot be changed after creation" ssh in
    let slack =
      error_if (notifications_changed old_mrt.spec.notifications new_mrt.spec.notifications)
        "spec.notifications.slack"
        "slack is immutable and cannot be changed after creation. It can be only removed" pgp in
    let argocd =
      error_if (not (same_ref old_mrt.spec.application new_mrt.spec.application)) "spec.argoCD"
        "argoCD is immutable and cannot be changed after creation" slack in
    let namespace =
      error_if (not (new_mrt.spec.application.namespace == "argocd"))
        "spec.argoCD.application.namespace"
        "dynamic namespaces are not supported yet, must be 'argocd'" argocd in
    let msr =
      error_if (not (same_ref old_mrt.spec.msr new_mrt.spec.msr)) "spec.msr"
        "MSR reference is immutable and cannot be changed after creation" namespace in
    let mca =
      error_if (not (same_ref old_mrt.spec.mca new_mrt.spec.mca)) "spec.mca"
        "MCA reference is immutable and cannot be changed after creation" msr in
    error_if (not (old_mrt.spec.governance_folder_path == new_mrt.spec.governance_folder_path))
      "spec.governanceFolderPath"
      "governanceFolderPath cannot be changed after creation, because it can cause loss of governance history"
      mca

-- The text of a status, which is what `!=` compares.
abbrev pub status_text : FileChangeStatus → String
status_text new = "New"
status_text updated = "Updated"
status_text deleted = "Deleted"
status_text (unknown s) = s

-- `f == msrF`
abbrev pub same_change : FileChange → FileChange → Bool
same_change a b =
    a.kind == b.kind
    && status_text a.status == status_text b.status
    && a.name == b.name
    && a.namespace == b.namespace
    && a.sha256 == b.sha256
    && a.path == b.path

unfoldable pub files_map : List FileChange → List (String × FileChange) → List (String × FileChange)
unfolding insert
files_map [] files = files
files_map (f ∷ changes) files = files_map changes (insert f.path f files)

abbrev pub unchanged : FileChange → Option FileChange → Bool
unchanged f none = false
unchanged f (some g) = same_change f g

unfoldable pub all_unchanged : List (String × FileChange) → List FileChange → Bool
unfolding lookup
all_unchanged files [] = true
all_unchanged files (f ∷ changed_files) =
    let rest = all_unchanged files changed_files in
    if unchanged f (lookup f.path files) then rest else false

unfoldable pub has_no_new_updates : ManifestSigningRequest → List FileChange → Bool
unfolding files_map all_unchanged
has_no_new_updates msr changed_files =
    if not (nat_eq (length msr.spec.changes) (length changed_files))
    then false
    else all_unchanged (files_map msr.spec.changes []) changed_files

-- A file that is governed: it has a manifest's suffix or a kind, and is not under `folder`.
unfoldable pub is_governed : String → FileChange → Bool
unfolding clean has_prefix has_suffix
is_governed folder file =
    let path = clean file.path in
    (has_suffix path ".yaml" || has_suffix path ".yml" || not (file.kind == ""))
    && not (has_prefix path (folder +++ "/"))

unfoldable pub keep_governed : String → List FileChange → List FileChange
unfolding is_governed
keep_governed folder [] = []
keep_governed folder (file ∷ files) =
    let filtered = keep_governed folder files in
    if is_governed folder file then file ∷ filtered else filtered

-- `QubmangoGovernanceFolder`
abbrev pub qubmango_governance_folder : String
qubmango_governance_folder = ".qubmango"

unfoldable pub governance_path : ManifestRequestTemplate → String
unfolding join
governance_path mrt = join mrt.spec.governance_folder_path qubmango_governance_folder

unfoldable pub filter_non_manifest_files :
    List FileChange → ManifestRequestTemplate → List FileChange
unfolding keep_governed governance_path clean
filter_non_manifest_files files mrt = keep_governed (clean (governance_path mrt)) files
