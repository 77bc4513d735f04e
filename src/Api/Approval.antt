-- ===== src/Api/Approval.antt =====
-- kubernetes/api/v1alpha1/manifestchangeapproval_types.go
use quorum_based_manifests_g.Common.{ℕ, ℤ, Bool, true, false, List, String, ◌==◌}
use quorum_based_manifests_g.Api.{
  VersionedManifestRef, ManifestRef, Locations, FileChange, GovernorList, ApprovalRule, Signature,
  Condition, ObjectMeta,
}

-- MCAActionState
pub data ActionState : Type 0 where
  empty git_push_mca push_summary_files update_after_git_push update_argocd init_set_finalizer :
      ActionState
  deletion new_mca_spec : ActionState
  unknown : String → ActionState

-- The text of the state, which is the reason of the lock's condition.
abbrev pub text : ActionState → String
text empty = ""
text git_push_mca = "MCAActionStateGitPushMCA"
text push_summary_files = "MCAActionStatePushSummaryFiles"
text update_after_git_push = "MCAActionStateUpdateAfterGitPush"
text update_argocd = "MCAActionStateUpdateArgoCD"
text init_set_finalizer = "MCAActionStateInitSetFinalizer"
text deletion = "MCAActionStateDeletion"
text new_mca_spec = "MCAActionStateNewMCASpec"
text (unknown s) = s

-- `==` on the states
abbrev pub same_state : ActionState → ActionState → Bool
same_state empty empty = true
same_state git_push_mca git_push_mca = true
same_state push_summary_files push_summary_files = true
same_state update_after_git_push update_after_git_push = true
same_state update_argocd update_argocd = true
same_state init_set_finalizer init_set_finalizer = true
same_state deletion deletion = true
same_state new_mca_spec new_mca_spec = true
same_state (unknown s) (unknown t) = s == t
same_state _ _ = false

-- MCAReconcileNewMCASpecState
pub data ReconcileState : Type 0 where
  empty git_push_mca push_summary_files update_argocd update_after_git_push notify_governors :
      ReconcileState
  unknown : String → ReconcileState

pub record ManifestChangeApprovalSpec : Type 0 where
  pub version : ℤ
  pub commit_sha : String
  pub previous_commit_sha : String
  pub mrt : VersionedManifestRef
  pub msr : VersionedManifestRef
  pub public_key : String
  pub git_repository_url : String
  pub locations : Locations
  pub changes : List FileChange
  pub governors : GovernorList
  pub require : ApprovalRule
  pub collected_signatures : List Signature

pub record HistoryRecord : Type 0 where
  pub commit_sha : String
  pub previous_commit_sha : String
  pub time : ℕ
  pub version : ℤ
  pub changes : List FileChange
  pub governors : GovernorList
  pub require : ApprovalRule
  pub collected_signatures : List Signature

pub record ManifestChangeApprovalStatus : Type 0 where
  pub approval_history : List HistoryRecord
  pub action_state : ActionState
  pub reconcile_state : ReconcileState
  pub conditions : List Condition

pub record ManifestChangeApproval : Type 0 where
  pub metadata : ObjectMeta
  pub spec : ManifestChangeApprovalSpec
  pub status : ManifestChangeApprovalStatus

-- The form that is stored in Git.
pub record ManifestObject : Type 0 where
  pub kind : String
  pub api_version : String
  pub metadata : ManifestRef
  pub spec : ManifestChangeApprovalSpec
