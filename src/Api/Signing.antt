-- ===== src/Api/Signing.antt =====
-- kubernetes/api/v1alpha1/manifestsigningrequest_types.go
use quorum_based_manifests_g.Common.{ℤ, Bool, true, false, List, String, ◌==◌}
use quorum_based_manifests_g.Api.{
  VersionedManifestRef, ManifestRef, Locations, FileChange, GovernorList, ApprovalRule, Signature,
  Condition, ObjectMeta,
}

pub data SigningRequestStatus : Type 0 where
  in_progress error approved : SigningRequestStatus
  unknown : String → SigningRequestStatus

-- `status == InProgress`
abbrev pub is_in_progress : SigningRequestStatus → Bool
is_in_progress in_progress = true
is_in_progress error = false
is_in_progress approved = false
is_in_progress (unknown s) = false

-- MSRActionState
pub data ActionState : Type 0 where
  empty git_push_msr governor_qubmango_signature update_after_git_push init_set_finalizer :
      ActionState
  deletion new_msr_spec msr_rules_fulfillment : ActionState
  unknown : String → ActionState

-- The text of the state, which is the reason of the lock's condition.
abbrev pub text : ActionState → String
text empty = ""
text git_push_msr = "MSRActionStateGitPushMSR"
text governor_qubmango_signature = "MSRActionStateGovernorQubmangoSignature"
text update_after_git_push = "MSRActionStateUpdateAfterGitPush"
text init_set_finalizer = "MSRActionStateInitSetFinalizer"
text deletion = "MSRActionStateDeletion"
text new_msr_spec = "MSRActionStateNewMSRSpec"
text msr_rules_fulfillment = "MSRActionStateMSRRulesFulfillment"
text (unknown s) = s

-- `==` on the states
abbrev pub same_state : ActionState → ActionState → Bool
same_state empty empty = true
same_state git_push_msr git_push_msr = true
same_state governor_qubmango_signature governor_qubmango_signature = true
same_state update_after_git_push update_after_git_push = true
same_state init_set_finalizer init_set_finalizer = true
same_state deletion deletion = true
same_state new_msr_spec new_msr_spec = true
same_state msr_rules_fulfillment msr_rules_fulfillment = true
same_state (unknown s) (unknown t) = s == t
same_state _ _ = false

-- MSRReconcileNewMSRSpecState
pub data ReconcileState : Type 0 where
  empty git_push_msr update_after_git_push notify_governors : ReconcileState
  unknown : String → ReconcileState

-- MSRRulesFulfillmentState
pub data FulfillmentState : Type 0 where
  empty check_signatures update_mca_spec abort : FulfillmentState
  unknown : String → FulfillmentState

pub record HistoryRecord : Type 0 where
  pub commit_sha : String
  pub previous_commit_sha : String
  pub version : ℤ
  pub changes : List FileChange
  pub governors : GovernorList
  pub require : ApprovalRule
  pub collected_signatures : List Signature
  pub status : SigningRequestStatus

pub record ManifestSigningRequestSpec : Type 0 where
  pub version : ℤ
  pub commit_sha : String
  pub previous_commit_sha : String
  pub mrt : VersionedManifestRef
  pub public_key : String
  pub git_repository_url : String
  pub locations : Locations
  pub changes : List FileChange
  pub governors : GovernorList
  pub require : ApprovalRule

pub record ManifestSigningRequestStatus : Type 0 where
  pub last_observed_commit_hash : String
  pub request_history : List HistoryRecord
  pub status : SigningRequestStatus
  pub collected_signatures : List Signature
  pub action_state : ActionState
  pub reconcile_state : ReconcileState
  pub rules_fulfillment_state : FulfillmentState
  pub conditions : List Condition

pub record ManifestSigningRequest : Type 0 where
  pub metadata : ObjectMeta
  pub spec : ManifestSigningRequestSpec
  pub status : ManifestSigningRequestStatus

-- The form that is stored in Git.
pub record ManifestObject : Type 0 where
  pub kind : String
  pub api_version : String
  pub metadata : ManifestRef
  pub spec : ManifestSigningRequestSpec
