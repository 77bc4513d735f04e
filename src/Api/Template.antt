-- ===== src/Api/Template.antt =====
-- kubernetes/api/v1alpha1/manifestrequesttemplate_types.go, and the fields that the code reads of an Argo CD Application.
use quorum_based_manifests_g.Common.{ℤ, List, Bool, true, false, Option, String, ◌==◌}
use quorum_based_manifests_g.Api.{ManifestRef, GovernorList, ApprovalRule, ObjectMeta, Condition}

pub record GitSsh : Type 0 where
  pub url : String
  pub secrets_ref : Option ManifestRef

pub record PgpPrivateKeySecret : Type 0 where
  pub public_key : String
  pub secrets_ref : ManifestRef

pub record SlackSecret : Type 0 where
  pub secrets_ref : ManifestRef

pub record NotificationConfig : Type 0 where
  pub slack : Option SlackSecret

pub record ManifestRequestTemplateSpec : Type 0 where
  pub version : ℤ
  pub ssh : GitSsh
  pub pgp : Option PgpPrivateKeySecret
  pub notifications : Option NotificationConfig
  pub application : ManifestRef
  pub msr : ManifestRef
  pub mca : ManifestRef
  pub governance_folder_path : String
  pub governors : GovernorList
  pub require : ApprovalRule

-- MRTActionState
pub data ActionState : Type 0 where
  empty save_argocd_target_revision check_governance_path_empty : ActionState
  create_default_cluster_resources init_set_finalizer delete_restore_argocd : ActionState
  delete_remove_governance_folder delete_remove_finalizer checking_dependencies : ActionState
  new_revision : ActionState
  unknown : String → ActionState

-- The text of the state, which is the reason of the lock's condition.
abbrev pub text : ActionState → String
text empty = ""
text save_argocd_target_revision = "MRTActionStateSaveArgoCDTargetRevision"
text check_governance_path_empty = "MRTActionStateCheckGovernancePathEmpty"
text create_default_cluster_resources = "MRTActionStateCreateDefaultClusterResources"
text init_set_finalizer = "MRTActionStateInitSetFinalizer"
text delete_restore_argocd = "MRTActionStateDeleteRestoreArgoCD"
text delete_remove_governance_folder = "MRTActionStateDeleteRemoveGovernanceFolder"
text delete_remove_finalizer = "MRTActionStateDeleteRemoveFinalizer"
text checking_dependencies = "MRTActionStateCheckingDependencies"
text new_revision = "MRTActionStateNewRevision"
text (unknown s) = s

-- `==` on the states
abbrev pub same_state : ActionState → ActionState → Bool
same_state empty empty = true
same_state save_argocd_target_revision save_argocd_target_revision = true
same_state check_governance_path_empty check_governance_path_empty = true
same_state create_default_cluster_resources create_default_cluster_resources = true
same_state init_set_finalizer init_set_finalizer = true
same_state delete_restore_argocd delete_restore_argocd = true
same_state delete_remove_governance_folder delete_remove_governance_folder = true
same_state delete_remove_finalizer delete_remove_finalizer = true
same_state checking_dependencies checking_dependencies = true
same_state new_revision new_revision = true
same_state (unknown s) (unknown t) = s == t
same_state _ _ = false

-- MRTNewRevisionState
pub data RevisionState : Type 0 where
  empty preflight_check update_msr_spec after_msr_update abort : RevisionState
  unknown : String → RevisionState

-- The state of the deletion is never written; it is left out.
pub record ManifestRequestTemplateStatus : Type 0 where
  pub revision_queue_ref : ManifestRef
  pub last_observed_commit_hash : String
  pub action_state : ActionState
  pub revision_processing_state : RevisionState
  pub application_init_target_revision : String
  pub conditions : List Condition

pub record ManifestRequestTemplate : Type 0 where
  pub metadata : ObjectMeta
  pub spec : ManifestRequestTemplateSpec
  pub status : ManifestRequestTemplateStatus

-- argoappv1.Application: `operation_state_sync` is the revision of
-- `Status.OperationState.Operation.Sync`, `operation_sync` that of `Operation.Sync`, where those
-- pointers are not nil.
pub record Application : Type 0 where
  pub name : String
  pub namespace : String
  pub target_revision : String
  pub repo_url : String
  pub source_path : String
  pub operation_state_sync : Option String
  pub operation_sync : Option String
