-- ===== src/Api.antt =====
-- kubernetes/api/v1alpha1: the custom resources, as the controllers and the webhooks read them.
-- Embedded `metav1` types stand with the fields that the code reads. A string type with constants
-- is a data type with `unknown` for any other text.
pub mod Approval
pub mod Signing
pub mod Template
pub mod Governance
use quorum_based_manifests_g.Common.{ℕ, suc, ℤ, Bool, List, Option, String}

-- types.NamespacedName, and ManifestRef, ManifestRefOptional
pub record ManifestRef : Type 0 where
  pub name : String
  pub namespace : String

pub record VersionedManifestRef : Type 0 where
  pub name : String
  pub namespace : String
  pub version : ℤ

pub data FileChangeStatus : Type 0 where
  new updated deleted : FileChangeStatus
  unknown : String → FileChangeStatus

pub record FileChange : Type 0 where
  pub kind : String
  pub status : FileChangeStatus
  pub name : String
  pub namespace : String
  pub sha256 : String
  pub path : String

pub record Locations : Type 0 where
  pub governance_path : String
  pub source_path : String

pub record SlackChannel : Type 0 where
  pub channel_id : String

pub record NotificationChannel : Type 0 where
  pub slack : Option SlackChannel

pub record Governor : Type 0 where
  pub alias : String
  pub public_key : String

pub record GovernorList : Type 0 where
  pub notification_channels : List NotificationChannel
  pub members : List Governor

-- A nil slice and an empty one are both `nil`: the code only ranges over `Require` and takes `len`.
mutual
  pub data ApprovalRule : Type 0 where
    rule :
        (at_least : Option ℤ) (all : Option Bool) (require : Rules) (signer : String) → ApprovalRule

  pub data Rules : Type 0 where
    nil : Rules
    cons : ApprovalRule → Rules → Rules

-- `len(rule.Require)`
abbrev pub length_rules : Rules → ℕ
length_rules nil = 0
length_rules (cons r rs) = suc (length_rules rs)

pub record Signature : Type 0 where
  pub signer : String

-- metav1.Condition; `status` is true for metav1.ConditionTrue.
pub record Condition : Type 0 where
  pub type : String
  pub status : Bool
  pub reason : String
  pub message : String
  pub last_transition_time : ℕ

-- metav1.TypeMeta with the fields of metav1.ObjectMeta; `deletion_timestamp` is none for the zero.
pub record ObjectMeta : Type 0 where
  pub kind : String
  pub api_version : String
  pub name : String
  pub namespace : String
  pub uid : String
  pub deletion_timestamp : Option ℕ
  pub finalizers : List String
  pub annotations : List (String × String)
