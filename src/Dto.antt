-- ===== src/Dto.antt =====
-- pkg/api/dto: the form in which a signing request is stored in Git and evaluated.
use quorum_based_manifests_g.Common.{ℕ, suc, ℤ, Bool, List, Option, String}

-- dto.FileChangeStatus, a string type; `unknown` holds any other text.
pub data FileChangeStatus : Type 0 where
  new updated deleted : FileChangeStatus
  unknown : String → FileChangeStatus

-- A file of the repository with its change; `content` is the bytes, as a text.
pub record FileBytesWithStatus : Type 0 where
  pub content : String
  pub status : FileChangeStatus
  pub path : String

pub record FileChange : Type 0 where
  pub kind : String
  pub status : FileChangeStatus
  pub name : String
  pub namespace : String
  pub sha256 : String
  pub path : String

pub record ManifestRef : Type 0 where
  pub name : String
  pub namespace : String

pub record VersionedManifestRef : Type 0 where
  pub name : String
  pub namespace : String
  pub version : ℤ

pub record Locations : Type 0 where
  pub governance_path : String
  pub source_path : String

pub record SlackChannel : Type 0 where
  pub channel_id : String

pub record NotificationChannel : Type 0 where
  pub slack : Option SlackChannel

pub record Governor : Type 0 where
  pub alias : String
  pub public_key : String

pub record GovernorList : Type 0 where
  pub notification_channels : List NotificationChannel
  pub members : List Governor

-- A nil slice and an empty one are both `nil`: the code only ranges over `Require` and takes `len`.
mutual
  pub data ApprovalRule : Type 0 where
    rule :
        (at_least : Option ℤ) (all : Option Bool) (require : Rules) (signer : String) → ApprovalRule

  pub data Rules : Type 0 where
    nil : Rules
    cons : ApprovalRule → Rules → Rules

-- `len(rule.Require)`
abbrev pub length_rules : Rules → ℕ
length_rules nil = 0
length_rules (cons r rs) = suc (length_rules rs)

pub record ManifestSigningRequestSpec : Type 0 where
  pub version : ℤ
  pub commit_sha : String
  pub previous_commit_sha : String
  pub mrt : VersionedManifestRef
  pub public_key : String
  pub git_repository_url : String
  pub locations : Locations
  pub changes : List FileChange
  pub governors : GovernorList
  pub require : ApprovalRule

-- `kind` and `api_version` are the fields of the embedded `metav1.TypeMeta`.
pub record ManifestSigningRequestManifestObject : Type 0 where
  pub kind : String
  pub api_version : String
  pub metadata : ManifestRef
  pub spec : ManifestSigningRequestSpec
