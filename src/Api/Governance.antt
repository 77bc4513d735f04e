-- ===== src/Api/Governance.antt =====
-- kubernetes/api/v1alpha1/governancequeue_types.go and governanceevent_types.go
use quorum_based_manifests_g.Common.{ℕ, List, Option, String}
use quorum_based_manifests_g.Api.{ManifestRef, ObjectMeta}

pub record EventReference : Type 0 where
  pub uid : String
  pub name : String
  pub namespace : String

-- `queue` is the one field of the status that is read.
pub record GovernanceQueue : Type 0 where
  pub metadata : ObjectMeta
  pub mrt : ManifestRef
  pub queue : List EventReference

-- NewRevisionPayload
pub record NewRevisionPayload : Type 0 where
  pub commit_sha : String

pub record GovernanceEventSpec : Type 0 where
  pub type : String
  pub mrt : ManifestRef
  pub new_revision : Option NewRevisionPayload

-- `label` is the template's uid, the one label of an event.
pub record GovernanceEvent : Type 0 where
  pub metadata : ObjectMeta
  pub creation_timestamp : ℕ
  pub label : String
  pub spec : GovernanceEventSpec
