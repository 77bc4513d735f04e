-- ===== src/Signing/World.antt =====
-- The systems that the MSR controller calls, as an interface, and its object as a controller's.
use quorum_based_manifests_g.Common.{ℕ, List, Option, String, Result}
use quorum_based_manifests_g.Dto
use quorum_based_manifests_g.Api.{ManifestRef}
use quorum_based_manifests_g.Api.Signing.{
  ManifestSigningRequest, ManifestObject, text, same_state, ActionState,
}
use quorum_based_manifests_g.Api.Approval.{ManifestChangeApproval, ManifestChangeApprovalSpec}
use quorum_based_manifests_g.Api.Template.{ManifestRequestTemplate}
use quorum_based_manifests_g.Validation.{Signers}
use quorum_based_manifests_g.Signers.{OpenPgp, Texts}
use quorum_based_manifests_g.Kube.{Kube}
use quorum_based_manifests_g.Controller
use quorum_based_manifests_g.Controller.{Host}

-- `msrFetchResult`: the request as the repository has it, its bytes, the signature of the operator
-- and those of the governors, and the head of the repository.
pub record MsrFetchResult : Type 0 where
  pub repo_msr : Dto.ManifestSigningRequestManifestObject
  pub msr_bytes : String
  pub msr_sig : String
  pub gov_sigs : List String
  pub remote_head : String

-- The answer of `FetchMSRByVersion`.
pub record FetchedMsr : Type 0 where
  pub msr : Dto.ManifestSigningRequestManifestObject
  pub bytes : String
  pub signature : String
  pub governor_signatures : List String

-- The Kubernetes client, the repository manager with its providers, the notifier, the clock, the
-- OpenPGP library and the orders in which Go ranges over the maps of keys and of signers.
pub record World : Type 1 where
  pub kube : Kube
  pub pgp : OpenPgp
  pub range_keys : ℕ → Texts → Texts
  pub range_signers : Signers → Signers
  pub State : Type 0
  pub Repository : Type 0
  pub get_msr : ManifestRef → State → Result ManifestSigningRequest × State
  pub status_update : ManifestSigningRequest → State → Result ManifestSigningRequest × State
  pub update : ManifestSigningRequest → State → Result ManifestSigningRequest × State
  pub get_mrt : ManifestRef → State → Result ManifestRequestTemplate × State
  pub get_mca : ManifestRef → State → Result ManifestChangeApproval × State
  pub update_mca : ManifestChangeApproval → State → Result (Unit {0}) × State
  -- The provider may be nil.
  pub get_provider_for_mrt : ManifestRequestTemplate → State → Result (Option Repository) × State
  pub push_msr : Repository → ManifestObject → State → Result String × State
  pub push_governor_signature : Repository → ManifestObject → State → Result String × State
  pub get_latest_revision : Repository → State → Result String × State
  pub fetch_msr_by_version : Repository → ManifestSigningRequest → State → Result FetchedMsr × State
  pub notify_governors_msr : ManifestSigningRequest → State → Result (Unit {0}) × State
  pub now : State → ℕ × State

-- What a reconciliation does outside the status of its own object.
pub data Effect : Type 0 where
  pushed_msr : ManifestObject → Effect
  pushed_signature : ManifestObject → Effect
  updated_mca : ManifestChangeApprovalSpec → Effect
  updated : Effect
  notified : Effect

abbrev pub host : World → Host
host w = record {
  State = w.State;
  Object = ManifestSigningRequest;
  ActionState = ActionState;
  Effect = Effect;
  kube = w.kube;
  get = w.get_msr;
  status_update = w.status_update;
  update = w.update;
  now = w.now;
  updated = updated;
  key = λ msr. record { name = msr.metadata.name; namespace = msr.metadata.namespace };
  action_state = λ msr. msr.status.action_state;
  conditions = λ msr. msr.status.conditions;
  with_state = λ state conditions msr. record msr {
    status = record msr.status { action_state = state; conditions = conditions };
  };
  text = text;
  same_state = same_state;
  kind = "ManifestSigningRequest";
}

abbrev pub Action : World → Type 0 → Type 0
Action w = Controller.Action (host w)
