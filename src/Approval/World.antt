-- ===== src/Approval/World.antt =====
-- The systems that the MCA controller calls, as an interface, and its object as a controller's.
use quorum_based_manifests_g.Common.{ℕ, ℤ, List, Option, String, Result}
use quorum_based_manifests_g.Api.{ManifestRef, FileChange}
use quorum_based_manifests_g.Api.Approval.{
  ManifestChangeApproval, ManifestObject, text, same_state, ActionState,
}
use quorum_based_manifests_g.Api.Template.{ManifestRequestTemplate, Application}
use quorum_based_manifests_g.Kube.{Kube}
use quorum_based_manifests_g.Controller
use quorum_based_manifests_g.Controller.{Host}

-- The Kubernetes client, the repository manager with its providers, the notifier and the clock.
pub record World : Type 1 where
  pub kube : Kube
  pub State : Type 0
  pub Repository : Type 0
  pub get_mca : ManifestRef → State → Result ManifestChangeApproval × State
  pub status_update : ManifestChangeApproval → State → Result ManifestChangeApproval × State
  pub update : ManifestChangeApproval → State → Result ManifestChangeApproval × State
  pub get_mrt : ManifestRef → State → Result ManifestRequestTemplate × State
  pub get_application : ManifestRef → State → Result Application × State
  pub patch_application : Application → Application → State → Result (Unit {0}) × State
  -- The provider may be nil.
  pub get_provider_for_mrt : ManifestRequestTemplate → State → Result (Option Repository) × State
  pub push_mca : Repository → ManifestObject → State → Result String × State
  pub get_changed_files :
      Repository
      → String
      → String
      → String
      → State
      → Result (List FileChange × List (String × String)) × State
  pub push_summary_file : Repository → String → String → String → ℤ → State → Result String × State
  pub notify_governors_mca : ManifestChangeApproval → State → Result (Unit {0}) × State
  pub now : State → ℕ × State

-- What a reconciliation does outside the status of its own object.
pub data Effect : Type 0 where
  pushed_mca : ManifestObject → Effect
  pushed_summary : String → ℤ → Effect
  patched : String → Effect
  updated : Effect
  notified : Effect

abbrev pub host : World → Host
host w = record {
  State = w.State;
  Object = ManifestChangeApproval;
  ActionState = ActionState;
  Effect = Effect;
  kube = w.kube;
  get = w.get_mca;
  status_update = w.status_update;
  update = w.update;
  now = w.now;
  updated = updated;
  key = λ mca. record { name = mca.metadata.name; namespace = mca.metadata.namespace };
  action_state = λ mca. mca.status.action_state;
  conditions = λ mca. mca.status.conditions;
  with_state = λ state conditions mca. record mca {
    status = record mca.status { action_state = state; conditions = conditions };
  };
  text = text;
  same_state = same_state;
  kind = "ManifestChangeApproval";
}

abbrev pub Action : World → Type 0 → Type 0
Action w = Controller.Action (host w)
