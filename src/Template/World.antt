-- ===== src/Template/World.antt =====
-- The systems that the MRT controller calls, as an interface, and its object as a controller's.
use quorum_based_manifests_g.Common.{ℕ, Bool, List, Option, String, Result}
use quorum_based_manifests_g.Api.{ManifestRef, ObjectMeta, FileChange, NotificationChannel}
use quorum_based_manifests_g.Api.Signing.{ManifestSigningRequest}
use quorum_based_manifests_g.Api.Approval.{ManifestChangeApproval}
use quorum_based_manifests_g.Api.Template.{
  ActionState, text, same_state, ManifestRequestTemplate, Application,
}
use quorum_based_manifests_g.Api.Governance.{GovernanceQueue, GovernanceEvent}
use quorum_based_manifests_g.Kube.{Kube}
use quorum_based_manifests_g.Controller
use quorum_based_manifests_g.Controller.{Host}
use quorum_based_manifests_g.Template.Compare.{FieldError}

-- The Kubernetes client, the repository manager with its providers, the notifier, the clock, the
-- YAML decoder and the text of a validation error.
pub record World : Type 1 where
  pub kube : Kube
  pub is_already_exists : String → Bool
  pub set_controller_reference : ObjectMeta → ObjectMeta → Result ObjectMeta
  pub unmarshal_mrt : String → Result (Option ManifestRequestTemplate)
  pub invalid_error : ManifestRequestTemplate → List FieldError → String
  pub State : Type 0
  pub Repository : Type 0
  pub get_mrt : ManifestRef → State → Result ManifestRequestTemplate × State
  pub status_update : ManifestRequestTemplate → State → Result ManifestRequestTemplate × State
  pub update : ManifestRequestTemplate → State → Result ManifestRequestTemplate × State
  pub get_application : ManifestRef → State → Result Application × State
  pub patch_application : Application → Application → State → Result (Unit {0}) × State
  pub get_msr : ManifestRef → State → Result ManifestSigningRequest × State
  pub update_msr : ManifestSigningRequest → State → Result (Unit {0}) × State
  pub get_mca : ManifestRef → State → Result ManifestChangeApproval × State
  pub get_queue : ManifestRef → State → Result GovernanceQueue × State
  pub get_event : ManifestRef → State → Result GovernanceEvent × State
  -- The events whose label is the template's uid.
  pub list_events : String → State → Result (List GovernanceEvent) × State
  pub delete_event : GovernanceEvent → State → Result (Unit {0}) × State
  pub create_event : GovernanceEvent → State → Result (Unit {0}) × State
  pub create_msr : ManifestSigningRequest → State → Result (Unit {0}) × State
  pub create_mca : ManifestChangeApproval → State → Result (Unit {0}) × State
  pub create_queue : GovernanceQueue → State → Result (Unit {0}) × State
  -- The provider may be nil.
  pub get_provider_for_mrt : ManifestRequestTemplate → State → Result (Option Repository) × State
  pub get_latest_revision : Repository → State → Result String × State
  pub get_changed_files :
      Repository
      → String
      → String
      → String
      → State
      → Result (List FileChange × List (String × String)) × State
  pub has_revision : Repository → String → State → Result Bool × State
  pub is_not_after : Repository → String → String → State → Result Bool × State
  pub delete_folder : Repository → String → State → Result (Unit {0}) × State
  pub notify_error :
      ManifestRequestTemplate
      → List NotificationChannel
      → String
      → State
      → Result (Unit {0}) × State
  pub now : State → ℕ × State

-- What a reconciliation does outside the status of its own object.
pub data Effect : Type 0 where
  restored : String → Effect
  deleted_folder : String → Effect
  created_msr : ManifestSigningRequest → Effect
  created_mca : ManifestChangeApproval → Effect
  created_queue : GovernanceQueue → Effect
  created_event : GovernanceEvent → Effect
  deleted_event : GovernanceEvent → Effect
  updated_msr : ManifestSigningRequest → Effect
  notified : String → Effect
  updated : Effect

abbrev pub host : World → Host
host w = record {
  State = w.State;
  Object = ManifestRequestTemplate;
  ActionState = ActionState;
  Effect = Effect;
  kube = w.kube;
  get = w.get_mrt;
  status_update = w.status_update;
  update = w.update;
  now = w.now;
  updated = updated;
  key = λ mrt. record { name = mrt.metadata.name; namespace = mrt.metadata.namespace };
  action_state = λ mrt. mrt.status.action_state;
  conditions = λ mrt. mrt.status.conditions;
  with_state = λ state conditions mrt. record mrt {
    status = record mrt.status { action_state = state; conditions = conditions };
  };
  text = text;
  same_state = same_state;
  kind = "ManifestRequestTemplate";
}

abbrev pub Action : World → Type 0 → Type 0
Action w = Controller.Action (host w)
