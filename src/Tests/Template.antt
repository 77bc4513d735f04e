-- ===== src/Tests/Template.antt =====
-- Concrete inputs for the MRT controller.
use mathlib.Core.List.{Memᴰ}
use quorum_based_manifests_g.Common.{
  true, false, [], ◌∷◌, some, String, ◌==◌, ◌≡◌, ◌↔◌, ap, sym, refl, ok, err, pos,
}
use quorum_based_manifests_g.Api.{ManifestRef, FileChange, new}
use quorum_based_manifests_g.Api.Template.{ActionState, ManifestRequestTemplate}
use quorum_based_manifests_g.Api.Governance.{GovernanceEvent, GovernanceQueue}
use quorum_based_manifests_g.Exec.{Triple}
use quorum_based_manifests_g.Controller.{Run}
use quorum_based_manifests_g.Controller.Lock.{acquire_lock}
use quorum_based_manifests_g.Controller.Triples.{HostLaws, Free, Released}
use quorum_based_manifests_g.Controller.Discipline.{Settled}
use quorum_based_manifests_g.Template.World.{World, Action, host}
use quorum_based_manifests_g.Template.Paths.{clean}
use quorum_based_manifests_g.Template.Compare.{
  governance_path, filter_non_manifest_files, validate_immutable_fields,
}
use quorum_based_manifests_g.Template.Build.{named, get_msr_with_new_version}
use quorum_based_manifests_g.Template.Queue.{new_revision_event}
use quorum_based_manifests_g.Template.Normal.{reconcile}
use quorum_based_manifests_g.Template.Filter.{IsManifest, IsIn, filter-Mem_iff}
use quorum_based_manifests_g.Template.Immutable.{validate_immutable_keeps}
use quorum_based_manifests_g.Api.Signing
use quorum_based_manifests_g.Template.Discipline.Handlers.{Permit}
use quorum_based_manifests_g.Template.Discipline.Dispatch.{reconcile_template-Settled}
use quorum_based_manifests_g.Tests.Approval.{
  kube_example, kube_example-KubeLaws, mrt_example, mca_example, app_example,
}
use quorum_based_manifests_g.Tests.Signing.{msr_example}

abbrev event_example : GovernanceEvent
event_example = new_revision_event "c2" (record { name = "mrt"; namespace = "ns" }) "1"

abbrev queue_example : GovernanceQueue
queue_example = record {
  metadata = named "queue-mrt" "ns";
  mrt = record { name = "mrt"; namespace = "ns" };
  queue = record { uid = "e"; name = event_example.metadata.name; namespace = "ns" } ∷ [];
}

-- A cluster that holds one template and answers every call; the state is that template.
abbrev world_example : World
world_example = record {
  kube = kube_example;
  is_already_exists = λ e. e == "already exists";
  set_controller_reference = λ owner m. ok m;
  unmarshal_mrt = λ content. ok (some mrt_example);
  invalid_error = λ mrt errs. "invalid";
  State = ManifestRequestTemplate;
  Repository = String;
  get_mrt = λ key s. (ok s, s);
  status_update = λ m s. (ok m, m);
  update = λ m s. (ok m, m);
  get_application = λ key s. (ok app_example, s);
  patch_application = λ old app s. (ok tt, s);
  get_msr = λ key s. (ok msr_example, s);
  update_msr = λ m s. (ok tt, s);
  get_mca = λ key s. (ok mca_example, s);
  get_queue = λ key s. (ok queue_example, s);
  get_event = λ key s. (ok event_example, s);
  list_events = λ uid s. (ok (event_example ∷ []), s);
  delete_event = λ e s. (ok tt, s);
  create_event = λ e s. (ok tt, s);
  create_msr = λ m s. (ok tt, s);
  create_mca = λ m s. (ok tt, s);
  create_queue = λ q s. (ok tt, s);
  get_provider_for_mrt = λ mrt s. (ok (some "repo"), s);
  get_latest_revision = λ repo s. (ok "c2", s);
  get_changed_files = λ repo from to path s. (ok ([], []), s);
  has_revision = λ repo revision s. (ok true, s);
  is_not_after = λ repo a b s. (ok false, s);
  delete_folder = λ repo path s. (ok tt, s);
  notify_error = λ mrt channels message s. (ok tt, s);
  now = λ s. (100, s);
}

world_example-HostLaws : HostLaws (host world_example)
world_example-HostLaws = record {
  echoes = λ m m' s s' e. ap (λ p. elim p.0 [ ok a ↦ a.status.conditions | err x ↦ [] ]) (sym e);
  kube_laws = kube_example-KubeLaws;
  conditions-with_state = λ a cs m. refl;
}

abbrev key_example : ManifestRef
key_example = record { name = "mrt"; namespace = "ns" }

reconcile_template-Settled_example :
    Triple
      (Released (host world_example) Permit)
      (reconcile world_example key_example)
      (λ _. Settled (host world_example) Permit)
      (Free (host world_example) Permit)
reconcile_template-Settled_example =
    reconcile_template-Settled world_example world_example-HostLaws key_example

abbrev run_example : Run (host world_example)
run_example = record { state = mrt_example; object = mrt_example; held = false; effects = [] }

-- The run after the lock is taken, and the handler that fails then.
abbrev locked_example : Run (host world_example)
locked_example =
    (acquire_lock (host world_example) ActionState.init_set_finalizer "Testing" run_example).1

abbrev failing : Action world_example ActionState
failing r = (err "no cluster", r)

acquired_example :
    acquire_lock (host world_example) ActionState.init_set_finalizer "Testing" run_example
    ≡ (ok true, locked_example)
unfolding acquire_lock
acquired_example = refl

abbrev file_example : FileChange
file_example = record {
  kind = "Deployment";
  status = new;
  name = "web";
  namespace = "default";
  sha256 = "sha:web";
  path = "src/web.yaml";
}

filter-Mem_iff_example :
    Memᴰ file_example (filter_non_manifest_files (file_example ∷ []) mrt_example) ↔ (
      Memᴰ file_example (file_example ∷ [])
      × IsManifest file_example
      × (¬ (IsIn (clean (governance_path mrt_example)) file_example)))
filter-Mem_iff_example = filter-Mem_iff (file_example ∷ []) mrt_example file_example

abbrev next_msr : Signing.ManifestSigningRequest
next_msr = get_msr_with_new_version mrt_example msr_example app_example "c2" "c1" []

-- A template in Argo CD's namespace, and the same with another version.
abbrev argocd_mrt : ManifestRequestTemplate
argocd_mrt = record mrt_example {
  spec = record mrt_example.spec { application = record { name = "app"; namespace = "argocd" } };
}

abbrev next_mrt : ManifestRequestTemplate
next_mrt = record argocd_mrt { spec = record argocd_mrt.spec { version = pos 2 } }

validate_immutable_keeps_example :
    (argocd_mrt.spec.application ≡ next_mrt.spec.application)
    × (next_mrt.spec.application.namespace ≡ "argocd")
    × (argocd_mrt.spec.msr ≡ next_mrt.spec.msr)
    × (argocd_mrt.spec.mca ≡ next_mrt.spec.mca)
    × (argocd_mrt.spec.governance_folder_path ≡ next_mrt.spec.governance_folder_path)
validate_immutable_keeps_example =
    validate_immutable_keeps argocd_mrt next_mrt (unfold validate_immutable_fields in refl)
