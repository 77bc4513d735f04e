-- ===== src/Tests/Approval.antt =====
-- Concrete inputs for the MCA controller.
use quorum_based_manifests_g.Common.{
  pos, Bool, true, false, List, [], ◌∷◌, Option, none, some, String, ◌==◌, ◌≡◌, ap, sym, refl, ok,
  err, if◌then◌else◌, arith, eq_iff,
}
use quorum_based_manifests_g.Api.{Condition, ObjectMeta, ManifestRef, rule, nil}
use quorum_based_manifests_g.Api.Approval.{
  ActionState, ReconcileState, ManifestChangeApproval, ManifestChangeApprovalSpec,
}
use quorum_based_manifests_g.Api.Template.{
  ManifestRequestTemplate, Application, ActionState as TemplateState, RevisionState,
}
use quorum_based_manifests_g.Kube.{Kube, KubeLaws}
use quorum_based_manifests_g.Exec.{Triple}
use quorum_based_manifests_g.Controller.Triples.{HostLaws, Free, Released}
use quorum_based_manifests_g.Approval.World.{World, host}
use quorum_based_manifests_g.Approval.Normal.{reconcile}
use quorum_based_manifests_g.Approval.Discipline.Handlers.{Permit}
use quorum_based_manifests_g.Approval.Discipline.Dispatch.{reconcile-Released}

abbrev find : List Condition → String → Option Condition
find [] type = none
find (c ∷ cs) type = if c.type == type then some c else find cs type

abbrev is_true : Option Condition → Bool
is_true none = false
is_true (some c) = c.status

abbrev set : List Condition → Condition → List Condition
set [] c = c ∷ []
set (d ∷ cs) c = if d.type == c.type then c ∷ cs else d ∷ set cs c

abbrev has : List String → String → Bool
has [] f = false
has (g ∷ fs) f = if g == f then true else has fs f

abbrev without : List String → String → List String
without [] f = []
without (g ∷ fs) f = let rest = without fs f in if g == f then rest else g ∷ rest

abbrev pub kube_example : Kube
kube_example = record {
  contains_finalizer = λ m f. has m.finalizers f;
  add_finalizer = λ m f. record m { finalizers = f ∷ m.finalizers };
  remove_finalizer = λ m f. record m { finalizers = without m.finalizers f };
  find_status_condition = find;
  is_status_condition_true = λ cs type. is_true (find cs type);
  set_status_condition = set;
  is_not_found = λ e. e == "not found";
}

is_true-set : (cs : List Condition) (c : Condition) → is_true (find (set cs c) c.type) ≡ c.status
is_true-set [] c = ground (arith, eq_iff c.type c.type)
is_true-set (d ∷ cs) c =
    ground (arith, eq_iff c.type c.type, eq_iff d.type c.type, is_true-set cs c)

pub kube_example-KubeLaws : KubeLaws kube_example
kube_example-KubeLaws = record { is_true-set = is_true-set }

abbrev spec_example : ManifestChangeApprovalSpec
spec_example = record {
  version = pos 1;
  commit_sha = "c1";
  previous_commit_sha = "c0";
  mrt = record { name = "mrt"; namespace = "ns"; version = pos 1 };
  msr = record { name = "msr"; namespace = "ns"; version = pos 1 };
  public_key = "pub";
  git_repository_url = "git";
  locations = record { governance_path = "gov"; source_path = "src" };
  changes = [];
  governors = record { notification_channels = []; members = [] };
  require = rule none none nil "alice";
  collected_signatures = [];
}

abbrev meta_example : ObjectMeta
meta_example = record {
  kind = "ManifestChangeApproval";
  api_version = "v1alpha1";
  name = "mca";
  namespace = "ns";
  uid = "1";
  deletion_timestamp = none;
  finalizers = [];
  annotations = [];
}

abbrev pub mca_example : ManifestChangeApproval
mca_example = record {
  metadata = meta_example;
  spec = spec_example;
  status = record {
    approval_history = [];
    action_state = ActionState.empty;
    reconcile_state = ReconcileState.empty;
    conditions = [];
  };
}

abbrev pub mrt_example : ManifestRequestTemplate
mrt_example = record {
  metadata = record meta_example { name = "mrt" };
  spec = record {
    version = pos 1;
    ssh = record { url = "git"; secrets_ref = none };
    pgp = none;
    notifications = none;
    application = record { name = "app"; namespace = "ns" };
    msr = record { name = "msr"; namespace = "ns" };
    mca = record { name = "mca"; namespace = "ns" };
    governance_folder_path = "gov";
    governors = record { notification_channels = []; members = [] };
    require = rule none none nil "alice";
  };
  status = record {
    revision_queue_ref = record { name = "queue-mrt"; namespace = "ns" };
    last_observed_commit_hash = "";
    action_state = TemplateState.empty;
    revision_processing_state = RevisionState.empty;
    application_init_target_revision = "";
    conditions = [];
  };
}

abbrev pub app_example : Application
app_example = record {
  name = "app";
  namespace = "ns";
  target_revision = "c0";
  repo_url = "git";
  source_path = "src";
  operation_state_sync = none;
  operation_sync = none;
}

-- A cluster that holds one object and answers every call; the state is that object.
abbrev world_example : World
world_example = record {
  kube = kube_example;
  State = ManifestChangeApproval;
  Repository = String;
  get_mca = λ key s. (ok s, s);
  status_update = λ m s. (ok m, m);
  update = λ m s. (ok m, m);
  get_mrt = λ key s. (ok mrt_example, s);
  get_application = λ key s. (ok app_example, s);
  patch_application = λ old new s. (ok tt, s);
  get_provider_for_mrt = λ mrt s. (ok (some "repo"), s);
  push_mca = λ repo m s. (ok "pushed", s);
  get_changed_files = λ repo from to path s. (ok ([], []), s);
  push_summary_file = λ repo content name folder version s. (ok "pushed", s);
  notify_governors_mca = λ m s. (ok tt, s);
  now = λ s. (100, s);
}

world_example-HostLaws : HostLaws (host world_example)
world_example-HostLaws = record {
  echoes = λ m m' s s' e. ap (λ p. elim p.0 [ ok a ↦ a.status.conditions | err x ↦ [] ]) (sym e);
  kube_laws = kube_example-KubeLaws;
  conditions-with_state = λ a cs m. refl;
}

abbrev key_example : ManifestRef
key_example = record { name = "mca"; namespace = "ns" }

reconcile-Released_example :
    Triple
      (Released (host world_example) Permit)
      (reconcile world_example key_example)
      (λ _. Released (host world_example) Permit)
      (Free (host world_example) Permit)
reconcile-Released_example = reconcile-Released world_example world_example-HostLaws key_example
