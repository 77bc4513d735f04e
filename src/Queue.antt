-- ===== src/Queue.antt =====
-- kubernetes/internal/controller/governancequeue_controller.go: the reconciliation of a queue. The
-- functions of that file that the MRT controller calls are in Template.Queue.
pub mod Order
pub mod Synchronized
use quorum_based_manifests_g.Common.{
  ℕ, leb, Bool, true, false, not, ◌&&◌, List, [], ◌∷◌, map, Option, some, none, String, ◌==◌,
  Result, ok, err, if◌then◌else◌,
}
use quorum_based_manifests_g.Api.{ManifestRef}
use quorum_based_manifests_g.Api.Template.{ManifestRequestTemplate}
use quorum_based_manifests_g.Api.Governance.{EventReference, GovernanceEvent, GovernanceQueue}
use quorum_based_manifests_g.Kube.{CtrlResult, no_requeue}
use quorum_based_manifests_g.Exec.{Exec, pure, raise, ◌>>=◌, ◌>>◌, wrapped, both}
use quorum_based_manifests_g.Template.Compare.{same_list}

-- The Kubernetes client.
pub record World : Type 1 where
  pub State : Type 0
  pub is_not_found : String → Bool
  pub get_queue : ManifestRef → Exec State GovernanceQueue
  pub get_mrt : ManifestRef → Exec State ManifestRequestTemplate
  -- The events whose label is the template's uid.
  pub list_events : String → Exec State (List GovernanceEvent)
  pub patch_queue : GovernanceQueue → Exec State (Unit {0})

unfoldable pub insert_event : GovernanceEvent → List GovernanceEvent → List GovernanceEvent
insert_event e [] = e ∷ []
insert_event e (f ∷ events) =
    let rest = insert_event e events in
    if leb e.creation_timestamp f.creation_timestamp then e ∷ f ∷ events else f ∷ rest

-- `sort.Slice` by the time of creation. Events of the same time stay as they were listed, which Go
-- leaves open.
unfoldable pub sort_events : List GovernanceEvent → List GovernanceEvent
unfolding insert_event
sort_events [] = []
sort_events (e ∷ events) = insert_event e (sort_events events)

abbrev pub is_live : GovernanceEvent → Bool
is_live e = elim e.metadata.deletion_timestamp [ none ↦ true | some t ↦ false ]

-- The events that are not being deleted.
unfoldable pub live_events : List GovernanceEvent → List GovernanceEvent
live_events [] = []
live_events (e ∷ events) = let rest = live_events events in if is_live e then e ∷ rest else rest

unfoldable pub reference_of : GovernanceEvent → EventReference
reference_of e = record {
  uid = e.metadata.uid;
  name = e.metadata.name;
  namespace = e.metadata.namespace;
}

unfoldable pub desired_queue : List GovernanceEvent → List EventReference
unfolding sort_events live_events reference_of
desired_queue events = map reference_of (live_events (sort_events events))

abbrev pub same_reference : EventReference → EventReference → Bool
same_reference a b = a.uid == b.uid && a.name == b.name && a.namespace == b.namespace

module _ (w : World) where
  abbrev pub instead : {A : Type 0} → String → Result A → Exec w.State A
  instead e (ok a) = pure a
  instead e (err e') = raise e

  unfoldable pub get_all_events_for_queue : GovernanceQueue → Exec w.State (List GovernanceEvent)
  unfolding ◌>>=◌ both wrapped pure raise
  get_all_events_for_queue queue = do
    found ← both (w.get_mrt queue.mrt)
    mrt ← instead "fetch ManifestRequestTemplate for GovernanceQueue" found
    wrapped "list GovernanceEvents for queue" (w.list_events mrt.metadata.uid)

  -- The queue is patched if it differs from the desired one.
  unfoldable pub synchronize : GovernanceQueue → List GovernanceEvent → Exec w.State CtrlResult
  unfolding ◌>>=◌ wrapped same_list desired_queue
  synchronize queue events =
      if same_list same_reference queue.queue (desired_queue events) then pure no_requeue else (do
        wrapped "patch queue" (w.patch_queue (record queue { queue = desired_queue events }))
        pure no_requeue)

  unfoldable pub reconcile_queue : GovernanceQueue → Exec w.State CtrlResult
  unfolding ◌>>=◌ wrapped get_all_events_for_queue synchronize
  reconcile_queue queue = do
    events ← wrapped "list GovernanceEvents for queue" (get_all_events_for_queue queue)
    synchronize queue events

  abbrev pub on_fetch : Result GovernanceQueue → Exec w.State CtrlResult
  on_fetch (ok queue) = reconcile_queue queue
  on_fetch (err e) = if w.is_not_found e then pure no_requeue else raise e

  unfoldable pub reconcile : ManifestRef → Exec w.State CtrlResult
  unfolding ◌>>=◌ both raise reconcile_queue
  reconcile key = do found ← both (w.get_queue key); on_fetch found
