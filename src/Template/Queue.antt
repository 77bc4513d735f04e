-- ===== src/Template/Queue.antt =====
-- The functions of kubernetes/internal/controller/governancequeue_controller.go that the MRT
-- controller calls: the events of the revisions.
use quorum_based_manifests_g.Common.{
  Bool, true, false, List, [], ◌∷◌, Option, none, some, String, ◌==◌, ◌+++◌, with_context,
  if◌then◌else◌,
}
use quorum_based_manifests_g.Api.{ManifestRef}
use quorum_based_manifests_g.Api.Governance.{EventReference, GovernanceEvent, NewRevisionPayload}
use quorum_based_manifests_g.Exec.{pure, raise, ◌>>=◌, wrapped}
use quorum_based_manifests_g.Controller.{call, effect}
use quorum_based_manifests_g.Template.Build.{named}
use quorum_based_manifests_g.Template.World.{World, Action, created_event, deleted_event, host}

-- `EventTypeNewRevision`
abbrev pub event_type_new_revision : String
event_type_new_revision = "NewRevision"

abbrev pub is_for : String → Option NewRevisionPayload → Bool
is_for revision none = false
is_for revision (some payload) = payload.commit_sha == revision

-- `slices.IndexFunc(...) != -1`
unfoldable pub any_for : String → List GovernanceEvent → Bool
any_for revision [] = false
any_for revision (e ∷ events) =
    let rest = any_for revision events in if is_for revision e.spec.new_revision then true else rest

unfoldable pub new_revision_event : String → ManifestRef → String → GovernanceEvent
new_revision_event revision mrt_ref mrt_uid = record {
  metadata =
      named ("event-" +++ mrt_ref.name +++ "-" +++ mrt_ref.namespace +++ "-" +++ revision)
        mrt_ref.namespace;
  creation_timestamp = 0;
  label = mrt_uid;
  spec = record {
    type = event_type_new_revision;
    mrt = mrt_ref;
    new_revision = some (record { commit_sha = revision });
  };
}

module _ (w : World) where
  unfoldable pub queue_contains_revision : String → String → Action w Bool
  unfolding ◌>>=◌ wrapped call any_for
  queue_contains_revision revision mrt_uid = do
    events ←
        wrapped "get all events for queue"
          (wrapped "list GovernanceEvents for queue" (call (host w) (w.list_events mrt_uid)))
    pure (any_for revision events)

  abbrev pub supported : GovernanceEvent → Action w GovernanceEvent
  supported event =
      if event.spec.type == event_type_new_revision
      then pure event
      else raise (with_context "unsupported event type" event.spec.type)

  unfoldable pub head_event : List EventReference → Action w GovernanceEvent
  unfolding ◌>>=◌ wrapped call raise
  head_event [] = raise "queue is empty"
  head_event (ref ∷ queue) = do
    event ←
        wrapped "get head GovernanceEvent for GovernanceQueue"
          (call (host w) (w.get_event (record { name = ref.name; namespace = ref.namespace })))
    supported event

  unfoldable pub revisions_queue_head : ManifestRef → Action w GovernanceEvent
  unfolding ◌>>=◌ wrapped call head_event
  revisions_queue_head queue_ref = do
    queue ←
        wrapped "get GovernanceQueue for ManifestRequestTemplate"
          (call (host w) (w.get_queue queue_ref))
    head_event queue.queue

  unfoldable pub remove_revisions_queue_head : ManifestRef → Action w (Unit {0})
  unfolding ◌>>=◌ wrapped effect revisions_queue_head
  remove_revisions_queue_head queue_ref = do
    event ← wrapped "get head of the revision queue" (revisions_queue_head queue_ref)
    wrapped "delete GovernanceEvent" (effect (host w) (deleted_event event) (w.delete_event event))

  unfoldable pub create_new_revision_event : String → ManifestRef → String → Action w (Unit {0})
  unfolding wrapped effect new_revision_event
  create_new_revision_event revision mrt_ref mrt_uid =
      let event = new_revision_event revision mrt_ref mrt_uid in
      wrapped ("create new revision " +++ revision +++ " event")
        (effect (host w) (created_event event) (w.create_event event))
