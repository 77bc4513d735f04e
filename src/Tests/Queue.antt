-- ===== src/Tests/Queue.antt =====
-- Concrete inputs for the queue controller.
use mathlib.Core.List.{Memᴰ}
use quorum_based_manifests_g.Common.{
  ℕ, true, List, [], ◌∷◌, map, Option, none, some, String, ◌==◌, ok, ◌≡◌, ◌↔◌, ap, sym, refl,
}
use quorum_based_manifests_g.Api.Governance.{EventReference, GovernanceEvent, GovernanceQueue}
use quorum_based_manifests_g.Exec.{Triple}
use quorum_based_manifests_g.Template.Build.{named}
use quorum_based_manifests_g.Queue.{World, desired_queue, is_live, reference_of, synchronize}
use quorum_based_manifests_g.Queue.Order.{Sorted, desired_queue-Sorted}
use quorum_based_manifests_g.Queue.Synchronized.{Stores, synchronize-Desired}
use quorum_based_manifests_g.Tests.Approval.{mrt_example}

abbrev event_at : ℕ → String → Option ℕ → GovernanceEvent
event_at time name deleted = record {
  metadata = record (named name "ns") { deletion_timestamp = deleted };
  creation_timestamp = time;
  label = "1";
  spec = record {
    type = "NewRevision";
    mrt = record { name = "mrt"; namespace = "ns" };
    new_revision = some (record { commit_sha = name });
  };
}

abbrev events_example : List GovernanceEvent
events_example =
    event_at 3 "third" none ∷ event_at 1 "first" none ∷ event_at 2 "second" (some 5) ∷ []

abbrev queue_example : GovernanceQueue
queue_example = record {
  metadata = named "queue-mrt" "ns";
  mrt = record { name = "mrt"; namespace = "ns" };
  queue = [];
}

-- The state is the queue that is stored.
abbrev world_example : World
world_example = record {
  State = List EventReference;
  is_not_found = λ e. e == "not found";
  get_queue = λ key s. (ok (record queue_example { queue = s }), s);
  get_mrt = λ key s. (ok mrt_example, s);
  list_events = λ uid s. (ok events_example, s);
  patch_queue = λ queue s. (ok tt, queue.queue);
}

desired_queue-Sorted_example :
    (es : List GovernanceEvent) × (desired_queue events_example ≡ map reference_of es)
    × Sorted es
    × ((e : GovernanceEvent) → Memᴰ e es ↔ (Memᴰ e events_example × (is_live e ≡ true)))
desired_queue-Sorted_example = desired_queue-Sorted events_example

two_left :
    desired_queue events_example
    ≡ reference_of (event_at 1 "first" none) ∷ reference_of (event_at 3 "third" none) ∷ []
unfolding desired_queue
two_left = refl

world_example-Stores : Stores world_example (λ s. s)
world_example-Stores = record { patched = λ queue s s' e. ap (λ p. p.1) (sym e) }

synchronize-Desired_example :
    Triple
      (λ s. s ≡ [])
      (synchronize world_example queue_example events_example)
      (λ _ s. s ≡ desired_queue events_example)
      (λ s. Unit {0})
synchronize-Desired_example =
    synchronize-Desired world_example (λ s. s) world_example-Stores queue_example events_example
