-- ===== src/Signing/Locking.antt =====
-- The lock of the MSR controller: the code that the controllers share, for this object.
use quorum_based_manifests_g.Common.{ℕ, Bool, String}
use quorum_based_manifests_g.Api.Signing.{
  ActionState, ReconcileState, FulfillmentState, ManifestSigningRequest,
}
use quorum_based_manifests_g.Kube.{CtrlResult}
use quorum_based_manifests_g.Controller.Lock
use quorum_based_manifests_g.Signing.World.{World, Action, host}

abbrev pub set_reconcile_state : ReconcileState → ManifestSigningRequest → ManifestSigningRequest
set_reconcile_state state msr = record msr {
  status = record msr.status { reconcile_state = state };
}

abbrev pub set_fulfillment_state :
    FulfillmentState → ManifestSigningRequest → ManifestSigningRequest
set_fulfillment_state state msr = record msr {
  status = record msr.status { rules_fulfillment_state = state };
}

module _ (w : World) where
  abbrev pub is_lock_for_more_than : ManifestSigningRequest → ℕ → ℕ → Bool
  is_lock_for_more_than msr duration now = Lock.is_lock_for_more_than (host w) msr duration now

  abbrev pub acquire_lock : ActionState → String → Action w Bool
  acquire_lock new_state message = Lock.acquire_lock (host w) new_state message

  abbrev pub release_lock_with_failure : ActionState → String → Action w (Unit {0})
  release_lock_with_failure next_state cause =
      Lock.release_lock_with_failure (host w) next_state cause

  abbrev pub release_lock_and_set_next_state : ActionState → Action w (Unit {0})
  release_lock_and_set_next_state next_state =
      Lock.release_lock_and_set_next_state (host w) next_state

  abbrev pub with_lock : ActionState → String → Action w ActionState → Action w CtrlResult
  with_lock state message handler = Lock.with_lock (host w) state message handler

  abbrev pub with_reconcile_lock :
      ActionState → ActionState → Action w ReconcileState → Action w CtrlResult
  with_reconcile_lock parent_state next_action_state handler =
      Lock.with_sub_lock (host w) set_reconcile_state "ReconcileState" parent_state
        next_action_state handler

  abbrev pub with_rules_fulfillment_lock :
      ActionState → ActionState → Action w FulfillmentState → Action w CtrlResult
  with_rules_fulfillment_lock parent_state next_action_state handler =
      Lock.with_sub_lock (host w) set_fulfillment_state "RulesFulfillmentState" parent_state
        next_action_state handler
