-- ===== src/Template/Locking.antt =====
-- The lock of the MRT controller. It differs from the others' after a handler's error: the error is
-- replaced by that of the release.
use quorum_based_manifests_g.Common.{ℕ, Bool, String, Result, ok, err, with_context}
use quorum_based_manifests_g.Api.Template.{ActionState, RevisionState, ManifestRequestTemplate}
use quorum_based_manifests_g.Kube.{CtrlResult, no_requeue, requeue_now}
use quorum_based_manifests_g.Exec.{pure, ◌>>=◌, ◌>>◌, both}
use quorum_based_manifests_g.Controller.{modify, status_update}
use quorum_based_manifests_g.Controller.Lock
use quorum_based_manifests_g.Controller.Lock.{release_lock_with_failure, release_and, under_lock}
use quorum_based_manifests_g.Template.World.{World, Action, host}

abbrev pub set_revision_state : RevisionState → ManifestRequestTemplate → ManifestRequestTemplate
set_revision_state state mrt = record mrt {
  status = record mrt.status { revision_processing_state = state };
}

module _ (w : World) where
  abbrev pub is_lock_for_more_than : ManifestRequestTemplate → ℕ → ℕ → Bool
  is_lock_for_more_than mrt duration now = Lock.is_lock_for_more_than (host w) mrt duration now

  -- `err = r.releaseLockWithFailure(ctx, mrt, state, err)` and `return ctrl.Result{}, err`
  unfoldable pub swallow : ActionState → String → Action w CtrlResult
  unfolding ◌>>=◌ release_lock_with_failure
  swallow state cause = do release_lock_with_failure (host w) state cause; pure no_requeue

  -- What follows the handler, from its next state or its error.
  unfoldable pub finish : ActionState → Result ActionState → Action w CtrlResult
  unfolding release_and swallow
  finish state (ok next_state) = release_and (host w) requeue_now next_state
  finish state (err e) = swallow state e

  unfoldable pub with_lock : ActionState → String → Action w ActionState → Action w CtrlResult
  unfolding ◌>>=◌ both under_lock finish
  with_lock state message handler =
      under_lock (host w) state message do next ← both handler; finish state next

  -- After the update of the sub-state, from its error.
  unfoldable pub finish_revision :
      ActionState → ActionState → Result (Unit {0}) → Action w CtrlResult
  unfolding release_and swallow
  finish_revision parent_state next_action_state (ok _) =
      release_and (host w) requeue_now next_action_state
  finish_revision parent_state next_action_state (err e) =
      swallow parent_state (with_context "update RevisionProcessingState" e)

  unfoldable pub after_revision_handler :
      ActionState → ActionState → Result RevisionState → Action w CtrlResult
  unfolding ◌>>=◌ modify both status_update finish_revision swallow
  after_revision_handler parent_state next_action_state (ok next) = do
    modify (host w) (set_revision_state next)
    saved ← both (status_update (host w))
    finish_revision parent_state next_action_state saved
  after_revision_handler parent_state next_action_state (err e) = swallow parent_state e

  unfoldable pub with_revision_lock :
      ActionState → ActionState → Action w RevisionState → Action w CtrlResult
  unfolding ◌>>=◌ both after_revision_handler
  with_revision_lock parent_state next_action_state handler = do
    next ← both handler
    after_revision_handler parent_state next_action_state next
