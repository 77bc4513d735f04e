-- ===== src/Controller/Lock.antt =====
-- The lock of a controller: the condition `Progressing`, with the state that is worked on. The three
-- controllers have the same code, up to the name of the object in the messages.
use quorum_based_manifests_g.Common.{
  ℕ, ◌+◌, Bool, true, false, not, ◌&&◌, Option, some, none, String, ◌+++◌, Result, ok, err,
  with_context, leb, if◌then◌else◌,
}
use quorum_based_manifests_g.Api.{Condition}
use quorum_based_manifests_g.Kube.{progressing, CtrlResult, requeue_now, requeue_in}
use quorum_based_manifests_g.Exec.{pure, raise, ◌>>=◌, ◌>>◌, wrapped, both, ignore}
use quorum_based_manifests_g.Controller.{
  Host, Action, current, modify, get_again, status_update, is_locked,
}

-- `condition != nil && condition.Status == metav1.ConditionTrue && time.Since(...) >= duration`
abbrev pub held_since : Option Condition → ℕ → ℕ → Bool
held_since none duration now = false
held_since (some c) duration now = c.status && leb (c.last_transition_time + duration) now

module _ (h : Host) where
  unfoldable pub is_lock_for_more_than : h.Object → ℕ → ℕ → Bool
  is_lock_for_more_than m duration now =
      held_since (h.kube.find_status_condition (h.conditions m) progressing) duration now

  -- The object with another state and the condition `Progressing` set.
  abbrev pub with_condition : h.ActionState → Bool → String → String → h.Object → h.Object
  with_condition state status reason message m =
      h.with_state state
        (h.kube.set_status_condition (h.conditions m) (record {
          type = progressing;
          status = status;
          reason = reason;
          message = message;
          last_transition_time = 0;
        }))
        m

  -- The state and the condition are set, and saved.
  unfoldable pub take_lock : h.ActionState → String → Action h Bool
  unfolding ◌>>=◌ wrapped modify status_update
  take_lock new_state message = do
    modify h (with_condition new_state true (h.text new_state) message)
    wrapped ("update " +++ h.kind +++ " after lock acquired") (status_update h)
    pure true

  -- `true` if the lock was taken, `false` if it was already held for this state.
  unfoldable pub acquire_lock : h.ActionState → String → Action h Bool
  unfolding ◌>>=◌ wrapped get_again current take_lock
  acquire_lock new_state message = do
    wrapped ("fetch fresh " +++ h.kind) (get_again h)
    m ← current h
    if h.same_state (h.action_state m) new_state && is_locked h m
        then pure false
        else take_lock new_state message

  unfoldable pub release_lock_abstract : h.ActionState → String → String → Action h (Unit {0})
  unfolding ◌>>=◌ modify status_update
  release_lock_abstract next_state reason message = do
    modify h (with_condition next_state false reason message)
    status_update h

  unfoldable pub release_lock_with_failure : h.ActionState → String → Action h (Unit {0})
  unfolding release_lock_abstract
  release_lock_with_failure next_state cause =
      release_lock_abstract next_state "StepFailed" (with_context "Error occurred" cause)

  unfoldable pub release_lock_and_set_next_state : h.ActionState → Action h (Unit {0})
  unfolding release_lock_abstract
  release_lock_and_set_next_state next_state =
      release_lock_abstract next_state "StepComplete" "Step completed, proceeding to next state"

  -- `return result, r.releaseLockAndSetNextState(ctx, object, state)`
  unfoldable pub release_and : CtrlResult → h.ActionState → Action h CtrlResult
  unfolding ◌>>=◌ release_lock_and_set_next_state
  release_and result state = do release_lock_and_set_next_state state; pure result

  -- `_ = r.releaseLockWithFailure(ctx, object, state, cause)`, and the error is returned.
  unfoldable pub fail_with : h.ActionState → String → String → Action h CtrlResult
  unfolding ◌>>=◌ ignore release_lock_with_failure
  fail_with state cause e = do ignore (release_lock_with_failure state cause); raise e

  -- The lock is taken for the work, or the run ends until later.
  unfoldable pub under_lock : h.ActionState → String → Action h CtrlResult → Action h CtrlResult
  unfolding ◌>>=◌ acquire_lock
  under_lock state message work = do
    lock_acquired ← acquire_lock state message
    if not lock_acquired then pure (requeue_in 15) else work

  -- What follows the handler, from its next state or its error.
  unfoldable pub finish : h.ActionState → Result h.ActionState → Action h CtrlResult
  unfolding release_and fail_with
  finish state (ok next_state) = release_and requeue_now next_state
  finish state (err e) = fail_with state e e

  unfoldable pub with_lock : h.ActionState → String → Action h h.ActionState → Action h CtrlResult
  unfolding ◌>>=◌ both under_lock finish
  with_lock state message handler =
      under_lock state message do next ← both handler; finish state next

  -- The sub-states, of which a controller has several kinds: `set` writes one to the object, `name`
  -- is the field's name.
  module _ {X : Type 0} (set : X → h.Object → h.Object) (name : String) where
    -- After the update of the sub-state, from its error.
    unfoldable pub finish_sub :
        h.ActionState → h.ActionState → Result (Unit {0}) → Action h CtrlResult
    unfolding release_and fail_with
    finish_sub parent_state next_action_state (ok _) = release_and requeue_now next_action_state
    finish_sub parent_state next_action_state (err e) =
        fail_with parent_state (with_context ("update " +++ name) e) e

    unfoldable pub after_sub_handler :
        h.ActionState → h.ActionState → Result X → Action h CtrlResult
    unfolding ◌>>=◌ modify both status_update finish_sub fail_with
    after_sub_handler parent_state next_action_state (ok next) = do
      modify h (set next)
      saved ← both (status_update h)
      finish_sub parent_state next_action_state saved
    after_sub_handler parent_state next_action_state (err e) = fail_with parent_state e e

    unfoldable pub with_sub_lock : h.ActionState → h.ActionState → Action h X → Action h CtrlResult
    unfolding ◌>>=◌ both after_sub_handler
    with_sub_lock parent_state next_action_state handler = do
      next ← both handler
      after_sub_handler parent_state next_action_state next
