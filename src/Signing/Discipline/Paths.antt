-- ===== src/Signing/Discipline/Paths.antt =====
-- The initialization, the new version, the check and the deletion of the MSR controller, from the
-- handlers and the lock.
use quorum_based_manifests_g.Common.{refl, Option, Result, ok, err, String}
use quorum_based_manifests_g.Api.Signing.{ActionState, ReconcileState}
use quorum_based_manifests_g.Kube.{CtrlResult}
use quorum_based_manifests_g.Exec.{
  pure, ◌>>=◌, wrapped, both, Triple-bind, Triple-pure, Triple-wrapped, Triple-both,
}
use quorum_based_manifests_g.Controller.{call, effect, current, modify, update}
use quorum_based_manifests_g.Controller.Lock.{
  with_sub_lock, fail_with, release_and, release_lock_and_set_next_state,
}
use quorum_based_manifests_g.Controller.Triples.{HostLaws, Triple-current, update-Free, modify-Free}
use quorum_based_manifests_g.Controller.Keeps.{
  Keeps, Reading, Reading-current, Reading-raise, Reading-wrapped, Keeps-wrapped,
}
use quorum_based_manifests_g.Controller.Discipline
use quorum_based_manifests_g.Controller.Discipline.{
  Working, then_pure, Reading-any, Releasing-any, release_and_lem, release_lem, fail_with_lem,
  with_lock_lem, with_sub_lock_lem, under_lock_lem, Keeps-Working, Free-Working,
}
use quorum_based_manifests_g.Signing.World.{World, Action, host}
use quorum_based_manifests_g.Signing.Locking.{with_lock, set_reconcile_state, with_reconcile_lock}
use quorum_based_manifests_g.Signing.Save.{
  repository_with_error, save_in_repository, save_signature, save_history_record,
}
use quorum_based_manifests_g.Signing.Create.{
  handle_state_git_commit, handle_state_governor_qubmango_signature, handle_update_after_git_push,
  with_finalizer, handle_state_finalizing, create_step, reconcile_create,
}
use quorum_based_manifests_g.Signing.NewSpec.{
  start_progress, handle_msr_reconcile_state_git_commit,
  handle_msr_reconcile_state_update_after_git_push, handle_msr_reconcile_state_notify_governors,
  reconcile_step, with_repository, handle_reconcile_new_msr_spec,
}
use quorum_based_manifests_g.Signing.Discipline.Handlers.{
  Permit, repository_with_error-Keeps, repository_with_error-Reading, save_in_repository-Keeps,
  save_signature-Keeps, save_history_record-Keeps, notify-Keeps,
}

module _ (w : World) (laws : HostLaws (host w)) where
  abbrev pub Ends : Action w CtrlResult → Type 0
  Ends m = Reading (host w) (Permit w) m

  abbrev pub Releases : Action w CtrlResult → Type 0
  Releases m = Discipline.Releasing (host w) (Permit w) m

  abbrev pub Works : {A : Type 0} → Action w A → Type 0
  Works m = Working (host w) (Permit w) m

  abbrev pub Kept : {A : Type 0} → Action w A → Type 0
  Kept m = Keeps (host w) (Permit w) m

  works : {A B : Type 0} (m : Action w A) (b : B) → Kept m → Works (m >>= λ _. pure b)
  works = then_pure (host w) (Permit w)

  locked :
      (state : ActionState) (message : String) (handler : Action w ActionState)
      → Works handler
      → Ends (with_lock w state message handler)
  locked = with_lock_lem (host w) (Permit w) laws

  sub_locked :
      (next : ActionState) (handler : Action w ReconcileState)
      → Works handler
      → Releases (with_reconcile_lock w ActionState.new_msr_spec next handler)
  sub_locked =
      with_sub_lock_lem (host w) (Permit w) laws set_reconcile_state "ReconcileState"
        ActionState.new_msr_spec

  pub released :
      (result : CtrlResult) (state : ActionState) → Ends (release_and (host w) result state)
  released result state =
      Reading-any (host w) (Permit w) _ (release_and_lem (host w) (Permit w) laws result state)

  pub fail_lem :
      (state : ActionState) (cause e : String) → Releases (fail_with (host w) state cause e)
  fail_lem state cause e =
      Releasing-any (host w) (Permit w) _ (fail_with_lem (host w) (Permit w) laws state cause e)

  git_commit :
      {A : Type 0} (c : String) (next : A)
      → Works (wrapped c (save_in_repository w) >>= λ _. pure next)
  git_commit c next =
      works (wrapped c (save_in_repository w)) next
        (Keeps-wrapped (host w) (Permit w) c (save_in_repository w) (save_in_repository-Keeps w))

  finalizing_lem : Ends (handle_state_finalizing w)
  unfolding handle_state_finalizing
  finalizing_lem = locked ActionState.init_set_finalizer _ _ (
      Triple-bind (modify (host w) (with_finalizer w)) _
        (Free-Working (host w) (Permit w) (modify (host w) (with_finalizer w))
          (modify-Free (host w) (Permit w) (with_finalizer w)))
        λ _.
          Triple-bind (wrapped "add finalizer in initialization" (update (host w))) _
            (Triple-wrapped "add finalizer in initialization" (update (host w))
              (update-Free (host w) (Permit w) (λ b. tt)))
            λ _. Triple-pure ActionState.empty)

  create_step_lem : (state : ActionState) → Ends (create_step w state)
  unfolding create_step handle_state_git_commit handle_state_governor_qubmango_signature
      handle_update_after_git_push
  create_step_lem ActionState.empty = locked ActionState.git_push_msr _ _ (git_commit _ _)
  create_step_lem ActionState.git_push_msr = locked ActionState.git_push_msr _ _ (git_commit _ _)
  create_step_lem ActionState.governor_qubmango_signature =
      locked ActionState.governor_qubmango_signature _ _
        (works (save_signature w) _ (save_signature-Keeps w))
  create_step_lem ActionState.update_after_git_push = locked ActionState.update_after_git_push _ _ (
      works (save_history_record w (λ msr. msr)) _
        (save_history_record-Keeps w laws (λ msr. msr) (λ msr. refl)))
  create_step_lem ActionState.init_set_finalizer = finalizing_lem
  create_step_lem ActionState.deletion = Reading-raise (host w) (Permit w) _
  create_step_lem ActionState.new_msr_spec = Reading-raise (host w) (Permit w) _
  create_step_lem ActionState.msr_rules_fulfillment = Reading-raise (host w) (Permit w) _
  create_step_lem (ActionState.unknown s) = Reading-raise (host w) (Permit w) _

  pub reconcile_create_lem : Ends (reconcile_create w)
  unfolding reconcile_create
  reconcile_create_lem =
      Triple-bind (wrapped "init repo for ManifestSigningRequest" (repository_with_error w)) _
        (Reading-wrapped (host w) (Permit w) _ (repository_with_error w)
          (repository_with_error-Reading w))
        λ _.
          Triple-bind (current (host w)) _ (Reading-current (host w) (Permit w))
            λ msr. create_step_lem msr.status.action_state

  reconcile_step_lem : (state : ReconcileState) → Releases (reconcile_step w state)
  unfolding reconcile_step handle_msr_reconcile_state_git_commit
      handle_msr_reconcile_state_update_after_git_push handle_msr_reconcile_state_notify_governors
  reconcile_step_lem ReconcileState.empty = sub_locked ActionState.new_msr_spec _ (git_commit _ _)
  reconcile_step_lem ReconcileState.git_push_msr =
      sub_locked ActionState.new_msr_spec _ (git_commit _ _)
  reconcile_step_lem ReconcileState.update_after_git_push = sub_locked ActionState.new_msr_spec _ (
      works (save_history_record w start_progress) _
        (save_history_record-Keeps w laws start_progress (λ msr. refl)))
  reconcile_step_lem ReconcileState.notify_governors =
      sub_locked ActionState.empty _ (Keeps-Working (host w) (Permit w) _ (notify-Keeps w))
  reconcile_step_lem (ReconcileState.unknown s) = fail_lem ActionState.new_msr_spec _ _

  -- Work under the lock that starts with the check of the repository.
  pub with_repository_Ends :
      (state : ActionState) (message : String)
      (go_on : Result (Option w.Repository) → Action w CtrlResult)
      → ((found : Result (Option w.Repository)) → Releases (go_on found))
      → Ends (
          quorum_based_manifests_g.Controller.Lock.under_lock
            (host w)
            state
            message
            (both (repository_with_error w) >>= go_on))
  with_repository_Ends state message go_on t =
      under_lock_lem (host w) (Permit w) laws state message _ (
        Triple-bind (both (repository_with_error w)) go_on
          (Triple-both (repository_with_error w) (repository_with_error-Keeps w)) t)

  with_repository_lem : (found : Result (Option w.Repository)) → Releases (with_repository w found)
  unfolding with_repository
  with_repository_lem (ok found) =
      Triple-bind (current (host w)) _ (Triple-current (host w) (Permit w))
        λ msr. reconcile_step_lem msr.status.reconcile_state
  with_repository_lem (err e) = fail_lem ActionState.new_msr_spec _ _

  pub new_msr_spec_lem : Ends (handle_reconcile_new_msr_spec w)
  unfolding handle_reconcile_new_msr_spec
  new_msr_spec_lem =
      with_repository_Ends ActionState.new_msr_spec _ (with_repository w) with_repository_lem
