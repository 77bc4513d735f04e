-- ===== src/Template/Discipline/Work.antt =====
-- The work of the MRT controller on the head of the queue.
use quorum_based_manifests_g.Common.{not, inl, Option, Result, ok, err, String, Bool, none, some}
use quorum_based_manifests_g.Api.Template.{ActionState, RevisionState}
use quorum_based_manifests_g.Kube.{CtrlResult, no_requeue, requeue_now}
use quorum_based_manifests_g.Exec.{
  raise, Triple-raise, Triple, ◌>>=◌, wrapped, both, ignore, Triple-bind, Triple-pure, Triple-if,
  Triple-both, Triple-weaken,
}
use quorum_based_manifests_g.Controller.{current, modify}
use quorum_based_manifests_g.Controller.Lock.{fail_with, release_lock_and_set_next_state}
use quorum_based_manifests_g.Controller.Triples.{
  HostLaws, Triple-current, modify-Free, Free, Held, Released,
}
use quorum_based_manifests_g.Controller.Keeps.{Keeps-wrapped}
use quorum_based_manifests_g.Controller.Discipline.{
  Settled, Releasing, Keeps-Working, release_and_lem, fail_with_lem, release_ignored_lem,
  under_lock_any,
}
use quorum_based_manifests_g.Template.World.{World, Action, host}
use quorum_based_manifests_g.Template.Queue.{revisions_queue_head}
use quorum_based_manifests_g.Template.Locking.{set_revision_state}
use quorum_based_manifests_g.Template.Create.{repository_with_error}
use quorum_based_manifests_g.Template.Revision.{
  handle_sub_state_preflight_check, handle_sub_state_update_msr, handle_substate_finish,
}
use quorum_based_manifests_g.Api.Governance.{NewRevisionPayload}
use quorum_based_manifests_g.Template.Normal.{
  any_revision_events, check_dependencies, abort_revision, revision_step, on_payload, work_on_head,
  stop, after_any, after_repository, after_dependencies, handle_state_processing_revision,
}
use quorum_based_manifests_g.Template.Discipline.Handlers.{
  Permit, Keeps, preflight-Keeps, update_msr-Keeps, finish-Keeps, queue_head-Keeps,
  any_events-Keeps, check_dependencies-Keeps, repository_with_error-Keeps,
}
use quorum_based_manifests_g.Template.Discipline.Locks.{with_revision_lock_lem}

module _ (w : World) (laws : HostLaws (host w)) where
  -- From the lock, and from no lock: the run settles.
  abbrev Settling : Action w CtrlResult → Type 0
  Settling m = Triple (Held (host w) Permit) m (λ _. Settled (host w) Permit) (Free (host w) Permit)

  abbrev pub Settles : Action w CtrlResult → Type 0
  Settles m =
      Triple (Released (host w) Permit) m (λ _. Settled (host w) Permit) (Free (host w) Permit)

  releases : (m : Action w CtrlResult) → Releasing (host w) Permit m → Settling m
  releases m t = Triple-weaken m t (λ r p. p) (λ a r p. (p.0, inl p.1)) (λ r p. p)

  frees :
      (m : Action w CtrlResult)
      → Triple (Free (host w) Permit) m (λ _. Released (host w) Permit) (Free (host w) Permit)
      → Settling m
  frees m t = Triple-weaken m t (λ r p. p.0) (λ a r p. (p.0, inl p.1)) (λ r p. p)

  -- A first step under the lock.
  first :
      {A : Type 0} (m : Action w A)
      → Keeps w m
      → Triple (Held (host w) Permit) m (λ _. Held (host w) Permit) (Free (host w) Permit)
  first m k = Triple-weaken m k (λ r p. p) (λ a r p. p) (λ r p. p.0)

  abort_lem : Settling (abort_revision w)
  unfolding abort_revision
  abort_lem =
      Triple-bind (modify (host w) (set_revision_state RevisionState.empty)) _
        (Triple-weaken (modify (host w) (set_revision_state RevisionState.empty))
          (modify-Free (host w) Permit (set_revision_state RevisionState.empty)) (λ r p. p.0)
          (λ a r p. p) (λ r p. p))
        λ _.
          Triple-bind (ignore (release_lock_and_set_next_state (host w) ActionState.empty)) _
            (release_ignored_lem (host w) Permit laws ActionState.empty) λ _. Triple-pure no_requeue

  preflight_lem :
      (revision : String) → Releasing (host w) Permit (handle_sub_state_preflight_check w revision)
  unfolding handle_sub_state_preflight_check
  preflight_lem revision =
      with_revision_lock_lem w laws ActionState.new_revision ActionState.new_revision _
        (Keeps-Working (host w) Permit _ (preflight-Keeps w revision))

  update_lem :
      (revision : String) → Releasing (host w) Permit (handle_sub_state_update_msr w revision)
  unfolding handle_sub_state_update_msr
  update_lem revision =
      with_revision_lock_lem w laws ActionState.new_revision ActionState.new_revision _
        (Keeps-Working (host w) Permit _ (update_msr-Keeps w revision))

  finish_lem : (revision : String) → Releasing (host w) Permit (handle_substate_finish w revision)
  unfolding handle_substate_finish
  finish_lem revision =
      with_revision_lock_lem w laws ActionState.new_revision ActionState.empty _
        (Keeps-Working (host w) Permit _ (finish-Keeps w revision))

  failed : (cause e : String) → Settling (fail_with (host w) ActionState.new_revision cause e)
  failed cause e = frees _ (fail_with_lem (host w) Permit laws ActionState.new_revision cause e)

  revision_step_lem :
      (revision : String) (state : RevisionState) → Settling (revision_step w revision state)
  unfolding revision_step
  revision_step_lem revision RevisionState.empty = releases _ (preflight_lem revision)
  revision_step_lem revision RevisionState.preflight_check = releases _ (preflight_lem revision)
  revision_step_lem revision RevisionState.update_msr_spec = releases _ (update_lem revision)
  revision_step_lem revision RevisionState.after_msr_update = releases _ (finish_lem revision)
  revision_step_lem revision RevisionState.abort = abort_lem
  revision_step_lem revision (RevisionState.unknown s) = failed _ _

  on_payload_lem :
      (payload : Option NewRevisionPayload) (go_on : String → Action w CtrlResult)
      → ((revision : String) → Settling (go_on revision))
      → Settling (on_payload w payload go_on)
  on_payload_lem none go_on k =
      Triple-weaken (raise _) (Triple-raise _) (λ r p. p.0) (λ a r p. p) (λ r p. p)
  on_payload_lem (some payload) go_on k = k payload.commit_sha

  work_on_head_lem : Settling (work_on_head w)
  unfolding work_on_head
  work_on_head_lem = Triple-bind (current (host w)) _ (Triple-current (host w) Permit) λ mrt.
      Triple-bind
        (wrapped "get head of the revision queue"
          (revisions_queue_head w mrt.status.revision_queue_ref))
        _
        (first _ (
          Keeps-wrapped (host w) Permit _ (revisions_queue_head w mrt.status.revision_queue_ref)
            (queue_head-Keeps w mrt.status.revision_queue_ref)))
        λ event.
          on_payload_lem event.spec.new_revision
            (λ revision. revision_step w revision mrt.status.revision_processing_state)
            (λ revision. revision_step_lem revision mrt.status.revision_processing_state)

  -- One more check under the lock, and what follows it.
  checked :
      {A : Type 0} (context : String) (m : Action w A) (go_on : A → Action w CtrlResult)
      → Keeps w m
      → ((a : A) → Settling (go_on a))
      → Settling (both m >>= λ found. stop w context found go_on)
  checked {A} context m go_on k t =
      Triple-bind (both m) (λ found. stop w context found go_on) (Triple-both m k) after
    where
      after : (found : Result A) → Settling (stop w context found go_on)
      after (ok a) = t a
      after (err e) = failed e _

  after_any_lem : (new_revision : Bool) → Settling (after_any w new_revision)
  unfolding after_any
  after_any_lem new_revision =
      Triple-if (not new_revision) _ (work_on_head w)
        (frees _ (release_and_lem (host w) Permit laws requeue_now ActionState.empty))
        work_on_head_lem

  after_repository_lem : (repo : Option w.Repository) → Settling (after_repository w repo)
  unfolding after_repository
  after_repository_lem repo = checked _ (any_revision_events w) _ (any_events-Keeps w) after_any_lem

  after_dependencies_lem : (u : Unit {0}) → Settling (after_dependencies w u)
  unfolding after_dependencies
  after_dependencies_lem u =
      checked _ (repository_with_error w) _ (repository_with_error-Keeps w) after_repository_lem

  pub processing_revision_lem : Settles (handle_state_processing_revision w)
  unfolding handle_state_processing_revision
  processing_revision_lem =
      under_lock_any (host w) Permit laws (λ r p. (p.0, inl p.1)) ActionState.new_revision _ _
        (checked _ (check_dependencies w) _ (check_dependencies-Keeps w) after_dependencies_lem)
