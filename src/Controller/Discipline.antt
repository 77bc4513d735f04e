-- ===== src/Controller/Discipline.antt =====
-- What the lock's operations and the work under it do to the lock.
use quorum_based_manifests_g.Common.{
  Bool, true, false, not, ◌&&◌, String, ◌+++◌, Result, ok, err, if◌then◌else◌, ◌≡◌, ◌∙◌, ap, ◌⊎◌,
  inl, inr,
}
use quorum_based_manifests_g.Kube.{progressing, CtrlResult, requeue_now, requeue_in}
use quorum_based_manifests_g.Exec.{
  Triple, pure, ◌>>=◌, wrapped, both, ignore, Triple-bind, Triple-pure, Triple-raise, Triple-return,
  Triple-if, Triple-wrapped, Triple-weaken, Triple-both, Triple-ignore,
}
use quorum_based_manifests_g.Controller.{
  Host, Run, Action, current, modify, get_again, is_locked, status_update, polled, handle_result,
}
use quorum_based_manifests_g.Controller.Lock.{
  with_condition, take_lock, acquire_lock, release_lock_abstract, release_lock_with_failure,
  release_lock_and_set_next_state, release_and, fail_with, under_lock, finish, with_lock,
  finish_sub, after_sub_handler, with_sub_lock,
}
use quorum_based_manifests_g.Controller.Triples.{
  HostLaws, Free, Released, Held, Reads, Triple-current, status_update_lem, status_update-Free,
  get_again-Released, modify-Free,
}
use quorum_based_manifests_g.Controller.Keeps.{Keeps, Keeps-bind, Keeps-pure, Reading}

module _ (h : Host) (Permit : h.Effect → Bool → Type 0) where
  -- The action is permitted under the lock, and the lock may be anything after it.
  abbrev pub Working : {A : Type 0} → Action h A → Type 0
  Working m = Triple (Held h Permit) m (λ _. Free h Permit) (Free h Permit)

  -- The action runs under the lock and releases it.
  abbrev pub Releasing : Action h CtrlResult → Type 0
  Releasing m = Triple (Held h Permit) m (λ _. Released h Permit) (Free h Permit)

  -- The lock is released, or its release has been attempted: the object in memory reads so.
  abbrev pub Settled : Run h → Type 0
  Settled r = Free h Permit r × ((r.held ≡ false) ⊎ (is_locked h r.object ≡ false))

  pub Keeps-Working : {A : Type 0} (m : Action h A) → Keeps h Permit m → Working m
  Keeps-Working m k = Triple-weaken m k (λ r p. p) (λ a r p. p.0) (λ r p. p.0)

  pub Free-Working :
      {A : Type 0} (m : Action h A)
      → Triple (Free h Permit) m (λ _. Free h Permit) (Free h Permit)
      → Working m
  Free-Working m t = Triple-weaken m t (λ r p. p.0) (λ a r p. p) (λ r p. p)

  -- The same work, in the form of most handlers.
  pub then_pure :
      {A B : Type 0} (m : Action h A) (b : B) → Keeps h Permit m → Working (m >>= λ _. pure b)
  then_pure m b k =
      Keeps-Working (m >>= λ _. pure b)
        (Keeps-bind h Permit m (λ _. pure b) k (λ _. Keeps-pure h Permit b))

  pub polled_lem : (m : Action h CtrlResult) → Reading h Permit m → Reading h Permit (polled m)
  polled_lem m t = Triple-bind m _ t λ result. Triple-pure (handle_result result)

  pub Reading-any :
      (m : Action h CtrlResult)
      → Triple (Free h Permit) m (λ _. Released h Permit) (Free h Permit)
      → Reading h Permit m
  Reading-any m t = Triple-weaken m t (λ r p. p.0) (λ a r p. p) (λ r p. p)

  pub Releasing-any :
      (m : Action h CtrlResult)
      → Triple (Free h Permit) m (λ _. Released h Permit) (Free h Permit)
      → Releasing m
  Releasing-any m t = Triple-weaken m t (λ r p. p.0) (λ a r p. p) (λ r p. p)

  module _ (laws : HostLaws h) where
    -- Setting the condition makes it read as it was set.
    modify_condition :
        (state : h.ActionState) (b : Bool) (reason message : String)
        → Triple
            (Free h Permit)
            (modify h (with_condition h state b reason message))
            (λ _. Reads h Permit b)
            (Free h Permit)
    unfolding modify
    modify_condition state b reason message = record {
      at = λ r p. (
        p,
        ap (λ cs. h.kube.is_status_condition_true cs progressing)
              (laws.conditions-with_state _ _ r.object)
            ∙ laws.kube_laws.is_true-set (h.conditions r.object) _,
      );
    }

    -- A release that fails has changed the object in memory only.
    release_attempt_lem :
        (state : h.ActionState) (reason message : String)
        → Triple
            (Free h Permit)
            (release_lock_abstract h state reason message)
            (λ _. Released h Permit)
            (Reads h Permit false)
    unfolding release_lock_abstract modify
    release_attempt_lem state reason message = record {
      at = λ r p.
          (Triple-weaken (status_update h) (status_update_lem h Permit laws false) (λ r p. p)
              (λ a r p. (p.0, p.1)) (λ r p. p)).at
            (record r { object = with_condition h state false reason message r.object })
            ((modify_condition state false reason message).at r p);
    }

    -- A release that succeeds has written that the lock is free.
    pub release_lem :
        (state : h.ActionState) (reason message : String)
        → Triple
            (Free h Permit)
            (release_lock_abstract h state reason message)
            (λ _. Released h Permit)
            (Free h Permit)
    release_lem state reason message =
        Triple-weaken (release_lock_abstract h state reason message)
          (release_attempt_lem state reason message) (λ r p. p) (λ a r p. p) (λ r p. p.0)

    -- A release whose error is dropped.
    pub release_ignored_lem :
        (state : h.ActionState)
        → Triple
            (Free h Permit)
            (ignore (release_lock_and_set_next_state h state))
            (λ _. Settled)
            (Free h Permit)
    unfolding release_lock_and_set_next_state
    release_ignored_lem state = Triple-ignore (release_lock_and_set_next_state h state) (
        Triple-weaken (release_lock_and_set_next_state h state) (release_attempt_lem state _ _)
          (λ r p. p) (λ a r p. (p.0, inl p.1)) (λ r p. (p.0, inr p.1)))

    pub release_failure_lem :
        (state : h.ActionState) (cause : String)
        → Triple
            (Free h Permit)
            (release_lock_with_failure h state cause)
            (λ _. Released h Permit)
            (Free h Permit)
    unfolding release_lock_with_failure
    release_failure_lem state cause = release_lem state _ _

    pub release_and_lem :
        (result : CtrlResult) (state : h.ActionState)
        → Triple
            (Free h Permit)
            (release_and h result state)
            (λ _. Released h Permit)
            (Free h Permit)
    unfolding release_and release_lock_and_set_next_state
    release_and_lem result state =
        Triple-bind (release_lock_and_set_next_state h state) _ (release_lem state _ _)
          λ _. Triple-pure result

    pub fail_with_lem :
        (state : h.ActionState) (cause e : String)
        → Triple
            (Free h Permit)
            (fail_with h state cause e)
            (λ _. Released h Permit)
            (Free h Permit)
    unfolding fail_with
    fail_with_lem state cause e =
        Triple-bind (ignore (release_lock_with_failure h state cause)) _
          (Triple-ignore (release_lock_with_failure h state cause) (
            Triple-weaken (release_lock_with_failure h state cause)
              (release_failure_lem state cause) (λ r p. p) (λ a r p. p.0) (λ r p. p)))
          λ _. Triple-raise e

    -- After an attempt to take the lock: it is held, or nothing has changed.
    abbrev Taken : Bool → Run h → Type 0
    Taken true r = Held h Permit r
    Taken false r = Released h Permit r

    take_lem :
        (state : h.ActionState) (message : String)
        → Triple (Released h Permit) (take_lock h state message) Taken (Free h Permit)
    unfolding take_lock
    take_lem state message =
        Triple-bind (modify h (with_condition h state true (h.text state) message)) _
          (Triple-weaken (modify h (with_condition h state true (h.text state) message))
            (modify_condition state true (h.text state) message) (λ r p. p.0) (λ a r p. p)
            (λ r p. p))
          λ _.
            Triple-bind
              (wrapped ("update " +++ h.kind +++ " after lock acquired") (status_update h)) _
              (Triple-wrapped _ (status_update h) (
                Triple-weaken (status_update h) (status_update_lem h Permit laws true) (λ r p. p)
                  (λ a r p. p) (λ r p. p.0)))
              λ _. Triple-return true (λ r p. p)

    acquire_lem :
        (state : h.ActionState) (message : String)
        → Triple (Released h Permit) (acquire_lock h state message) Taken (Free h Permit)
    unfolding acquire_lock
    acquire_lem state message =
        Triple-bind (wrapped ("fetch fresh " +++ h.kind) (get_again h)) _
          (Triple-wrapped _ (get_again h) (get_again-Released h Permit))
          λ _. Triple-bind (current h) _ (Triple-current h Permit) λ m.
            Triple-if (h.same_state (h.action_state m) state && is_locked h m) (pure false)
              (take_lock h state message) (Triple-return false (λ r p. p)) (take_lem state message)

    -- Work that wants the lock, when the lock is taken for it.
    pub under_lock_any :
        {Q : Run h → Type 0}
        → ((r : Run h) → Released h Permit r → Q r)
        → (state : h.ActionState) (message : String) (work : Action h CtrlResult)
        → Triple (Held h Permit) work (λ _. Q) (Free h Permit)
        → Triple (Released h Permit) (under_lock h state message work) (λ _. Q) (Free h Permit)
    unfolding under_lock
    under_lock_any {Q} weaken state message work t =
        Triple-bind (acquire_lock h state message) _ (acquire_lem state message) after
      where
        after :
            (taken : Bool)
            → Triple
                (Taken taken)
                (if not taken then pure (requeue_in 15) else work)
                (λ _. Q)
                (Free h Permit)
        after true = t
        after false = Triple-return (requeue_in 15) weaken

    -- Work that releases it.
    pub under_lock_lem :
        (state : h.ActionState) (message : String) (work : Action h CtrlResult)
        → Releasing work
        → Reading h Permit (under_lock h state message work)
    under_lock_lem = under_lock_any (λ r p. p)

    finish_lem :
        (state : h.ActionState) (next : Result h.ActionState)
        → Triple (Free h Permit) (finish h state next) (λ _. Released h Permit) (Free h Permit)
    unfolding finish
    finish_lem state (ok next) = release_and_lem requeue_now next
    finish_lem state (err e) = fail_with_lem state e e

    pub with_lock_lem :
        (state : h.ActionState) (message : String) (handler : Action h h.ActionState)
        → Working handler
        → Reading h Permit (with_lock h state message handler)
    unfolding with_lock
    with_lock_lem state message handler t =
        under_lock_lem state message (both handler >>= finish h state)
          (Triple-bind (both handler) _ (Triple-both handler t) (finish_lem state))

    module _ {X : Type 0} (set : X → h.Object → h.Object) (name : String) where
      finish_sub_lem :
          (parent next : h.ActionState) (saved : Result (Unit {0}))
          → Triple
              (Free h Permit)
              (finish_sub h set name parent next saved)
              (λ _. Released h Permit)
              (Free h Permit)
      unfolding finish_sub
      finish_sub_lem parent next (ok _) = release_and_lem requeue_now next
      finish_sub_lem parent next (err e) = fail_with_lem parent _ e

      after_sub_lem :
          (parent next : h.ActionState) (found : Result X)
          → Triple
              (Free h Permit)
              (after_sub_handler h set name parent next found)
              (λ _. Released h Permit)
              (Free h Permit)
      unfolding after_sub_handler
      after_sub_lem parent next (ok sub) =
          Triple-bind (modify h (set sub)) _ (modify-Free h Permit (set sub)) λ _.
            Triple-bind (both (status_update h)) _
              (Triple-both (status_update h) (status_update-Free h Permit))
              (finish_sub_lem parent next)
      after_sub_lem parent next (err e) = fail_with_lem parent e e

      pub with_sub_lock_lem :
          (parent next : h.ActionState) (handler : Action h X)
          → Working handler
          → Releasing (with_sub_lock h set name parent next handler)
      unfolding with_sub_lock
      with_sub_lock_lem parent next handler t =
          Triple-bind (both handler) _ (Triple-both handler t) (after_sub_lem parent next)
