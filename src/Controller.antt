-- ===== src/Controller.antt =====
-- What the three controllers of kubernetes/internal/controller share: an object that is read and
-- written, calls of other systems, the lock in the object's conditions (Lock) and the logic of what
-- is done under it (Triples, Keeps, Discipline).
pub mod Lock
pub mod Triples
pub mod Keeps
pub mod Git
pub mod Discipline
use quorum_based_manifests_g.Common.{
  ℕ, ltb, Bool, true, false, ◌||◌, List, ◌∷◌, String, Result, ok, err, if◌then◌else◌,
}
use quorum_based_manifests_g.Api.{ManifestRef, Condition}
use quorum_based_manifests_g.Kube.{Kube, progressing, CtrlResult, requeue_in, scheduled_interval}
use quorum_based_manifests_g.Exec.{Exec, pure, ◌>>=◌}

-- A controller's object and the client that reads and writes it. A successful write answers with
-- the object as the server holds it then. `updated` names the write of the whole object.
pub record Host : Type 1 where
  pub State : Type 0
  pub Object : Type 0
  pub ActionState : Type 0
  pub Effect : Type 0
  pub kube : Kube
  pub get : ManifestRef → State → Result Object × State
  pub status_update : Object → State → Result Object × State
  pub update : Object → State → Result Object × State
  pub now : State → ℕ × State
  pub updated : Effect
  pub key : Object → ManifestRef
  pub action_state : Object → ActionState
  pub conditions : Object → List Condition
  pub with_state : ActionState → List Condition → Object → Object
  pub text : ActionState → String
  pub same_state : ActionState → ActionState → Bool
  pub kind : String

-- The state of a run: the systems, and the object that the controller's pointer refers to.
-- `held`: the last status that was written has the lock. `effects`: what was attempted, the latest
-- first, each with the value of `held` then. The code reads neither.
pub record Run (h : Host) : Type 0 where
  pub state : h.State
  pub object : h.Object
  pub held : Bool
  pub effects : List (h.Effect × Bool)

abbrev pub Action : Host → Type 0 → Type 0
Action h = Exec (Run h)

module _ (h : Host) where
  -- A call that does not touch the object.
  abbrev pub answered : {A : Type 0} → Run h → Result A × h.State → Result A × Run h
  answered r (a, s) = (a, record r { state = s })

  -- A call that answers with the object, which then replaces it.
  abbrev pub replaced : Run h → Bool → Result h.Object × h.State → Result (Unit {0}) × Run h
  replaced r written (ok m, s) = (ok tt, record r { state = s; object = m; held = written })
  replaced r written (err e, s) = (err e, record r { state = s })

  unfoldable pub call : {A : Type 0} → (h.State → Result A × h.State) → Action h A
  call op r = answered r (op r.state)

  -- A call that acts on other systems, whether or not it succeeds there.
  unfoldable pub effect : {A : Type 0} → h.Effect → (h.State → Result A × h.State) → Action h A
  effect e op r = answered (record r { effects = (e, r.held) ∷ r.effects }) (op r.state)

  unfoldable pub current : Action h h.Object
  current r = (ok r.object, r)

  -- The object is changed in memory.
  unfoldable pub modify : (h.Object → h.Object) → Action h (Unit {0})
  modify f r = (ok tt, record r { object = f r.object })

  -- `r.Get(ctx, client.ObjectKeyFromObject(object), object)`
  unfoldable pub get_again : Action h (Unit {0})
  get_again r = replaced r r.held (h.get (h.key r.object) r.state)

  abbrev pub is_locked : h.Object → Bool
  is_locked m = h.kube.is_status_condition_true (h.conditions m) progressing

  -- `r.Status().Update(ctx, object)`
  unfoldable pub status_update : Action h (Unit {0})
  status_update r = replaced r (is_locked r.object) (h.status_update r.object r.state)

  -- `r.Update(ctx, object)`
  unfoldable pub update : Action h (Unit {0})
  update r =
      replaced (record r { effects = (h.updated, r.held) ∷ r.effects }) r.held
        (h.update r.object r.state)

  abbrev pub timed : ℕ × h.State → Result ℕ × h.State
  timed (t, s) = (ok t, s)

  -- `time.Now`
  unfoldable pub time_now : Action h ℕ
  unfolding call
  time_now = call (λ s. timed (h.now s))

  -- The object of the request is read; one that is gone is no error.
  abbrev pub fetched : Run h → Result h.Object × h.State → Result Bool × Run h
  fetched r (ok m, s) = (ok true, record r { state = s; object = m })
  fetched r (err e, s) =
      if h.kube.is_not_found e
      then (ok false, record r { state = s })
      else (err e, record r { state = s })

  unfoldable pub fetch : ManifestRef → Action h Bool
  fetch key r = fetched r (h.get key r.state)

-- `handleResult` on a result with no error; an error passes.
unfoldable pub handle_result : CtrlResult → CtrlResult
handle_result result =
    if result.requeue || ltb 0 result.requeue_after then result else requeue_in scheduled_interval

abbrev pub polled : {h : Host} → Action h CtrlResult → Action h CtrlResult
polled m = do result ← m; pure (handle_result result)
