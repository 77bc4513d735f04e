-- ===== src/Controller/Triples.antt =====
-- The states of a controller's lock, and what its calls do to them.
use quorum_based_manifests_g.Common.{
  Bool, true, false, List, [], ◌∷◌, Result, ok, err, ◌≡◌, refl, ◌∙◌, ap, if◌then◌else◌,
}
use quorum_based_manifests_g.Api.{Condition, ManifestRef}
use quorum_based_manifests_g.Kube.{KubeLaws, progressing}
use quorum_based_manifests_g.Exec.{Post, Triple, Triple-weaken}
use quorum_based_manifests_g.Controller.{
  Host, Run, answered, replaced, call, effect, current, modify, get_again, is_locked, status_update,
  update, time_now, fetched, fetch,
}

-- A successful update of the status answers with the conditions that were sent; the functions on
-- conditions do what they say; the object is written field by field.
pub record HostLaws (h : Host) : Type 0 where
  pub echoes :
      (m m' : h.Object) (s s' : h.State)
      → h.status_update m s ≡ (ok m', s')
      → h.conditions m' ≡ h.conditions m
  pub kube_laws : KubeLaws h.kube
  pub conditions-with_state :
      (a : h.ActionState) (cs : List Condition) (m : h.Object)
      → h.conditions (h.with_state a cs m) ≡ cs

-- `Permit e b`: the effect `e` may be made with the lock (`b` is true) or without it.
module _ (h : Host) (Permit : h.Effect → Bool → Type 0) where
  abbrev pub Guarded : List (h.Effect × Bool) → Type 0
  Guarded [] = Unit
  Guarded ((e, held) ∷ es) = Permit e held × Guarded es

  -- Every effect of the run was permitted.
  abbrev pub Free : Run h → Type 0
  Free r = Guarded r.effects

  -- The lock is not held, by what the run has written.
  abbrev pub Released : Run h → Type 0
  Released r = Guarded r.effects × (r.held ≡ false)

  abbrev pub Held : Run h → Type 0
  Held r = Guarded r.effects × (r.held ≡ true) × (is_locked h r.object ≡ true)

  -- The condition of the object reads `b`.
  abbrev pub Reads : Bool → Run h → Type 0
  Reads b r = Guarded r.effects × (is_locked h r.object ≡ b)

  -- It was written, too.
  abbrev pub Wrote : Bool → Run h → Type 0
  Wrote b r = Guarded r.effects × (r.held ≡ b) × (is_locked h r.object ≡ b)

  answered-Post :
      {A : Type 0} (P : Run h → Type 0) (r : Run h) (p : Result A × h.State)
      → ((s : h.State) → P (record r { state = s }))
      → Post (λ _. P) P (answered h r p)
  answered-Post P r (ok a, s) k = k s
  answered-Post P r (err e, s) k = k s

  -- A call keeps what does not speak of the state of the systems.
  pub Triple-call :
      {A : Type 0} (P : Run h → Type 0) (op : h.State → Result A × h.State)
      → ((r : Run h) (s : h.State) → P r → P (record r { state = s }))
      → Triple P (call h op) (λ _. P) P
  unfolding call
  Triple-call P op keep = record { at = λ r p. answered-Post P r (op r.state) (λ s. keep r s p) }

  pub Triple-current : {P E : Run h → Type 0} → Triple P (current h) (λ _. P) E
  unfolding current
  Triple-current = record { at = λ r p. p }

  pub effect-Held :
      {A : Type 0} (e : h.Effect) (op : h.State → Result A × h.State)
      → ((b : Bool) → b ≡ true → Permit e b)
      → Triple Held (effect h e op) (λ _. Held) Held
  unfolding effect
  effect-Held e op permit = record {
    at = λ r p.
        answered-Post Held (record r { effects = (e, r.held) ∷ r.effects }) (op r.state)
          (λ s. ((permit r.held p.1, p.0), p.1, p.2));
  }

  -- An effect that wants no lock.
  pub effect_free :
      {A : Type 0} (e : h.Effect) (op : h.State → Result A × h.State)
      → ((b : Bool) → Permit e b)
      → Triple Released (effect h e op) (λ _. Released) Released
  unfolding effect
  effect_free e op permit = record {
    at = λ r g.
        answered-Post Released (record r { effects = (e, r.held) ∷ r.effects }) (op r.state)
          (λ s. ((permit r.held, g.0), g.1));
  }

  pub effect-Released :
      {A : Type 0} (e : h.Effect) (op : h.State → Result A × h.State)
      → ((b : Bool) → Permit e b)
      → Triple Released (effect h e op) (λ _. Released) Free
  effect-Released e op permit =
      Triple-weaken (effect h e op) (effect_free e op permit) (λ r p. p) (λ a r p. p) (λ r p. p.0)

  pub modify-Held :
      (f : h.Object → h.Object)
      → ((m : h.Object) → h.conditions (f m) ≡ h.conditions m)
      → Triple Held (modify h f) (λ _. Held) Held
  unfolding modify
  modify-Held f same = record {
    at = λ r p.
        (p.0, p.1, ap (λ cs. h.kube.is_status_condition_true cs progressing) (same r.object) ∙ p.2);
  }

  pub modify-Free : (f : h.Object → h.Object) → Triple Free (modify h f) (λ _. Free) Free
  unfolding modify
  modify-Free f = record { at = λ r p. p }

  pub modify-Released :
      (f : h.Object → h.Object) → Triple Released (modify h f) (λ _. Released) Free
  unfolding modify
  modify-Released f = record { at = λ r p. p }

  pub call-Released :
      {A : Type 0} (op : h.State → Result A × h.State)
      → Triple Released (call h op) (λ _. Released) Free
  call-Released op =
      Triple-weaken (call h op) (Triple-call Released op (λ r s p. p)) (λ r p. p) (λ a r p. p)
        (λ r p. p.0)

  written-Post :
      (r : Run h) (b : Bool) (p : Result h.Object × h.State)
      → Free r
      → Post (λ _. Free) Free (replaced h r b p)
  written-Post r b (ok m, s) g = g
  written-Post r b (err e, s) g = g

  kept-Post :
      (r : Run h) (p : Result h.Object × h.State)
      → Released r
      → Post (λ _. Released) Free (replaced h r r.held p)
  kept-Post r (ok m, s) g = g
  kept-Post r (err e, s) g = g.0

  pub status_update-Free : Triple Free (status_update h) (λ _. Free) Free
  unfolding status_update
  status_update-Free = record {
    at = λ r g. written-Post r (is_locked h r.object) (h.status_update r.object r.state) g;
  }

  pub get_again-Released : Triple Released (get_again h) (λ _. Released) Free
  unfolding get_again
  get_again-Released = record { at = λ r g. kept-Post r (h.get (h.key r.object) r.state) g }

  module _ (permit : (b : Bool) → Permit h.updated b) where
    pub update-Free : Triple Free (update h) (λ _. Free) Free
    unfolding update
    update-Free = record {
      at = λ r g.
          written-Post (record r { effects = (h.updated, r.held) ∷ r.effects }) r.held
            (h.update r.object r.state) (permit r.held, g);
    }

    pub update-Released : Triple Released (update h) (λ _. Released) Free
    unfolding update
    update-Released = record {
      at = λ r g.
          kept-Post (record r { effects = (h.updated, r.held) ∷ r.effects })
            (h.update r.object r.state) ((permit r.held, g.0), g.1);
    }

  fetched-Post :
      (r : Run h) (p : Result h.Object × h.State)
      → Released r
      → Post (λ _. Released) Free (fetched h r p)
  fetched-Post r (ok m, s) g = g
  fetched-Post r (err e, s) g = gone (h.kube.is_not_found e)
    where
      gone :
          (b : Bool)
          → Post {A = Bool}
              (λ _. Released)
              Free
              (if b then (ok false, record r { state = s }) else (err e, record r { state = s }))
      gone true = g
      gone false = g.0

  pub fetch-Released : (key : ManifestRef) → Triple Released (fetch h key) (λ _. Released) Free
  unfolding fetch
  fetch-Released key = record { at = λ r g. fetched-Post r (h.get key r.state) g }

  pub time_now-Released : Triple Released (time_now h) (λ _. Released) Free
  unfolding time_now
  time_now-Released = call-Released _

  module _ (laws : HostLaws h) where
    replaced-Post :
        (b : Bool) (r : Run h) (p : Result h.Object × h.State)
        → Reads b r
        → h.status_update r.object r.state ≡ p
        → Post (λ _. Wrote b) (Reads b) (replaced h r (is_locked h r.object) p)
    replaced-Post b r (ok m, s) g e = (
      g.0,
      g.1,
      ap (λ cs. h.kube.is_status_condition_true cs progressing) (laws.echoes r.object m r.state s e)
          ∙ g.1,
    )
    replaced-Post b r (err x, s) g e = g

    pub status_update_lem : (b : Bool) → Triple (Reads b) (status_update h) (λ _. Wrote b) (Reads b)
    unfolding status_update
    status_update_lem b = record {
      at = λ r g. replaced-Post b r (h.status_update r.object r.state) g refl;
    }

    kept_lock-Post :
        (r : Run h) (p : Result h.Object × h.State)
        → Held r
        → Post (λ _. Wrote true) (Reads true) (replaced h r (is_locked h r.object) p)
        → Post (λ _. Held) Held (replaced h r (is_locked h r.object) p)
    kept_lock-Post r (ok m, s) g q = q
    kept_lock-Post r (err x, s) g q = g

    -- A status that is written under the lock keeps it.
    pub status_update-Held : Triple Held (status_update h) (λ _. Held) Held
    unfolding status_update
    status_update-Held = record {
      at = λ r g.
          kept_lock-Post r (h.status_update r.object r.state) g
            (replaced-Post true r (h.status_update r.object r.state) (g.0, g.2) refl);
    }
