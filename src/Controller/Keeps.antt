-- ===== src/Controller/Keeps.antt =====
-- Rules for what a controller runs under its lock, for `search`, and for what it runs without.
use quorum_based_manifests_g.Common.{Bool, true, false, String, Result, ◌≡◌, if◌then◌else◌}
use quorum_based_manifests_g.Exec.{
  Triple, pure, raise, ◌>>=◌, wrapped, both, ignore, Triple-bind, Triple-pure, Triple-raise,
  Triple-wrapped, Triple-weaken, Triple-both, Triple-ignore,
}
use quorum_based_manifests_g.Controller.{
  Host, Action, call, effect, current, modify, status_update, time_now,
}
use quorum_based_manifests_g.Controller.Triples.{
  HostLaws, Free, Released, Held, Triple-call, Triple-current, effect-Held, modify-Held,
  call-Released, status_update-Held,
}

module _ (h : Host) (Permit : h.Effect → Bool → Type 0) where
  -- The action keeps the lock that it runs under.
  abbrev pub Keeps : {A : Type 0} → Action h A → Type 0
  Keeps m = Triple (Held h Permit) m (λ _. Held h Permit) (Held h Permit)

  -- The action runs without the lock and leaves it alone.
  abbrev pub Reading : {A : Type 0} → Action h A → Type 0
  Reading m = Triple (Released h Permit) m (λ _. Released h Permit) (Free h Permit)

  pub Keeps-bind :
      {A B : Type 0} (m : Action h A) (f : A → Action h B)
      → Keeps m
      → ((a : A) → Keeps (f a))
      → Keeps (m >>= f)
  Keeps-bind m f k kf = Triple-bind m f k kf

  pub Keeps-pure : {A : Type 0} (a : A) → Keeps (pure a)
  Keeps-pure a = Triple-pure a

  pub Keeps-raise : {A : Type 0} (e : String) → Keeps (raise {A = A} e)
  Keeps-raise e = Triple-raise e

  pub Keeps-wrapped : {A : Type 0} (c : String) (m : Action h A) → Keeps m → Keeps (wrapped c m)
  Keeps-wrapped c m k = Triple-wrapped c m k

  pub Keeps-ignore : {A : Type 0} (m : Action h A) → Keeps m → Keeps (ignore m)
  Keeps-ignore m k = Triple-ignore m k

  pub Keeps-both : {A : Type 0} (m : Action h A) → Keeps m → Keeps (both m)
  Keeps-both m k = Triple-both m k

  pub Keeps-if :
      {A : Type 0} (b : Bool) (m n : Action h A) → Keeps m → Keeps n → Keeps (if b then m else n)
  Keeps-if true m n km kn = km
  Keeps-if false m n km kn = kn

  pub Keeps-call : {A : Type 0} (op : h.State → Result A × h.State) → Keeps (call h op)
  Keeps-call op = Triple-call h Permit (Held h Permit) op (λ r s p. p)

  pub Keeps-current : Keeps (current h)
  Keeps-current = Triple-current h Permit

  pub Keeps-effect :
      {A : Type 0} (e : h.Effect) (op : h.State → Result A × h.State)
      → ((b : Bool) → b ≡ true → Permit e b)
      → Keeps (effect h e op)
  Keeps-effect e op permit = effect-Held h Permit e op permit

  pub Keeps-modify :
      (f : h.Object → h.Object)
      → ((m : h.Object) → h.conditions (f m) ≡ h.conditions m)
      → Keeps (modify h f)
  Keeps-modify f same = modify-Held h Permit f same

  pub Keeps-time_now : Keeps (time_now h)
  unfolding time_now
  Keeps-time_now = Keeps-call _

  pub Keeps-status_update : HostLaws h → Keeps (status_update h)
  Keeps-status_update laws = status_update-Held h Permit laws

  pub ruleset keeps_rules = (
    Keeps-bind, Keeps-pure, Keeps-raise, Keeps-wrapped, Keeps-ignore, Keeps-both, Keeps-if,
    Keeps-call, Keeps-current, Keeps-time_now,
  )

  pub Reading-bind :
      {A B : Type 0} (m : Action h A) (f : A → Action h B)
      → Reading m
      → ((a : A) → Reading (f a))
      → Reading (m >>= f)
  Reading-bind m f k kf = Triple-bind m f k kf

  pub Reading-pure : {A : Type 0} (a : A) → Reading (pure a)
  Reading-pure a = Triple-pure a

  pub Reading-raise : {A : Type 0} (e : String) → Reading (raise {A = A} e)
  Reading-raise e =
      Triple-weaken (raise e) (Triple-raise {Q = λ _. Released h Permit} e) (λ r p. p) (λ a r p. p)
        (λ r p. p.0)

  pub Reading-wrapped :
      {A : Type 0} (c : String) (m : Action h A) → Reading m → Reading (wrapped c m)
  Reading-wrapped c m k = Triple-wrapped c m k

  pub Reading-if :
      {A : Type 0} (b : Bool) (m n : Action h A)
      → Reading m
      → Reading n
      → Reading (if b then m else n)
  Reading-if true m n km kn = km
  Reading-if false m n km kn = kn

  pub Reading-call : {A : Type 0} (op : h.State → Result A × h.State) → Reading (call h op)
  Reading-call op = call-Released h Permit op

  pub Reading-current : Reading (current h)
  Reading-current = Triple-current h Permit

  pub ruleset reading_rules = (
    Reading-bind, Reading-pure, Reading-raise, Reading-wrapped, Reading-if, Reading-call,
    Reading-current,
  )

  -- The same, after an error too.
  abbrev pub Quiet : {A : Type 0} → Action h A → Type 0
  Quiet m = Triple (Released h Permit) m (λ _. Released h Permit) (Released h Permit)

  pub Quiet-Reading : {A : Type 0} (m : Action h A) → Quiet m → Reading m
  Quiet-Reading m t = Triple-weaken m t (λ r p. p) (λ a r p. p) (λ r p. p.0)

  pub Quiet-bind :
      {A B : Type 0} (m : Action h A) (f : A → Action h B)
      → Quiet m
      → ((a : A) → Quiet (f a))
      → Quiet (m >>= f)
  Quiet-bind m f k kf = Triple-bind m f k kf

  pub Quiet-pure : {A : Type 0} (a : A) → Quiet (pure a)
  Quiet-pure a = Triple-pure a

  pub Quiet-raise : {A : Type 0} (e : String) → Quiet (raise {A = A} e)
  Quiet-raise e = Triple-raise e

  pub Quiet-wrapped : {A : Type 0} (c : String) (m : Action h A) → Quiet m → Quiet (wrapped c m)
  Quiet-wrapped c m k = Triple-wrapped c m k

  pub Quiet-if :
      {A : Type 0} (b : Bool) (m n : Action h A) → Quiet m → Quiet n → Quiet (if b then m else n)
  Quiet-if true m n km kn = km
  Quiet-if false m n km kn = kn

  pub Quiet-call : {A : Type 0} (op : h.State → Result A × h.State) → Quiet (call h op)
  Quiet-call op = Triple-call h Permit (Released h Permit) op (λ r s p. p)

  pub Quiet-current : Quiet (current h)
  Quiet-current = Triple-current h Permit

  pub ruleset quiet_rules =
      (Quiet-bind, Quiet-pure, Quiet-raise, Quiet-wrapped, Quiet-if, Quiet-call, Quiet-current)
