-- ===== src/Repository/Keeps.antt =====
-- What the methods of a provider keep: the mutex, and a log that a push or a rollback settles.
use quorum_based_manifests_g.Common.{
  Bool, true, false, List, [], ◌∷◌, Option, none, some, String, ◌≡◌, Result, ok, err, if◌then◌else◌,
}
use quorum_based_manifests_g.Exec.{
  Post, Triple, pure, raise, ◌>>=◌, wrapped, both, ignore, Triple-bind, Triple-pure, Triple-raise,
  Triple-wrapped, Triple-both, Triple-ignore,
}
use quorum_based_manifests_g.Repository.World.{
  Git, Provider, Action, Event, opened, wrote, staged, removed, committed, pushed, reset, not_reset,
  answered, call, effect, provider, from_result, dereferenced, the_repo,
}

module _ {Hash : Type 0} where
  -- The head that the method has read last.
  abbrev pub head_read : List (Event Hash) → Option Hash
  head_read [] = none
  head_read (opened h ∷ log) = some h
  head_read (wrote path ∷ log) = head_read log
  head_read (staged path ∷ log) = head_read log
  head_read (removed path ∷ log) = head_read log
  head_read (committed ∷ log) = head_read log
  head_read (pushed ∷ log) = head_read log
  head_read (reset h ∷ log) = head_read log
  head_read (not_reset h ∷ log) = head_read log

  -- What was written, staged or committed since was pushed, or the clone was reset to the head that
  -- was read before, or that reset was attempted and has failed.
  abbrev pub Settled : List (Event Hash) → Type 0
  Settled [] = Unit
  Settled (opened h ∷ log) = Settled log
  Settled (wrote path ∷ log) = ⊥
  Settled (staged path ∷ log) = ⊥
  Settled (removed path ∷ log) = ⊥
  Settled (committed ∷ log) = ⊥
  Settled (pushed ∷ log) = Unit
  Settled (reset h ∷ log) = head_read log ≡ some h
  Settled (not_reset h ∷ log) = head_read log ≡ some h

  abbrev pub IsEdit : Event Hash → Type 0
  IsEdit (wrote path) = Unit
  IsEdit (staged path) = Unit
  IsEdit (removed path) = Unit
  IsEdit committed = Unit
  IsEdit _ = ⊥

module _ (g : Git) where
  abbrev pub Any : Option g.Repo → Type 0
  Any r = Unit

  abbrev pub Open : Option g.Repo → Type 0
  Open r = (repo : g.Repo) × (r ≡ some repo)

  -- The mutex is held, nothing has gone wrong, and the log is as said.
  abbrev pub Locked :
      (Option g.Repo → Type 0) → (List (Event g.Hash) → Type 0) → Provider g → Type 0
  Locked R Φ p = (p.locked ≡ true) × (p.faulty ≡ false) × R p.repo × Φ p.log

  -- The mutex is free, nothing has gone wrong, and the log is settled.
  abbrev pub Free : (Option g.Repo → Type 0) → Provider g → Type 0
  Free R p = (p.locked ≡ false) × (p.faulty ≡ false) × R p.repo × Settled p.log

  -- The mutex is free and nothing has gone wrong.
  abbrev pub Unlocked : Provider g → Type 0
  Unlocked p = (p.locked ≡ false) × (p.faulty ≡ false)

  -- A method that leaves the mutex free and the clone settled, however it ends.
  abbrev pub Settles : {A : Type 0} → Action g A → Type 0
  Settles m = Triple (Free Any) m (λ _. Free Any) (Free Any)

  abbrev pub Keeps : (Provider g → Type 0) → {A : Type 0} → Action g A → Type 0
  Keeps P m = Triple P m (λ _. P) P

  answered-Post :
      {A : Type 0} (P : Provider g → Type 0) (p : Provider g) (r : Result A × g.State)
      → ((s : g.State) → P (record p { state = s }))
      → Post (λ _. P) P (answered g p r)
  answered-Post P p (ok a, s) k = k s
  answered-Post P p (err e, s) k = k s

  pub Triple-call :
      {A : Type 0} (P : Provider g → Type 0) (op : g.State → Result A × g.State)
      → ((p : Provider g) (s : g.State) → P p → P (record p { state = s }))
      → Keeps P (call g op)
  unfolding call
  Triple-call P op keep = record { at = λ p h. answered-Post P p (op p.state) (λ s. keep p s h) }

  pub Triple-effect :
      {A : Type 0} (P Q : Provider g → Type 0) (e : Event g.Hash)
      (op : g.State → Result A × g.State)
      → ((p : Provider g) (s : g.State) → P p → Q (record p { state = s; log = e ∷ p.log }))
      → Triple P (effect g e op) (λ _. Q) Q
  unfolding effect
  Triple-effect P Q e op keep = record {
    at = λ p h. answered-Post Q (record p { log = e ∷ p.log }) (op p.state) (λ s. keep p s h);
  }

  module _ (P : Provider g → Type 0) where
    pub Keeps-bind :
        {A B : Type 0} (m : Action g A) (f : A → Action g B)
        → Keeps P m
        → ((a : A) → Keeps P (f a))
        → Keeps P (m >>= f)
    Keeps-bind m f k kf = Triple-bind m f k kf

    pub Keeps-pure : {A : Type 0} (a : A) → Keeps P (pure a)
    Keeps-pure a = Triple-pure a

    pub Keeps-raise : {A : Type 0} (e : String) → Keeps P (raise {A = A} e)
    Keeps-raise e = Triple-raise e

    pub Keeps-wrapped :
        {A : Type 0} (c : String) (m : Action g A) → Keeps P m → Keeps P (wrapped c m)
    Keeps-wrapped c m k = Triple-wrapped c m k

    pub Keeps-both : {A : Type 0} (m : Action g A) → Keeps P m → Keeps P (both m)
    Keeps-both m k = Triple-both m k

    pub Keeps-ignore : {A : Type 0} (m : Action g A) → Keeps P m → Keeps P (ignore m)
    Keeps-ignore m k = Triple-ignore m k

    pub Keeps-if :
        {A : Type 0} (b : Bool) (m n : Action g A)
        → Keeps P m
        → Keeps P n
        → Keeps P (if b then m else n)
    Keeps-if true m n km kn = km
    Keeps-if false m n km kn = kn

    pub Keeps-provider : Keeps P (provider g)
    unfolding provider
    Keeps-provider = record { at = λ p h. h }

    pub Keeps-from_result : {A : Type 0} (r : Result A) → Keeps P (from_result g r)
    unfolding from_result
    Keeps-from_result (ok a) = record { at = λ p h. h }
    Keeps-from_result (err e) = record { at = λ p h. h }

  module _ (Φ : List (Event g.Hash) → Type 0) where
    pub Keeps-call :
        {A : Type 0} (R : Option g.Repo → Type 0) (op : g.State → Result A × g.State)
        → Keeps (Locked R Φ) (call g op)
    Keeps-call R op = Triple-call (Locked R Φ) op (λ p s h. h)

    dereferenced-Post :
        (E : Provider g → Type 0) (p : Provider g) (r : Option g.Repo)
        → Open r
        → Locked Open Φ p
        → Post (λ _. Locked Open Φ) E (dereferenced g r p)
    unfolding pure
    dereferenced-Post E p (some repo) o h = h
    dereferenced-Post E p none (repo, e) h = absurd (cc)

    pub the_repo_lem :
        (E : Provider g → Type 0) → Triple (Locked Open Φ) (the_repo g) (λ _. Locked Open Φ) E
    unfolding the_repo
    the_repo_lem E = record { at = λ p h. dereferenced-Post E p p.repo h.2 h }

    pub Keeps-the_repo : Keeps (Locked Open Φ) (the_repo g)
    Keeps-the_repo = the_repo_lem (Locked Open Φ)

    pub Keeps-edit :
        {A : Type 0} (e : Event g.Hash) (op : g.State → Result A × g.State)
        → ((log : List (Event g.Hash)) → Φ log → Φ (e ∷ log))
        → Keeps (Locked Open Φ) (effect g e op)
    Keeps-edit e op keep =
        Triple-effect (Locked Open Φ) (Locked Open Φ) e op
          (λ p s h. (h.0, h.1, h.2, keep p.log h.3))

  pub ruleset keeps_rules = (
    Keeps-bind, Keeps-pure, Keeps-raise, Keeps-wrapped, Keeps-both, Keeps-ignore, Keeps-if,
    Keeps-provider, Keeps-from_result,
  )
