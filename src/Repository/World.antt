-- ===== src/Repository/World.antt =====
-- The state of a Git provider (BaseGitProvider), what it calls of go-git, of the operating system,
-- of go-crypto and of the YAML package, and the mutex that its methods take.
use quorum_based_manifests_g.Common.{
  Bool, true, false, List, ◌∷◌, Option, none, some, String, Result, ok, err, if◌then◌else◌,
}
use quorum_based_manifests_g.Dto
use quorum_based_manifests_g.Api
use quorum_based_manifests_g.Exec.{Exec, pure, ◌>>=◌, ◌>>◌, both}
use quorum_based_manifests_g.Repository.Files.{FilePatch, Trees}

-- PgpSecrets
pub record PgpSecrets : Type 0 where
  pub private_key : String
  pub passphrase : String

-- os.FileInfo, as far as it is read
pub record DirEntry : Type 0 where
  pub name : String
  pub is_dir : Bool

-- plumbing.Reference: `target` is that of a symbolic reference.
pub record Reference : Type 0 where
  pub name : String
  pub target : Option String
  pub hash : String

-- openpgp.Entity: its primary key in bytes, the private key, and those of the subkeys.
pub record Entity (PrivateKey : Type 0) : Type 0 where
  pub primary_key : Result String
  pub private_key : Option PrivateKey
  pub subkeys : List (Option PrivateKey)

-- A call answers with a value or an error. Errors are texts; the tests of `errors.Is` and the
-- comparisons with an error's variable are functions of them.
pub record Git : Type 1 where
  pub trees : Trees
  pub State : Type 0
  pub Repo : Type 0
  pub Worktree : Type 0
  pub Auth : Type 0
  pub Hash : Type 0
  pub Commit : Type 0
  pub File : Type 0
  pub PrivateKey : Type 0
  pub new_hash : String → Hash
  pub hash_text : Hash → String
  pub commit_hash : Commit → Hash
  pub already_up_to_date : String → Bool
  pub object_not_found : String → Bool
  pub not_exist : String → Bool
  pub matches : String → String → Bool
  pub plain_open : String → State → Result Repo × State
  pub plain_clone : String → String → Auth → State → Result Repo × State
  pub worktree : Repo → State → Result Worktree × State
  pub pull : Worktree → Auth → State → Result (Unit {0}) × State
  pub head : Repo → State → Result Hash × State
  pub commit_object : Repo → Hash → State → Result Commit × State
  pub is_ancestor : Commit → Commit → State → Result Bool × State
  pub tree : Commit → State → Result trees.Tree × State
  pub patch : trees.Tree → trees.Tree → State → Result (List FilePatch) × State
  pub list_remote : String → Auth → State → Result (List Reference) × State
  pub reset_hard : Worktree → Hash → State → Result (Unit {0}) × State
  pub add : Worktree → String → State → Result (Unit {0}) × State
  pub remove_glob : Worktree → String → State → Result (Unit {0}) × State
  pub commit : Worktree → String → Entity PrivateKey → State → Result Hash × State
  pub push : Repo → Auth → State → Result (Unit {0}) × State
  pub mkdir_all : String → State → Result (Unit {0}) × State
  pub write_file : String → String → State → Result (Unit {0}) × State
  pub stat : String → State → Result (Unit {0}) × State
  pub remove_all : String → State → Result (Unit {0}) × State
  pub open_file : Worktree → String → State → Result File × State
  pub read_all : File → State → Result String × State
  pub read_dir : Worktree → String → State → Result (List DirEntry) × State
  pub read_armored_key_ring : String → Result (List (Entity PrivateKey))
  pub is_encrypted : PrivateKey → Bool
  pub decrypt : PrivateKey → String → Result (Unit {0}) × PrivateKey
  pub detach_sign : Entity PrivateKey → String → Result String
  pub marshal_msr : Api.Signing.ManifestObject → Result String
  pub marshal_mca : Api.Approval.ManifestObject → Result String
  pub unmarshal_msr : String → Result Dto.ManifestSigningRequestManifestObject

-- What a method does to the clone that a reset or a push settles. `not_reset`: a reset to the hash
-- was attempted, and has failed.
pub data Event (Hash : Type 0) : Type 0 where
  opened : Hash → Event Hash
  wrote staged removed : String → Event Hash
  committed : Event Hash
  pushed : Event Hash
  reset : Hash → Event Hash
  not_reset : Hash → Event Hash

-- `locked` is the mutex. `faulty`: the run has blocked on its own mutex, has unlocked it while it
-- was free, or has panicked. `log`: the latest event first. The code does not read the last two.
pub record Provider (g : Git) : Type 0 where
  pub state : g.State
  pub remote_url : String
  pub local_path : String
  pub repo : Option g.Repo
  pub auth : g.Auth
  pub pgp_secrets : PgpSecrets
  pub locked : Bool
  pub faulty : Bool
  pub log : List (Event g.Hash)

abbrev pub Action : Git → Type 0 → Type 0
Action g = Exec (Provider g)

module _ (g : Git) where
  abbrev pub answered : {A : Type 0} → Provider g → Result A × g.State → Result A × Provider g
  answered p (a, s) = (a, record p { state = s })

  unfoldable pub call : {A : Type 0} → (g.State → Result A × g.State) → Action g A
  call op p = answered p (op p.state)

  -- An event of the log, which is no step of the code.
  unfoldable pub note : Event g.Hash → Action g (Unit {0})
  note e p = (ok tt, record p { log = e ∷ p.log })

  -- A call that changes the clone, whether or not it succeeds.
  unfoldable pub effect : {A : Type 0} → Event g.Hash → (g.State → Result A × g.State) → Action g A
  effect e op p = answered (record p { log = e ∷ p.log }) (op p.state)

  unfoldable pub provider : Action g (Provider g)
  provider p = (ok p, p)

  unfoldable pub panic : {A : Type 0} → String → Action g A
  panic e p = (err e, record p { faulty = true })

  unfoldable pub from_result : {A : Type 0} → Result A → Action g A
  from_result r p = (r, p)

  -- A use of `p.repo`.
  abbrev pub dereferenced : Option g.Repo → Action g g.Repo
  dereferenced none = panic "nil repository"
  dereferenced (some repo) = pure repo

  unfoldable pub the_repo : Action g g.Repo
  unfolding pure panic
  the_repo p = dereferenced p.repo p

  -- `p.mu.Lock()`; a second one by the same run blocks for good.
  unfoldable pub lock : Action g (Unit {0})
  lock p =
      if p.locked
      then (err "deadlock", record p { faulty = true })
      else (ok tt, record p { locked = true })

  -- `p.mu.Unlock()`
  unfoldable pub unlock : Action g (Unit {0})
  unlock p =
      if p.locked
      then (ok tt, record p { locked = false })
      else (err "unlock of unlocked mutex", record p { faulty = true })

  -- `defer p.mu.Unlock()` in front of the rest of a method.
  unfoldable pub deferring_unlock : {A : Type 0} → Action g A → Action g A
  unfolding ◌>>=◌ both unlock from_result
  deferring_unlock m = do r ← both m; unlock; from_result r

  unfoldable pub under_mutex : {A : Type 0} → Action g A → Action g A
  unfolding ◌>>=◌ lock deferring_unlock
  under_mutex m = do lock; deferring_unlock m
