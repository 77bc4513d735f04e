-- ===== src/Manager.antt =====
-- kubernetes/internal/repository/manager.go: the manager that hands out a provider for a template,
-- with its cache by the URL of the repository and the refresh of the secrets. Both exported methods
-- that touch the caches hold its mutex throughout; time is in seconds.
pub mod Provide
pub mod Cache
pub mod HandedOut
use quorum_based_manifests_g.Common.{
  ℕ, ◌+◌, ltb, ℤ, pos_part, neg_part, Bool, true, false, List, [], ◌∷◌, ◌++◌, Option, none, some,
  String, ◌==◌, ◌+++◌, Result, ok, err, with_context, lookup, insert, if◌then◌else◌,
}
use quorum_based_manifests_g.Api.{ManifestRef}
use quorum_based_manifests_g.Api.Template.{ManifestRequestTemplate, PgpPrivateKeySecret}
use quorum_based_manifests_g.Exec.{Exec, pure, raise, ◌>>=◌, ◌>>◌, wrapped, both}
use quorum_based_manifests_g.Repository.Folders.{join_all}
use quorum_based_manifests_g.Repository.World.{PgpSecrets}

-- corev1.Secret, its data
abbrev pub Secret : Type 0
Secret = List (String × String)

-- The cluster, the disk, the SSH library and the providers. `update_secrets` is none for a provider
-- without that method.
pub record Services : Type 1 where
  pub State : Type 0
  pub Provider : Type 0
  pub Keys : Type 0
  pub Callback : Type 0
  pub sha1_hex : String → String
  pub not_exist : String → Bool
  pub get_secret : ManifestRef → State → Result Secret × State
  pub stat : String → State → Result (Unit {0}) × State
  pub known_hosts : String → State → Result Callback × State
  pub new_public_keys : String → String → Result Keys
  pub with_callback : Keys → Callback → Keys
  pub update_secrets : Provider → Option (Keys → PgpSecrets → State → Result (Unit {0}) × State)
  pub now : State → ℕ × State

module _ (w : Services) where
  -- GitRepositoryFactory
  pub record Factory : Type 0 where
    pub new : String → String → w.Keys → PgpSecrets → w.State → Result w.Provider × w.State
    pub identify_provider : String → Bool

  pub record Manager : Type 0 where
    pub state : w.State
    pub base_path : String
    pub known_hosts_path : String
    pub providers : List Factory
    pub providers_to_mrt : List (String × w.Provider)
    pub mrt_references : List (String × ManifestRequestTemplate)
    pub last_secret_refresh : List (String × ℕ)
    pub secret_refresh_ttl : ℤ

  abbrev pub Action : Type 0 → Type 0
  Action = Exec Manager

  abbrev pub answered : {A : Type 0} → Manager → Result A × w.State → Result A × Manager
  answered m (a, s) = (a, record m { state = s })

  unfoldable pub call : {A : Type 0} → (w.State → Result A × w.State) → Action A
  call op m = answered m (op m.state)

  unfoldable pub manager : Action Manager
  manager m = (ok m, m)

  unfoldable pub from_result : {A : Type 0} → Result A → Action A
  from_result r m = (r, m)

  abbrev pub timed : ℕ × w.State → Result ℕ × w.State
  timed (t, s) = (ok t, s)

  unfoldable pub get_current_timestamp : Action ℕ
  unfolding call
  get_current_timestamp = call (λ s. timed (w.now s))

  unfoldable pub register : Factory → Action (Unit {0})
  register factory m = (ok tt, record m { providers = m.providers ++ factory ∷ [] })

  unfoldable pub set_secret_refresh_ttl : ℤ → Action (Unit {0})
  set_secret_refresh_ttl ttl m = (ok tt, record m { secret_refresh_ttl = ttl })

  -- `slices.IndexFunc`, with the provider at the index
  unfoldable pub find_factory : String → List Factory → Option Factory
  find_factory repo_url [] = none
  find_factory repo_url (f ∷ factories) =
      if f.identify_provider repo_url then some f else find_factory repo_url factories

  abbrev pub exists : Option Factory → Bool
  exists none = false
  exists (some f) = true

  unfoldable pub provider_exists : String → List Factory → Bool
  unfolding find_factory
  provider_exists repo_url factories = exists (find_factory repo_url factories)

  abbrev pub unsupported : String → String
  unsupported repo_url = "no supported git provider for URL: " +++ repo_url

  abbrev pub created : String → String → w.Keys → PgpSecrets → Option Factory → Action w.Provider
  created repo_url local_path auth pgp_secrets none = raise (unsupported repo_url)
  created repo_url local_path auth pgp_secrets (some f) =
      call (f.new repo_url local_path auth pgp_secrets)

  unfoldable pub find_provider : String → String → w.Keys → PgpSecrets → Action w.Provider
  unfolding ◌>>=◌ manager raise call find_factory
  find_provider repo_url local_path auth pgp_secrets = do
    m ← manager
    created repo_url local_path auth pgp_secrets (find_factory repo_url m.providers)

  -- A secret's entry that must be there, and one that may be missing.
  abbrev pub required : String → Option String → Result String
  required message none = err message
  required message (some bytes) = ok bytes

  abbrev pub or_empty : Option String → String
  or_empty none = ""
  or_empty (some bytes) = bytes

  abbrev pub missing_field : String → String → String
  missing_field name field = "secret '" +++ name +++ "' is missing '" +++ field +++ "' field"

  unfoldable pub sync_pgp : Option PgpPrivateKeySecret → Action PgpSecrets
  unfolding ◌>>=◌ raise wrapped call from_result lookup pure
  sync_pgp none = raise "pgp information is nil"
  sync_pgp (some pgp) = do
    secret ← wrapped "failed to fetch pgp secret" (call (w.get_secret pgp.secrets_ref))
    private_key ←
        from_result
          (required (missing_field pgp.secrets_ref.name "privateKey") (lookup "privateKey" secret))
    pure (record { private_key = private_key; passphrase = or_empty (lookup "passphrase" secret) })

  unfoldable pub sync_pgp_secrets : ManifestRequestTemplate → Action PgpSecrets
  unfolding sync_pgp
  sync_pgp_secrets mrt = sync_pgp mrt.spec.pgp

  -- Only a file that does not exist is reported here.
  abbrev pub check_known_hosts : String → Result (Unit {0}) → Result (Unit {0})
  check_known_hosts path (ok _) = ok tt
  check_known_hosts path (err e) =
      if w.not_exist e
      then err (
          "known_hosts file does not exist at the expected path: " +++ path
          +++ ". Check the deployment's volume mounts")
      else ok tt

  unfoldable pub sync_ssh : Option ManifestRef → Action w.Keys
  unfolding ◌>>=◌ raise wrapped call from_result lookup pure both manager
  sync_ssh none = raise "ssh information is nil"
  sync_ssh (some secret_ref) = do
    secret ←
        wrapped ("failed to fetch git secret '" +++ secret_ref.name +++ "'")
          (call (w.get_secret secret_ref))
    private_key ←
        from_result (
          required (missing_field secret_ref.name "ssh-privateKey")
            (lookup "ssh-privateKey" secret))
    m ← manager
    there ← both (call (w.stat m.known_hosts_path))
    from_result (check_known_hosts m.known_hosts_path there)
    callback ←
        wrapped ("failed to create known_hosts callback from path '" +++ m.known_hosts_path +++ "'")
          (call (w.known_hosts m.known_hosts_path))
    keys ←
        wrapped "failed to create public keys from secret"
          (from_result (w.new_public_keys private_key (or_empty (lookup "passphrase" secret))))
    pure (w.with_callback keys callback)

  unfoldable pub sync_ssh_secrets : ManifestRequestTemplate → Action w.Keys
  unfolding sync_ssh
  sync_ssh_secrets mrt = sync_ssh mrt.spec.ssh.secrets_ref
