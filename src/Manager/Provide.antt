-- ===== src/Manager/Provide.antt =====
-- kubernetes/internal/repository/manager.go: GetProviderForMRT, and the refresh of the secrets of a
-- provider in the cache.
use quorum_based_manifests_g.Common.{
  ℕ, ◌+◌, ltb, ℤ, pos_part, neg_part, Bool, true, not, [], ◌∷◌, Option, none, some, String, ◌==◌,
  ◌+++◌, Result, ok, err, lookup, insert, if◌then◌else◌,
}
use quorum_based_manifests_g.Api.Template.{ManifestRequestTemplate}
use quorum_based_manifests_g.Exec.{pure, raise, ◌>>=◌, ◌>>◌, wrapped, both}
use quorum_based_manifests_g.Repository.Folders.{join_all}
use quorum_based_manifests_g.Repository.World.{PgpSecrets}
use quorum_based_manifests_g.Manager.{
  Services, Action, call, manager, from_result, get_current_timestamp, provider_exists, unsupported,
  find_provider, sync_pgp_secrets, sync_ssh_secrets,
}

module _ (w : Services) where
  abbrev pub found {ℓ} : {A : Type ℓ} → String → Option A → Result A
  found message none = err message
  found message (some a) = ok a

  -- A provider that can update its secrets does so.
  abbrev pub updated :
      w.Keys
      → PgpSecrets
      → Option (w.Keys → PgpSecrets → w.State → Result (Unit {0}) × w.State)
      → Action w (Unit {0})
  updated auth pgp none = pure tt
  updated auth pgp (some update) =
      wrapped "failed to update provider secrets" (call w (update auth pgp))

  unfoldable pub refresh_provider_secrets_locked : String → Action w (Unit {0})
  unfolding ◌>>=◌ manager wrapped pure call from_result lookup sync_ssh_secrets sync_pgp_secrets
  refresh_provider_secrets_locked repo_url = do
    m ← manager w
    mrt ← from_result w (
        found ("MRT reference not found for repository URL: " +++ repo_url)
          (lookup repo_url m.mrt_references))
    provider ← from_result w (
        found ("provider not found for repository URL: " +++ repo_url)
          (lookup repo_url m.providers_to_mrt))
    ssh_secrets ← wrapped "failed to refresh SSH secrets" (sync_ssh_secrets w mrt)
    pgp_secrets ← wrapped "failed to refresh PGP secrets" (sync_pgp_secrets w mrt)
    updated ssh_secrets pgp_secrets (w.update_secrets provider)

  -- `!exists || (currentTime-lastRefresh) > m.secretRefreshTTL`
  abbrev pub is_expired : Option ℕ → ℕ → ℤ → Bool
  is_expired none now ttl = true
  is_expired (some last) now ttl = ltb (last + pos_part ttl) (now + neg_part ttl)

  unfoldable pub set_last_refresh : String → ℕ → Action w (Unit {0})
  unfolding insert
  set_last_refresh repo_url now m =
      (ok tt, record m { last_secret_refresh = insert repo_url now m.last_secret_refresh })

  -- An error of the refresh is logged only.
  abbrev pub refreshed : String → ℕ → Result (Unit {0}) → Action w (Unit {0})
  refreshed repo_url now (ok _) = set_last_refresh repo_url now
  refreshed repo_url now (err e) = pure tt

  unfoldable pub refresh_secrets_if_expired : String → Action w (Unit {0})
  unfolding ◌>>=◌ manager both pure lookup get_current_timestamp refresh_provider_secrets_locked
      set_last_refresh
  refresh_secrets_if_expired repo_url = do
    m ← manager w
    now ← get_current_timestamp w
    if is_expired (lookup repo_url m.last_secret_refresh) now m.secret_refresh_ttl
        then (do
          outcome ← both (refresh_provider_secrets_locked repo_url)
          refreshed repo_url now outcome)
        else pure tt

  -- The provider is cached with the template and the time.
  unfoldable pub cache : String → ManifestRequestTemplate → w.Provider → ℕ → Action w (Unit {0})
  unfolding insert
  cache repo_url mrt provider now m = (
    ok tt,
    record m {
      providers_to_mrt = insert repo_url provider m.providers_to_mrt;
      mrt_references = insert repo_url mrt m.mrt_references;
      last_secret_refresh = insert repo_url now m.last_secret_refresh;
    },
  )

  -- `m.providersToMRT[repoURL]` and what follows.
  unfoldable pub cached_or_new :
      String → ManifestRequestTemplate → Option w.Provider → Action w w.Provider
  unfolding ◌>>=◌ manager pure join_all sync_pgp_secrets sync_ssh_secrets find_provider
      get_current_timestamp refresh_secrets_if_expired cache
  cached_or_new repo_url mrt (some provider) = do refresh_secrets_if_expired repo_url; pure provider
  cached_or_new repo_url mrt none = do
    m ← manager w
    let local_path = join_all (m.base_path ∷ w.sha1_hex repo_url ∷ [])
    pgp_secrets ← sync_pgp_secrets w mrt
    ssh_secrets ← sync_ssh_secrets w mrt
    provider ← find_provider w repo_url local_path ssh_secrets pgp_secrets
    now ← get_current_timestamp w
    cache repo_url mrt provider now
    pure provider

  unfoldable pub get_provider_for_mrt : ManifestRequestTemplate → Action w w.Provider
  unfolding ◌>>=◌ manager raise lookup provider_exists cached_or_new
  get_provider_for_mrt mrt = do
    m ← manager w
    let repo_url = mrt.spec.ssh.url
    if repo_url == ""
        then raise "repository URL is not defined in MRT spec"
        else (if not (provider_exists w repo_url m.providers)
            then raise (unsupported w repo_url)
            else cached_or_new repo_url mrt (lookup repo_url m.providers_to_mrt))
