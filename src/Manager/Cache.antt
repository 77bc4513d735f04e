-- ===== src/Manager/Cache.antt =====
-- The manager's cache: what every call keeps of it, and what a call gets from it.
use quorum_based_manifests_g.Common.{
  ℕ, Bool, true, false, Option, none, some, String, ◌==◌, ◌+++◌, ◌≡◌, refl, sym, ap, ◌∙◌, Result,
  ok, err, lookup, insert, lookup-insert, arith, eq_iff, Bool-cases, inl, inr,
}
use quorum_based_manifests_g.Api.{ManifestRef}
use quorum_based_manifests_g.Api.Template.{ManifestRequestTemplate, PgpPrivateKeySecret}
use quorum_based_manifests_g.Exec.{
  Post, Triple, Triple-bind, Triple-wrapped, Triple-raise, Triple-return, Triple-both, Triple-if,
  Triple-pure, pure, raise, ◌>>=◌, wrapped, both,
}
use quorum_based_manifests_g.Repository.World.{PgpSecrets}
use quorum_based_manifests_g.Manager.{
  Services, Manager, Action, Factory, answered, call, manager, from_result, get_current_timestamp,
  provider_exists, find_factory, created, find_provider, sync_pgp, sync_pgp_secrets, sync_ssh,
  sync_ssh_secrets,
}
use quorum_based_manifests_g.Manager.Provide.{
  found, updated, refresh_provider_secrets_locked, is_expired, set_last_refresh, refreshed,
  refresh_secrets_if_expired, cache,
}

abbrev pub is_some {ℓ} : {A : Type ℓ} → Option A → Bool
is_some none = false
is_some (some a) = true

module _ (w : Services) where
  -- A URL has a provider exactly if it has the template and the time of the last refresh.
  abbrev pub IsConsistent : Manager w → Type 0
  IsConsistent m =
      (url : String)
      → (is_some (lookup url m.providers_to_mrt) ≡ is_some (lookup url m.mrt_references))
        × (is_some (lookup url m.providers_to_mrt) ≡ is_some (lookup url m.last_secret_refresh))

  abbrev pub Keeps : (Manager w → Type 0) → {A : Type 0} → Action w A → Type 0
  Keeps P m = Triple P m (λ _. P) P

  module _ (P : Manager w → Type 0)
      (stable : (m : Manager w) (s : w.State) → P m → P (record m { state = s })) where
    answered-Post :
        {A : Type 0} (m : Manager w) (r : Result A × w.State)
        → P m
        → Post (λ _. P) P (answered w m r)
    answered-Post m (ok a, s) h = stable m s h
    answered-Post m (err e, s) h = stable m s h

    Keeps-call : {A : Type 0} (op : w.State → Result A × w.State) → Keeps P (call w op)
    unfolding call
    Keeps-call op = record { at = λ m h. answered-Post m (op m.state) h }

    pub Keeps-bind :
        {A B : Type 0} (m : Action w A) (f : A → Action w B)
        → Keeps P m
        → ((a : A) → Keeps P (f a))
        → Keeps P (m >>= f)
    Keeps-bind m f k kf = Triple-bind m f k kf

    Keeps-pure : {A : Type 0} (a : A) → Keeps P (pure a)
    Keeps-pure a = Triple-pure a

    Keeps-raise : {A : Type 0} (e : String) → Keeps P (raise {A = A} e)
    Keeps-raise e = Triple-raise e

    Keeps-wrapped : {A : Type 0} (c : String) (m : Action w A) → Keeps P m → Keeps P (wrapped c m)
    Keeps-wrapped c m k = Triple-wrapped c m k

    Keeps-both : {A : Type 0} (m : Action w A) → Keeps P m → Keeps P (both m)
    Keeps-both m k = Triple-both m k

    pub Keeps-manager : Keeps P (manager w)
    unfolding manager
    Keeps-manager = record { at = λ m h. h }

    Keeps-from_result : {A : Type 0} (r : Result A) → Keeps P (from_result w r)
    unfolding from_result
    Keeps-from_result (ok a) = record { at = λ m h. h }
    Keeps-from_result (err e) = record { at = λ m h. h }

    ruleset rules = (
      Keeps-call, Keeps-bind, Keeps-pure, Keeps-raise, Keeps-wrapped, Keeps-both, Keeps-manager,
      Keeps-from_result,
    )

    pub timestamp-Keeps : Keeps P (get_current_timestamp w)
    unfolding get_current_timestamp
    timestamp-Keeps = Keeps-call _

    pgp-Keeps : (pgp : Option PgpPrivateKeySecret) → Keeps P (sync_pgp w pgp)
    unfolding sync_pgp
    pgp-Keeps none = search rules
    pgp-Keeps (some pgp) = search rules depth 12

    ssh-Keeps : (ref : Option ManifestRef) → Keeps P (sync_ssh w ref)
    unfolding sync_ssh
    ssh-Keeps none = search rules
    ssh-Keeps (some ref) = search rules depth 20

    pub ssh_secrets-Keeps : (mrt : ManifestRequestTemplate) → Keeps P (sync_ssh_secrets w mrt)
    unfolding sync_ssh_secrets
    ssh_secrets-Keeps mrt = ssh-Keeps mrt.spec.ssh.secrets_ref

    pub pgp_secrets-Keeps : (mrt : ManifestRequestTemplate) → Keeps P (sync_pgp_secrets w mrt)
    unfolding sync_pgp_secrets
    pgp_secrets-Keeps mrt = pgp-Keeps mrt.spec.pgp

  -- What holds while a provider is found for a URL: a factory for it is registered.
  abbrev pub Ready : String → Manager w → Type 0
  Ready url m = IsConsistent m × (provider_exists w url m.providers ≡ true)

  -- The provider is in the cache, too.
  abbrev pub IsCached : String → w.Provider → Manager w → Type 0
  IsCached url provider m =
      IsConsistent m
      × (provider_exists w url m.providers ≡ true)
      × (lookup url m.providers_to_mrt ≡ some provider)

  module _ (url : String) where
    pub Ready-stable :
        (m : Manager w) (s : w.State) → Ready url m → Ready url (record m { state = s })
    Ready-stable m s h = h

    pub cache_lem :
        (mrt : ManifestRequestTemplate) (provider : w.Provider) (now : ℕ) {E : Manager w → Type 0}
        → Triple (Ready url) (cache w url mrt provider now) (λ _. IsCached url provider) E
    unfolding cache
    cache_lem mrt provider now = record { at = λ m h. (consistent m h.0, h.1, self m) }
      where
        consistent :
            (m : Manager w)
            → IsConsistent m
            → (other : String)
            → (is_some (lookup other (insert url provider m.providers_to_mrt))
                ≡ is_some (lookup other (insert url mrt m.mrt_references)))
              × (is_some (lookup other (insert url provider m.providers_to_mrt))
                  ≡ is_some (lookup other (insert url now m.last_secret_refresh)))
        consistent m h other = rw (lookup-insert url other provider m.providers_to_mrt) (
            rw (lookup-insert url other mrt m.mrt_references) (
              rw (lookup-insert url other now m.last_secret_refresh)
                (elim (Bool-cases (url == other)) [
                  | inl e ↦ rw e (refl, refl)
                  | inr e ↦ rw e (h other)
                ])))

        self : (m : Manager w) → lookup url (insert url provider m.providers_to_mrt) ≡ some provider
        self m =
            rw (lookup-insert url url provider m.providers_to_mrt) (ground (arith, eq_iff url url))

    created_lem :
        (path : String) (keys : w.Keys) (pgp : PgpSecrets) (f : Option (Factory w))
        → Keeps (Ready url) (created w url path keys pgp f)
    created_lem path keys pgp none = Keeps-raise (Ready url) Ready-stable _
    created_lem path keys pgp (some f) = Keeps-call (Ready url) Ready-stable _

    pub find_provider_lem :
        (path : String) (keys : w.Keys) (pgp : PgpSecrets)
        → Keeps (Ready url) (find_provider w url path keys pgp)
    unfolding find_provider
    find_provider_lem path keys pgp =
        Keeps-bind (Ready url) Ready-stable (manager w) _ (Keeps-manager (Ready url) Ready-stable)
          (λ m. created_lem path keys pgp (find_factory w url m.providers))

    module _ (provider : w.Provider) where
      IsCached-stable :
          (m : Manager w) (s : w.State)
          → IsCached url provider m
          → IsCached url provider (record m { state = s })
      IsCached-stable m s h = h

      set_lem :
          (now : ℕ) {E : Manager w → Type 0}
          → Triple
              (IsCached url provider)
              (set_last_refresh w url now)
              (λ _. IsCached url provider)
              E
      unfolding set_last_refresh
      set_lem now = record { at = λ m h. (λ other. ((h.0 other).0, known m h other), h.1, h.2) }
        where
          known :
              (m : Manager w)
              → IsCached url provider m
              → (other : String)
              → is_some (lookup other m.providers_to_mrt)
                ≡ is_some (lookup other (insert url now m.last_secret_refresh))
          known m h other =
              rw (lookup-insert url other now m.last_secret_refresh)
                (elim (Bool-cases (url == other)) [
                  | inl e ↦ rw e (
                      ap (λ o. is_some o)
                        (ap (λ u. lookup u m.providers_to_mrt) (sym ((eq_iff url other).0 e))
                          ∙ h.2))
                  | inr e ↦ rw e (h.0 other).1
                ])

      updated_lem :
          (keys : w.Keys) (pgp : PgpSecrets)
          (update : Option (w.Keys → PgpSecrets → w.State → Result (Unit {0}) × w.State))
          → Keeps (IsCached url provider) (updated w keys pgp update)
      updated_lem keys pgp none = Keeps-pure (IsCached url provider) IsCached-stable tt
      updated_lem keys pgp (some update) =
          Keeps-wrapped (IsCached url provider) IsCached-stable _ (call w (update keys pgp))
            (Keeps-call (IsCached url provider) IsCached-stable (update keys pgp))

      refresh-Keeps : Keeps (IsCached url provider) (refresh_provider_secrets_locked w url)
      unfolding refresh_provider_secrets_locked
      refresh-Keeps =
          let P = IsCached url provider in
          let still = IsCached-stable in
          Triple-bind (manager w) _ (Keeps-manager P still) λ m.
            Triple-bind
              (from_result w (
                found w ("MRT reference not found for repository URL: " +++ url)
                  (lookup url m.mrt_references)))
              _ (Keeps-from_result P still _)
              λ mrt.
                Triple-bind
                  (from_result w (
                    found w ("provider not found for repository URL: " +++ url)
                      (lookup url m.providers_to_mrt)))
                  _ (Keeps-from_result P still _)
                  λ cached.
                    Triple-bind (wrapped "failed to refresh SSH secrets" (sync_ssh_secrets w mrt)) _
                      (Keeps-wrapped P still _ _ (ssh_secrets-Keeps P still mrt))
                      λ keys.
                        Triple-bind
                          (wrapped "failed to refresh PGP secrets" (sync_pgp_secrets w mrt)) _
                          (Keeps-wrapped P still _ _ (pgp_secrets-Keeps P still mrt))
                          λ pgp. updated_lem keys pgp (w.update_secrets cached)

      refreshed_lem :
          (now : ℕ) (r : Result (Unit {0})) {E : Manager w → Type 0}
          → Triple (IsCached url provider) (refreshed w url now r) (λ _. IsCached url provider) E
      refreshed_lem now (ok _) = set_lem now
      refreshed_lem now (err e) = Triple-return tt (λ m h. h)

      -- The refresh never fails: its error is dropped.
      pub refresh_if_expired_lem :
          {E : Manager w → Type 0}
          → Triple
              (IsCached url provider)
              (refresh_secrets_if_expired w url)
              (λ _. IsCached url provider)
              E
      unfolding refresh_secrets_if_expired manager get_current_timestamp
      refresh_if_expired_lem =
          Triple-bind {R = λ _. IsCached url provider} (manager w) _ (record { at = λ m h. h })
            λ m.
              Triple-bind {R = λ _. IsCached url provider} (get_current_timestamp w) _
                (record { at = λ k h. h })
                λ now.
                  Triple-if
                    (is_expired w (lookup url m.last_secret_refresh) now m.secret_refresh_ttl) _ _
                    (Triple-bind (both (refresh_provider_secrets_locked w url)) _
                      (Triple-both (refresh_provider_secrets_locked w url) refresh-Keeps)
                      (λ r. refreshed_lem now r))
                    (Triple-return tt (λ k h. h))
