-- ===== src/Manager/HandedOut.antt =====
-- What GetProviderForMRT answers, and its cache.
use quorum_based_manifests_g.Common.{
  false, Option, none, some, String, ◌==◌, ◌≡◌, refl, sym, ap, subst, Result, ok, err, lookup,
  Bool-cases, inl, inr,
}
use quorum_based_manifests_g.Api.Template.{ManifestRequestTemplate}
use quorum_based_manifests_g.Exec.{
  Post, Triple, Triple-bind, Triple-weaken, Triple-return, raise, ◌>>=◌,
}
use quorum_based_manifests_g.Manager.{
  Services, Manager, manager, provider_exists, find_provider, get_current_timestamp,
  sync_pgp_secrets, sync_ssh_secrets,
}
use quorum_based_manifests_g.Manager.Provide.{
  cache, refresh_secrets_if_expired, cached_or_new, get_provider_for_mrt,
}
use quorum_based_manifests_g.Manager.Cache.{
  IsConsistent, IsCached, Ready, Ready-stable, cache_lem, find_provider_lem, refresh_if_expired_lem,
  ssh_secrets-Keeps, pgp_secrets-Keeps, timestamp-Keeps, Keeps-manager,
}

module _ (w : Services) where
  module _ (mrt : ManifestRequestTemplate) (url : String) where
    cached_lem :
        (provider : w.Provider) {E : Manager w → Type 0}
        → Triple
            (IsCached w url provider)
            (cached_or_new w url mrt (some provider))
            (λ p m. IsCached w url provider m × (p ≡ provider))
            E
    unfolding cached_or_new
    cached_lem provider =
        Triple-bind (refresh_secrets_if_expired w url) _ (refresh_if_expired_lem w url provider)
          λ _. Triple-return provider (λ m h. (h, refl))

    new_lem :
        Triple (Ready w url) (cached_or_new w url mrt none) (λ p. IsCached w url p) (IsConsistent w)
    unfolding cached_or_new
    new_lem =
        Triple-weaken (cached_or_new w url mrt none)
          (Triple-bind (manager w) _ (Keeps-manager w (Ready w url) (Ready-stable w url)) λ m.
            Triple-bind (sync_pgp_secrets w mrt) _
              (pgp_secrets-Keeps w (Ready w url) (Ready-stable w url) mrt)
              λ pgp.
                Triple-bind (sync_ssh_secrets w mrt) _
                  (ssh_secrets-Keeps w (Ready w url) (Ready-stable w url) mrt)
                  λ keys.
                    Triple-bind (find_provider w url _ keys pgp) _
                      (find_provider_lem w url _ keys pgp)
                      λ provider.
                        Triple-bind (get_current_timestamp w) _
                          (timestamp-Keeps w (Ready w url) (Ready-stable w url))
                          λ now.
                            Triple-bind (cache w url mrt provider now) _
                              (cache_lem w url mrt provider now)
                              λ _. Triple-return provider (λ k h. h))
          (λ m h. h) (λ p m h. h) (λ m h. h.0)

  -- What a call leaves that answers with a provider.
  abbrev Served : String → w.Provider → Manager w → Type 0
  Served url p m = IsCached w url p m × ((url == "") ≡ false)

  module _ (mrt : ManifestRequestTemplate) where
    looked_up :
        (m : Manager w) (o : Option w.Provider)
        → lookup mrt.spec.ssh.url m.providers_to_mrt ≡ o
        → (mrt.spec.ssh.url == "") ≡ false
        → Ready w mrt.spec.ssh.url m
        → Post (Served mrt.spec.ssh.url) (IsConsistent w) (cached_or_new w mrt.spec.ssh.url mrt o m)
    looked_up m none e url r =
        (Triple-weaken _ (new_lem mrt mrt.spec.ssh.url) (λ k h. h) (λ p k h. (h, url))
            (λ k h. h)).at
          m r
    looked_up m (some p) e url r =
        (Triple-weaken _ (cached_lem mrt mrt.spec.ssh.url p) (λ k h. h)
            (λ q k h. (subst (λ x. IsCached w mrt.spec.ssh.url x k) (sym h.1) h.0, url))
            (λ k h. h)).at
          m (r.0, r.1, e)

    get_lem :
        (m : Manager w)
        → IsConsistent w m
        → Post (Served mrt.spec.ssh.url) (IsConsistent w) (get_provider_for_mrt w mrt m)
    unfolding get_provider_for_mrt manager ◌>>=◌ raise
    get_lem m h = elim (Bool-cases (mrt.spec.ssh.url == "")) [
      | inl e ↦ rw e h
      | inr e ↦ elim (Bool-cases (provider_exists w mrt.spec.ssh.url m.providers)) [
        | inl known ↦ rw e (rw known (looked_up m _ refl e (h, known)))
        | inr unknown ↦ rw e (rw unknown h)
      ]
    ]

    hit :
        (p : w.Provider) (m : Manager w)
        → Served mrt.spec.ssh.url p m
        → Post
            (λ q k. IsCached w mrt.spec.ssh.url p k × (q ≡ p))
            (λ _. ⊥)
            (get_provider_for_mrt w mrt m)
    unfolding get_provider_for_mrt manager ◌>>=◌ raise
    hit p m s = rw s.1 (rw s.0.1 (rw s.0.2 ((cached_lem mrt mrt.spec.ssh.url p).at m s.0)))

  answer :
      (p : w.Provider) (C : Manager w → Type 0) (r : Result w.Provider × Manager w)
      → Post (λ q k. C k × (q ≡ p)) (λ _. ⊥) r
      → (m : Manager w) × (r ≡ (ok p, m)) × C m
  answer p C (ok q, m) h = (m, ap (λ x. (ok x, m)) h.1, h.0)
  answer p C (err e, m) h = absurd h

  consistent :
      (url : String) (r : Result w.Provider × Manager w)
      → Post (Served url) (IsConsistent w) r
      → IsConsistent w r.1
  consistent url (ok p, k) s = s.0.0
  consistent url (err e, k) s = s

  -- In every call, whether or not it succeeds, a URL keeps a provider in the cache exactly if it has
  -- a template and a time of the last refresh there.
  pub get_provider-IsConsistent :
      (m : Manager w) (mrt : ManifestRequestTemplate)
      → IsConsistent w m
      → IsConsistent w (get_provider_for_mrt w mrt m).1
  get_provider-IsConsistent m mrt h =
      consistent mrt.spec.ssh.url (get_provider_for_mrt w mrt m) (get_lem mrt m h)

  -- A provider that was handed out for a URL is handed out again, without an error, for every
  -- template with that URL, whatever secrets the template names and whether or not the refresh of
  -- the secrets fails, if the caches were consistent at first.
  pub handed_out_again :
      (m : Manager w) (mrt : ManifestRequestTemplate) (p : w.Provider) (m1 : Manager w)
      (other : ManifestRequestTemplate)
      → IsConsistent w m
      → get_provider_for_mrt w mrt m ≡ (ok p, m1)
      → other.spec.ssh.url ≡ mrt.spec.ssh.url
      → (m2 : Manager w) × (get_provider_for_mrt w other m1 ≡ (ok p, m2))
  handed_out_again m mrt p m1 other h got same =
      let served =
        subst (λ u. Served u p m1) (sym same)
          (subst (λ r. Post (Served mrt.spec.ssh.url) (IsConsistent w) r) got (get_lem mrt m h)) in
      let (m2, again, cached) =
        answer p (IsCached w other.spec.ssh.url p) (get_provider_for_mrt w other m1)
          (hit other p m1 served) in
      (m2, again)
