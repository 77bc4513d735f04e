-- ===== src/Signing/Discipline/Handlers.antt =====
-- The handlers of the MSR controller, as they run under the lock.
use quorum_based_manifests_g.Common.{
  Bool, true, List, Option, some, none, String, Result, ok, err, ◌≡◌, refl,
}
use quorum_based_manifests_g.Api.{Signature}
use quorum_based_manifests_g.Api.Approval.{ManifestChangeApprovalSpec}
use quorum_based_manifests_g.Api.Signing.{
  ManifestObject, ManifestSigningRequest, ReconcileState, FulfillmentState,
}
use quorum_based_manifests_g.Exec.{◌>>=◌, wrapped, pure}
use quorum_based_manifests_g.Controller.{call, effect, current, modify, status_update}
use quorum_based_manifests_g.Controller.Triples.{HostLaws}
use quorum_based_manifests_g.Controller.Git.{with_git_repository, with_git_repository-Keeps}
use quorum_based_manifests_g.Controller.Keeps.{
  Keeps as Kept, keeps_rules, Keeps-bind, Keeps-pure, Keeps-raise, Keeps-wrapped, Keeps-current,
  Keeps-effect, Keeps-modify, Keeps-status_update, reading_rules, Reading,
}
use quorum_based_manifests_g.Signing.World.{
  World, Action, Effect, MsrFetchResult, updated, pushed_msr, pushed_signature, updated_mca,
  notified, host,
}
use quorum_based_manifests_g.Signing.Save.{
  get_existing_mrt_for_msr, repository_with_error, provider_for_msr, save_in_repository,
  save_signature, add_new_record, save_history_record,
}
use quorum_based_manifests_g.Signing.Fulfillment.{
  check_fetched, fetch_msr, after_check, approve, fulfilled_spec,
}

module _ (w : World) where
  -- The object itself is written without the lock, too; everything else wants it.
  abbrev pub Permit : Effect → Bool → Type 0
  Permit updated held = Unit
  Permit (pushed_msr m) held = held ≡ true
  Permit (pushed_signature m) held = held ≡ true
  Permit (updated_mca spec) held = held ≡ true
  Permit notified held = held ≡ true

  abbrev Keeps : {A : Type 0} → Action w A → Type 0
  Keeps m = Kept (host w) Permit m

  module _ {A : Type 0} (op : w.State → Result A × w.State) where
    pushed_msr-Keeps : (m : ManifestObject) → Keeps (effect (host w) (pushed_msr m) op)
    pushed_msr-Keeps m = Keeps-effect (host w) Permit (pushed_msr m) op (λ b h. h)

    pushed_signature-Keeps : (m : ManifestObject) → Keeps (effect (host w) (pushed_signature m) op)
    pushed_signature-Keeps m = Keeps-effect (host w) Permit (pushed_signature m) op (λ b h. h)

    updated_mca-Keeps :
        (spec : ManifestChangeApprovalSpec) → Keeps (effect (host w) (updated_mca spec) op)
    updated_mca-Keeps spec = Keeps-effect (host w) Permit (updated_mca spec) op (λ b h. h)

    notified-Keeps : Keeps (effect (host w) notified op)
    notified-Keeps = Keeps-effect (host w) Permit notified op (λ b h. h)

  ruleset rules =
      (keeps_rules, pushed_msr-Keeps, pushed_signature-Keeps, updated_mca-Keeps, notified-Keeps)

  get_existing_mrt-Keeps : Keeps (get_existing_mrt_for_msr w)
  unfolding get_existing_mrt_for_msr
  get_existing_mrt-Keeps = search rules

  pub repository_with_error-Keeps : Keeps (repository_with_error w)
  unfolding repository_with_error
  repository_with_error-Keeps = search (rules, get_existing_mrt-Keeps)

  pub repository_with_error-Reading : Reading (host w) Permit (repository_with_error w)
  unfolding repository_with_error get_existing_mrt_for_msr
  repository_with_error-Reading = search reading_rules depth 7

  provider_for_msr-Keeps : Keeps (provider_for_msr w)
  unfolding provider_for_msr
  provider_for_msr-Keeps = search (rules, get_existing_mrt-Keeps)

  git-Keeps :
      {A : Type 0} (op : w.Repository → Action w A)
      → ((repo : w.Repository) → Keeps (op repo))
      → Keeps (with_git_repository (host w) (provider_for_msr w) op)
  git-Keeps op k = with_git_repository-Keeps (host w) Permit _ op provider_for_msr-Keeps k

  ruleset git_rules = (rules, git-Keeps)

  pub save_in_repository-Keeps : Keeps (save_in_repository w)
  unfolding save_in_repository
  save_in_repository-Keeps = search git_rules depth 8

  pub save_signature-Keeps : Keeps (save_signature w)
  unfolding save_signature
  save_signature-Keeps = search git_rules depth 8

  pub notify-Keeps : Keeps (
      current (host w) >>= λ msr.
      wrapped "send notification to governors"
        (effect (host w) notified (w.notify_governors_msr msr))
      >>= λ _. pure ReconcileState.empty)
  notify-Keeps = search rules depth 8

  fetch_msr-Keeps :
      (msr : ManifestSigningRequest) (repo : w.Repository) → Keeps (fetch_msr w msr repo)
  unfolding fetch_msr
  fetch_msr-Keeps msr repo = search rules depth 8

  module _ (laws : HostLaws (host w)) where
    -- A change of the object that leaves the conditions alone, and its write.
    written-Keeps :
        (f : ManifestSigningRequest → ManifestSigningRequest) (c : String)
        → ((msr : ManifestSigningRequest) → (f msr).status.conditions ≡ msr.status.conditions)
        → Keeps (modify (host w) f >>= λ _. wrapped c (status_update (host w)))
    written-Keeps f c same =
        Keeps-bind (host w) Permit (modify (host w) f) _ (Keeps-modify (host w) Permit f same) λ _.
          Keeps-wrapped (host w) Permit c (status_update (host w))
            (Keeps-status_update (host w) Permit laws)

    pub save_history_record-Keeps :
        (also : ManifestSigningRequest → ManifestSigningRequest)
        → ((msr : ManifestSigningRequest) → (also msr).status.conditions ≡ msr.status.conditions)
        → Keeps (save_history_record w also)
    unfolding save_history_record
    save_history_record-Keeps also same =
        written-Keeps (λ msr. also (add_new_record msr)) _ (λ msr. same (add_new_record msr))

    after_check-Keeps :
        (res : MsrFetchResult) (outcome : Result (Option (List Signature)))
        → Keeps (after_check w res outcome)
    unfolding after_check
    after_check-Keeps res (err e) = Keeps-raise (host w) Permit e
    after_check-Keeps res (ok none) = Keeps-pure (host w) Permit FulfillmentState.abort
    after_check-Keeps res (ok (some sigs)) =
        let write = modify (host w) (approve sigs res.remote_head) >>= λ _.
        wrapped "update MSR status" (status_update (host w)) in
        Keeps-bind (host w) Permit write (λ _. pure FulfillmentState.update_mca_spec)
          (written-Keeps (approve sigs res.remote_head) "update MSR status" (λ m. refl))
          (λ _. Keeps-pure (host w) Permit FulfillmentState.update_mca_spec)

    pub check_signatures-Keeps : Keeps (
        current (host w) >>= λ msr.
        with_git_repository (host w) (provider_for_msr w) (fetch_msr w msr) >>= λ res.
        after_check w res (check_fetched w msr res))
    check_signatures-Keeps =
        Keeps-bind (host w) Permit (current (host w)) _ (Keeps-current (host w) Permit) λ msr.
          Keeps-bind (host w) Permit
            (with_git_repository (host w) (provider_for_msr w) (fetch_msr w msr)) _
            (git-Keeps (fetch_msr w msr) (fetch_msr-Keeps msr))
            λ res. after_check-Keeps res (check_fetched w msr res)

  pub update_mca-Keeps : Keeps (
      wrapped "get MRT" (get_existing_mrt_for_msr w) >>= λ mrt.
      wrapped "get MCA" (call (host w) (w.get_mca mrt.spec.mca)) >>= λ mca.
      current (host w) >>= λ msr.
      let spec = fulfilled_spec msr mca.spec in
      wrapped "update MCA"
        (effect (host w) (updated_mca spec) (w.update_mca (record mca { spec = spec })))
      >>= λ _. pure FulfillmentState.empty)
  update_mca-Keeps = search (rules, get_existing_mrt-Keeps) depth 10
