-- ===== src/Signing/Fulfillment.antt =====
-- The check of the signatures of an MSR, and what is written when its rule is fulfilled: the status
-- of the request, and then the specification of the approval.
use quorum_based_manifests_g.Common.{
  not, ◌==◌, List, [], ◌∷◌, Option, none, some, String, Result, ok, err, with_context,
  if◌then◌else◌,
}
use quorum_based_manifests_g.Api.{Signature}
use quorum_based_manifests_g.Api.Signing.{
  ActionState, FulfillmentState, SigningRequestStatus, HistoryRecord, ManifestSigningRequest,
}
use quorum_based_manifests_g.Api.Approval.{ManifestChangeApprovalSpec}
use quorum_based_manifests_g.Validation.{Signers, is_signed, evaluate_rules}
use quorum_based_manifests_g.Signers.{verify_signature, get_verified_signers}
use quorum_based_manifests_g.Kube.{CtrlResult, no_requeue}
use quorum_based_manifests_g.Exec.{pure, raise, ◌>>=◌, ◌>>◌, wrapped, both, ignore}
use quorum_based_manifests_g.Controller.{call, effect, current, modify, status_update}
use quorum_based_manifests_g.Controller.Git.{with_git_repository}
use quorum_based_manifests_g.Controller.Lock.{fail_with, under_lock}
use quorum_based_manifests_g.Signing.World.{World, Action, MsrFetchResult, updated_mca, host}
use quorum_based_manifests_g.Signing.Locking.{
  with_rules_fulfillment_lock, set_fulfillment_state, release_lock_and_set_next_state,
}
use quorum_based_manifests_g.Signing.Save.{
  get_existing_mrt_for_msr, repository_with_error, provider_for_msr,
}

-- `signers` in the order in which the map yields them.
unfoldable pub extract_collected_signatures : Signers → List Signature
extract_collected_signatures [] = []
extract_collected_signatures ((alias, status) ∷ signers) =
    let rest = extract_collected_signatures signers in
    if is_signed (some status) then record { signer = alias } ∷ rest else rest

-- The latest record of the history, with the signatures and the status.
unfoldable pub approve_latest : List Signature → List HistoryRecord → List HistoryRecord
approve_latest sigs [] = []
approve_latest sigs (r ∷ []) =
    record r { collected_signatures = sigs; status = SigningRequestStatus.approved } ∷ []
approve_latest sigs (r ∷ q ∷ history) = r ∷ approve_latest sigs (q ∷ history)

abbrev pub approve : List Signature → String → ManifestSigningRequest → ManifestSigningRequest
approve sigs remote_head msr = record msr {
  status = record msr.status {
    collected_signatures = sigs;
    status = SigningRequestStatus.approved;
    last_observed_commit_hash = remote_head;
    request_history = approve_latest sigs msr.status.request_history;
  };
}

-- The specification of the MCA, with the data of the approved request.
unfoldable pub fulfilled_spec :
    ManifestSigningRequest → ManifestChangeApprovalSpec → ManifestChangeApprovalSpec
fulfilled_spec msr spec = record spec {
  version = msr.spec.version;
  commit_sha = msr.spec.commit_sha;
  previous_commit_sha = msr.spec.previous_commit_sha;
  public_key = msr.spec.public_key;
  git_repository_url = msr.spec.git_repository_url;
  locations = msr.spec.locations;
  changes = msr.spec.changes;
  governors = msr.spec.governors;
  require = msr.spec.require;
  collected_signatures = msr.status.collected_signatures;
}

module _ (w : World) where
  -- From the verification of the operator's signature.
  abbrev pub check_verified : MsrFetchResult → Result (Unit {0}) → Result (Option (List Signature))
  check_verified res (err e) = err (with_context "MSR signature verification failed" e)
  check_verified res (ok _) =
      let verified_signers =
        (get_verified_signers w.pgp w.range_keys res.repo_msr.spec.governors.members res.gov_sigs
          res.msr_bytes).0 in
      if not (evaluate_rules res.repo_msr.spec.require verified_signers)
      then ok none
      else ok (some (extract_collected_signatures (w.range_signers verified_signers)))

  -- What the handler decides on what was fetched: an error, no approval yet, or the signatures.
  unfoldable pub check_fetched :
      ManifestSigningRequest → MsrFetchResult → Result (Option (List Signature))
  unfolding verify_signature get_verified_signers evaluate_rules extract_collected_signatures
  check_fetched msr res =
      if msr.status.last_observed_commit_hash == res.remote_head
      then ok none
      else (if not (res.repo_msr.spec.public_key == msr.spec.public_key)
          then ok none
          else check_verified res
              (verify_signature w.pgp msr.spec.public_key res.msr_bytes res.msr_sig))

  unfoldable pub fetch_msr : ManifestSigningRequest → w.Repository → Action w MsrFetchResult
  unfolding ◌>>=◌ wrapped call
  fetch_msr msr repo = do
    remote_head ← wrapped "get remote repository HEAD" (call (host w) (w.get_latest_revision repo))
    fetched ← wrapped "fetch MSR from repository" (call (host w) (w.fetch_msr_by_version repo msr))
    pure (record {
      repo_msr = fetched.msr;
      msr_bytes = fetched.bytes;
      msr_sig = fetched.signature;
      gov_sigs = fetched.governor_signatures;
      remote_head = remote_head;
    })

  -- The rest of the handler.
  unfoldable pub after_check :
      MsrFetchResult → Result (Option (List Signature)) → Action w FulfillmentState
  unfolding ◌>>=◌ wrapped raise modify status_update approve_latest
  after_check res (err e) = raise e
  after_check res (ok none) = pure FulfillmentState.abort
  after_check res (ok (some sigs)) = do
    modify (host w) (approve sigs res.remote_head)
    wrapped "update MSR status" (status_update (host w))
    pure FulfillmentState.update_mca_spec

  -- What the handler does under the lock of the sub-state.
  unfoldable pub checking_signatures : Action w FulfillmentState
  unfolding ◌>>=◌ current with_git_repository provider_for_msr fetch_msr check_fetched after_check
  checking_signatures = do
    msr ← current (host w)
    res ← with_git_repository (host w) (provider_for_msr w) (fetch_msr msr)
    after_check res (check_fetched msr res)

  unfoldable pub handle_check_signatures : Action w CtrlResult
  unfolding checking_signatures
  handle_check_signatures =
      with_rules_fulfillment_lock w ActionState.msr_rules_fulfillment
        ActionState.msr_rules_fulfillment checking_signatures

  unfoldable pub handle_update_mca_spec : Action w CtrlResult
  unfolding ◌>>=◌ wrapped current call effect get_existing_mrt_for_msr fulfilled_spec
  handle_update_mca_spec =
      with_rules_fulfillment_lock w ActionState.msr_rules_fulfillment ActionState.empty do
        mrt ← wrapped "get MRT" (get_existing_mrt_for_msr w)
        mca ← wrapped "get MCA" (call (host w) (w.get_mca mrt.spec.mca))
        msr ← current (host w)
        let spec = fulfilled_spec msr mca.spec
        wrapped "update MCA"
            (effect (host w) (updated_mca spec) (w.update_mca (record mca { spec = spec })))
        pure FulfillmentState.empty

  -- The branch that gives up until later; an error of the release is dropped.
  unfoldable pub abort_check : Action w CtrlResult
  unfolding ◌>>=◌ modify ignore
  abort_check = do
    modify (host w) (set_fulfillment_state FulfillmentState.empty)
    ignore (release_lock_and_set_next_state w ActionState.empty)
    pure no_requeue

  -- The `switch` on the sub-state.
  unfoldable pub fulfillment_step : FulfillmentState → Action w CtrlResult
  unfolding fail_with handle_check_signatures handle_update_mca_spec abort_check
  fulfillment_step FulfillmentState.empty = handle_check_signatures
  fulfillment_step FulfillmentState.check_signatures = handle_check_signatures
  fulfillment_step FulfillmentState.update_mca_spec = handle_update_mca_spec
  fulfillment_step FulfillmentState.abort = abort_check
  fulfillment_step (FulfillmentState.unknown s) =
      let e = with_context "unknown RulesFulfillmentState" s in
      fail_with (host w) ActionState.empty e e

  -- Under the lock, from the check of the repository.
  unfoldable pub fulfillment_with_repository : Result (Option w.Repository) → Action w CtrlResult
  unfolding ◌>>=◌ current fail_with fulfillment_step
  fulfillment_with_repository (ok _) = do
    msr ← current (host w)
    fulfillment_step msr.status.rules_fulfillment_state
  fulfillment_with_repository (err e) =
      fail_with (host w) ActionState.msr_rules_fulfillment (with_context "check repository" e) e

  unfoldable pub handle_reconcile_msr_rules_fulfillment : Action w CtrlResult
  unfolding ◌>>=◌ both under_lock repository_with_error fulfillment_with_repository
  handle_reconcile_msr_rules_fulfillment =
      under_lock (host w) ActionState.msr_rules_fulfillment "Checking rules fulfillment"
        do found ← both (repository_with_error w); fulfillment_with_repository found
