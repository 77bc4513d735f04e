-- ===== src/Signing/Marked.antt =====
-- When the MSR controller writes that a request is approved.
use quorum_based_manifests_g.Common.{Result, ok, err, ◌≡◌, ◌⊎◌}
use quorum_based_manifests_g.Api.Signing.{ManifestSigningRequest}
use quorum_based_manifests_g.Controller.{Run, status_update}
use quorum_based_manifests_g.Signing.World.{World, MsrFetchResult, host}
use quorum_based_manifests_g.Signing.Fulfillment.{approve}
use quorum_based_manifests_g.Signing.Approved.{IsApprovable, collected}

module _ (w : World) where
  -- What has been written after the check of what was fetched.
  abbrev pub Marks : ManifestSigningRequest → MsrFetchResult → Run (host w) → Run (host w) → Type 0
  Marks msr res r after =
      (IsApprovable w msr res
        × (after.state
            ≡ (w.status_update (approve (collected w msr res) res.remote_head r.object) r.state).1))
      ⊎ (¬ (IsApprovable w msr res) × (after ≡ r))

  -- The same after the fetch, which may have failed.
  abbrev pub Follows :
      ManifestSigningRequest → Result MsrFetchResult × Run (host w) → Run (host w) → Type 0
  Follows msr (ok res, r) after = Marks msr res r after
  Follows msr (err e, r) after = after ≡ r
