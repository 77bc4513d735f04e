-- ===== src/Template/NewVersion.antt =====
-- How the MSR controller meets the request that the MRT controller has written.
use quorum_based_manifests_g.Api.Signing.{ManifestSigningRequest}
use quorum_based_manifests_g.Signing.Save.{add_new_record}
use quorum_based_manifests_g.Signing.NewSpec.{start_progress}

-- The request, with the record of its version and in progress, as the MSR controller stores it when
-- it has pushed the version.
abbrev pub recorded : ManifestSigningRequest → ManifestSigningRequest
recorded msr = start_progress (add_new_record msr)
