-- ===== src/Admission/Initialization.antt =====
-- Requests while the template is not initialized, and the validator's map.
use quorum_based_manifests_g.Common.{
  false, List, [], ◌∷◌, Option, some, none, String, ◌≡◌, refl, inl, inr, Bool-cases,
}
use quorum_based_manifests_g.Api.Template.{ManifestRequestTemplate, Application}
use quorum_based_manifests_g.Kube.{Kube, governance_finalizer}
use quorum_based_manifests_g.Admission.{
  Request, Response, allowed, Step, respond, go_on, InitRevision, get_application,
  validate_and_get_mrt, get_revision_from_application, validate_mrt_initialization, handle, serve,
  with_application, with_mrt, find_revision, delete_revision, after_initialization,
}
use quorum_based_manifests_g.Admission.Decision.{Governs}

module _ (kube : Kube) where
  initialization-empty :
      (mrt : ManifestRequestTemplate) (revision : String)
      → (validate_mrt_initialization kube mrt revision []).1 ≡ []
  unfolding validate_mrt_initialization delete_revision
  initialization-empty mrt revision =
      elim (Bool-cases (kube.contains_finalizer mrt.metadata governance_finalizer)) [
        | inl e ↦ rw e refl
        | inr e ↦ rw e refl
      ]

  after-empty :
      (req : Request) (mrt : ManifestRequestTemplate) (revision : String)
      (p : Option Response × InitRevision)
      → p.1 ≡ []
      → (after_initialization kube req mrt revision p).1 ≡ []
  after-empty req mrt revision (some resp, m) h = h
  after-empty req mrt revision (none, m) h = h

  with_mrt-empty :
      (req : Request) (application : Application) (step : Step ManifestRequestTemplate)
      → (with_mrt kube req application [] step).1 ≡ []
  with_mrt-empty req application (respond resp) = refl
  with_mrt-empty req application (go_on mrt) =
      let revision = get_revision_from_application application in
      after-empty req mrt revision (validate_mrt_initialization kube mrt revision [])
        (initialization-empty mrt revision)

  with_application-empty :
      (req : Request) (step : Step Application) → (with_application kube req [] step).1 ≡ []
  with_application-empty req (respond resp) = refl
  with_application-empty req (go_on application) =
      with_mrt-empty req application (validate_and_get_mrt req application)

  handle-empty : (req : Request) → (handle kube req []).1 ≡ []
  unfolding handle
  handle-empty req = with_application-empty req (get_application req)

  serve-empty : (reqs : List Request) → serve kube reqs [] ≡ []
  unfolding serve
  serve-empty [] = refl
  serve-empty (req ∷ reqs) = rw (handle-empty req) (serve-empty reqs)

  -- A validator starts with an empty map. Whatever requests it has served since, it allows a request
  -- for an Application whose template is not initialized, at every revision.
  pub uninitialized_allowed :
      (reqs : List Request) (req : Request) (application : Application)
      (mrt : ManifestRequestTemplate)
      → Governs req application mrt
      → kube.contains_finalizer mrt.metadata governance_finalizer ≡ false
      → (handle kube req (serve kube reqs [])).0
        ≡ allowed "Governance initialization revision, allow by default"
  unfolding handle validate_mrt_initialization find_revision
  uninitialized_allowed reqs req application mrt (found, governs) uninitialized =
      rw (serve-empty reqs, found, governs, uninitialized) refl
