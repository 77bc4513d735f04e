-- ===== src/Admission/Decision.antt =====
-- The decision on a request whose Application an initialized template governs.
use mathlib.Core.List.{Memᴰ}
use quorum_based_manifests_g.Common.{
  true, List, [], ◌∷◌, some, String, ◌≡◌, ◌↔◌, refl, ◌∙◌, sym, ap, inl, inr, ok, eq_iff,
  String-cases, Option-cases, Result-cases,
}
use quorum_based_manifests_g.Api.Approval.{ManifestChangeApproval, HistoryRecord}
use quorum_based_manifests_g.Api.Template.{ManifestRequestTemplate, Application}
use quorum_based_manifests_g.Kube.{Kube, governance_finalizer}
use quorum_based_manifests_g.Admission.{
  Request, Response, allowed, denied, errored, go_on, InitRevision, get_application, first_mca,
  validate_and_get_mrt, get_revision_from_application, find_record, check_revision_approval_status,
  validate_revision_approval, validate_mrt_initialization, handle, latest,
}

abbrev pub IsAllowed : Response → Type 0
IsAllowed (allowed m) = Unit
IsAllowed (denied m) = ⊥
IsAllowed (errored c m) = ⊥

-- The history has a record of the revision.
abbrev pub Recorded : String → List HistoryRecord → Type 0
Recorded revision history = (r : HistoryRecord) × Memᴰ r history × (r.commit_sha ≡ revision)

-- The template's approval is in the cluster, approves the revision and has it in its history.
abbrev pub Approved : Request → ManifestRequestTemplate → String → Type 0
Approved req mrt revision =
    (mcas : List ManifestChangeApproval) × (mca : ManifestChangeApproval) × (req.list_mcas
      ≡ ok mcas)
    × (first_mca mrt mcas ≡ some mca)
    × (mca.spec.commit_sha ≡ revision)
    × Recorded revision mca.status.approval_history

find_record-Recorded :
    (revision : String) (history : List HistoryRecord) (r : HistoryRecord)
    → find_record revision history ≡ some r
    → Memᴰ r history × (r.commit_sha ≡ revision)
unfolding find_record
find_record-Recorded revision [] r h = cc
find_record-Recorded revision (x ∷ history) r h = elim (String-cases x.commit_sha revision) [
  | inl (e, t) ↦
      let same : some x ≡ some r = rw t at h in
      let eq : x ≡ r = cc in (Memᴰ.head (sym eq), rw (← eq) e)
  | inr (e, t) ↦
      let (m, c) = find_record-Recorded revision history r (rw t at h) in (Memᴰ.tail m, c)
]

Recorded-find_record :
    (revision : String) (history : List HistoryRecord) (r : HistoryRecord)
    → Memᴰ r history
    → r.commit_sha ≡ revision
    → (s : HistoryRecord) × (find_record revision history ≡ some s) × (s.commit_sha ≡ revision)
unfolding find_record
Recorded-find_record revision [] r m e = elim m [ ]
Recorded-find_record revision (x ∷ history) r m e = elim (String-cases x.commit_sha revision) [
  | inl (c, t) ↦ (x, rw t refl, c)
  | inr (c, t) ↦ rw t (later m c (λ n. Recorded-find_record revision history r n e))
]
  where
    later :
        Memᴰ r (x ∷ history)
        → (x.commit_sha ≡ revision → ⊥)
        → (Memᴰ r history
            → (s : HistoryRecord) × (find_record revision history ≡ some s)
              × (s.commit_sha ≡ revision))
        → (s : HistoryRecord) × (find_record revision history ≡ some s) × (s.commit_sha ≡ revision)
    later (Memᴰ.head q) c rest = absurd (c (ap (λ y. y.commit_sha) (sym q) ∙ e))
    later (Memᴰ.tail m) c rest = rest m

module _ (revision : String) (mca : ManifestChangeApproval) where
  latest-IsAllowed :
      (r : HistoryRecord)
      → IsAllowed (latest revision mca (some r))
      → r.commit_sha ≡ mca.spec.commit_sha
  latest-IsAllowed r h = elim (String-cases r.commit_sha mca.spec.commit_sha) [
    | inl (e, t) ↦ e
    | inr (e, t) ↦ absurd (rw t at h)
  ]

  IsAllowed-latest :
      (r : HistoryRecord)
      → r.commit_sha ≡ mca.spec.commit_sha
      → IsAllowed (latest revision mca (some r))
  IsAllowed-latest r e = rw ((eq_iff r.commit_sha mca.spec.commit_sha).1 e) tt

  check-IsAllowed :
      IsAllowed (check_revision_approval_status revision mca)
      → (mca.spec.commit_sha ≡ revision) × Recorded revision mca.status.approval_history
  unfolding check_revision_approval_status
  check-IsAllowed h = elim (Option-cases (find_record revision mca.status.approval_history)) [
    | inl e ↦ absurd (rw e at h)
    | inr (r, e) ↦
        let (m, c) = find_record-Recorded revision mca.status.approval_history r e in
        (sym (latest-IsAllowed r (rw e at h)) ∙ c, (r, m, c))
  ]

  IsAllowed-check :
      mca.spec.commit_sha ≡ revision
      → Recorded revision mca.status.approval_history
      → IsAllowed (check_revision_approval_status revision mca)
  unfolding check_revision_approval_status
  IsAllowed-check e (r, m, c) =
      let (s, found, d) = Recorded-find_record revision mca.status.approval_history r m c in
      rw found (IsAllowed-latest s (d ∙ sym e))

module _ (req : Request) (mrt : ManifestRequestTemplate) (revision : String) where
  approved : IsAllowed (validate_revision_approval req mrt revision) → Approved req mrt revision
  unfolding validate_revision_approval
  approved h = elim (Result-cases req.list_mcas) [
    | inr (e, f) ↦ absurd (rw f at h)
    | inl (mcas, f) ↦ elim (Option-cases (first_mca mrt mcas)) [
      | inl n ↦ absurd (rw n at (rw f at h))
      | inr (mca, n) ↦
          let (c, rec) = check-IsAllowed revision mca (rw n at (rw f at h)) in
          (mcas, mca, f, n, c, rec)
    ]
  ]

  admitted : Approved req mrt revision → IsAllowed (validate_revision_approval req mrt revision)
  unfolding validate_revision_approval
  admitted (mcas, mca, f, n, c, rec) = rw f (rw n (IsAllowed-check revision mca c rec))

-- What the validator finds for a request: its Application and the template that governs it.
abbrev pub Governs : Request → Application → ManifestRequestTemplate → Type 0
Governs req application mrt =
    (get_application req ≡ go_on application) × (validate_and_get_mrt req application ≡ go_on mrt)

-- A request for an Application that an initialized template governs is allowed exactly when the
-- template's approval is in the cluster, approves the revision that Argo CD syncs, and has a record
-- of that revision in its history; the validator's map has no part in it.
pub handle-IsAllowed_iff :
    (kube : Kube) (req : Request) (init_revision : InitRevision) (application : Application)
    (mrt : ManifestRequestTemplate)
    → Governs req application mrt
    → kube.contains_finalizer mrt.metadata governance_finalizer ≡ true
    → IsAllowed (handle kube req init_revision).0
      ↔ Approved req mrt (get_revision_from_application application)
unfolding handle validate_mrt_initialization
handle-IsAllowed_iff kube req init_revision application mrt (found, governs) initialized =
    let revision = get_revision_from_application application in
    rw (found, governs, initialized) (approved req mrt revision, admitted req mrt revision)
