-- ===== src/Webhooks/Updates.antt =====
-- What a run of updates of a request or of an approval may change.
use quorum_based_manifests_g.Common.{
  ℤ, ◌<ℤ◌, leb_ℤ, Bool, true, false, not, ◌&&◌, String, ◌≡◌, refl, sym, ◌∙◌, ◌⊎◌, inl, inr, arith,
  both_true,
}
use quorum_based_manifests_g.Api
use quorum_based_manifests_g.Api.{GovernorList, ApprovalRule}
use quorum_based_manifests_g.Template.DeepEqual.{
  text-IsSound, same_int-IsSound, same_governors-IsSound, same_rule-IsSound,
}
use quorum_based_manifests_g.Webhooks.Template.{Answer, allowed}
use quorum_based_manifests_g.Webhooks.Requests.{
  same_msr_spec, same_mca_spec, validate_msr_update, validate_mca_update,
}
use quorum_based_manifests_g.Webhooks.Accepted.{answer-allowed, fields-Nil, error_if-clear}

-- A run of updates of an object, each allowed by its webhook.
pub data AllowedRun {A : Type 0} (allows : A → A → Answer) (first : A) : A → Type 0 where
  here : AllowedRun allows first first
  next : {b c : A} → AllowedRun allows first b → allows b c ≡ allowed → AllowedRun allows first c

-- What an approval of a specification is about: the two commits, the public key, the governors and
-- the rule, with the version.
pub record Terms : Type 0 where
  pub version : ℤ
  pub commit_sha : String
  pub previous_commit_sha : String
  pub public_key : String
  pub governors : GovernorList
  pub require : ApprovalRule

abbrev pub msr_terms : Api.Signing.ManifestSigningRequest → Terms
msr_terms m = record {
  version = m.spec.version;
  commit_sha = m.spec.commit_sha;
  previous_commit_sha = m.spec.previous_commit_sha;
  public_key = m.spec.public_key;
  governors = m.spec.governors;
  require = m.spec.require;
}

abbrev pub mca_terms : Api.Approval.ManifestChangeApproval → Terms
mca_terms m = record {
  version = m.spec.version;
  commit_sha = m.spec.commit_sha;
  previous_commit_sha = m.spec.previous_commit_sha;
  public_key = m.spec.public_key;
  governors = m.spec.governors;
  require = m.spec.require;
}

-- The version has risen, or the terms are the same.
abbrev pub Advances : Terms → Terms → Type 0
Advances a b = (a.version <ℤ b.version) ⊎ (a ≡ b)

Advances-trans : (a b c : Terms) → Advances a b → Advances b c → Advances a c
Advances-trans a b c (inr p) (inr q) = inr (p ∙ q)
Advances-trans a b c (inr p) (inl v) = inl (rw p v)
Advances-trans a b c (inl u) (inr q) = inl (rw (sym q) u)
Advances-trans a b c (inl u) (inl v) = inl (omega arith)

-- What the test of an update lets through.
let_through :
    (same : Bool) (a b : Terms)
    → (same ≡ true → a ≡ b)
    → (not same && leb_ℤ b.version a.version) ≡ false
    → Advances a b
let_through true a b k h = inr (k refl)
let_through false a b k h = inl (ground arith)

terms_path :
    (a b : Terms)
    → a.version ≡ b.version
    → a.commit_sha ≡ b.commit_sha
    → a.previous_commit_sha ≡ b.previous_commit_sha
    → a.public_key ≡ b.public_key
    → a.governors ≡ b.governors
    → a.require ≡ b.require
    → a ≡ b
terms_path a b v c pc k g r i = record {
  version = v i;
  commit_sha = c i;
  previous_commit_sha = pc i;
  public_key = k i;
  governors = g i;
  require = r i;
}

msr_same :
    (a b : Api.Signing.ManifestSigningRequest)
    → same_msr_spec a.spec b.spec ≡ true
    → msr_terms a ≡ msr_terms b
unfolding same_msr_spec
msr_same a b s =
    let (s1, require) = both_true _ _ s in
    let (s2, governors) = both_true _ _ s1 in
    let (s3, changes) = both_true _ _ s2 in
    let (s4, locations) = both_true _ _ s3 in
    let (s5, url) = both_true _ _ s4 in
    let (s6, key) = both_true _ _ s5 in
    let (s7, mrt) = both_true _ _ s6 in
    let (s8, previous) = both_true _ _ s7 in
    let (version, commit) = both_true _ _ s8 in
    terms_path (msr_terms a) (msr_terms b) (same_int-IsSound _ _ version) (text-IsSound _ _ commit)
      (text-IsSound _ _ previous) (text-IsSound _ _ key) (same_governors-IsSound _ _ governors)
      (same_rule-IsSound _ _ require)

mca_same :
    (a b : Api.Approval.ManifestChangeApproval)
    → same_mca_spec a.spec b.spec ≡ true
    → mca_terms a ≡ mca_terms b
unfolding same_mca_spec
mca_same a b s =
    let (s0, signatures) = both_true _ _ s in
    let (s1, require) = both_true _ _ s0 in
    let (s2, governors) = both_true _ _ s1 in
    let (s3, changes) = both_true _ _ s2 in
    let (s4, locations) = both_true _ _ s3 in
    let (s5, url) = both_true _ _ s4 in
    let (s6, key) = both_true _ _ s5 in
    let (s7, msr) = both_true _ _ s6 in
    let (s8, mrt) = both_true _ _ s7 in
    let (s9, previous) = both_true _ _ s8 in
    let (version, commit) = both_true _ _ s9 in
    terms_path (mca_terms a) (mca_terms b) (same_int-IsSound _ _ version) (text-IsSound _ _ commit)
      (text-IsSound _ _ previous) (text-IsSound _ _ key) (same_governors-IsSound _ _ governors)
      (same_rule-IsSound _ _ require)

msr_step :
    (a b : Api.Signing.ManifestSigningRequest)
    → validate_msr_update a b ≡ allowed
    → Advances (msr_terms a) (msr_terms b)
unfolding validate_msr_update
msr_step a b h =
    let_through _ (msr_terms a) (msr_terms b) (msr_same a b)
      (error_if-clear _ _ _ (fields-Nil _ (answer-allowed _ h)))

mca_step :
    (a b : Api.Approval.ManifestChangeApproval)
    → validate_mca_update a b ≡ allowed
    → Advances (mca_terms a) (mca_terms b)
unfolding validate_mca_update
mca_step a b h =
    let_through _ (mca_terms a) (mca_terms b) (mca_same a b)
      (error_if-clear _ _ _ (fields-Nil _ (answer-allowed _ h)))

-- However many updates of a request its webhook allows, one after another: the version has risen, or
-- the commits, the public key, the governors and the rule are still the same.
pub msr_updates :
    {a b : Api.Signing.ManifestSigningRequest}
    → AllowedRun validate_msr_update a b
    → Advances (msr_terms a) (msr_terms b)
msr_updates here = inr refl
msr_updates {a} (next {b} {c} run step) =
    Advances-trans (msr_terms a) (msr_terms b) (msr_terms c) (msr_updates run) (msr_step b c step)

-- However many updates of an approval its webhook allows, one after another: the version has risen,
-- or the commits, the public key, the governors and the rule are still the same.
pub mca_updates :
    {a b : Api.Approval.ManifestChangeApproval}
    → AllowedRun validate_mca_update a b
    → Advances (mca_terms a) (mca_terms b)
mca_updates here = inr refl
mca_updates {a} (next {b} {c} run step) =
    Advances-trans (mca_terms a) (mca_terms b) (mca_terms c) (mca_updates run) (mca_step b c step)
