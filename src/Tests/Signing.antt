-- ===== src/Tests/Signing.antt =====
-- Concrete inputs for the MSR controller.
use mathlib.Core.List.{Memᴰ}
use quorum_based_manifests_g.Common.{
  ℕ, pos, true, List, [], ◌∷◌, ◌+++◌, none, some, String, ◌==◌, ◌≡◌, ◌↔◌, ap, sym, subst, refl,
  Result, ok, err, String-cases, inl, inr, if◌then◌else◌, lookup,
}
use quorum_based_manifests_g.Converter.{k8s_to_dto}
use quorum_based_manifests_g.Api.{ManifestRef, Signature, rule, nil}
use quorum_based_manifests_g.Api.Signing.{
  ActionState, ReconcileState, FulfillmentState, SigningRequestStatus, ManifestSigningRequest,
  ManifestSigningRequestSpec,
}
use quorum_based_manifests_g.Validation.{SignatureStatus, signed}
use quorum_based_manifests_g.Signers.{OpenPgp, get_verified_signers, governor_keys}
use quorum_based_manifests_g.Signers.Matching.{Entries, Verified}
use quorum_based_manifests_g.Exec.{Triple}
use quorum_based_manifests_g.Controller.{Run}
use quorum_based_manifests_g.Controller.Triples.{HostLaws, Free, Released}
use quorum_based_manifests_g.Controller.Discipline.{Settled}
use quorum_based_manifests_g.Signing.World.{World, MsrFetchResult, host}
use quorum_based_manifests_g.Signing.Fulfillment.{check_fetched, fulfilled_spec}
use quorum_based_manifests_g.Signing.Normal.{reconcile}
use quorum_based_manifests_g.Signing.Approved.{
  signature_of, verified, collected, IsApprovable, check_fetched-some_iff, collected-Verified,
  check_ignores_rest,
}
use quorum_based_manifests_g.Signing.Discipline.Handlers.{Permit}
use quorum_based_manifests_g.Signing.Discipline.Dispatch.{reconcile-Settled}
use quorum_based_manifests_g.Tests.Approval.{
  kube_example, kube_example-KubeLaws, mrt_example, mca_example,
}

-- A signature is the content with the key behind it.
abbrev checks : List String → String → String → Result (Unit {0})
checks [] content body = err "no key"
checks (key ∷ rest) content body =
    if (content +++ key) == body then ok tt else err "signature mismatch"

abbrev pgp_example : OpenPgp
pgp_example = record {
  Entity = String;
  Body = String;
  read_armored_key_ring = λ k. ok (k ∷ []);
  has_primary_key = λ e. true;
  decode = λ s. ok s;
  check_detached_signature = checks;
}

abbrev pub msr_example : ManifestSigningRequest
msr_example = record {
  metadata = record {
    kind = "ManifestSigningRequest";
    api_version = "v1alpha1";
    name = "msr";
    namespace = "ns";
    uid = "1";
    deletion_timestamp = none;
    finalizers = [];
    annotations = [];
  };
  spec = record {
    version = pos 1;
    commit_sha = "c1";
    previous_commit_sha = "c0";
    mrt = record { name = "mrt"; namespace = "ns"; version = pos 1 };
    public_key = "P";
    git_repository_url = "git";
    locations = record { governance_path = "gov"; source_path = "src" };
    changes = [];
    governors = record {
      notification_channels = [];
      members = record { alias = "alice"; public_key = "A" } ∷ [];
    };
    require = rule none none nil "alice";
  };
  status = record {
    last_observed_commit_hash = "";
    request_history = [];
    status = SigningRequestStatus.in_progress;
    collected_signatures = [];
    action_state = ActionState.empty;
    reconcile_state = ReconcileState.empty;
    rules_fulfillment_state = FulfillmentState.empty;
    conditions = [];
  };
}

abbrev fetched_example : MsrFetchResult
fetched_example = record {
  repo_msr = k8s_to_dto msr_example;
  msr_bytes = "msr";
  msr_sig = "msrP";
  gov_sigs = "msrA" ∷ [];
  remote_head = "head";
}

-- A cluster that holds one request and answers every call; the state is that request.
abbrev world_example : World
world_example = record {
  kube = kube_example;
  pgp = pgp_example;
  range_keys = λ i keys. keys;
  range_signers = λ v. v;
  State = ManifestSigningRequest;
  Repository = String;
  get_msr = λ key s. (ok s, s);
  status_update = λ m s. (ok m, m);
  update = λ m s. (ok m, m);
  get_mrt = λ key s. (ok mrt_example, s);
  get_mca = λ key s. (ok mca_example, s);
  update_mca = λ mca s. (ok tt, s);
  get_provider_for_mrt = λ mrt s. (ok (some "repo"), s);
  push_msr = λ repo m s. (ok "pushed", s);
  push_governor_signature = λ repo m s. (ok "pushed", s);
  get_latest_revision = λ repo s. (ok "head", s);
  fetch_msr_by_version = λ repo m s. (
    ok (record {
      msr = k8s_to_dto m;
      bytes = "msr";
      signature = "msrP";
      governor_signatures = "msrA" ∷ [];
    }),
    s,
  );
  notify_governors_msr = λ m s. (ok tt, s);
  now = λ s. (100, s);
}

world_example-HostLaws : HostLaws (host world_example)
world_example-HostLaws = record {
  echoes = λ m m' s s' e. ap (λ p. elim p.0 [ ok a ↦ a.status.conditions | err x ↦ [] ]) (sym e);
  kube_laws = kube_example-KubeLaws;
  conditions-with_state = λ a cs m. refl;
}

abbrev key_example : ManifestRef
key_example = record { name = "msr"; namespace = "ns" }

reconcile-Settled_example :
    Triple
      (Released (host world_example) (Permit world_example))
      (reconcile world_example key_example)
      (λ _. Settled (host world_example) (Permit world_example))
      (Free (host world_example) (Permit world_example))
reconcile-Settled_example = reconcile-Settled world_example world_example-HostLaws key_example

abbrev sigs_example : List Signature
sigs_example = record { signer = "alice" } ∷ []

check_example : check_fetched world_example msr_example fetched_example ≡ ok (some sigs_example)
unfolding check_fetched k8s_to_dto lookup
check_example = refl

keys-Entries :
    (i : ℕ)
    → Entries
        (governor_keys pgp_example fetched_example.repo_msr.spec.governors.members [])
        (governor_keys pgp_example fetched_example.repo_msr.spec.governors.members [])
unfolding governor_keys lookup k8s_to_dto
keys-Entries i = (refl, tt)

alice_only :
    (a : String) (s : SignatureStatus)
    → Memᴰ (a, s) (verified world_example msr_example fetched_example)
    → lookup a (verified world_example msr_example fetched_example) ≡ some s
unfolding get_verified_signers k8s_to_dto lookup
alice_only a s (Memᴰ.head e) =
    subst (λ p. (if "alice" == p.0 then some signed else none) ≡ some p.1) (sym e) refl
alice_only a s (Memᴰ.tail m) = elim m [ ]

alice_found :
    (a : String) (s : SignatureStatus)
    → lookup a (verified world_example msr_example fetched_example) ≡ some s
    → Memᴰ (a, s) (verified world_example msr_example fetched_example)
unfolding get_verified_signers k8s_to_dto lookup
alice_found a s h = elim (String-cases "alice" a) [
  | inl (e, t) ↦ let h' = rw t at h in let q : s ≡ signed = cc in Memᴰ.head (λ i. (sym e i, q i))
  | inr (n, t) ↦ let h' = rw t at h in cc
]

check_fetched-some_iff_example :
    ((check_fetched world_example msr_example fetched_example ≡ ok (some sigs_example)) ↔ (
      IsApprovable world_example msr_example fetched_example
      × (sigs_example ≡ collected world_example msr_example fetched_example)))
    × ((a : String)
        → Memᴰ (signature_of a) (collected world_example msr_example fetched_example)
          ↔ (lookup a (verified world_example msr_example fetched_example) ≡ some signed))
check_fetched-some_iff_example =
    check_fetched-some_iff world_example msr_example fetched_example
      (λ a s. (alice_only a s, alice_found a s)) sigs_example

collected-Verified_example :
    Verified pgp_example "msr"
      (governor_keys pgp_example fetched_example.repo_msr.spec.governors.members [])
      ("msrA" ∷ [])
      "alice"
collected-Verified_example =
    collected-Verified world_example msr_example fetched_example keys-Entries alice_only
      sigs_example check_example "alice" (Memᴰ.head refl)

-- The commit is not the one that was signed for.
abbrev other_spec : ManifestSigningRequestSpec
other_spec = record msr_example.spec { commit_sha = "c2" }

check_ignores_rest_example :
    (check_fetched world_example (record msr_example { spec = other_spec }) fetched_example
      ≡ check_fetched world_example msr_example fetched_example)
    × ((fulfilled_spec (record msr_example { spec = other_spec }) mca_example.spec).commit_sha
        ≡ other_spec.commit_sha)
    × ((fulfilled_spec (record msr_example { spec = other_spec }) mca_example.spec).require
        ≡ other_spec.require)
check_ignores_rest_example =
    check_ignores_rest world_example msr_example fetched_example other_spec mca_example.spec refl

-- A run on the request, with nothing done yet.
abbrev run_example : Run (host world_example)
run_example = record { state = msr_example; object = msr_example; held = true; effects = [] }
