-- ===== src/Signing/Approved.antt =====
-- When the check of the MSR controller approves a request, and whose signatures it collects.
use mathlib.Core.List.{Memᴰ}
use quorum_based_manifests_g.Common.{
  ℕ, Bool, true, false, not, List, [], ◌∷◌, Option, none, some, String, ◌==◌, Result, ok, err, ◌≡◌,
  ◌≢◌, ◌↔◌, ◌⊎◌, refl, sym, subst, ap, lookup, if◌then◌else◌, inl, inr, String-cases,
}
use quorum_based_manifests_g.Api.{Signature}
use quorum_based_manifests_g.Api.Signing.{ManifestSigningRequest, ManifestSigningRequestSpec}
use quorum_based_manifests_g.Api.Approval.{ManifestChangeApprovalSpec}
use quorum_based_manifests_g.Validation.{
  Signers, SignatureStatus, signed, not_signed, pending, malformed_public_key, is_signed,
  evaluate_rules,
}
use quorum_based_manifests_g.Validation.Quorum.{Fulfilled, evaluate_rules-iff-Fulfilled}
use quorum_based_manifests_g.Signers.{verify_signature, get_verified_signers, governor_keys}
use quorum_based_manifests_g.Signers.Matching.{Entries, Verified, signed_by_governor}
use quorum_based_manifests_g.Signing.World.{World, MsrFetchResult}
use quorum_based_manifests_g.Signing.Fulfillment.{
  extract_collected_signatures, check_verified, check_fetched, fulfilled_spec,
}

abbrev pub signature_of : String → Signature
signature_of a = record { signer = a }

-- A collected signature is an entry with the status `Signed`.
collected-Mem :
    (v : Signers) (a : String)
    → Memᴰ (signature_of a) (extract_collected_signatures v)
    → Memᴰ (a, signed) v
unfolding extract_collected_signatures
collected-Mem [] a m = elim m [ ]
collected-Mem ((b, signed) ∷ v) a (Memᴰ.head e) = Memᴰ.head (ap (λ s. (s.signer, signed)) e)
collected-Mem ((b, signed) ∷ v) a (Memᴰ.tail m) = Memᴰ.tail (collected-Mem v a m)
collected-Mem ((b, not_signed) ∷ v) a m = Memᴰ.tail (collected-Mem v a m)
collected-Mem ((b, pending) ∷ v) a m = Memᴰ.tail (collected-Mem v a m)
collected-Mem ((b, malformed_public_key) ∷ v) a m = Memᴰ.tail (collected-Mem v a m)

Mem-collected :
    (v : Signers) (a : String)
    → Memᴰ (a, signed) v
    → Memᴰ (signature_of a) (extract_collected_signatures v)
unfolding extract_collected_signatures
Mem-collected [] a m = elim m [ ]
Mem-collected ((b, s) ∷ v) a (Memᴰ.head e) =
    rw (ap (λ p. is_signed (some p.1)) (sym e)) (Memᴰ.head (ap (λ p. signature_of p.0) e))
Mem-collected ((b, signed) ∷ v) a (Memᴰ.tail m) = Memᴰ.tail (Mem-collected v a m)
Mem-collected ((b, not_signed) ∷ v) a (Memᴰ.tail m) = Mem-collected v a m
Mem-collected ((b, pending) ∷ v) a (Memᴰ.tail m) = Mem-collected v a m
Mem-collected ((b, malformed_public_key) ∷ v) a (Memᴰ.tail m) = Mem-collected v a m

-- The two tests before the verification.
past :
    {a b c d : String}
    → ((a ≡ b) × ((a == b) ≡ true)) ⊎ ((a ≢ b) × ((a == b) ≡ false))
    → ((c ≡ d) × ((c == d) ≡ true)) ⊎ ((c ≢ d) × ((c == d) ≡ false))
    → (r : Result (Option (List Signature))) (sigs : List Signature)
    → (if a == b then ok none else (if not (c == d) then ok none else r)) ≡ ok (some sigs)
    → (a ≢ b) × (c ≡ d) × (r ≡ ok (some sigs))
past (inl (e, t)) _ r sigs h = let h' = rw t at h in cc
past (inr (n, t)) (inr (m, u)) r sigs h = let h' = rw (t, u) at h in cc
past (inr (n, t)) (inl (e, u)) r sigs h = (n, e, rw (t, u) at h)

module _ (w : World) (msr : ManifestSigningRequest) (res : MsrFetchResult) where
  -- The signers that the check evaluates the rule on.
  abbrev pub verified : Signers
  verified =
      (get_verified_signers w.pgp w.range_keys res.repo_msr.spec.governors.members res.gov_sigs
        res.msr_bytes).0

  abbrev pub collected : List Signature
  collected = extract_collected_signatures (w.range_signers verified)

  -- The head has not been approved before, the keys of the request in the repository and in the
  -- cluster are the same, the operator's signature is right, and the rule is fulfilled.
  abbrev pub IsApprovable : Type 0
  IsApprovable =
      (msr.status.last_observed_commit_hash ≢ res.remote_head)
      × (res.repo_msr.spec.public_key ≡ msr.spec.public_key)
      × (verify_signature w.pgp msr.spec.public_key res.msr_bytes res.msr_sig ≡ ok tt)
      × Fulfilled verified res.repo_msr.spec.require

  check_verified-some :
      (found : Result (Unit {0})) (sigs : List Signature)
      → check_verified w res found ≡ ok (some sigs)
      → (found ≡ ok tt)
        × (evaluate_rules res.repo_msr.spec.require verified ≡ true)
        × (sigs ≡ collected)
  check_verified-some (err e) sigs h = cc
  check_verified-some (ok _) sigs h =
      let (t, c) = chosen (evaluate_rules res.repo_msr.spec.require verified) h in (refl, t, c)
    where
      chosen :
          (b : Bool)
          → (if not b then ok none else ok (some collected)) ≡ ok (some sigs)
          → (b ≡ true) × (sigs ≡ collected)
      chosen true e = (refl, cc)
      chosen false e = cc

  pub check_fetched-some :
      (sigs : List Signature)
      → check_fetched w msr res ≡ ok (some sigs)
      → IsApprovable × (sigs ≡ collected)
  unfolding check_fetched
  check_fetched-some sigs h =
      let fetched =
        check_verified w res
          (verify_signature w.pgp msr.spec.public_key res.msr_bytes res.msr_sig) in
      let (n, e, f) =
        past (String-cases msr.status.last_observed_commit_hash res.remote_head)
          (String-cases res.repo_msr.spec.public_key msr.spec.public_key) fetched sigs h in
      let (v, t, c) = check_verified-some _ sigs f in
      ((n, e, v, (evaluate_rules-iff-Fulfilled res.repo_msr.spec.require verified).0 t), c)

  pub check_fetched-IsApprovable : IsApprovable → check_fetched w msr res ≡ ok (some collected)
  unfolding check_fetched
  check_fetched-IsApprovable (n, e, v, f) =
      elim (String-cases msr.status.last_observed_commit_hash res.remote_head) [
        | inl (p, t) ↦ absurd (n p)
        | inr (n', t) ↦ elim (String-cases res.repo_msr.spec.public_key msr.spec.public_key) [
          | inl (p, u) ↦
              rw (t, u, v, (evaluate_rules-iff-Fulfilled res.repo_msr.spec.require verified).1 f)
                refl
          | inr (m, u) ↦ absurd (m e)
        ]
      ]

  -- The check of a fetched signing request finds signatures, with which the request becomes
  -- `Approved`, exactly if the head of the repository is not the one that was approved before, the
  -- public keys of the request in the repository and in the cluster agree, the operator's signature
  -- over the fetched bytes verifies under that key, and the rule of the request in the repository is
  -- fulfilled by the governors whose signatures verify. The signatures are then those of the signers
  -- that GetVerifiedSigners has as signed, and of no other, where a range over the map of signers
  -- yields its entries.
  pub check_fetched-some_iff :
      ((a : String) (s : SignatureStatus)
        → Memᴰ (a, s) (w.range_signers verified) ↔ (lookup a verified ≡ some s))
      → (sigs : List Signature)
      → ((check_fetched w msr res ≡ ok (some sigs)) ↔ (IsApprovable × (sigs ≡ collected)))
        × ((a : String) → Memᴰ (signature_of a) collected ↔ (lookup a verified ≡ some signed))
  check_fetched-some_iff entries sigs = (
    (check_fetched-some sigs, λ (a, e). rw e (check_fetched-IsApprovable a)),
    λ a. (
      λ m. (entries a signed).0 (collected-Mem (w.range_signers verified) a m),
      λ e. Mem-collected (w.range_signers verified) a ((entries a signed).1 e),
    ),
  )

  -- Every governor whose signature is collected for an approval is one of the request in the
  -- repository, and one of the signatures that were fetched verifies over its bytes under the key
  -- that the governors' map holds for it, where a range over a map yields its entries.
  pub collected-Verified :
      ((i : ℕ)
        → Entries
            (governor_keys w.pgp res.repo_msr.spec.governors.members [])
            (w.range_keys i (governor_keys w.pgp res.repo_msr.spec.governors.members [])))
      → ((a : String) (s : SignatureStatus)
          → Memᴰ (a, s) (w.range_signers verified)
          → lookup a verified ≡ some s)
      → (sigs : List Signature) → check_fetched w msr res ≡ ok (some sigs)
      → (a : String) → Memᴰ (signature_of a) sigs
      → Verified w.pgp res.msr_bytes
          (governor_keys w.pgp res.repo_msr.spec.governors.members [])
          res.gov_sigs
          a
  collected-Verified keys signers sigs h a m =
      signed_by_governor w.pgp w.range_keys res.repo_msr.spec.governors.members res.gov_sigs
        res.msr_bytes keys a
        (signers a signed (
          collected-Mem (w.range_signers verified) a
            (subst (Memᴰ (signature_of a)) (check_fetched-some sigs h).1 m)))

  -- The check compares the request in the cluster with the one in the repository by the public key
  -- alone: with any other specification of the same key in the cluster it decides the same, and the
  -- specification of the MCA that an approval then writes has that specification's commit and rule.
  pub check_ignores_rest :
      (spec : ManifestSigningRequestSpec) (of_mca : ManifestChangeApprovalSpec)
      → spec.public_key ≡ msr.spec.public_key
      → (check_fetched w (record msr { spec = spec }) res ≡ check_fetched w msr res)
        × ((fulfilled_spec (record msr { spec = spec }) of_mca).commit_sha ≡ spec.commit_sha)
        × ((fulfilled_spec (record msr { spec = spec }) of_mca).require ≡ spec.require)
  unfolding check_fetched fulfilled_spec
  check_ignores_rest spec of_mca e = (rw e refl, refl, refl)
