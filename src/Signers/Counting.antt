-- ===== src/Signers/Counting.antt =====
-- The number of governors that GetVerifiedSigners of pkg/validation/msr/governor.go reports.
use quorum_based_manifests_g.Common.{
  ℕ, suc, ◌+◌, ◌≤◌, List, [], ◌∷◌, some, String, inl, inr, length, lookup, insert, erase, arith,
  Bool-cases,
}
use quorum_based_manifests_g.Dto.{Governor}
use quorum_based_manifests_g.Validation.{
  SignatureStatus, signed, pending, malformed_public_key, Signers, is_signed, btoi,
}
use quorum_based_manifests_g.Signers.{
  OpenPgp, Texts, Attempt, bad_key, no_match, matched, attempt, is_pending, on_attempt, try_keys,
  match_signatures, get_verified_signers, governor_keys, all_pending, mark_malformed,
  collect_warnings, check_public_keys_correctness,
}

-- The governors that have signed.
abbrev pub count_signed : Signers → ℕ
count_signed [] = 0
count_signed ((a, s) ∷ signers) = btoi (is_signed (some s)) + count_signed signers

pub count_signed-erase :
    (a : String) (signers : Signers) → count_signed (erase a signers) ≤ count_signed signers
unfolding erase
count_signed-erase a [] = omega arith
count_signed-erase a ((b, t) ∷ signers) = ground (arith, count_signed-erase a signers)

count_signed-insert :
    (a : String) (s : SignatureStatus) (signers : Signers)
    → count_signed (insert a s signers) ≤ btoi (is_signed (some s)) + count_signed signers
unfolding insert
count_signed-insert a s signers = omega (arith, count_signed-erase a signers)

on_attempt-count :
    (b : String) (rest : Signers × Texts → Signers × Texts) (t : Attempt) (found : Signers × Texts)
    → ((f : Signers × Texts) → count_signed (rest f).0 ≤ count_signed f.0 + 1)
    → count_signed (on_attempt b rest t found).0 ≤ count_signed found.0 + 1
on_attempt-count b rest (bad_key e) (signers, w) keep = omega (
  arith,
  keep (insert b malformed_public_key signers, insert b e w),
  count_signed-insert b malformed_public_key signers,
)
on_attempt-count b rest no_match found keep = keep found
on_attempt-count b rest matched (signers, w) keep =
    omega (arith, count_signed-insert b signed signers)

module _ (pgp : OpenPgp) (content : String) where
  try_keys-count :
      (sig : String) (ks : Texts) (found : Signers × Texts)
      → count_signed (try_keys pgp content sig ks found).0 ≤ count_signed found.0 + 1
  unfolding try_keys
  try_keys-count sig [] found = omega arith
  try_keys-count sig ((b, key) ∷ ks) found =
      let rest = try_keys-count sig ks in
      elim (Bool-cases (is_pending (lookup b found.0))) [
        | inr skip ↦ rw skip (rest found)
        | inl pend ↦ rw pend (
            on_attempt-count b (try_keys pgp content sig ks) (attempt pgp content sig key) found
              rest)
      ]

  match_signatures-count :
      (range : ℕ → Texts → Texts) (i : ℕ) (keys : Texts) (sigs : List String)
      (found : Signers × Texts)
      → count_signed (match_signatures pgp content range i keys sigs found).0
        ≤ count_signed found.0 + length sigs
  unfolding match_signatures
  match_signatures-count range i keys [] found = omega arith
  match_signatures-count range i keys (sig ∷ sigs) found = omega (
    arith,
    match_signatures-count range (suc i) keys sigs (try_keys pgp content sig (range i keys) found),
    try_keys-count sig (range i keys) found,
  )

module _ (pgp : OpenPgp) where
  all_pending-count :
      (members : List Governor) (signers : Signers)
      → count_signed (all_pending pgp members signers) ≤ count_signed signers
  unfolding all_pending
  all_pending-count [] signers = omega arith
  all_pending-count (gov ∷ members) signers = omega (
    arith,
    all_pending-count members (insert gov.alias pending signers),
    count_signed-insert gov.alias pending signers,
  )

  mark_malformed-count :
      (warnings : Texts) (signers : Signers)
      → count_signed (mark_malformed pgp warnings signers) ≤ count_signed signers
  unfolding mark_malformed
  mark_malformed-count [] signers = omega arith
  mark_malformed-count ((a, w) ∷ warnings) signers = omega (
    arith,
    mark_malformed-count warnings (insert a malformed_public_key signers),
    count_signed-insert a malformed_public_key signers,
  )

  -- The governors that `GetVerifiedSigners` reports as having signed are not more than the
  -- signatures, whatever the order in which Go ranges over the governors' keys.
  pub signed-le-signatures :
      (range : ℕ → Texts → Texts) (members : List Governor) (sigs : List String)
      (msr_bytes : String)
      → count_signed (get_verified_signers pgp range members sigs msr_bytes).0 ≤ length sigs
  unfolding get_verified_signers check_public_keys_correctness
  signed-le-signatures range members sigs msr_bytes =
      let pend = all_pending pgp members [] in
      let warnings = collect_warnings pgp members [] in
      omega (
        arith,
        match_signatures-count pgp msr_bytes range 0 (governor_keys pgp members []) sigs
            (mark_malformed pgp warnings pend, warnings),
        mark_malformed-count warnings pend,
        all_pending-count members [],
      )
