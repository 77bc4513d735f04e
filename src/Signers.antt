-- ===== src/Signers.antt =====
-- pkg/validation/common.go and pkg/validation/msr/governor.go: a detached signature is verified, and the
-- governors are matched with the signatures that were found beside a signing request.
pub mod Matching
pub mod Counting
pub mod Threshold
use quorum_based_manifests_g.Common.{
  ℕ, zero, suc, Bool, true, false, List, [], ◌∷◌, Option, none, some, String, ◌==◌, lookup, insert,
  Result, ok, err, wrap, with_context, if◌then◌else◌,
}
use quorum_based_manifests_g.Dto.{Governor}
use quorum_based_manifests_g.Validation.{
  SignatureStatus, signed, pending, malformed_public_key, not_signed, Signers,
}

-- What the code calls of go-crypto's `openpgp` and `armor`. A text stands for its bytes.
pub record OpenPgp : Type 1 where
  pub Entity : Type 0
  pub Body : Type 0
  pub read_armored_key_ring : String → Result (List Entity)
  pub has_primary_key : Entity → Bool
  pub decode : String → Result Body
  pub check_detached_signature : List Entity → String → Body → Result (Unit {0})

-- map[string]string, from an alias to a key or to a warning
abbrev pub Texts : Type 0
Texts = List (String × String)

-- `verifiedSigners[alias] != Pending`
abbrev pub is_pending : Option SignatureStatus → Bool
is_pending (some pending) = true
is_pending (some signed) = false
is_pending (some not_signed) = false
is_pending (some malformed_public_key) = false
is_pending none = false

-- What one round of the inner loop finds for a pending alias: its key is broken, the signature is
-- not by it (or is broken itself), or is.
pub data Attempt : Type 0 where
  bad_key : String → Attempt
  no_match : Attempt
  matched : Attempt

abbrev is_matched : Result (Unit {0}) → Attempt
is_matched (ok _) = matched
is_matched (err e) = no_match

-- The rest of a round, from the attempt; `rest` is the rest of the loop, which a match leaves.
abbrev pub on_attempt :
    String → (Signers × Texts → Signers × Texts) → Attempt → Signers × Texts → Signers × Texts
on_attempt alias rest (bad_key e) (signers, warnings) =
    rest (insert alias malformed_public_key signers, insert alias e warnings)
on_attempt alias rest no_match found = rest found
on_attempt alias rest matched (signers, warnings) = (insert alias signed signers, warnings)

module _ (pgp : OpenPgp) where
  open pgp use {
    Entity, Body, read_armored_key_ring, has_primary_key, decode, check_detached_signature,
  }

  check_decoded : List Entity → String → Result Body → Result (Unit {0})
  check_decoded key_ring content (ok body) =
      wrap "signature verification failed" (check_detached_signature key_ring content body)
  check_decoded key_ring content (err e) = err (with_context "failed to decode armored signature" e)

  check_with : String → String → Result (List Entity) → Result (Unit {0})
  unfolding check_decoded
  check_with content signature_data (ok key_ring) =
      check_decoded key_ring content (decode signature_data)
  check_with content signature_data (err e) =
      err (with_context "failed to parse operator public key" e)

  -- `VerifySignature`, without the message for the user.
  unfoldable pub verify_signature : String → String → String → Result (Unit {0})
  unfolding check_with
  verify_signature public_key content signature_data =
      if signature_data == ""
      then err "operator signature is missing"
      else (if public_key == ""
          then err "operator public key is empty"
          else check_with content signature_data (read_armored_key_ring public_key))

  -- The warning for one governor's key, if it has one.
  key_warning : Result (List Entity) → Option String
  key_warning (err e) = some (with_context "failed to parse armored key ring" e)
  key_warning (ok []) = some "no OpenPGP entities found in the provided key string"
  key_warning (ok (entity ∷ rest)) =
      if has_primary_key entity then none else some "PGP entity does not contain a primary key"

  set_warning : String → Option String → Texts → Texts
  unfolding insert
  set_warning alias none warnings = warnings
  set_warning alias (some w) warnings = insert alias w warnings

  collect_warnings : List Governor → Texts → Texts
  unfolding set_warning key_warning
  collect_warnings [] warnings = warnings
  collect_warnings (gov ∷ members) warnings =
      collect_warnings members
        (set_warning gov.alias (key_warning (read_armored_key_ring gov.public_key)) warnings)

  -- The loop over `signerWarnings`; its order does not matter, as every entry is set alike.
  mark_malformed : Texts → Signers → Signers
  unfolding insert
  mark_malformed [] signers = signers
  mark_malformed ((alias, w) ∷ warnings) signers =
      mark_malformed warnings (insert alias malformed_public_key signers)

  unfoldable pub check_public_keys_correctness : List Governor → Signers → Signers × Texts
  unfolding mark_malformed collect_warnings
  check_public_keys_correctness members signers =
      let warnings = collect_warnings members [] in (mark_malformed warnings signers, warnings)

  attempt_body : List Entity → String → Result Body → Attempt
  attempt_body key_ring content (ok body) =
      is_matched (check_detached_signature key_ring content body)
  attempt_body key_ring content (err e) = no_match

  attempt_ring : String → String → Result (List Entity) → Attempt
  unfolding attempt_body
  attempt_ring content sig_data (ok key_ring) = attempt_body key_ring content (decode sig_data)
  attempt_ring content sig_data (err e) = bad_key e

  unfoldable pub attempt : String → String → String → Attempt
  unfolding attempt_ring
  attempt content sig_data pub_key = attempt_ring content sig_data (read_armored_key_ring pub_key)

  -- The inner loop, over the keys in the order in which the map yields them.
  unfoldable pub try_keys : String → String → Texts → Signers × Texts → Signers × Texts
  unfolding attempt
  try_keys content sig_data [] found = found
  try_keys content sig_data ((alias, pub_key) ∷ keys) found =
      let rest = try_keys content sig_data keys in
      if is_pending (lookup alias found.0)
      then on_attempt alias rest (attempt content sig_data pub_key) found
      else rest found

  -- The outer loop. `range i keys` is the order of the i-th `range governorKeys`.
  unfoldable pub match_signatures :
      String → (ℕ → Texts → Texts) → ℕ → Texts → List String → Signers × Texts → Signers × Texts
  unfolding try_keys
  match_signatures content range i keys [] found = found
  match_signatures content range i keys (sig_data ∷ sigs) found =
      match_signatures content range (suc i) keys sigs
        (try_keys content sig_data (range i keys) found)

  unfoldable pub governor_keys : List Governor → Texts → Texts
  unfolding insert
  governor_keys [] keys = keys
  governor_keys (gov ∷ members) keys = governor_keys members (insert gov.alias gov.public_key keys)

  all_pending : List Governor → Signers → Signers
  unfolding insert
  all_pending [] signers = signers
  all_pending (gov ∷ members) signers = all_pending members (insert gov.alias pending signers)

  unfoldable pub get_verified_signers :
      (ℕ → Texts → Texts) → List Governor → List String → String → Signers × Texts
  unfolding match_signatures check_public_keys_correctness governor_keys all_pending
  get_verified_signers range members governor_signatures msr_bytes =
      match_signatures msr_bytes range 0 (governor_keys members []) governor_signatures
        (check_public_keys_correctness members (all_pending members []))
