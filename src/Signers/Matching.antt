-- ===== src/Signers/Matching.antt =====
-- The signatures behind the status `Signed` in GetVerifiedSigners of pkg/validation/msr/governor.go.
use mathlib.Core.List.{Memᴰ}
use quorum_based_manifests_g.Common.{
  ℕ, suc, List, [], ◌∷◌, some, String, ◌≡◌, ◌≢◌, refl, inl, inr, lookup, insert, lookup-insert,
  arith, Bool-cases, String-cases,
}
use quorum_based_manifests_g.Dto.{Governor}
use quorum_based_manifests_g.Validation.{
  SignatureStatus, signed, pending, malformed_public_key, Signers,
}
use quorum_based_manifests_g.Validation.Quorum.{HasSigned}
use quorum_based_manifests_g.Signers.{
  OpenPgp, Texts, Attempt, bad_key, no_match, matched, attempt, is_pending, on_attempt, try_keys,
  match_signatures, get_verified_signers, governor_keys, all_pending, mark_malformed,
  collect_warnings, check_public_keys_correctness,
}

-- `range governorKeys` yields entries of the map.
abbrev pub Entries : Texts → Texts → Type 0
Entries keys [] = Unit
Entries keys ((a, k) ∷ ks) = (lookup a keys ≡ some k) × Entries keys ks

module _ (pgp : OpenPgp) (content : String) (keys : Texts) (sigs : List String) where
  -- Some signature verifies under the key of `a`.
  abbrev pub Verified : String → Type 0
  Verified a =
      (sig : String) × (key : String) × Memᴰ sig sigs
      × (lookup a keys ≡ some key)
      × (attempt pgp content sig key ≡ matched)

  abbrev pub Justified : Signers → Type 0
  Justified signers = (a : String) → HasSigned signers a → Verified a

  insert-Justified :
      (signers : Signers) (b : String) (s : SignatureStatus)
      → Justified signers
      → (s ≡ signed → Verified b)
      → Justified (insert b s signers)
  insert-Justified signers b s j new a h = elim (String-cases b a) [
    | inl (e, t) ↦ rw (← e) (new (ground (arith, lookup-insert b a s signers)))
    | inr (e, t) ↦ j a (ground (arith, lookup-insert b a s signers))
  ]

  on_attempt-Justified :
      (b : String) (rest : Signers × Texts → Signers × Texts) (t : Attempt)
      (found : Signers × Texts)
      → ((f : Signers × Texts) → Justified f.0 → Justified (rest f).0)
      → (t ≡ matched → Verified b)
      → Justified found.0
      → Justified (on_attempt b rest t found).0
  on_attempt-Justified b rest (bad_key e) (signers, w) keep new j =
      keep _ (insert-Justified signers b malformed_public_key j (λ e. cc))
  on_attempt-Justified b rest no_match found keep new j = keep found j
  on_attempt-Justified b rest matched (signers, w) keep new j =
      insert-Justified signers b signed j (λ _. new refl)

  try_keys-Justified :
      (ks : Texts) (sig : String)
      → Entries keys ks
      → Memᴰ sig sigs
      → (found : Signers × Texts) → Justified found.0
      → Justified (try_keys pgp content sig ks found).0
  unfolding try_keys
  try_keys-Justified [] sig en m found j = j
  try_keys-Justified ((b, key) ∷ ks) sig en m found j =
      let rest = try_keys-Justified ks sig en.1 m in
      elim (Bool-cases (is_pending (lookup b found.0))) [
        | inr skip ↦ rw skip (rest found j)
        | inl pend ↦ rw pend (
            on_attempt-Justified b (try_keys pgp content sig ks) (attempt pgp content sig key) found
              rest (λ e. (sig, key, m, en.0, e)) j)
      ]

  match_signatures-Justified :
      (range : ℕ → Texts → Texts)
      → ((i : ℕ) → Entries keys (range i keys))
      → (i : ℕ) (left : List String) → ((s : String) → Memᴰ s left → Memᴰ s sigs)
      → (found : Signers × Texts) → Justified found.0
      → Justified (match_signatures pgp content range i keys left found).0
  unfolding match_signatures
  match_signatures-Justified range en i [] sub found j = j
  match_signatures-Justified range en i (sig ∷ left) sub found j =
      match_signatures-Justified range en (suc i) left (λ s m. sub s (Memᴰ.tail m)) _
        (try_keys-Justified (range i keys) sig (en i) (sub sig (Memᴰ.head refl)) found j)

-- Before the matching no governor counts as having signed.
abbrev IsUnsigned : Signers → Type 0
IsUnsigned signers = (a : String) → lookup a signers ≢ some signed

insert-IsUnsigned :
    (signers : Signers) (b : String) (s : SignatureStatus)
    → s ≢ signed
    → IsUnsigned signers
    → IsUnsigned (insert b s signers)
insert-IsUnsigned signers b s n u a h = ground (arith, lookup-insert b a s signers, u a)

all_pending-IsUnsigned :
    (pgp : OpenPgp) (members : List Governor) (signers : Signers)
    → IsUnsigned signers
    → IsUnsigned (all_pending pgp members signers)
unfolding all_pending
all_pending-IsUnsigned pgp [] signers u = u
all_pending-IsUnsigned pgp (gov ∷ members) signers u =
    all_pending-IsUnsigned pgp members _ (insert-IsUnsigned signers gov.alias pending (λ e. cc) u)

mark_malformed-IsUnsigned :
    (pgp : OpenPgp) (warnings : Texts) (signers : Signers)
    → IsUnsigned signers
    → IsUnsigned (mark_malformed pgp warnings signers)
unfolding mark_malformed
mark_malformed-IsUnsigned pgp [] signers u = u
mark_malformed-IsUnsigned pgp ((a, w) ∷ warnings) signers u =
    mark_malformed-IsUnsigned pgp warnings _
      (insert-IsUnsigned signers a malformed_public_key (λ e. cc) u)

IsUnsigned-start :
    (pgp : OpenPgp) (members : List Governor)
    → IsUnsigned (check_public_keys_correctness pgp members (all_pending pgp members [])).0
unfolding check_public_keys_correctness
IsUnsigned-start pgp members =
    mark_malformed-IsUnsigned pgp (collect_warnings pgp members []) _
      (all_pending-IsUnsigned pgp members [] (unfold lookup in λ a h. cc))

-- Every alias that `GetVerifiedSigners` reports as having signed is the alias of a governor of the
-- request, and one of the signatures verifies over the request's bytes under the key that the
-- governors' map holds for it, whatever the order in which Go ranges over that map.
pub signed_by_governor :
    (pgp : OpenPgp) (range : ℕ → Texts → Texts) (members : List Governor) (sigs : List String)
    (msr_bytes : String)
    → ((i : ℕ) → Entries (governor_keys pgp members []) (range i (governor_keys pgp members [])))
    → (a : String) → HasSigned (get_verified_signers pgp range members sigs msr_bytes).0 a
    → (sig : String) × (key : String) × Memᴰ sig sigs
      × (lookup a (governor_keys pgp members []) ≡ some key)
      × (attempt pgp msr_bytes sig key ≡ matched)
unfolding get_verified_signers
signed_by_governor pgp range members sigs msr_bytes en a h =
    match_signatures-Justified pgp msr_bytes (governor_keys pgp members []) sigs range en 0 sigs
      (λ s m. m) _ (λ b signs. absurd (IsUnsigned-start pgp members b signs)) a h
