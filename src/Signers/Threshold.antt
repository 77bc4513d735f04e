-- ===== src/Signers/Threshold.antt =====
-- Thresholds over different governors: EvaluateRules of pkg/validation/governor.go on what
-- GetVerifiedSigners of pkg/validation/msr/governor.go reports.
use quorum_based_manifests_g.Common.{
  ℕ, suc, ◌≤◌, pos, true, List, [], ◌∷◌, none, some, String, ◌≡◌, ◌≢◌, refl, inl, inr, length,
  lookup, erase, lookup-erase, arith, Bool-cases, String-cases,
}
use quorum_based_manifests_g.Dto.{Governor, ApprovalRule, rule, Rules, nil, cons}
use quorum_based_manifests_g.Validation.{
  Signers, evaluate_rule_node, evaluate_leaf, evaluate_group, count_satisfied, evaluate_rules,
}
use quorum_based_manifests_g.Validation.Quorum.{
  HasSigned, Fulfilled, leaf, evaluate_rules-iff-Fulfilled,
}
use quorum_based_manifests_g.Signers.{OpenPgp, Texts, get_verified_signers}
use quorum_based_manifests_g.Signers.Counting.{
  count_signed, count_signed-erase, signed-le-signatures,
}

abbrev leaf_of : String → ApprovalRule
leaf_of a = rule none none nil a

abbrev pub leaves : List String → Rules
leaves [] = nil
leaves (a ∷ names) = cons (leaf_of a) (leaves names)

abbrev pub IsAbsent : String → List String → Type 0
IsAbsent a [] = Unit
IsAbsent a (b ∷ names) = (a ≢ b) × IsAbsent a names

abbrev pub AreDistinct : List String → Type 0
AreDistinct [] = Unit
AreDistinct (a ∷ names) = IsAbsent a names × AreDistinct names

count_signed-erase_signed :
    (a : String) (v : Signers) → HasSigned v a → suc (count_signed (erase a v)) ≤ count_signed v
unfolding lookup erase
count_signed-erase_signed a [] h = cc
count_signed-erase_signed a ((b, t) ∷ v) h = elim (String-cases b a) [
  | inl (e, q) ↦ ground (arith, count_signed-erase a v)
  | inr (e, q) ↦ ground (arith, count_signed-erase_signed a v (rw q at h))
]

leaf-erase :
    (a b : String) (v : Signers)
    → a ≢ b
    → (evaluate_rule_node (leaf_of b) (erase a v)).0 ≡ (evaluate_rule_node (leaf_of b) v).0
unfolding evaluate_rule_node evaluate_leaf evaluate_group
leaf-erase a b v n = elim (String-cases b "") [
  | inl (e, q) ↦ rw q refl
  | inr (e, q) ↦ elim (String-cases a b) [
    | inl (f, s) ↦ absurd (n f)
    | inr (f, s) ↦ rw (q, lookup-erase a b v, s) refl
  ]
]

count_satisfied-erase :
    (a : String) (names : List String) (v : Signers)
    → IsAbsent a names
    → count_satisfied (leaves names) (erase a v) ≡ count_satisfied (leaves names) v
unfolding count_satisfied
count_satisfied-erase a [] v h = refl
count_satisfied-erase a (b ∷ names) v (n, h) =
    rw (leaf-erase a b v n, count_satisfied-erase a names v h) refl

leaf_signed : (a : String) (v : Signers) → Fulfilled v (leaf_of a) → HasSigned v a
leaf_signed a v (leaf n h) = h

leaf-HasSigned :
    (a : String) (v : Signers) → (evaluate_rule_node (leaf_of a) v).0 ≡ true → HasSigned v a
unfolding evaluate_rules
leaf-HasSigned a v h = leaf_signed a v ((evaluate_rules-iff-Fulfilled (leaf_of a) v).0 h)

satisfied-le-signed :
    (names : List String) (v : Signers)
    → AreDistinct names
    → count_satisfied (leaves names) v ≤ count_signed v
unfolding count_satisfied
satisfied-le-signed [] v d = omega arith
satisfied-le-signed (a ∷ names) v (absent, d) =
    elim (Bool-cases (evaluate_rule_node (leaf_of a) v).0) [
      | inr e ↦ rw e (omega (arith, satisfied-le-signed names v d))
      | inl e ↦ rw e (
          omega (
            arith,
            count_signed-erase_signed a v (leaf-HasSigned a v e),
            satisfied-le-signed names (erase a v) d,
            count_satisfied-erase a names v absent,
          ))
    ]

-- A threshold over leaves that name different signers evaluates to true on what `GetVerifiedSigners`
-- finds only if there are at least as many signatures as the threshold asks for, in every map order.
pub threshold-le-signatures :
    (pgp : OpenPgp) (range : ℕ → Texts → Texts) (members : List Governor) (sigs : List String)
    (msr_bytes : String) (k : ℕ) (names : List String)
    → AreDistinct names
    → evaluate_rules
        (rule (some (pos k)) none (leaves names) "")
        (get_verified_signers pgp range members sigs msr_bytes).0
      ≡ true
    → k ≤ length sigs
unfolding evaluate_rules evaluate_rule_node evaluate_group
threshold-le-signatures pgp range members sigs msr_bytes k names d h =
    let v = (get_verified_signers pgp range members sigs msr_bytes).0 in
    let counted = satisfied-le-signed names v d in
    let bounded = signed-le-signatures pgp range members sigs msr_bytes in
    ground (arith, counted, bounded)
