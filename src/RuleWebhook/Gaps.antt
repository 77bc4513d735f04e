-- ===== src/RuleWebhook/Gaps.antt =====
-- Unusual rules (`all: false`, thresholds of zero or less, one signer many times) in the webhook of
-- the template and in their evaluation.
use quorum_based_manifests_g.Common.{
  ℕ, zero, suc, ◌<◌, ℤ, pos, ◌≤ℤ◌, Bool, true, false, none, some, String, ◌≡◌, ◌≢◌, inl, inr, refl,
  lookup, arith, String-cases,
}
use quorum_based_manifests_g.Api.{ApprovalRule, rule, Rules, nil, cons, length_rules}
use quorum_based_manifests_g.Converter.{k8s_rule_to_dto, k8s_rules_to_dto}
use quorum_based_manifests_g.Validation.{Signers, evaluate_rules}
use quorum_based_manifests_g.Validation.Quorum.{
  HasSigned, leaf, some_of, Chosen, stop, take, evaluate_rules-iff-Fulfilled,
}
use quorum_based_manifests_g.RuleWebhook.{MembersMap, is_approval_rule_valid, are_children_valid}

-- A group with `all: false` and no threshold is accepted over any accepted children, and evaluates
-- to false whoever signs.
pub false_all_never_fulfilled :
    (r : ApprovalRule) (rs : Rules) (m : MembersMap)
    → are_children_valid (cons r rs) m ≡ none
    → (is_approval_rule_valid (rule none (some false) (cons r rs) "") m ≡ none)
      × ((v : Signers)
          → evaluate_rules (k8s_rule_to_dto (rule none (some false) (cons r rs) "")) v ≡ false)
unfolding is_approval_rule_valid evaluate_rules k8s_rule_to_dto
false_all_never_fulfilled r rs m h = (h, λ v. refl)

-- A group whose threshold is not positive is accepted over any accepted children, and evaluates to
-- true whoever signs, with no signature at all.
pub nonpositive_threshold_always_fulfilled :
    (k : ℤ) (r : ApprovalRule) (rs : Rules) (m : MembersMap)
    → k ≤ℤ pos 0
    → are_children_valid (cons r rs) m ≡ none
    → (is_approval_rule_valid (rule (some k) none (cons r rs) "") m ≡ none)
      × ((v : Signers)
          → evaluate_rules (k8s_rule_to_dto (rule (some k) none (cons r rs) "")) v ≡ true)
unfolding is_approval_rule_valid evaluate_rules k8s_rule_to_dto
nonpositive_threshold_always_fulfilled k r rs m le h = (ground arith, λ v. ground arith)

-- `n` leaves with the same signer.
abbrev pub copies : ℕ → String → Rules
copies zero a = nil
copies (suc n) a = cons (rule none none nil a) (copies n a)

length-copies : (n : ℕ) (a : String) → length_rules (copies n a) ≡ n
length-copies zero a = refl
length-copies (suc n) a = omega (arith, length-copies n a)

module _ (a : String) (named : a ≢ "") where
  copies-valid :
      (m : MembersMap) (b : Bool) (n : ℕ)
      → lookup a m ≡ some b
      → are_children_valid (copies n a) m ≡ none
  unfolding are_children_valid
  copies-valid m b zero found = refl
  copies-valid m b (suc n) found = elim (String-cases a "") [
    | inl e ↦ absurd (named e.0)
    | inr e ↦ rw (e.1, found) (copies-valid m b n found)
  ]

  copies-Chosen : (v : Signers) (n : ℕ) → HasSigned v a → Chosen v n (k8s_rules_to_dto (copies n a))
  unfolding k8s_rules_to_dto
  copies-Chosen v zero h = stop
  copies-Chosen v (suc n) h = take (leaf named h) (copies-Chosen v n h)

-- A threshold of `n` over `n` leaves that name the same governor is accepted, and that governor's
-- signature alone fulfils it.
pub one_governor_quorum :
    (a : String) (b : Bool) (n : ℕ) (m : MembersMap) (v : Signers)
    → a ≢ ""
    → 0 < n
    → lookup a m ≡ some b
    → HasSigned v a
    → (is_approval_rule_valid (rule (some (pos n)) none (copies n a) "") m ≡ none)
      × (evaluate_rules (k8s_rule_to_dto (rule (some (pos n)) none (copies n a) "")) v ≡ true)
unfolding is_approval_rule_valid k8s_rule_to_dto
one_governor_quorum a b zero m v named h found signs = absurd (omega arith)
one_governor_quorum a b (suc n) m v named h found signs =
    let children = copies-valid a named m b (suc n) found in
    let chosen = copies-Chosen a named v (suc n) signs in
    (
      ground (arith, length-copies n a),
      (evaluate_rules-iff-Fulfilled _ v).1 (some_of refl (λ e. cc) (omega arith) chosen),
    )
