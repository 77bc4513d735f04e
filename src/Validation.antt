-- ===== src/Validation.antt =====
-- pkg/validation/governor.go: the evaluation of an approval rule against the verified signers.
-- The drawing of the tree (`treeNode`, `ruleLabel`, the colours) is output only and is left out.
pub mod Quorum
use quorum_based_manifests_g.Common.{
  ℕ, ◌+◌, ℤ, pos, negsuc, leb_ℤ, Bool, true, false, List, Option, none, some, String, ◌==◌, lookup,
  if◌then◌else◌,
}
use quorum_based_manifests_g.Dto.{ApprovalRule, rule, Rules, nil, cons, length_rules}

pub data SignatureStatus : Type 0 where
  not_signed signed pending malformed_public_key : SignatureStatus

-- map[string]SignatureStatus
abbrev pub Signers : Type 0
Signers = List (String × SignatureStatus)

-- `status == Signed`; a missing key reads as the empty status.
abbrev pub is_signed : Option SignatureStatus → Bool
is_signed (some signed) = true
is_signed (some not_signed) = false
is_signed (some pending) = false
is_signed (some malformed_public_key) = false
is_signed none = false

abbrev pub btoi : Bool → ℕ
btoi b = if b then 1 else 0

-- `rule.All != nil && *rule.All`
abbrev pub requires_all : Option Bool → Bool
requires_all none = false
requires_all (some b) = b

or_invalid : Option ℤ → ℤ × Bool
or_invalid (some n) = (n, true)
or_invalid none = (negsuc 0, false)

unfoldable pub group_required_count : ApprovalRule → ℤ × Bool
unfolding or_invalid
group_required_count (rule at_least all require signer) =
    if requires_all all then (pos (length_rules require), true) else or_invalid at_least

unfoldable pub evaluate_leaf : String → Signers → Bool × ℕ × ℤ
unfolding lookup
evaluate_leaf signer verified_signers =
    let ok = is_signed (lookup signer verified_signers) in (ok, btoi ok, pos 1)

-- `satisfied_count` is what the loop over the children has counted.
unfoldable pub evaluate_group : ApprovalRule → ℕ → Bool × ℕ × ℤ
unfolding group_required_count
evaluate_group r satisfied_count =
    let (required_count, ok) = group_required_count r in
    if ok
    then (leb_ℤ required_count (pos satisfied_count), satisfied_count, required_count)
    else (false, 0, pos 0)

unfoldable mutual
  unfolding evaluate_leaf evaluate_group

  pub evaluate_rule_node : ApprovalRule → Signers → Bool × ℕ × ℤ
  evaluate_rule_node (rule at_least all require signer) verified_signers =
      let satisfied_count = count_satisfied require verified_signers in
      if signer == ""
      then evaluate_group (rule at_least all require signer) satisfied_count
      else evaluate_leaf signer verified_signers

  -- The loop over `rule.Require`.
  pub count_satisfied : Rules → Signers → ℕ
  count_satisfied nil verified_signers = 0
  count_satisfied (cons child rest) verified_signers =
      btoi (evaluate_rule_node child verified_signers).0 + count_satisfied rest verified_signers

unfoldable pub evaluate_rules : ApprovalRule → Signers → Bool
unfolding evaluate_rule_node
evaluate_rules r verified_signers = (evaluate_rule_node r verified_signers).0
