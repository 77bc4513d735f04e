-- ===== src/RuleWebhook/Soundness.antt =====
-- The rules that the webhook of the template accepts, against their evaluation with
-- pkg/validation/governor.go.
use quorum_based_manifests_g.Common.{
  refl, ap, ℕ, zero, suc, ℤ, pos, ◌≤ℤ◌, Bool, true, false, Option, none, some, String, ◌==◌, ◌≡◌,
  ◌≢◌, inl, inr, lookup, arith, String-cases, Option-cases,
}
use quorum_based_manifests_g.Api.{ApprovalRule, rule, Rules, nil, cons, length_rules}
use quorum_based_manifests_g.Dto
use quorum_based_manifests_g.Converter.{k8s_rule_to_dto, k8s_rules_to_dto}
use quorum_based_manifests_g.Validation.{Signers, evaluate_rules}
use quorum_based_manifests_g.Validation.Quorum.{
  HasSigned, Fulfilled, leaf, all_of, some_of, Every, none_left, and_next, Chosen, stop, take, skip,
  evaluate_rules-iff-Fulfilled,
}
use quorum_based_manifests_g.RuleWebhook.{
  MembersMap, RuleError, approval_rule_valid_check_leaf, approval_rule_valid_check,
  is_approval_rule_valid, are_children_valid, or_else,
}

-- No group in the rule has `all: false`.
abbrev mutual
  pub HasNoFalseAll : ApprovalRule → Type 0
  HasNoFalseAll (rule k all req s) = (all ≢ some false) × HaveNoFalseAll req

  pub HaveNoFalseAll : Rules → Type 0
  HaveNoFalseAll nil = Unit
  HaveNoFalseAll (cons r rs) = HasNoFalseAll r × HaveNoFalseAll rs

-- Every threshold in the rule is at least 1.
abbrev pub IsPositive : Option ℤ → Type 0
IsPositive none = Unit
IsPositive (some k) = pos 1 ≤ℤ k

abbrev mutual
  pub HasPositiveThresholds : ApprovalRule → Type 0
  HasPositiveThresholds (rule k all req s) = IsPositive k × HavePositiveThresholds req

  pub HavePositiveThresholds : Rules → Type 0
  HavePositiveThresholds nil = Unit
  HavePositiveThresholds (cons r rs) = HasPositiveThresholds r × HavePositiveThresholds rs

or_else-none : (a b : Option RuleError) → or_else a b ≡ none → (a ≡ none) × (b ≡ none)
or_else-none a b h = ground arith

-- What the check of one node leaves: a governor's leaf, a group that requires all, or a group with
-- a threshold that its children reach.
data Shape (m : MembersMap) : ApprovalRule → Type 0 where
  a_leaf : {s : String} {b : Bool} → s ≢ "" → lookup s m ≡ some b → Shape m (rule none none nil s)
  an_all :
      {b : Bool} {r : ApprovalRule} {rs : Rules} {s : String}
      → s ≡ ""
      → Shape m (rule none (some b) (cons r rs) s)
  a_some :
      {k : ℤ} {r : ApprovalRule} {rs : Rules} {s : String}
      → s ≡ ""
      → k ≤ℤ pos (length_rules (cons r rs))
      → Shape m (rule (some k) none (cons r rs) s)

leaf_member :
    (s : String) (m : MembersMap)
    → approval_rule_valid_check_leaf (rule none none nil s) m ≡ none
    → (b : Bool) × (lookup s m ≡ some b)
unfolding approval_rule_valid_check_leaf
leaf_member s m h = elim (Option-cases (lookup s m)) [
  | inl e ↦ absurd (ground arith)
  | inr (b, e) ↦ (b, e)
]

module _ (s : String) (m : MembersMap) where
  group_Shape :
      (k : Option ℤ) (all : Option Bool) (req : Rules)
      → s ≡ ""
      → approval_rule_valid_check (rule k all req s) m ≡ none
      → Shape m (rule k all req s)
  unfolding approval_rule_valid_check
  group_Shape none none nil e h = absurd (cc (rw e at h))
  group_Shape none none (cons r rs) e h = cc
  group_Shape none (some b) nil e h = absurd (cc (rw e at h))
  group_Shape none (some b) (cons r rs) e h = an_all e
  group_Shape (some k) (some b) req e h = cc
  group_Shape (some k) none nil e h = absurd (cc (rw e at h))
  group_Shape (some k) none (cons r rs) e h = a_some e (let h' = rw e at h in ground arith)

  leaf_Shape :
      (k : Option ℤ) (all : Option Bool) (req : Rules)
      → s ≢ ""
      → (s == "") ≡ false
      → approval_rule_valid_check (rule k all req s) m ≡ none
      → Shape m (rule k all req s)
  unfolding approval_rule_valid_check
  leaf_Shape none none nil n e h = let (b, found) = leaf_member s m (rw e at h) in a_leaf n found
  leaf_Shape none none (cons r rs) n e h = cc
  leaf_Shape none (some b) req n e h = absurd (cc (rw e at h))
  leaf_Shape (some k) (some b) req n e h = cc
  leaf_Shape (some k) none req n e h = absurd (cc (rw e at h))

check_Shape : (r : ApprovalRule) (m : MembersMap) → approval_rule_valid_check r m ≡ none → Shape m r
check_Shape (rule k all req s) m h = elim (String-cases s "") [
  | inl (e, t) ↦ group_Shape s m k all req e h
  | inr (e, t) ↦ leaf_Shape s m k all req e t h
]

-- Both halves of the recursive check.
valid_parts :
    (k : Option ℤ) (all : Option Bool) (req : Rules) (s : String) (m : MembersMap)
    → is_approval_rule_valid (rule k all req s) m ≡ none
    → Shape m (rule k all req s) × (are_children_valid req m ≡ none)
unfolding is_approval_rule_valid
valid_parts k all req s m h =
    let parts =
      or_else-none (approval_rule_valid_check (rule k all req s) m) (are_children_valid req m) h in
    (check_Shape (rule k all req s) m parts.0, parts.1)

length-k8s_rules_to_dto : (rs : Rules) → Dto.length_rules (k8s_rules_to_dto rs) ≡ length_rules rs
unfolding k8s_rules_to_dto
length-k8s_rules_to_dto nil = refl
length-k8s_rules_to_dto (cons r rs) = ap suc (length-k8s_rules_to_dto rs)

Every-Chosen : {v : Signers} {rs : Dto.Rules} → Every v rs → Chosen v (Dto.length_rules rs) rs
Every-Chosen none_left = stop
Every-Chosen (and_next f c) = take f (Every-Chosen c)

Every-at_least :
    {v : Signers} {k : ℤ} (rs : Rules)
    → k ≤ℤ pos (length_rules rs)
    → Every v (k8s_rules_to_dto rs)
    → Fulfilled v (Dto.rule (some k) none (k8s_rules_to_dto rs) "")
Every-at_least rs h c =
    some_of refl (λ e. cc) (omega (arith, length-k8s_rules_to_dto rs)) (Every-Chosen c)

module _ (m : MembersMap) (v : Signers) where
  module _ (signs : (a : String) (b : Bool) → lookup a m ≡ some b → HasSigned v a) where
    Shape-Fulfilled :
        {k : Option ℤ} {all : Option Bool} {req : Rules} {s : String}
        → Shape m (rule k all req s)
        → all ≢ some false
        → Every v (k8s_rules_to_dto req)
        → Fulfilled v (Dto.rule k all (k8s_rules_to_dto req) s)
    Shape-Fulfilled (a_leaf {s = s} {b = b} n found) no_false c = leaf n (signs s b found)
    Shape-Fulfilled (an_all {b = true} e) no_false c = all_of e c
    Shape-Fulfilled (an_all {b = false} e) no_false c = absurd (no_false refl)
    Shape-Fulfilled (a_some {r = r} {rs = rs} e h) no_false c =
        rw e (Every-at_least (cons r rs) h c)

    mutual
      unfolding k8s_rule_to_dto are_children_valid

      valid-Fulfilled :
          (r : ApprovalRule)
          → is_approval_rule_valid r m ≡ none
          → HasNoFalseAll r
          → Fulfilled v (k8s_rule_to_dto r)
      valid-Fulfilled (rule k all req s) h no_false =
          let (shape, children) = valid_parts k all req s m h in
          Shape-Fulfilled shape no_false.0 (valid-Every req children no_false.1)

      valid-Every :
          (rs : Rules)
          → are_children_valid rs m ≡ none
          → HaveNoFalseAll rs
          → Every v (k8s_rules_to_dto rs)
      valid-Every nil h no_false = none_left
      valid-Every (cons r rs) h no_false =
          let both = or_else-none (is_approval_rule_valid r m) (are_children_valid rs m) h in
          and_next (valid-Fulfilled r both.0 no_false.0) (valid-Every rs both.1 no_false.1)

  -- A governor who is a member and has signed.
  abbrev Witnessed : Type 0
  Witnessed = (a : String) × (b : Bool) × (lookup a m ≡ some b) × HasSigned v a

  threshold_met :
      (k : ℤ) {rs : Dto.Rules} (n : ℕ)
      → pos 1 ≤ℤ k
      → k ≤ℤ pos n
      → Chosen v n rs
      → ((n : ℕ) → Chosen v (suc n) rs → Witnessed)
      → Witnessed
  threshold_met k zero p h c chosen = absurd (omega arith)
  threshold_met k (suc n) p h c chosen = chosen n c

  Shape-Witnessed :
      {k : Option ℤ} {all : Option Bool} {req : Rules} {s : String}
      → Shape m (rule k all req s)
      → IsPositive k
      → Fulfilled v (Dto.rule k all (k8s_rules_to_dto req) s)
      → ((n : ℕ) → Chosen v (suc n) (k8s_rules_to_dto req) → Witnessed)
      → Witnessed
  unfolding k8s_rules_to_dto
  Shape-Witnessed (a_leaf {s = s} {b = b} n found) p (leaf _ h) chosen = (s, b, found, h)
  Shape-Witnessed (an_all e) p (leaf n h) chosen = absurd (n e)
  Shape-Witnessed (an_all {rs = rs} e) p (all_of _ c) chosen = chosen _ (Every-Chosen c)
  Shape-Witnessed (a_some e h) p (leaf n _) chosen = absurd (n e)
  Shape-Witnessed (a_some e h) p (some_of {n = n} _ _ le c) chosen = threshold_met _ n p le c chosen

  mutual
    unfolding k8s_rule_to_dto are_children_valid

    Fulfilled-Witnessed :
        (r : ApprovalRule)
        → is_approval_rule_valid r m ≡ none
        → HasPositiveThresholds r
        → Fulfilled v (k8s_rule_to_dto r)
        → Witnessed
    Fulfilled-Witnessed (rule k all req s) h p f =
        let (shape, children) = valid_parts k all req s m h in
        Shape-Witnessed shape p.0 f (λ n c. Chosen-Witnessed req n children p.1 c)

    Chosen-Witnessed :
        (rs : Rules) (n : ℕ)
        → are_children_valid rs m ≡ none
        → HavePositiveThresholds rs
        → Chosen v (suc n) (k8s_rules_to_dto rs)
        → Witnessed
    Chosen-Witnessed nil n h p c = elim c [ ]
    Chosen-Witnessed (cons r rs) n h p (take f c) =
        let both = or_else-none (is_approval_rule_valid r m) (are_children_valid rs m) h in
        Fulfilled-Witnessed r both.0 p.0 f
    Chosen-Witnessed (cons r rs) n h p (skip c) =
        let both = or_else-none (is_approval_rule_valid r m) (are_children_valid rs m) h in
        Chosen-Witnessed rs n both.1 p.1 c

-- A rule that the webhook accepts, with no group of `all: false`, evaluates to true on its `dto`
-- form once every governor of the template has signed.
pub valid_satisfiable :
    (r : ApprovalRule) (m : MembersMap) (v : Signers)
    → is_approval_rule_valid r m ≡ none
    → HasNoFalseAll r
    → ((a : String) (b : Bool) → lookup a m ≡ some b → HasSigned v a)
    → evaluate_rules (k8s_rule_to_dto r) v ≡ true
valid_satisfiable r m v h no_false signs =
    (evaluate_rules-iff-Fulfilled (k8s_rule_to_dto r) v).1 (valid-Fulfilled m v signs r h no_false)

-- A rule that the webhook accepts, with thresholds of at least 1, evaluates to true only if some
-- governor of the template has signed.
pub valid_needs_governor :
    (r : ApprovalRule) (m : MembersMap) (v : Signers)
    → is_approval_rule_valid r m ≡ none
    → HasPositiveThresholds r
    → evaluate_rules (k8s_rule_to_dto r) v ≡ true
    → (a : String) × (b : Bool) × (lookup a m ≡ some b) × HasSigned v a
valid_needs_governor r m v h p e =
    Fulfilled-Witnessed m v r h p ((evaluate_rules-iff-Fulfilled (k8s_rule_to_dto r) v).0 e)
