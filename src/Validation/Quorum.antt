-- ===== src/Validation/Quorum.antt =====
-- What it means that an approval rule is fulfilled, and the evaluation in pkg/validation/governor.go.
use quorum_based_manifests_g.Common.{
  ℕ, suc, ◌+◌, ◌≤◌, ℤ, pos, ◌≤ℤ◌, Bool, true, false, Option, none, some, String, ◌≡◌, ◌≢◌, ◌↔◌,
  refl, subst, inl, inr, lookup, arith, String-cases,
}
use quorum_based_manifests_g.Dto.{ApprovalRule, rule, Rules, nil, cons, length_rules}
use quorum_based_manifests_g.Validation.{
  Signers, SignatureStatus, signed, is_signed, evaluate_rule_node, count_satisfied, evaluate_rules,
  evaluate_leaf, btoi, evaluate_group,
}

abbrev pub HasSigned : Signers → String → Type 0
HasSigned v a = lookup a v ≡ some signed

-- A leaf wants its signer's signature. A group wants all its children, or as many as it says; an
-- `all` that is true goes before `atLeast`. `Chosen v n rs`: n of the rules `rs` are fulfilled.
mutual
  pub data Fulfilled (v : Signers) : ApprovalRule → Type 0 where
    leaf :
        {at_least : Option ℤ} {all : Option Bool} {require : Rules} {signer : String}
        → signer ≢ ""
        → HasSigned v signer
        → Fulfilled v (rule at_least all require signer)
    all_of :
        {at_least : Option ℤ} {require : Rules} {signer : String}
        → signer ≡ ""
        → Every v require
        → Fulfilled v (rule at_least (some true) require signer)
    some_of :
        {k : ℤ} {n : ℕ} {all : Option Bool} {require : Rules} {signer : String}
        → signer ≡ ""
        → all ≢ some true
        → k ≤ℤ pos n
        → Chosen v n require
        → Fulfilled v (rule (some k) all require signer)

  pub data Every (v : Signers) : Rules → Type 0 where
    none_left : Every v nil
    and_next : {r : ApprovalRule} {rs : Rules} → Fulfilled v r → Every v rs → Every v (cons r rs)

  pub data Chosen (v : Signers) : ℕ → Rules → Type 0 where
    stop : Chosen v 0 nil
    take :
        {n : ℕ} {r : ApprovalRule} {rs : Rules}
        → Fulfilled v r
        → Chosen v n rs
        → Chosen v (suc n) (cons r rs)
    skip : {n : ℕ} {r : ApprovalRule} {rs : Rules} → Chosen v n rs → Chosen v n (cons r rs)

leaf_sound : (s : Option SignatureStatus) → is_signed s ≡ true → s ≡ some signed
leaf_sound s h = ground arith

-- Of `n` fulfilled children, at most all are there; with all of them, every child is fulfilled.
Chosen-le : {v : Signers} {n : ℕ} {rs : Rules} → Chosen v n rs → n ≤ length_rules rs
Chosen-le stop = omega arith
Chosen-le (take f c) = omega (arith, Chosen-le c)
Chosen-le (skip c) = omega (arith, Chosen-le c)

Chosen-Every : {v : Signers} {n : ℕ} {rs : Rules} → Chosen v n rs → length_rules rs ≤ n → Every v rs
Chosen-Every stop h = none_left
Chosen-Every (take f c) h = and_next f (Chosen-Every c (omega arith))
Chosen-Every (skip c) h = absurd (omega (arith, Chosen-le c))

-- The evaluation of a group, from what the loop counted.
module _ (v : Signers) (require : Rules) (n : ℕ) (chosen : Chosen v n require) where
  group_sound :
      (at_least : Option ℤ) (all : Option Bool) (signer : String)
      → signer ≡ ""
      → (evaluate_group (rule at_least all require signer) n).0 ≡ true
      → Fulfilled v (rule at_least all require signer)
  unfolding evaluate_group
  group_sound at_least (some true) signer s h = all_of s (Chosen-Every chosen (ground arith))
  group_sound (some k) (some false) signer s h = some_of s (λ e. cc) (ground arith) chosen
  group_sound (some k) none signer s h = some_of s (λ e. cc) (ground arith) chosen
  group_sound none (some false) signer s h = cc
  group_sound none none signer s h = cc

-- One round of the loop.
Chosen-round :
    {v : Signers} {n : ℕ} {r : ApprovalRule} {rs : Rules} (b : Bool)
    → (b ≡ true → Fulfilled v r)
    → Chosen v n rs
    → Chosen v (btoi b + n) (cons r rs)
Chosen-round {v} {n} {r} {rs} true f c =
    subst (λ k. Chosen v k (cons r rs)) {x = suc n} (omega arith) (take (f refl) c)
Chosen-round {v} {n} {r} {rs} false f c =
    subst (λ k. Chosen v k (cons r rs)) {x = n} (omega arith) (skip c)

mutual
  unfolding evaluate_rule_node count_satisfied evaluate_leaf

  node_sound : (r : ApprovalRule) (v : Signers) → (evaluate_rule_node r v).0 ≡ true → Fulfilled v r
  node_sound (rule k all req signer) v h =
      let chosen = count_Chosen req v in
      elim (String-cases signer "") [
        | inl e ↦ group_sound v req (count_satisfied req v) chosen k all signer e.0 (rw e.1 at h)
        | inr e ↦ leaf e.0 (leaf_sound (lookup signer v) (rw e.1 at h))
      ]

  count_Chosen : (rs : Rules) (v : Signers) → Chosen v (count_satisfied rs v) rs
  count_Chosen nil v = stop
  count_Chosen (cons r rs) v =
      Chosen-round (evaluate_rule_node r v).0 (node_sound r v) (count_Chosen rs v)

count-le-length : (rs : Rules) (v : Signers) → count_satisfied rs v ≤ length_rules rs
count-le-length rs v = Chosen-le (count_Chosen rs v)

mutual
  unfolding evaluate_rule_node count_satisfied evaluate_leaf evaluate_group

  node_complete :
      {v : Signers} {r : ApprovalRule} → Fulfilled v r → (evaluate_rule_node r v).0 ≡ true
  node_complete (leaf {signer = s} n h) = elim (String-cases s "") [
    | inl e ↦ absurd (n e.0)
    | inr e ↦ rw (e.1, h)
  ]
  node_complete (all_of {signer = s} e c) = rw e (ground (arith, Every-count c))
  node_complete (some_of {all = none} e n k c) = rw e (ground (arith, Chosen-count c))
  node_complete (some_of {all = some true} e n k c) = absurd (n refl)
  node_complete (some_of {all = some false} e n k c) = rw e (ground (arith, Chosen-count c))

  Every-count : {v : Signers} {rs : Rules} → Every v rs → length_rules rs ≤ count_satisfied rs v
  Every-count none_left = omega arith
  Every-count (and_next f c) = rw (node_complete f) (omega (arith, Every-count c))

  Chosen-count : {v : Signers} {n : ℕ} {rs : Rules} → Chosen v n rs → n ≤ count_satisfied rs v
  Chosen-count stop = omega arith
  Chosen-count (take f c) = rw (node_complete f) (omega (arith, Chosen-count c))
  Chosen-count (skip {r = r} c) = ground (arith, Chosen-count c)

-- `EvaluateRules` returns true exactly when the rule is fulfilled: a leaf when its signer has
-- signed, a group that requires all when every child is, another group when the number of
-- fulfilled children that it asks for can be chosen; a group with no requirement never is.
pub evaluate_rules-iff-Fulfilled :
    (r : ApprovalRule) (v : Signers) → (evaluate_rules r v ≡ true) ↔ Fulfilled v r
unfolding evaluate_rules
evaluate_rules-iff-Fulfilled r v = (node_sound r v, node_complete)
