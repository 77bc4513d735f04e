-- ===== src/RuleWebhook.antt =====
-- kubernetes/internal/webhook/v1alpha1/manifestrequesttemplate_webhook.go: the check of the
-- approval rule of a template on creation and on update. An error is the field's name and text; the
-- `field.Path` of the message is left out.
pub mod Soundness
pub mod Gaps
use quorum_based_manifests_g.Common.{
  ℕ, ℤ, pos, ltb_ℤ, Bool, true, false, not, ◌&&◌, ◌||◌, List, [], ◌∷◌, Option, none, some, String,
  ◌==◌, lookup, insert, if◌then◌else◌,
}
use quorum_based_manifests_g.Api.{ApprovalRule, rule, Rules, nil, cons, length_rules, Governor}

pub data RuleError : Type 0 where
  no_threshold both_thresholds signer_on_group unknown_signer nothing_required : RuleError
  not_reachable : ℕ → ℤ → RuleError

-- map[string]bool
abbrev pub MembersMap : Type 0
MembersMap = List (String × Bool)

abbrev pub is_none {ℓ} : {A : Type ℓ} → Option A → Bool
is_none none = true
is_none (some a) = false

abbrev pub is_empty : Rules → Bool
is_empty nil = true
is_empty (cons r rs) = false

add_members : List Governor → MembersMap → MembersMap
add_members [] members_map = members_map
add_members (m ∷ members) members_map = add_members members (insert m.alias true members_map)

unfoldable pub get_members_map : List Governor → MembersMap
unfolding add_members insert
get_members_map members = add_members members []

-- `none` stands for `(true, nil)`.
unfoldable pub approval_rule_valid_check_leaf : ApprovalRule → MembersMap → Option RuleError
unfolding lookup
approval_rule_valid_check_leaf (rule at_least all require signer) members_map =
    if is_none (lookup signer members_map) then some unknown_signer else none

-- `rule.AtLeast != nil && cnt < *rule.AtLeast`
abbrev pub reachable : ℕ → Option ℤ → Option RuleError
reachable cnt none = none
reachable cnt (some k) = if ltb_ℤ (pos cnt) k then some (not_reachable cnt k) else none

unfoldable pub approval_rule_valid_check_node : ApprovalRule → Option RuleError
approval_rule_valid_check_node (rule at_least all require signer) =
    if is_empty require then some nothing_required else reachable (length_rules require) at_least

unfoldable pub approval_rule_valid_check : ApprovalRule → MembersMap → Option RuleError
unfolding approval_rule_valid_check_leaf approval_rule_valid_check_node
approval_rule_valid_check (rule at_least all require signer) members_map =
    let has_signer = not (signer == "") in
    if is_none at_least && is_none all && not (is_empty require)
    then some no_threshold
    else (if not (is_none at_least) && not (is_none all)
        then some both_thresholds
        else (if (not (is_none at_least) || not (is_none all) || not (is_empty require))
              && has_signer
            then some signer_on_group
            else (if has_signer
                then approval_rule_valid_check_leaf (rule at_least all require signer) members_map
                else approval_rule_valid_check_node (rule at_least all require signer))))

-- The first error, if there is one.
abbrev pub or_else : Option RuleError → Option RuleError → Option RuleError
or_else none e = e
or_else (some e) _ = some e

unfoldable mutual
  unfolding approval_rule_valid_check

  pub is_approval_rule_valid : ApprovalRule → MembersMap → Option RuleError
  is_approval_rule_valid (rule at_least all require signer) members_map =
      or_else (approval_rule_valid_check (rule at_least all require signer) members_map)
        (are_children_valid require members_map)

  -- The loop over `rule.Require`.
  pub are_children_valid : Rules → MembersMap → Option RuleError
  are_children_valid nil members_map = none
  are_children_valid (cons child rest) members_map =
      or_else (is_approval_rule_valid child members_map) (are_children_valid rest members_map)
