-- ===== src/Tests.antt =====
-- Concrete inputs: the theorems on the approval rules, the signers and the changed files at them.
mod Approval
mod Admission
mod Signing
mod Template
mod Queue
mod Repository
mod Tool
mod Manager
mod Webhooks
use mathlib.Core.List.{Memᴰ, Nodup, Mem, mem-cons_self, Nodup-cons, Nodup-nil, not-mem-nil}
use quorum_based_manifests_g.Common.{
  ℕ, zero, ◌≤◌, ℤ, pos, negsuc, Bool, true, false, List, [], ◌∷◌, ◌+++◌, Option, none, some, String,
  ◌==◌, ◌≡◌, ◌≢◌, ◌↔◌, refl, lookup, length, Result, ok, err, if◌then◌else◌, arith, eq_iff,
}
use quorum_based_manifests_g.Api
use quorum_based_manifests_g.Dto
use quorum_based_manifests_g.Converter.{k8s_rule_to_dto}
use quorum_based_manifests_g.Validation.{Signers, signed, pending, evaluate_rules}
use quorum_based_manifests_g.Validation.Quorum.{HasSigned, Fulfilled, evaluate_rules-iff-Fulfilled}
use quorum_based_manifests_g.RuleWebhook.{MembersMap, is_approval_rule_valid}
use quorum_based_manifests_g.RuleWebhook.Soundness.{valid_satisfiable, valid_needs_governor}
use quorum_based_manifests_g.RuleWebhook.Gaps.{
  false_all_never_fulfilled, nonpositive_threshold_always_fulfilled, one_governor_quorum, copies,
}
use quorum_based_manifests_g.Signers.{
  OpenPgp, Texts, attempt, matched, get_verified_signers, governor_keys,
}
use quorum_based_manifests_g.Signers.Matching.{Entries, signed_by_governor}
use quorum_based_manifests_g.Signers.Counting.{count_signed, signed-le-signatures}
use quorum_based_manifests_g.Signers.Threshold.{leaves, threshold-le-signatures}
use quorum_based_manifests_g.ChangedFiles.{ChangedFiles, verify_changed_files, accepted}
use quorum_based_manifests_g.ChangedFiles.Accepted.{
  AllMatch, verify-accepted_iff, accepted_complete, keys, paths,
}

abbrev governor : String → Api.ApprovalRule
governor a = Api.rule none none Api.nil a

abbrev three : Api.Rules
three =
    Api.cons (governor "alice") (Api.cons (governor "bob") (Api.cons (governor "carol") Api.nil))

abbrev two_of_three : Api.ApprovalRule
two_of_three = Api.rule (some (pos 2)) none three ""

abbrev members_map : MembersMap
members_map = ("alice", true) ∷ ("bob", true) ∷ ("carol", true) ∷ []

abbrev all_signed : Signers
all_signed = ("alice", signed) ∷ ("bob", signed) ∷ ("carol", signed) ∷ []

abbrev two_signed : Signers
two_signed = ("alice", signed) ∷ ("bob", pending) ∷ ("carol", signed) ∷ []

evaluate_rules-iff-Fulfilled_example :
    (evaluate_rules (k8s_rule_to_dto two_of_three) two_signed ≡ true)
    ↔ Fulfilled two_signed (k8s_rule_to_dto two_of_three)
evaluate_rules-iff-Fulfilled_example =
    evaluate_rules-iff-Fulfilled (k8s_rule_to_dto two_of_three) two_signed

two_of_three-valid : is_approval_rule_valid two_of_three members_map ≡ none
unfolding is_approval_rule_valid
two_of_three-valid = refl

members-signed : (a : String) (b : Bool) → lookup a members_map ≡ some b → HasSigned all_signed a
unfolding lookup
members-signed a b h = ground arith

valid_satisfiable_example : evaluate_rules (k8s_rule_to_dto two_of_three) all_signed ≡ true
valid_satisfiable_example =
    valid_satisfiable two_of_three members_map all_signed two_of_three-valid
      ((λ e. cc), (((λ e. cc), tt), (((λ e. cc), tt), (((λ e. cc), tt), tt)))) members-signed

two_signed-Fulfilled : evaluate_rules (k8s_rule_to_dto two_of_three) two_signed ≡ true
unfolding evaluate_rules k8s_rule_to_dto
two_signed-Fulfilled = refl

valid_needs_governor_example :
    (a : String) × (b : Bool) × (lookup a members_map ≡ some b) × HasSigned two_signed a
valid_needs_governor_example =
    valid_needs_governor two_of_three members_map two_signed two_of_three-valid
      (omega arith, ((tt, tt), ((tt, tt), ((tt, tt), tt)))) two_signed-Fulfilled

three-valid : quorum_based_manifests_g.RuleWebhook.are_children_valid three members_map ≡ none
unfolding is_approval_rule_valid
three-valid = refl

false_all_never_fulfilled_example :
    (is_approval_rule_valid (Api.rule none (some false) three "") members_map ≡ none)
    × ((v : Signers)
        → evaluate_rules (k8s_rule_to_dto (Api.rule none (some false) three "")) v ≡ false)
false_all_never_fulfilled_example = false_all_never_fulfilled _ _ members_map three-valid

nonpositive_threshold_always_fulfilled_example :
    (is_approval_rule_valid (Api.rule (some (negsuc 0)) none three "") members_map ≡ none)
    × ((v : Signers)
        → evaluate_rules (k8s_rule_to_dto (Api.rule (some (negsuc 0)) none three "")) v ≡ true)
nonpositive_threshold_always_fulfilled_example =
    nonpositive_threshold_always_fulfilled (negsuc 0) _ _ members_map (omega arith) three-valid

named : (◌≢◌ {A = String} "alice" "")
named e = absurd (no ((eq_iff "alice" "").1 e))
  where
    no : false ≡ true → ⊥
    no h = cc

one_governor_quorum_example :
    (is_approval_rule_valid (Api.rule (some (pos 3)) none (copies 3 "alice") "") members_map ≡ none)
    × (evaluate_rules
          (k8s_rule_to_dto (Api.rule (some (pos 3)) none (copies 3 "alice") ""))
          two_signed
        ≡ true)
one_governor_quorum_example =
    one_governor_quorum "alice" true 3 members_map two_signed named (omega arith)
      (unfold lookup in refl) (unfold lookup in refl)

-- A signature is the content with the key behind it.
abbrev checks : List String → String → String → Result (Unit {0})
checks [] content body = err "no key"
checks (key ∷ rest) content body =
    if (content +++ key) == body then ok tt else err "signature mismatch"

abbrev pgp_example : OpenPgp
pgp_example = record {
  Entity = String;
  Body = String;
  read_armored_key_ring = λ k. if k == "broken" then err "no armor" else ok (k ∷ []);
  has_primary_key = λ e. true;
  decode = λ s. ok s;
  check_detached_signature = checks;
}

abbrev governors : List Dto.Governor
governors =
    record { alias = "alice"; public_key = "A" }
    ∷ record { alias = "bob"; public_key = "broken" }
    ∷ record { alias = "carol"; public_key = "C" }
    ∷ []

abbrev in_order : ℕ → Texts → Texts
in_order i keys = keys

abbrev found_signatures : List String
found_signatures = "msrC" ∷ "forged" ∷ []

abbrev governor_keys_example : Texts
governor_keys_example = ("alice", "A") ∷ ("bob", "broken") ∷ ("carol", "C") ∷ []

in_order-Entries :
    (i : ℕ)
    → Entries
        (governor_keys pgp_example governors [])
        (in_order i (governor_keys pgp_example governors []))
unfolding governor_keys lookup
in_order-Entries i = (refl, (refl, (refl, tt)))

carol-HasSigned :
    HasSigned (get_verified_signers pgp_example in_order governors found_signatures "msr").0 "carol"
unfolding get_verified_signers lookup
carol-HasSigned = refl

signed_by_governor_example :
    (sig : String) × (key : String) × Memᴰ sig found_signatures
    × (lookup "carol" (governor_keys pgp_example governors []) ≡ some key)
    × (attempt pgp_example "msr" sig key ≡ matched)
signed_by_governor_example =
    signed_by_governor pgp_example in_order governors found_signatures "msr" in_order-Entries
      "carol" carol-HasSigned

signed-le-signatures_example :
    count_signed (get_verified_signers pgp_example in_order governors found_signatures "msr").0
    ≤ length found_signatures
signed-le-signatures_example =
    signed-le-signatures pgp_example in_order governors found_signatures "msr"

one_signed-Fulfilled :
    evaluate_rules
      (Dto.rule (some (pos 1)) none (leaves ("alice" ∷ "carol" ∷ [])) "")
      (get_verified_signers pgp_example in_order governors found_signatures "msr").0
    ≡ true
unfolding evaluate_rules get_verified_signers lookup
one_signed-Fulfilled = refl

alice-carol : (◌≢◌ {A = String} "alice" "carol")
alice-carol e = absurd (no ((eq_iff "alice" "carol").1 e))
  where
    no : false ≡ true → ⊥
    no h = cc

threshold-le-signatures_example : 1 ≤ length found_signatures
threshold-le-signatures_example =
    threshold-le-signatures pgp_example in_order governors found_signatures "msr" 1
      ("alice" ∷ "carol" ∷ []) ((alice-carol, tt), (tt, tt)) one_signed-Fulfilled

abbrev changes : List Dto.FileChange
changes =
    record {
      kind = "Deployment";
      status = Dto.new;
      name = "web";
      namespace = "default";
      sha256 = "sha:web";
      path = "web.yaml";
    }
    ∷ []

abbrev changed_files : ChangedFiles
changed_files = ("web.yaml", record { content = "web"; status = Dto.new; path = "web.yaml" }) ∷ []

abbrev sha_example : String → String
sha_example s = "sha:" +++ s

verify-accepted_iff_example :
    (verify_changed_files sha_example changes changed_files ≡ accepted)
    ↔ ((length changes ≡ length changed_files) × AllMatch sha_example changed_files changes)
verify-accepted_iff_example = verify-accepted_iff sha_example changed_files changes

changes-accepted : verify_changed_files sha_example changes changed_files ≡ accepted
unfolding verify_changed_files lookup
changes-accepted = refl

accepted_complete_example : Mem "web.yaml" (paths changes)
accepted_complete_example =
    accepted_complete sha_example changed_files changes "web.yaml"
      (Nodup-cons.1 (not-mem-nil, Nodup-nil)) changes-accepted mem-cons_self
