-- ===== src/Template/DeepEqual.antt =====
-- `reflect.DeepEqual`, as the controllers and the webhooks compare specifications: values that
-- compare as the same are equal.
use quorum_based_manifests_g.Common.{
  pos, negsuc, Bool, true, false, [], ◌∷◌, none, some, ◌==◌, eq_iff, both_true, ◌≡◌, refl, ap,
  arith,
}
use quorum_based_manifests_g.Api.{rule, nil, cons}
use quorum_based_manifests_g.Template.Compare.{
  same_option, same_list, same_int, same_bool, same_channel, same_governor, same_governors,
  same_rule, same_rules,
}

abbrev pub IsSound {ℓ} : {A : Type ℓ} → (A → A → Bool) → Type ℓ
IsSound {A} same = (a b : A) → same a b ≡ true → a ≡ b

pub text-IsSound : IsSound ◌==◌
text-IsSound a b h = (eq_iff a b).0 h

pub same_int-IsSound : IsSound same_int
same_int-IsSound (pos a) (pos b) h = ground arith
same_int-IsSound (negsuc a) (negsuc b) h = ground arith
same_int-IsSound (pos a) (negsuc b) h = absurd (cc)
same_int-IsSound (negsuc a) (pos b) h = absurd (cc)

same_bool-IsSound : IsSound same_bool
same_bool-IsSound true true h = refl
same_bool-IsSound true false h = absurd (cc)
same_bool-IsSound false true h = absurd (cc)
same_bool-IsSound false false h = refl

same_option-IsSound {ℓ} :
    {A : Type ℓ} (same : A → A → Bool) → IsSound same → IsSound (same_option same)
same_option-IsSound same k none none h = refl
same_option-IsSound same k (some a) (some b) h = ap some (k a b h)
same_option-IsSound same k none (some b) h = absurd (cc)
same_option-IsSound same k (some a) none h = absurd (cc)

pub same_list-IsSound {ℓ} :
    {A : Type ℓ} (same : A → A → Bool) → IsSound same → IsSound (same_list same)
unfolding same_list
same_list-IsSound same k [] [] h = refl
same_list-IsSound same k [] (y ∷ ys) h = absurd (cc)
same_list-IsSound same k (x ∷ xs) [] h = absurd (cc)
same_list-IsSound same k (x ∷ xs) (y ∷ ys) h =
    let (head, tail) = both_true _ _ h in λ i. k x y head i ∷ same_list-IsSound same k xs ys tail i

same_channel-IsSound : IsSound same_channel
same_channel-IsSound a b h = λ i. record {
  slack =
      same_option-IsSound (λ s t. s.channel_id == t.channel_id)
        (λ s t e. λ j. record { channel_id = text-IsSound s.channel_id t.channel_id e j }) a.slack
        b.slack h i;
}

same_governor-IsSound : IsSound same_governor
same_governor-IsSound a b h =
    let (alias, key) = both_true (a.alias == b.alias) (a.public_key == b.public_key) h in
    λ i. record {
      alias = text-IsSound a.alias b.alias alias i;
      public_key = text-IsSound a.public_key b.public_key key i;
    }

pub same_governors-IsSound : IsSound same_governors
same_governors-IsSound a b h =
    let (channels, members) = both_true _ _ h in
    λ i. record {
      notification_channels =
          same_list-IsSound same_channel same_channel-IsSound a.notification_channels
            b.notification_channels channels i;
      members = same_list-IsSound same_governor same_governor-IsSound a.members b.members members i;
    }

mutual
  unfolding same_rule same_rules

  pub same_rule-IsSound : IsSound same_rule
  same_rule-IsSound (rule n all rs signer) (rule m all' rs' signer') h =
      let (h2, children) = both_true _ _ h in
      let (h1, signers) = both_true _ _ h2 in
      let (counts, alls) = both_true _ _ h1 in
      λ i.
        rule (same_option-IsSound same_int same_int-IsSound n m counts i)
          (same_option-IsSound same_bool same_bool-IsSound all all' alls i)
          (same_rules-IsSound rs rs' children i) (text-IsSound signer signer' signers i)

  same_rules-IsSound : IsSound same_rules
  same_rules-IsSound nil nil h = refl
  same_rules-IsSound nil (cons r rs) h = absurd (cc)
  same_rules-IsSound (cons r rs) nil h = absurd (cc)
  same_rules-IsSound (cons r rs) (cons q qs) h =
      let (head, tail) = both_true _ _ h in
      λ i. cons (same_rule-IsSound r q head i) (same_rules-IsSound rs qs tail i)
