-- ===== src/Template/Texts.antt =====
-- What the tests on prefixes and suffixes of a text mean.
use Prim.Native.Char.{Char, char, code, IsLt, IsScalar}
use Prim.Native.Nat.{Ordering, compare}
use text.Mathlib.TextLemmas.{nil-append, cons-append}
use text.Mathlib.TextBridge.{IsPrefix, IsSuffix}
use quorum_based_manifests_g.Common.{
  ℕ, nat_eq, true, String, ◌==◌, ◌+++◌, ◌≡◌, ◌↔◌, refl, ap, sym, ◌∙◌, subst, arith, eq_iff,
  String-cases, Bool-cases, inl, inr,
}
use quorum_based_manifests_g.Template.Paths.{has_prefix, has_suffix}

-- The shape of `IsScalar`.
abbrev SecondRange : Ordering → Ordering → Type 0
SecondRange Ordering.lt o = IsLt o
SecondRange Ordering.eq _ = ⊥
SecondRange Ordering.gt _ = ⊥

abbrev Ranges : Ordering → Ordering → Ordering → Type 0
Ranges Ordering.lt _ _ = Unit
Ranges Ordering.eq o p = SecondRange o p
Ranges Ordering.gt o p = SecondRange o p

pair_unique : (o p : Ordering) (x y : SecondRange o p) → x ≡ y
pair_unique Ordering.lt Ordering.lt x y = refl
pair_unique Ordering.lt Ordering.eq x y = absurd x
pair_unique Ordering.lt Ordering.gt x y = absurd x
pair_unique Ordering.eq p x y = absurd x
pair_unique Ordering.gt p x y = absurd x

shape_unique : (o p q : Ordering) (x y : Ranges o p q) → x ≡ y
shape_unique Ordering.lt p q x y = refl
shape_unique Ordering.eq p q x y = pair_unique p q x y
shape_unique Ordering.gt p q x y = pair_unique p q x y

scalar_unique : (n : ℕ) (x y : IsScalar n) → x ≡ y
scalar_unique n x y = shape_unique (compare n 55296) (compare 57343 n) (compare n 1114112) x y

code_lem : (c d : Char) → nat_eq (code c) (code d) ≡ true → c ≡ d
code_lem (char m p) (char n q) h =
    let same : m ≡ n = ground arith in
    subst (λ k. (r : IsScalar k) → char m p ≡ char k r) same
      (λ r. ap (char m) (scalar_unique m p r)) q

prefix-IsPrefix : (s prefix : String) → has_prefix s prefix ≡ true → IsPrefix prefix s
unfolding has_prefix
prefix-IsPrefix s String.[] h = (s, nil-append s)
prefix-IsPrefix String.[] (String.◌∷◌ d prefix) h = absurd (cc)
prefix-IsPrefix (String.◌∷◌ c s) (String.◌∷◌ d prefix) h =
    elim (Bool-cases (nat_eq (code c) (code d))) [
      | inl e ↦
          let (rest, q) = prefix-IsPrefix s prefix (rw e at h) in
          (rest, rw (cons-append d prefix rest) (λ i. String.◌∷◌ (sym (code_lem c d e) i) (q i)))
      | inr e ↦ let h' = rw e at h in absurd (cc)
    ]

append-prefix : (prefix rest : String) → has_prefix (prefix +++ rest) prefix ≡ true
unfolding has_prefix
append-prefix String.[] rest = refl
append-prefix (String.◌∷◌ d prefix) rest =
    rw (cons-append d prefix rest) (let ih = append-prefix prefix rest in ground arith)

pub has_prefix_iff : (s prefix : String) → (has_prefix s prefix ≡ true) ↔ IsPrefix prefix s
has_prefix_iff s prefix = (
  prefix-IsPrefix s prefix,
  λ (rest, q). subst (λ t. has_prefix t prefix ≡ true) q (append-prefix prefix rest),
)

suffix-IsSuffix : (s suffix : String) → has_suffix s suffix ≡ true → IsSuffix suffix s
unfolding has_suffix
suffix-IsSuffix String.[] suffix h = (String.[], nil-append suffix ∙ (eq_iff suffix String.[]).0 h)
suffix-IsSuffix (String.◌∷◌ c s) suffix h = elim (String-cases (String.◌∷◌ c s) suffix) [
  | inl (e, t) ↦ (String.[], nil-append suffix ∙ sym e)
  | inr (n, t) ↦
      let (front, q) = suffix-IsSuffix s suffix (rw t at h) in
      (String.◌∷◌ c front, rw (cons-append c front suffix) (ap (String.◌∷◌ c) q))
]

self : (s : String) → has_suffix s s ≡ true
unfolding has_suffix
self String.[] = refl
self (String.◌∷◌ c s) = rw ((eq_iff (String.◌∷◌ c s) (String.◌∷◌ c s)).1 refl) refl

append-suffix : (front suffix : String) → has_suffix (front +++ suffix) suffix ≡ true
unfolding has_suffix
append-suffix String.[] suffix = rw (nil-append suffix) (self suffix)
append-suffix (String.◌∷◌ c front) suffix =
    rw (cons-append c front suffix) (elim (Bool-cases (String.◌∷◌ c (front +++ suffix) == suffix)) [
      | inl e ↦ rw e refl
      | inr e ↦ rw e (append-suffix front suffix)
    ])

pub has_suffix_iff : (s suffix : String) → (has_suffix s suffix ≡ true) ↔ IsSuffix suffix s
has_suffix_iff s suffix = (
  suffix-IsSuffix s suffix,
  λ (front, q). subst (λ t. has_suffix t suffix ≡ true) q (append-suffix front suffix),
)
