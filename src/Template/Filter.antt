-- ===== src/Template/Filter.antt =====
-- What is left of the files of a revision when the MRT controller has filtered them.
use mathlib.Core.List.{Memᴰ}
use text.Mathlib.TextBridge.{IsPrefix, IsSuffix}
use quorum_based_manifests_g.Common.{
  Bool, true, false, not, ◌&&◌, ◌||◌, List, [], ◌∷◌, String, ◌==◌, ◌+++◌, ◌≡◌, ◌≢◌, ◌⊎◌, ◌↔◌, inl,
  inr, refl, subst, sym, ◌∙◌, eq_iff, Bool-cases, String-cases, arith, if◌then◌else◌,
}
use quorum_based_manifests_g.Api.{FileChange}
use quorum_based_manifests_g.Api.Template.{ManifestRequestTemplate}
use quorum_based_manifests_g.Template.Paths.{clean, has_prefix, has_suffix}
use quorum_based_manifests_g.Template.Texts.{has_prefix_iff, has_suffix_iff}
use quorum_based_manifests_g.Template.Compare.{
  is_governed, keep_governed, governance_path, filter_non_manifest_files,
}

kept-Mem :
    (folder : String) (files : List FileChange) (f : FileChange)
    → Memᴰ f (keep_governed folder files)
    → Memᴰ f files × (is_governed folder f ≡ true)
unfolding keep_governed
kept-Mem folder [] f m = elim m [ ]
kept-Mem folder (g ∷ files) f m = go (kept-Mem folder files f) (is_governed folder g) refl m
  where
    go :
        (Memᴰ f (keep_governed folder files) → Memᴰ f files × (is_governed folder f ≡ true))
        → (b : Bool) → is_governed folder g ≡ b
        → Memᴰ f (if b then g ∷ keep_governed folder files else keep_governed folder files)
        → Memᴰ f (g ∷ files) × (is_governed folder f ≡ true)
    go ih true t (Memᴰ.head e) = (Memᴰ.head e, subst (λ x. is_governed folder x ≡ true) (sym e) t)
    go ih true t (Memᴰ.tail n) = let (k, l) = ih n in (Memᴰ.tail k, l)
    go ih false t n = let (k, l) = ih n in (Memᴰ.tail k, l)

Mem-kept :
    (folder : String) (files : List FileChange) (f : FileChange)
    → Memᴰ f files
    → is_governed folder f ≡ true
    → Memᴰ f (keep_governed folder files)
unfolding keep_governed
Mem-kept folder (g ∷ files) f m h =
    go (λ n. Mem-kept folder files f n h) (is_governed folder g) refl m
  where
    go :
        (Memᴰ f files → Memᴰ f (keep_governed folder files))
        → (b : Bool) → is_governed folder g ≡ b
        → Memᴰ f (g ∷ files)
        → Memᴰ f (if b then g ∷ keep_governed folder files else keep_governed folder files)
    go ih true t (Memᴰ.head e) = Memᴰ.head e
    go ih true t (Memᴰ.tail n) = Memᴰ.tail (ih n)
    go ih false t (Memᴰ.head e) = absurd (no (sym t ∙ subst (λ x. is_governed folder x ≡ true) e h))
      where
        no : false ≡ true → ⊥
        no q = cc
    go ih false t (Memᴰ.tail n) = ih n
Mem-kept folder [] f m h = elim m [ ]

-- A file that Argo CD applies: its path ends like a manifest's, or it has a kind.
abbrev pub IsManifest : FileChange → Type 0
IsManifest f = IsSuffix ".yaml" (clean f.path) ⊎ IsSuffix ".yml" (clean f.path) ⊎ (f.kind ≢ "")

abbrev pub IsIn : String → FileChange → Type 0
IsIn folder f = IsPrefix (folder +++ "/") (clean f.path)

-- The tests on a file, from their values.
tests :
    (y m k i : Bool)
    → ((y || m || not k) && not i) ≡ true
    → ((y ≡ true) ⊎ (m ≡ true) ⊎ (k ≡ false)) × (i ≡ false)
tests true m k false h = (inl refl, refl)
tests false true k false h = (inr (inl refl), refl)
tests false false false false h = (inr (inr refl), refl)
tests false false true i h = absurd (cc)
tests true m k true h = absurd (cc)
tests false true k true h = absurd (cc)
tests false false false true h = absurd (cc)

governed-IsManifest :
    (folder : String) (f : FileChange)
    → is_governed folder f ≡ true
    → IsManifest f × (¬ (IsIn folder f))
unfolding is_governed
governed-IsManifest folder f h =
    let path = clean f.path in
    let (one, out) =
      tests (has_suffix path ".yaml") (has_suffix path ".yml") (f.kind == "")
        (has_prefix path (folder +++ "/")) h in
    (
      elim one [
        | inl e ↦ inl ((has_suffix_iff path ".yaml").0 e)
        | inr (inl e) ↦ inr (inl ((has_suffix_iff path ".yml").0 e))
        | inr (inr e) ↦ inr (inr (λ q. differ e ((eq_iff f.kind "").1 q)))
      ],
      λ p. differ out ((has_prefix_iff path (folder +++ "/")).1 p),
    )
  where
    differ : {b : Bool} → b ≡ false → b ≡ true → ⊥
    differ u v = let q : false ≡ true = sym u ∙ v in cc

IsManifest-governed :
    (folder : String) (f : FileChange)
    → IsManifest f
    → (¬ (IsIn folder f))
    → is_governed folder f ≡ true
unfolding is_governed
IsManifest-governed folder f one out =
    let path = clean f.path in
    let outside : has_prefix path (folder +++ "/") ≡ false =
      elim (Bool-cases (has_prefix path (folder +++ "/"))) [
        | inl e ↦ absurd (out ((has_prefix_iff path (folder +++ "/")).0 e))
        | inr e ↦ e
      ] in
    elim one [
      | inl s ↦ rw (outside, (has_suffix_iff path ".yaml").1 s) refl
      | inr (inl s) ↦ let e = (has_suffix_iff path ".yml").1 s in rw outside (ground (arith, e))
      | inr (inr k) ↦ elim (String-cases f.kind "") [
        | inl (q, _) ↦ absurd (k q)
        | inr (_, e) ↦ rw outside (ground (arith, e))
      ]
    ]

-- The files of a revision that a new version of the request lists are exactly those whose cleaned
-- path ends in `.yaml` or `.yml` or that have a kind, and whose cleaned path does not begin with the
-- governance folder's and a slash.
pub filter-Mem_iff :
    (files : List FileChange) (mrt : ManifestRequestTemplate) (f : FileChange)
    → Memᴰ f (filter_non_manifest_files files mrt)
      ↔ (Memᴰ f files × IsManifest f × (¬ (IsIn (clean (governance_path mrt)) f)))
unfolding filter_non_manifest_files
filter-Mem_iff files mrt f =
    let folder = clean (governance_path mrt) in
    (
      λ m.
          let (k, h) = kept-Mem folder files f m in
          let (one, out) = governed-IsManifest folder f h in (k, one, out),
      λ (k, one, out). Mem-kept folder files f k (IsManifest-governed folder f one out),
    )
