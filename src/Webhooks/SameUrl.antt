-- ===== src/Webhooks/SameUrl.antt =====
-- SameGitRepository on the two forms of a repository's URL.
use Prim.Native.Char.{Char}
use Prim.Native.Nat.{ℕ, suc, ◌+◌}
use text.Mathlib.TextLemmas.{nil-append, cons-append, append_assoc}
use quorum_based_manifests_g.Common.{
  true, false, String, ◌==◌, ◌+++◌, ◌≡◌, refl, ap, ok, arith, String-cases, eq_iff, inl, inr,
}
use quorum_based_manifests_g.Template.Paths.{has_prefix}
use quorum_based_manifests_g.Admission.Tracking.{HasNoColon, cut-append}
use quorum_based_manifests_g.Webhooks.GitUrl.{
  Urls, after_prefix, trim_prefix, trim_suffix, normalize_git_url, same_git_repository,
}

size : String → ℕ
size String.[] = 0
size (String.◌∷◌ c s) = suc (size s)

size-append : (p t : String) → size (p +++ t) ≡ size p + size t
unfolding size
size-append String.[] t = rw (nil-append t) (omega arith)
size-append (String.◌∷◌ c p) t = rw (cons-append c p t) (let ih = size-append p t in omega arith)

longer : (c : Char) (p : String) → (String.◌∷◌ c (p +++ ".git") == ".git") ≡ false
unfolding size
longer c p = elim (String-cases (String.◌∷◌ c (p +++ ".git")) ".git") [
  | inl (e, _) ↦ let n = size-append p ".git" in let m = ap size e in absurd (omega arith)
  | inr (_, e) ↦ e
]

trim_suffix-append : (p : String) → trim_suffix (p +++ ".git") ".git" ≡ p
unfolding trim_suffix
trim_suffix-append String.[] = refl
trim_suffix-append (String.◌∷◌ c p) =
    rw (cons-append c p ".git", longer c p) (ap (String.◌∷◌ c) (trim_suffix-append p))

git_prefix : (s t : String) → has_prefix (("git@" +++ s) +++ t) "git@" ≡ true
unfolding has_prefix
git_prefix s t =
    rw (append_assoc "git@" s t)
      (rw cons-append (rw cons-append (rw cons-append (rw cons-append refl))))

trim_git : (s : String) → trim_prefix ("git@" +++ s) "git@" ≡ s
unfolding trim_prefix has_prefix after_prefix
trim_git s = rw cons-append (rw cons-append (rw cons-append (rw cons-append (rw nil-append refl))))

trim_slash : (s : String) → trim_prefix ("/" +++ s) "/" ≡ s
unfolding trim_prefix has_prefix after_prefix
trim_slash s = rw cons-append (rw nil-append refl)

no_colon : (host : String) → HasNoColon host → HasNoColon ("git@" +++ host)
no_colon host h = rw cons-append (
    rw cons-append
      (rw cons-append (rw cons-append (refl, (refl, (refl, (refl, rw (nil-append host) h)))))))

-- The URL with `git@` of a repository and one without that is parsed as the same host and path are
-- the same repository, if the host has no colon and neither URL has space around it.
pub same_url_forms :
    (u : Urls) (host path url : String)
    → HasNoColon host
    → u.trim_space (("git@" +++ host) +++ (":" +++ (path +++ ".git")))
      ≡ ("git@" +++ host) +++ (":" +++ (path +++ ".git"))
    → u.trim_space url ≡ url
    → has_prefix url "git@" ≡ false
    → u.parse url ≡ ok (host, "/" +++ (path +++ ".git"))
    → same_git_repository u (("git@" +++ host) +++ (":" +++ (path +++ ".git"))) url ≡ ok true
unfolding same_git_repository normalize_git_url
same_url_forms u host path url h t1 t2 f p =
    rw
      (
        t1,
        t2,
        f,
        p,
        git_prefix host (":" +++ (path +++ ".git")),
        cut-append ("git@" +++ host) (path +++ ".git") (no_colon host h),
        trim_git host,
        trim_slash (path +++ ".git"),
        trim_suffix-append path,
      )
      (ap ok ((eq_iff _ _).1 refl))
