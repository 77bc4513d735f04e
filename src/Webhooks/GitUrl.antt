-- ===== src/Webhooks/GitUrl.antt =====
-- kubernetes/internal/webhook/v1alpha1/manifestrequesttemplate_webhook.go: SameGitRepository and
-- normalizeGitURL.
use quorum_based_manifests_g.Common.{
  Bool, Option, none, some, String, ◌==◌, ◌+++◌, Result, ok, err, wrap, if◌then◌else◌,
}
use quorum_based_manifests_g.Template.Paths.{has_prefix}
use quorum_based_manifests_g.Admission.{cut}

-- What is used of Go's `url` and of Unicode: a URL's host and path, `strings.TrimSpace` and
-- `strings.ToLower`.
pub record Urls : Type 0 where
  pub trim_space : String → String
  pub to_lower : String → String
  pub parse : String → Result (String × String)

-- strings.TrimPrefix
unfoldable pub after_prefix : String → String → String
after_prefix s String.[] = s
after_prefix String.[] (String.◌∷◌ d prefix) = String.[]
after_prefix (String.◌∷◌ c s) (String.◌∷◌ d prefix) = after_prefix s prefix

unfoldable pub trim_prefix : String → String → String
unfolding has_prefix after_prefix
trim_prefix s prefix = if has_prefix s prefix then after_prefix s prefix else s

-- strings.TrimSuffix; the suffix is not empty where it is used.
unfoldable pub trim_suffix : String → String → String
trim_suffix String.[] suffix = String.[]
trim_suffix (String.◌∷◌ c s) suffix =
    let rest = trim_suffix s suffix in
    if String.◌∷◌ c s == suffix then String.[] else String.◌∷◌ c rest

module _ (u : Urls) where
  -- `strings.ToLower(fmt.Sprintf("%s/%s", host, path))`
  abbrev pub host_and_path : String → String → String
  host_and_path host path = u.to_lower (host +++ "/" +++ path)

  abbrev pub of_parts : String → Option (String × String) → Result String
  of_parts raw none = err ("invalid SSH URL: " +++ raw)
  of_parts raw (some (before, after)) =
      ok (host_and_path (trim_prefix before "git@") (trim_suffix after ".git"))

  abbrev pub of_url : Result (String × String) → Result String
  of_url (err e) = err e
  of_url (ok (host, path)) = ok (host_and_path host (trim_suffix (trim_prefix path "/") ".git"))

  -- The two cases of a URL that is parsed have the same body.
  unfoldable pub normalize_git_url : String → Result String
  unfolding has_prefix trim_prefix trim_suffix cut
  normalize_git_url untrimmed =
      let raw = u.trim_space untrimmed in
      if has_prefix raw "git@" then of_parts raw (cut raw) else of_url (u.parse raw)

  abbrev pub compared : Result String → Result String → Result Bool
  compared (ok n1) (ok n2) = ok (n1 == n2)
  compared (ok n1) (err e) = err e
  compared (err e) _ = err e

  unfoldable pub same_git_repository : String → String → Result Bool
  unfolding normalize_git_url
  same_git_repository first_url second_url =
      compared (wrap "normalize first URL" (normalize_git_url first_url))
        (wrap "normalize second URL" (normalize_git_url second_url))
