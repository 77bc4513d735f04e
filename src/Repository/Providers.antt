-- ===== src/Repository/Providers.antt =====
-- kubernetes/internal/repository/{github,gitlab,bitbucket}/repository.go: the three factories, which
-- differ in the host that they look for; and NewBaseGitProvider.
use quorum_based_manifests_g.Common.{
  Bool, true, false, [], none, String, ◌==◌, Result, ok, err, with_context, if◌then◌else◌,
}
use quorum_based_manifests_g.Template.Paths.{has_prefix}
use quorum_based_manifests_g.Repository.World.{PgpSecrets, Git, Provider}
use quorum_based_manifests_g.Repository.Sync.{sync}

-- strings.Contains
unfoldable pub contains : String → String → Bool
unfolding has_prefix
contains String.[] text = text == ""
contains (String.◌∷◌ c s) text =
    let rest = contains s text in if has_prefix (String.◌∷◌ c s) text then true else rest

-- IdentifyProvider
unfoldable pub is_github : String → Bool
unfolding contains
is_github repo_url = contains repo_url "github.com"

unfoldable pub is_gitlab : String → Bool
unfolding contains
is_gitlab repo_url = contains repo_url "gitlab.com"

unfoldable pub is_bitbucket : String → Bool
unfolding contains
is_bitbucket repo_url = contains repo_url "bitbucket.org"

module _ (g : Git) where
  unfoldable pub new_base_git_provider :
      String → String → g.Auth → PgpSecrets → g.State → Provider g
  new_base_git_provider remote_url local_path auth pgp_secrets state = record {
    state = state;
    remote_url = remote_url;
    local_path = local_path;
    repo = none;
    auth = auth;
    pgp_secrets = pgp_secrets;
    locked = false;
    faulty = false;
    log = [];
  }

  abbrev pub synced_provider : Result (Unit {0}) × Provider g → Result (Provider g) × g.State
  synced_provider (ok _, p) = (ok p, p.state)
  synced_provider (err e, p) = (err (with_context "initial sync failed" e), p.state)

  -- New of each factory: the provider is synchronized before it is handed out.
  unfoldable pub new_provider :
      String → String → g.Auth → PgpSecrets → g.State → Result (Provider g) × g.State
  unfolding new_base_git_provider sync
  new_provider remote_url local_path auth pgp_secrets state =
      synced_provider (sync g (new_base_git_provider remote_url local_path auth pgp_secrets state))
