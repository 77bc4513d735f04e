-- ===== src/Controller/Git.antt =====
-- kubernetes/internal/controller/repository_timeout.go: a call of a Git repository. The timeout is left to
-- the interface.
use quorum_based_manifests_g.Common.{Bool, Option, none, some}
use quorum_based_manifests_g.Exec.{pure, raise, ◌>>=◌}
use quorum_based_manifests_g.Controller.{Host, Action}
use quorum_based_manifests_g.Controller.Keeps.{Keeps, Keeps-bind, Keeps-pure, Keeps-raise}

module _ (h : Host) {R : Type 0} where
  -- `if repo == nil`
  unfoldable pub provided : Option R → Action h R
  unfolding pure raise
  provided none = raise "git repository provider is nil"
  provided (some repo) = pure repo

  -- `withGitRepository`
  unfoldable pub with_git_repository :
      {A : Type 0} → Action h (Option R) → (R → Action h A) → Action h A
  unfolding ◌>>=◌ provided
  with_git_repository get_provider op = do found ← get_provider; repo ← provided found; op repo

  module _ (Permit : h.Effect → Bool → Type 0) where
    provided-Keeps : (found : Option R) → Keeps h Permit (provided found)
    unfolding provided
    provided-Keeps none = Keeps-raise h Permit _
    provided-Keeps (some repo) = Keeps-pure h Permit repo

    pub with_git_repository-Keeps :
        {A : Type 0} (get_provider : Action h (Option R)) (op : R → Action h A)
        → Keeps h Permit get_provider
        → ((repo : R) → Keeps h Permit (op repo))
        → Keeps h Permit (with_git_repository get_provider op)
    unfolding with_git_repository
    with_git_repository-Keeps get_provider op k ko =
        Keeps-bind h Permit get_provider _ k
          λ found. Keeps-bind h Permit (provided found) op (provided-Keeps found) ko
