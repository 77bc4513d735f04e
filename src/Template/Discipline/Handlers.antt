-- ===== src/Template/Discipline/Handlers.antt =====
-- The handlers of the MRT controller, as they run under the lock.
use quorum_based_manifests_g.Common.{
  Bool, true, List, [], ◌∷◌, Option, some, none, String, Result, ok, err, ◌≡◌, refl,
}
use quorum_based_manifests_g.Api.{FileChange, ManifestRef}
use quorum_based_manifests_g.Api.Signing.{ManifestSigningRequest}
use quorum_based_manifests_g.Api.Approval.{ManifestChangeApproval}
use quorum_based_manifests_g.Api.Template.{RevisionState, Application}
use quorum_based_manifests_g.Api.Governance.{EventReference, GovernanceEvent}
use quorum_based_manifests_g.Exec.{◌>>=◌, wrapped}
use quorum_based_manifests_g.Controller.{effect, modify}
use quorum_based_manifests_g.Controller.Git.{with_git_repository, with_git_repository-Keeps}
use quorum_based_manifests_g.Controller.Keeps.{
  Keeps as Kept, keeps_rules, Keeps-bind, Keeps-pure, Keeps-raise, Keeps-wrapped, Keeps-current,
  Keeps-effect, Keeps-modify, Keeps-status_update, Keeps-if, Keeps-both,
}
use quorum_based_manifests_g.Template.World.{
  World, Action, Effect, restored, deleted_folder, created_msr, created_mca, created_queue,
  created_event, deleted_event, updated_msr, notified, updated, host,
}
use quorum_based_manifests_g.Template.Queue.{
  supported, head_event, revisions_queue_head, remove_revisions_queue_head,
}
use quorum_based_manifests_g.Template.Create.{get_application, repository_with_error}
use quorum_based_manifests_g.Template.Revision.{
  set_observed, get_msr, get_mca, lift, skips_in_repository, should_skip_revision, pop_and,
  after_preflight, observed, refused, save_new_version, unless_refused, update_with,
  perform_msr_update, after_update,
}
use quorum_based_manifests_g.Template.Normal.{
  any_revision_events, replaced_error, check_dependencies,
}

-- The restoration and the removal of the folder belong to the deletion, and an event is created
-- before the work on it: these want no lock. Everything else does.
abbrev pub Permit : Effect → Bool → Type 0
Permit (restored revision) held = Unit
Permit (deleted_folder path) held = Unit
Permit (created_event event) held = Unit
Permit updated held = Unit
Permit (created_msr msr) held = held ≡ true
Permit (created_mca mca) held = held ≡ true
Permit (created_queue queue) held = held ≡ true
Permit (deleted_event event) held = held ≡ true
Permit (updated_msr msr) held = held ≡ true
Permit (notified message) held = held ≡ true

Permit-held : (e : Effect) (b : Bool) → b ≡ true → Permit e b
Permit-held (restored revision) b h = tt
Permit-held (deleted_folder path) b h = tt
Permit-held (created_event event) b h = tt
Permit-held updated b h = tt
Permit-held (created_msr msr) b h = h
Permit-held (created_mca mca) b h = h
Permit-held (created_queue queue) b h = h
Permit-held (deleted_event event) b h = h
Permit-held (updated_msr msr) b h = h
Permit-held (notified message) b h = h

module _ (w : World) where
  abbrev pub Keeps : {A : Type 0} → Action w A → Type 0
  Keeps m = Kept (host w) Permit m

  pub permitted :
      {A : Type 0} (e : Effect) (op : w.State → Result A × w.State) → Keeps (effect (host w) e op)
  permitted e op = Keeps-effect (host w) Permit e op (Permit-held e)

  pub ruleset rules = (keeps_rules, permitted)

  pub get_application-Keeps : Keeps (get_application w)
  unfolding get_application
  get_application-Keeps = search rules

  pub repository_with_error-Keeps : Keeps (repository_with_error w)
  unfolding repository_with_error
  repository_with_error-Keeps = search rules

  pub git-Keeps :
      {A : Type 0} (op : w.Repository → Action w A)
      → ((repo : w.Repository) → Keeps (op repo))
      → Keeps (with_git_repository (host w) (repository_with_error w) op)
  git-Keeps op k = with_git_repository-Keeps (host w) Permit _ op repository_with_error-Keeps k

  pub ruleset git_rules = (rules, get_application-Keeps, git-Keeps)

  supported-Keeps : (event : GovernanceEvent) → Keeps (supported w event)
  supported-Keeps event = search rules

  head_event-Keeps : (queue : List EventReference) → Keeps (head_event w queue)
  unfolding head_event
  head_event-Keeps [] = Keeps-raise (host w) Permit _
  head_event-Keeps (ref ∷ queue) = search (rules, supported-Keeps)

  pub queue_head-Keeps : (ref : ManifestRef) → Keeps (revisions_queue_head w ref)
  unfolding revisions_queue_head
  queue_head-Keeps ref = search (rules, head_event-Keeps) depth 7

  remove_head-Keeps : (ref : ManifestRef) → Keeps (remove_revisions_queue_head w ref)
  unfolding remove_revisions_queue_head
  remove_head-Keeps ref = search (rules, queue_head-Keeps) depth 7

  pop_and-Keeps : (next : RevisionState) → Keeps (pop_and w next)
  unfolding pop_and
  pop_and-Keeps next = search (rules, remove_head-Keeps) depth 7

  get_msr-Keeps : Keeps (get_msr w)
  unfolding get_msr
  get_msr-Keeps = search rules

  get_mca-Keeps : Keeps (get_mca w)
  unfolding get_mca
  get_mca-Keeps = search rules

  lift-Keeps : {A : Type 0} (r : Result A) → Keeps (lift w r)
  lift-Keeps (ok a) = Keeps-pure (host w) Permit a
  lift-Keeps (err e) = Keeps-raise (host w) Permit e

  skips-Keeps : (revision : String) → Keeps (skips_in_repository w revision)
  unfolding skips_in_repository
  skips-Keeps revision = search (git_rules, get_msr-Keeps) depth 9

  should_skip-Keeps : (revision : String) → Keeps (should_skip_revision w revision)
  unfolding should_skip_revision
  should_skip-Keeps revision = search (rules, get_mca-Keeps, skips-Keeps) depth 8

  after_preflight-Keeps : (b : Bool) → Keeps (after_preflight w b)
  unfolding after_preflight
  after_preflight-Keeps b = search (rules, pop_and-Keeps)

  pub preflight-Keeps :
      (revision : String)
      → Keeps (
          wrapped "evaluate new revision from revision queue" (should_skip_revision w revision)
          >>= after_preflight w)
  preflight-Keeps revision = search (rules, should_skip-Keeps, after_preflight-Keeps)

  observed-Keeps : (revision : String) → Keeps (modify (host w) (set_observed revision))
  observed-Keeps revision = Keeps-modify (host w) Permit (set_observed revision) (λ m. refl)

  left-Keeps : (revision : String) → Keeps (observed w revision)
  unfolding observed
  left-Keeps revision = search (rules, observed-Keeps)

  refused-Keeps : (revision message : String) → Keeps (refused w revision message)
  unfolding refused
  refused-Keeps revision message = search (rules, observed-Keeps) depth 8

  unless-Keeps :
      (revision : String) (message : Option String) (go_on : Action w Bool)
      → Keeps go_on
      → Keeps (unless_refused w revision message go_on)
  unless-Keeps revision none go_on k = k
  unless-Keeps revision (some message) go_on k = refused-Keeps revision message

  save-Keeps :
      (msr : ManifestSigningRequest) (mca : ManifestChangeApproval) (application : Application)
      (revision : String) (changed_files : List FileChange)
      → Keeps (save_new_version w msr mca application revision changed_files)
  unfolding save_new_version
  save-Keeps msr mca application revision changed_files = search rules depth 8

  update_with-Keeps :
      (msr : ManifestSigningRequest) (mca : ManifestChangeApproval) (application : Application)
      (revision : String) (changed_files : List FileChange) (content_map : List (String × String))
      → Keeps (update_with w msr mca application revision changed_files content_map)
  unfolding update_with
  update_with-Keeps msr mca application revision changed_files content_map =
      search (rules, left-Keeps, unless-Keeps, save-Keeps, lift-Keeps) depth 12

  pub perform_msr_update-Keeps : (revision : String) → Keeps (perform_msr_update w revision)
  unfolding perform_msr_update
  perform_msr_update-Keeps revision =
      search (git_rules, get_msr-Keeps, get_mca-Keeps, update_with-Keeps) depth 12

  after_update-Keeps : (b : Bool) → Keeps (after_update w b)
  unfolding after_update
  after_update-Keeps b = search (rules, pop_and-Keeps)

  pub update_msr-Keeps :
      (revision : String)
      → Keeps (
          wrapped "perform ManifestSigningRequest update" (perform_msr_update w revision)
          >>= after_update w)
  update_msr-Keeps revision = search (rules, perform_msr_update-Keeps, after_update-Keeps)

  pub finish-Keeps :
      (revision : String)
      → Keeps (modify (host w) (set_observed revision) >>= λ _. pop_and w RevisionState.empty)
  finish-Keeps revision = search (rules, observed-Keeps, pop_and-Keeps)

  pub any_events-Keeps : Keeps (any_revision_events w)
  unfolding any_revision_events
  any_events-Keeps = search rules depth 7

  replaced-Keeps : {A : Type 0} (e : String) (r : Result A) → Keeps (replaced_error w e r)
  replaced-Keeps e (ok a) = Keeps-pure (host w) Permit a
  replaced-Keeps e (err e') = Keeps-raise (host w) Permit e

  pub check_dependencies-Keeps : Keeps (check_dependencies w)
  unfolding check_dependencies
  check_dependencies-Keeps = search (rules, replaced-Keeps) depth 12
