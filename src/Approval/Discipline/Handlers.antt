-- ===== src/Approval/Discipline/Handlers.antt =====
-- The handlers of the MCA controller, as they run under the lock.
use quorum_based_manifests_g.Common.{Bool, true, String, Result, ◌≡◌, refl}
use quorum_based_manifests_g.Api.Approval.{HistoryRecord}
use quorum_based_manifests_g.Controller.{effect, current, modify, status_update, time_now}
use quorum_based_manifests_g.Controller.Triples.{HostLaws}
use quorum_based_manifests_g.Controller.Keeps.{
  Keeps as Kept, keeps_rules, Keeps-bind, Keeps-wrapped, Keeps-current, Keeps-effect, Keeps-modify,
  Keeps-time_now, Keeps-status_update, reading_rules, Reading,
}
use quorum_based_manifests_g.Controller.Git.{with_git_repository, with_git_repository-Keeps}
use quorum_based_manifests_g.Approval.World.{
  World, Action, Effect, updated, pushed_mca, pushed_summary, patched, notified, host,
}
use quorum_based_manifests_g.Approval.Save.{
  get_existing_mrt_for_mca, repository_with_error, get_application_for_mca, provider_for_mca,
  save_in_repository, push_summary, save_summary_changes, save_new_history_record, add_record,
  create_new_mca_history_record_from_spec,
}
use quorum_based_manifests_g.Approval.Create.{patch_target_revision}

-- The object itself is written without the lock, too; everything else wants it.
abbrev pub Permit : Effect → Bool → Type 0
Permit updated held = Unit
Permit (pushed_mca m) held = held ≡ true
Permit (pushed_summary f v) held = held ≡ true
Permit (patched c) held = held ≡ true
Permit notified held = held ≡ true

Permit-held : (e : Effect) (b : Bool) → b ≡ true → Permit e b
Permit-held updated b h = tt
Permit-held (pushed_mca m) b h = h
Permit-held (pushed_summary f v) b h = h
Permit-held (patched c) b h = h
Permit-held notified b h = h

module _ (w : World) where
  abbrev pub Keeps : {A : Type 0} → Action w A → Type 0
  Keeps m = Kept (host w) Permit m

  pub permitted :
      {A : Type 0} (e : Effect) (op : w.State → Result A × w.State) → Keeps (effect (host w) e op)
  permitted e op = Keeps-effect (host w) Permit e op (Permit-held e)

  ruleset rules = (keeps_rules, permitted)

  get_existing_mrt-Keeps : Keeps (get_existing_mrt_for_mca w)
  unfolding get_existing_mrt_for_mca
  get_existing_mrt-Keeps = search rules

  pub repository_with_error-Keeps : Keeps (repository_with_error w)
  unfolding repository_with_error
  repository_with_error-Keeps = search (rules, get_existing_mrt-Keeps)

  pub repository_with_error-Reading : Reading (host w) Permit (repository_with_error w)
  unfolding repository_with_error get_existing_mrt_for_mca
  repository_with_error-Reading = search reading_rules depth 7

  get_application-Keeps : Keeps (get_application_for_mca w)
  unfolding get_application_for_mca
  get_application-Keeps = search (rules, get_existing_mrt-Keeps)

  provider_for_mca-Keeps : Keeps (provider_for_mca w)
  unfolding provider_for_mca
  provider_for_mca-Keeps = search (rules, get_existing_mrt-Keeps)

  git-Keeps :
      {A : Type 0} (op : w.Repository → Action w A)
      → ((repo : w.Repository) → Keeps (op repo))
      → Keeps (with_git_repository (host w) (provider_for_mca w) op)
  git-Keeps op k = with_git_repository-Keeps (host w) Permit _ op provider_for_mca-Keeps k

  ruleset git_rules = (rules, git-Keeps)

  pub save_in_repository-Keeps : Keeps (save_in_repository w)
  unfolding save_in_repository
  save_in_repository-Keeps = search git_rules depth 8

  push_summary-Keeps : (c f content : String) → Keeps (push_summary w c f content)
  unfolding push_summary
  push_summary-Keeps c f content = search git_rules depth 9

  pub save_summary_changes-Keeps : Keeps (save_summary_changes w)
  unfolding save_summary_changes
  save_summary_changes-Keeps = search (git_rules, push_summary-Keeps) depth 9

  pub patch_target_revision-Keeps : Keeps (patch_target_revision w)
  unfolding patch_target_revision
  patch_target_revision-Keeps = search (rules, get_application-Keeps) depth 7

  add_record-Keeps : (r : HistoryRecord) → Keeps (modify (host w) (add_record w r))
  add_record-Keeps r = Keeps-modify (host w) Permit (add_record w r) (λ m. refl)

  pub save_new_history_record-Keeps :
      HostLaws (host w) → (c : String) → Keeps (save_new_history_record w c)
  unfolding save_new_history_record
  save_new_history_record-Keeps laws c =
      Keeps-bind (host w) Permit (time_now (host w)) _ (Keeps-time_now (host w) Permit) λ now.
        Keeps-bind (host w) Permit (current (host w)) _ (Keeps-current (host w) Permit) λ mca.
          let r = create_new_mca_history_record_from_spec mca now in
          Keeps-bind (host w) Permit (modify (host w) (add_record w r)) _ (add_record-Keeps r) λ _.
            Keeps-wrapped (host w) Permit c (status_update (host w))
              (Keeps-status_update (host w) Permit laws)
