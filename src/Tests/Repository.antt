-- ===== src/Tests/Repository.antt =====
-- The provider, the manager and the tool at concrete inputs.
use quorum_based_manifests_g.Common.{
  ℤ, Bool, true, false, List, [], ◌∷◌, Option, none, some, String, ◌==◌, ◌+++◌, refl, Result, ok,
  err, lookup,
}
use quorum_based_manifests_g.Api
use quorum_based_manifests_g.Exec.{Triple}
use quorum_based_manifests_g.Repository.Files.{Trees}
use quorum_based_manifests_g.Repository.World.{PgpSecrets, Entity, Git}
use quorum_based_manifests_g.Repository.Sync.{
  sync, get_remote_head_commit, get_local_head_commit, has_revision, is_not_after,
  get_latest_revision, get_changed_files, update_secrets,
}
use quorum_based_manifests_g.Repository.Fetch.{fetch_msr_by_version}
use quorum_based_manifests_g.Repository.Keys.{unlock_entity}
use quorum_based_manifests_g.Repository.Push.{push_msr, push_mca, push_summary_file}
use quorum_based_manifests_g.Repository.GovernorSignature.{push_governor_signature, delete_folder}
use quorum_based_manifests_g.Repository.Keeps.{Any, Free, Unlocked, Settles}
use quorum_based_manifests_g.Repository.Reading.{readers-Settle}
use quorum_based_manifests_g.Repository.Rollback.{HasEntities}
use quorum_based_manifests_g.Repository.Pushes.{writers-Settle}
use quorum_based_manifests_g.Repository.Decrypted.{IsDecrypted, unlock_entity-IsDecrypted}

abbrev pub lookup_result : Option String → Result String
lookup_result none = err "no file"
lookup_result (some s) = ok s

-- A tree is a list of paths with contents.
abbrev pub trees_example : Trees
trees_example = record {
  Tree = List (String × String);
  File = String;
  empty_tree = [];
  file = λ tree path. lookup_result (lookup path tree);
  contents = λ s. ok s;
  unmarshal = λ s. ok (record { kind = "ConfigMap"; name = s; namespace = "ns" });
  sha256_hex = λ s. "hash of " +++ s;
}

abbrev pub entity_example : Entity Bool
entity_example = record {
  primary_key = ok "key";
  private_key = some true;
  subkeys = some true ∷ none ∷ [];
}

-- A private key is whether it is encrypted; the state is the head.
abbrev pub git_example : Git
git_example = record {
  trees = trees_example;
  State = String;
  Repo = Unit {0};
  Worktree = Unit {0};
  Auth = Unit {0};
  Hash = String;
  Commit = String;
  File = String;
  PrivateKey = Bool;
  new_hash = λ s. s;
  hash_text = λ s. s;
  commit_hash = λ s. s;
  already_up_to_date = λ e. e == "already up-to-date";
  object_not_found = λ e. e == "object not found";
  not_exist = λ e. e == "not exist";
  matches = λ p t. true;
  plain_open = λ path s. (ok tt, s);
  plain_clone = λ path url auth s. (ok tt, s);
  worktree = λ r s. (ok tt, s);
  pull = λ w auth s. (err "already up-to-date", s);
  head = λ r s. (ok s, s);
  commit_object = λ r h s. (ok h, s);
  is_ancestor = λ a b s. (ok false, s);
  tree = λ c s. (ok [], s);
  patch = λ a b s. (ok [], s);
  list_remote = λ url auth s. (ok [], s);
  reset_hard = λ w h s. (ok tt, h);
  add = λ w p s. (ok tt, s);
  remove_glob = λ w p s. (ok tt, s);
  commit = λ w m e s. (ok m, m);
  push = λ r auth s. (err "rejected", s);
  mkdir_all = λ p s. (ok tt, s);
  write_file = λ p c s. (ok tt, s);
  stat = λ p s. (ok tt, s);
  remove_all = λ p s. (ok tt, s);
  open_file = λ w p s. (ok p, s);
  read_all = λ f s. (ok f, s);
  read_dir = λ w p s. (ok [], s);
  read_armored_key_ring = λ s. ok (entity_example ∷ []);
  is_encrypted = λ k. k;
  decrypt = λ k passphrase. (ok tt, false);
  detach_sign = λ e s. ok ("signature of " +++ s);
  marshal_msr = λ m. ok "msr";
  marshal_mca = λ m. ok "mca";
  unmarshal_msr = λ s. err "no request";
}

readers-Settle_example :
    Settles git_example (sync git_example)
    × ((commit : String) → Settles git_example (has_revision git_example commit))
    × ((ancestor child : String) → Settles git_example (is_not_after git_example ancestor child))
    × Settles git_example (get_remote_head_commit git_example)
    × Settles git_example (get_local_head_commit git_example)
    × Settles git_example (get_latest_revision git_example)
    × ((from_commit to_commit folder : String)
        → Settles git_example (get_changed_files git_example from_commit to_commit folder))
    × ((msr : Api.Signing.ManifestSigningRequest)
        → Settles git_example (fetch_msr_by_version git_example msr))
    × ((auth : Unit {0}) (s : PgpSecrets) → Settles git_example (update_secrets git_example auth s))
readers-Settle_example = readers-Settle git_example

pub ring_example : HasEntities git_example
ring_example text h = cc

writers-Settle_example :
    ((msr : Api.Signing.ManifestObject) → Settles git_example (push_msr git_example msr))
    × ((mca : Api.Approval.ManifestObject) → Settles git_example (push_mca git_example mca))
    × ((msr : Api.Signing.ManifestObject)
        → Settles git_example (push_governor_signature git_example msr))
    × ((path : String) → Settles git_example (delete_folder git_example path))
    × ((content name folder : String) (version : ℤ)
        → Triple
            (Free git_example (Any git_example))
            (push_summary_file git_example content name folder version)
            (λ _. Free git_example (Any git_example))
            (Unlocked git_example))
writers-Settle_example = writers-Settle git_example ring_example

unlock_entity-IsDecrypted_example :
    IsDecrypted git_example (record {
      primary_key = ok "key";
      private_key = some false;
      subkeys = some false ∷ none ∷ [];
    })
unlock_entity-IsDecrypted_example =
    unlock_entity-IsDecrypted git_example "secret" entity_example
      (record {
        primary_key = ok "key";
        private_key = some false;
        subkeys = some false ∷ none ∷ [];
      })
      (unfold unlock_entity in refl)
