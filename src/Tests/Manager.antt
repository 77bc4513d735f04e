-- ===== src/Tests/Manager.antt =====
-- The manager at a concrete cluster.
use quorum_based_manifests_g.Common.{true, [], ◌∷◌, some, String, ◌≡◌, refl, ok, err, pos, lookup}
use quorum_based_manifests_g.Api.Template.{ManifestRequestTemplate}
use quorum_based_manifests_g.Manager.{Services, Factory, Manager}
use quorum_based_manifests_g.Manager.Provide.{get_provider_for_mrt}
use quorum_based_manifests_g.Manager.Cache.{IsConsistent}
use quorum_based_manifests_g.Manager.HandedOut.{get_provider-IsConsistent, handed_out_again}
use quorum_based_manifests_g.Tests.Approval.{mrt_example}

-- The providers are texts; every secret has a key.
abbrev services_example : Services
services_example = record {
  State = Unit {0};
  Provider = String;
  Keys = String;
  Callback = Unit {0};
  sha1_hex = λ s. s;
  not_exist = λ e. true;
  get_secret = λ ref s. (ok (("privateKey", "P") ∷ ("ssh-privateKey", "S") ∷ []), s);
  stat = λ p s. (ok tt, s);
  known_hosts = λ p s. (ok tt, s);
  new_public_keys = λ key passphrase. ok key;
  with_callback = λ k c. k;
  update_secrets = λ p. some (λ keys pgp s. (err "busy", s));
  now = λ s. (1000, s);
}

abbrev factory_example : Factory services_example
factory_example = record {
  new = λ url path keys pgp s. (ok "provider", s);
  identify_provider = λ url. true;
}

abbrev manager_example : Manager services_example
manager_example = record {
  state = tt;
  base_path = "/tmp";
  known_hosts_path = "/hosts";
  providers = factory_example ∷ [];
  providers_to_mrt = [];
  mrt_references = [];
  last_secret_refresh = [];
  secret_refresh_ttl = pos 600;
}

manager_example-IsConsistent : IsConsistent services_example manager_example
unfolding lookup
manager_example-IsConsistent url = (refl, refl)

-- A template with the secrets' references.
abbrev ready_mrt : ManifestRequestTemplate
ready_mrt = record mrt_example {
  spec = record mrt_example.spec {
    ssh = record { url = "git"; secrets_ref = some (record { name = "ssh"; namespace = "ns" }) };
    pgp =
        some (record { public_key = "P"; secrets_ref = record { name = "pgp"; namespace = "ns" } });
  };
}

get_provider-IsConsistent_example :
    IsConsistent services_example
      (get_provider_for_mrt services_example ready_mrt manager_example).1
get_provider-IsConsistent_example =
    get_provider-IsConsistent services_example manager_example ready_mrt
      manager_example-IsConsistent

handed_out_again_example :
    (m2 : Manager services_example) × (get_provider_for_mrt services_example ready_mrt
        (get_provider_for_mrt services_example ready_mrt manager_example).1
      ≡ (ok "provider", m2))
handed_out_again_example =
    handed_out_again services_example manager_example ready_mrt "provider"
      (get_provider_for_mrt services_example ready_mrt manager_example).1 ready_mrt
      manager_example-IsConsistent (unfold get_provider_for_mrt in refl) refl
