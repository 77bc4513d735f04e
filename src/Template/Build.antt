-- ===== src/Template/Build.antt =====
-- The objects that the MRT controller makes: the first request, approval and queue of a template,
-- and a request's next version.
use quorum_based_manifests_g.Common.{pos, succ_ℤ, List, [], ◌∷◌, Option, none, some, String, ◌+++◌}
use quorum_based_manifests_g.Api.{ObjectMeta, FileChange, GovernorList, rule, nil}
use quorum_based_manifests_g.Api.Signing
use quorum_based_manifests_g.Api.Signing.{ManifestSigningRequest, SigningRequestStatus}
use quorum_based_manifests_g.Api.Approval
use quorum_based_manifests_g.Api.Approval.{ManifestChangeApproval}
use quorum_based_manifests_g.Api.Template.{
  PgpPrivateKeySecret, ManifestRequestTemplate, Application,
}
use quorum_based_manifests_g.Api.Governance.{GovernanceQueue}
use quorum_based_manifests_g.Template.Compare.{governance_path}

-- `mrt.Spec.PGP.PublicKey`. The cluster admits no template without the field; for a nil pointer, on
-- which the code would panic, the value has no meaning.
abbrev pub key_of : Option PgpPrivateKeySecret → String
key_of none = ""
key_of (some pgp) = pgp.public_key

-- `QubmangoGovernanceAlias`
abbrev pub qubmango_governance_alias : String
qubmango_governance_alias = "qubmango"

-- metav1.ObjectMeta with a name and a namespace
abbrev pub named : String → String → ObjectMeta
named name namespace = record {
  kind = "";
  api_version = "";
  name = name;
  namespace = namespace;
  uid = "";
  deletion_timestamp = none;
  finalizers = [];
  annotations = [];
}

-- The operator is the one governor of the first version.
abbrev pub initial_governors : ManifestRequestTemplate → GovernorList
initial_governors mrt = record {
  notification_channels = [];
  members = record { alias = qubmango_governance_alias; public_key = key_of mrt.spec.pgp } ∷ [];
}

unfoldable pub build_initial_msr :
    ManifestRequestTemplate → Application → List FileChange → String → ManifestSigningRequest
unfolding governance_path
build_initial_msr mrt application file_changes revision = record {
  metadata = named mrt.spec.msr.name mrt.spec.msr.namespace;
  spec = record {
    version = pos 0;
    commit_sha = revision;
    previous_commit_sha = "";
    mrt = record {
      name = mrt.metadata.name;
      namespace = mrt.metadata.namespace;
      version = mrt.spec.version;
    };
    public_key = key_of mrt.spec.pgp;
    git_repository_url = mrt.spec.ssh.url;
    locations = record {
      governance_path = governance_path mrt;
      source_path = application.source_path;
    };
    changes = file_changes;
    governors = initial_governors mrt;
    require = rule none none nil qubmango_governance_alias;
  };
  status = record {
    last_observed_commit_hash = "";
    request_history = [];
    status = SigningRequestStatus.unknown "";
    collected_signatures = [];
    action_state = Signing.ActionState.empty;
    reconcile_state = Signing.ReconcileState.empty;
    rules_fulfillment_state = Signing.FulfillmentState.empty;
    conditions = [];
  };
}

unfoldable pub build_initial_mca :
    ManifestRequestTemplate
    → ManifestSigningRequest
    → Application
    → List FileChange
    → String
    → ManifestChangeApproval
unfolding governance_path
build_initial_mca mrt msr application file_changes revision = record {
  metadata = named mrt.spec.mca.name mrt.spec.mca.namespace;
  spec = record {
    version = pos 0;
    commit_sha = revision;
    previous_commit_sha = "";
    mrt = record {
      name = mrt.metadata.name;
      namespace = mrt.metadata.namespace;
      version = mrt.spec.version;
    };
    msr = record {
      name = msr.metadata.name;
      namespace = msr.metadata.namespace;
      version = msr.spec.version;
    };
    public_key = key_of mrt.spec.pgp;
    git_repository_url = mrt.spec.ssh.url;
    locations = record {
      governance_path = governance_path mrt;
      source_path = application.source_path;
    };
    changes = file_changes;
    governors = initial_governors mrt;
    require = rule none none nil qubmango_governance_alias;
    collected_signatures = record { signer = qubmango_governance_alias } ∷ [];
  };
  status = record {
    approval_history = [];
    action_state = Approval.ActionState.empty;
    reconcile_state = Approval.ReconcileState.empty;
    conditions = [];
  };
}

-- `MRTQueuePrefix + mrt.Name`
unfoldable pub build_initial_governance_queue : ManifestRequestTemplate → GovernanceQueue
build_initial_governance_queue mrt = record {
  metadata = named ("queue-" +++ mrt.metadata.name) mrt.metadata.namespace;
  mrt = record { name = mrt.metadata.name; namespace = mrt.metadata.namespace };
  queue = [];
}

unfoldable pub get_msr_with_new_version :
    ManifestRequestTemplate
    → ManifestSigningRequest
    → Application
    → String
    → String
    → List FileChange
    → ManifestSigningRequest
unfolding governance_path
get_msr_with_new_version mrt msr application revision prev_revision changed_files = record msr {
  spec = record {
    version = succ_ℤ msr.spec.version;
    commit_sha = revision;
    previous_commit_sha = prev_revision;
    mrt = record {
      name = mrt.metadata.name;
      namespace = mrt.metadata.namespace;
      version = mrt.spec.version;
    };
    public_key = key_of mrt.spec.pgp;
    git_repository_url = mrt.spec.ssh.url;
    locations = record {
      governance_path = governance_path mrt;
      source_path = application.source_path;
    };
    changes = changed_files;
    governors = mrt.spec.governors;
    require = mrt.spec.require;
  };
}
