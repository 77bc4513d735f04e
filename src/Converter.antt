-- ===== src/Converter.antt =====
-- kubernetes/api/v1alpha1/converter: the in-cluster form of a rule, of files and of governors to
-- the form of pkg/api/dto.
use quorum_based_manifests_g.Common.{List, map, Option, none, some}
use quorum_based_manifests_g.Api
use quorum_based_manifests_g.Api.Signing.{ManifestSigningRequestSpec, ManifestSigningRequest}
use quorum_based_manifests_g.Dto

unfoldable pub k8s_locations_to_dto : Api.Locations → Dto.Locations
k8s_locations_to_dto loc = record {
  governance_path = loc.governance_path;
  source_path = loc.source_path;
}

-- `dto.FileChangeStatus(c.Status)` keeps the text.
unfoldable pub file_change_status : Api.FileChangeStatus → Dto.FileChangeStatus
file_change_status Api.new = Dto.new
file_change_status Api.updated = Dto.updated
file_change_status Api.deleted = Dto.deleted
file_change_status (Api.unknown s) = Dto.unknown s

unfoldable pub file_change : Api.FileChange → Dto.FileChange
unfolding file_change_status
file_change c = record {
  kind = c.kind;
  status = file_change_status c.status;
  name = c.name;
  namespace = c.namespace;
  sha256 = c.sha256;
  path = c.path;
}

unfoldable pub k8s_changes_to_dto : List Api.FileChange → List Dto.FileChange
unfolding file_change
k8s_changes_to_dto changes = map file_change changes

unfoldable pub k8s_slack_to_dto : Option Api.SlackChannel → Option Dto.SlackChannel
k8s_slack_to_dto none = none
k8s_slack_to_dto (some slack) = some (record { channel_id = slack.channel_id })

unfoldable pub k8s_channels_to_dto : List Api.NotificationChannel → List Dto.NotificationChannel
unfolding k8s_slack_to_dto
k8s_channels_to_dto channels = map (λ c. record { slack = k8s_slack_to_dto c.slack }) channels

unfoldable pub k8s_governors_slice_to_dto : List Api.Governor → List Dto.Governor
k8s_governors_slice_to_dto govs =
    map (λ g. record { alias = g.alias; public_key = g.public_key }) govs

unfoldable pub k8s_governors_to_dto : Api.GovernorList → Dto.GovernorList
unfolding k8s_channels_to_dto k8s_governors_slice_to_dto
k8s_governors_to_dto govs = record {
  notification_channels = k8s_channels_to_dto govs.notification_channels;
  members = k8s_governors_slice_to_dto govs.members;
}

unfoldable mutual
  pub k8s_rule_to_dto : Api.ApprovalRule → Dto.ApprovalRule
  k8s_rule_to_dto (Api.rule at_least all require signer) =
      Dto.rule at_least all (k8s_rules_to_dto require) signer

  pub k8s_rules_to_dto : Api.Rules → Dto.Rules
  k8s_rules_to_dto Api.nil = Dto.nil
  k8s_rules_to_dto (Api.cons r rules) = Dto.cons (k8s_rule_to_dto r) (k8s_rules_to_dto rules)

unfoldable pub k8s_spec_to_dto : ManifestSigningRequestSpec → Dto.ManifestSigningRequestSpec
unfolding k8s_locations_to_dto k8s_changes_to_dto k8s_governors_to_dto k8s_rule_to_dto
k8s_spec_to_dto spec = record {
  version = spec.version;
  commit_sha = spec.commit_sha;
  previous_commit_sha = spec.previous_commit_sha;
  mrt = record { name = spec.mrt.name; namespace = spec.mrt.namespace; version = spec.mrt.version };
  public_key = spec.public_key;
  git_repository_url = spec.git_repository_url;
  locations = k8s_locations_to_dto spec.locations;
  changes = k8s_changes_to_dto spec.changes;
  governors = k8s_governors_to_dto spec.governors;
  require = k8s_rule_to_dto spec.require;
}

-- On a request that is not nil.
unfoldable pub k8s_to_dto : ManifestSigningRequest → Dto.ManifestSigningRequestManifestObject
unfolding k8s_spec_to_dto
k8s_to_dto msr = record {
  kind = msr.metadata.kind;
  api_version = msr.metadata.api_version;
  metadata = record { name = msr.metadata.name; namespace = msr.metadata.namespace };
  spec = k8s_spec_to_dto msr.spec;
}
