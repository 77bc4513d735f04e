-- ===== src/Webhooks.antt =====
-- kubernetes/internal/webhook/v1alpha1: the webhooks that default and validate the custom resources,
-- but for the approval rule (RuleWebhook) and the admission of Argo CD's changes (Admission).
pub mod GitUrl
pub mod Template
pub mod Requests
pub mod Accepted
pub mod Updates
pub mod SameUrl
