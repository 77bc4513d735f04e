-- ===== src/Kube.antt =====
-- What the controllers and the webhooks call of the Kubernetes libraries, as an interface, and the
-- result of a reconciliation.
use quorum_based_manifests_g.Common.{ℕ, Bool, true, false, List, Option, String, ◌≡◌}
use quorum_based_manifests_g.Api.{Condition, ObjectMeta}

-- controllerutil's functions on finalizers, and those of `meta` on conditions.
pub record Kube : Type 0 where
  pub contains_finalizer : ObjectMeta → String → Bool
  pub add_finalizer : ObjectMeta → String → ObjectMeta
  pub remove_finalizer : ObjectMeta → String → ObjectMeta
  pub find_status_condition : List Condition → String → Option Condition
  pub is_status_condition_true : List Condition → String → Bool
  pub set_status_condition : List Condition → Condition → List Condition
  -- `client.IgnoreNotFound(err) == nil`
  pub is_not_found : String → Bool

-- A condition that has been set is true exactly if its status is.
pub record KubeLaws (kube : Kube) : Type 0 where
  pub is_true-set :
      (cs : List Condition) (c : Condition)
      → kube.is_status_condition_true (kube.set_status_condition cs c) c.type ≡ c.status

abbrev pub progressing : String
progressing = "Progressing"

abbrev pub governance_finalizer : String
governance_finalizer = "governance.nazar.grynko.com/finalizer"

-- ctrl.Result, with durations in seconds
pub record CtrlResult : Type 0 where
  pub requeue : Bool
  pub requeue_after : ℕ

abbrev pub no_requeue : CtrlResult
no_requeue = record { requeue = false; requeue_after = 0 }

abbrev pub requeue_now : CtrlResult
requeue_now = record { requeue = true; requeue_after = 0 }

abbrev pub requeue_in : ℕ → CtrlResult
requeue_in n = record { requeue = false; requeue_after = n }

-- `ScheduledInterval`, one minute
abbrev pub scheduled_interval : ℕ
scheduled_interval = 60
