-- ===== src/Queue/Synchronized.antt =====
-- The queue that is stored after a reconciliation.
use quorum_based_manifests_g.Common.{
  both_true, Bool, true, false, ◌&&◌, List, [], ◌∷◌, Result, ok, err, ◌==◌, eq_iff, ◌≡◌, refl, ◌∙◌,
  inl, inr, Bool-cases, if◌then◌else◌,
}
use quorum_based_manifests_g.Api.Governance.{EventReference, GovernanceEvent, GovernanceQueue}
use quorum_based_manifests_g.Kube.{no_requeue}
use quorum_based_manifests_g.Exec.{
  Post, Triple, pure, ◌>>=◌, wrapped, Triple-bind, Triple-return, Triple-wrapped, Triple-weaken,
}
use quorum_based_manifests_g.Template.Compare.{same_list}
use quorum_based_manifests_g.Queue.{World, desired_queue, same_reference, synchronize}

same_reference-eq : (a b : EventReference) → same_reference a b ≡ true → a ≡ b
same_reference-eq a b h =
    let (uid_name, space) =
      both_true (a.uid == b.uid && a.name == b.name) (a.namespace == b.namespace) h in
    let (uid, name) = both_true (a.uid == b.uid) (a.name == b.name) uid_name in
    λ i. record {
      uid = (eq_iff a.uid b.uid).0 uid i;
      name = (eq_iff a.name b.name).0 name i;
      namespace = (eq_iff a.namespace b.namespace).0 space i;
    }

same_list-eq : (xs ys : List EventReference) → same_list same_reference xs ys ≡ true → xs ≡ ys
unfolding same_list
same_list-eq [] [] h = refl
same_list-eq [] (y ∷ ys) h = cc
same_list-eq (x ∷ xs) [] h = cc
same_list-eq (x ∷ xs) (y ∷ ys) h = elim (Bool-cases (same_reference x y)) [
  | inl t ↦ rw (same_reference-eq x y t, same_list-eq xs ys (rw t at h)) refl
  | inr f ↦ let h' = rw f at h in cc
]

-- What the client promises: a patch that succeeds stores the queue that it was sent. `stored` reads
-- what the cluster holds for this queue.
pub record Stores (w : World) (stored : w.State → List EventReference) : Type 0 where
  pub patched :
      (queue : GovernanceQueue) (s s' : w.State)
      → w.patch_queue queue s ≡ (ok tt, s')
      → stored s' ≡ queue.queue

module _ (w : World) (stored : w.State → List EventReference) (laws : Stores w stored) where
  patch_lem :
      (queue : GovernanceQueue)
      → Triple (λ s. Unit {0}) (w.patch_queue queue) (λ _ s. stored s ≡ queue.queue) (λ s. Unit {0})
  patch_lem queue = record { at = λ s u. after s (w.patch_queue queue s) refl }
    where
      after :
          (s : w.State) (p : Result (Unit {0}) × w.State)
          → w.patch_queue queue s ≡ p
          → Post (λ _ t. stored t ≡ queue.queue) (λ t. Unit {0}) p
      after s (ok tt, s') e = laws.patched queue s s' e
      after s (err x, s') e = tt

  -- When a queue whose references are those stored in the cluster is synchronized with the events
  -- of its template and no error occurs, the cluster then stores the desired queue of these events,
  -- whether or not a patch was sent.
  pub synchronize-Desired :
      (queue : GovernanceQueue) (events : List GovernanceEvent)
      → Triple
          (λ s. stored s ≡ queue.queue)
          (synchronize w queue events)
          (λ _ s. stored s ≡ desired_queue events)
          (λ s. Unit {0})
  unfolding synchronize
  synchronize-Desired queue events =
      go (same_list same_reference queue.queue (desired_queue events)) refl
    where
      go :
          (b : Bool)
          → same_list same_reference queue.queue (desired_queue events) ≡ b
          → Triple
              (λ s. stored s ≡ queue.queue)
              (if b
                then pure no_requeue
                else (wrapped "patch queue"
                      (w.patch_queue (record queue { queue = desired_queue events }))
                    >>= λ _. pure no_requeue))
              (λ _ s. stored s ≡ desired_queue events)
              (λ s. Unit {0})
      go true h = Triple-return no_requeue (λ s e. e ∙ same_list-eq queue.queue _ h)
      go false h =
          Triple-bind
            (wrapped "patch queue" (w.patch_queue (record queue { queue = desired_queue events })))
            _
            (Triple-weaken _
              (Triple-wrapped "patch queue" _
                (patch_lem (record queue { queue = desired_queue events })))
              (λ s e. tt) (λ a s e. e) (λ s e. e))
            λ _. Triple-return no_requeue (λ s e. e)
