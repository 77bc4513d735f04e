-- ===== src/Queue/Order.antt =====
-- The order of the queue.
use mathlib.Core.List.{Memᴰ}
use quorum_based_manifests_g.Common.{
  ℕ, ◌≤◌, leb, leb→le, Bool, true, false, List, [], ◌∷◌, map, ◌≡◌, ◌↔◌, refl, subst, sym, ◌∙◌, inl,
  inr, Bool-cases, arith, if◌then◌else◌,
}
use quorum_based_manifests_g.Api.Governance.{GovernanceEvent}
use quorum_based_manifests_g.Queue.{
  insert_event, sort_events, is_live, live_events, reference_of, desired_queue,
}

-- No event of the list was created before `t`.
abbrev pub AllAfter : ℕ → List GovernanceEvent → Type 0
AllAfter t [] = Unit
AllAfter t (e ∷ events) = (t ≤ e.creation_timestamp) × AllAfter t events

abbrev pub Sorted : List GovernanceEvent → Type 0
Sorted [] = Unit
Sorted (e ∷ events) = AllAfter e.creation_timestamp events × Sorted events

AllAfter-le :
    (s t : ℕ) (events : List GovernanceEvent) → s ≤ t → AllAfter t events → AllAfter s events
AllAfter-le s t [] l a = tt
AllAfter-le s t (e ∷ events) l (b, a) = (omega arith, AllAfter-le s t events l a)

insert-AllAfter :
    (t : ℕ) (e : GovernanceEvent) (events : List GovernanceEvent)
    → t ≤ e.creation_timestamp
    → AllAfter t events
    → AllAfter t (insert_event e events)
unfolding insert_event
insert-AllAfter t e [] l a = (l, tt)
insert-AllAfter t e (f ∷ events) l (b, a) =
    elim (Bool-cases (leb e.creation_timestamp f.creation_timestamp)) [
      | inl h ↦ rw h (l, (b, a))
      | inr h ↦ rw h (b, insert-AllAfter t e events l a)
    ]

insert-Sorted :
    (e : GovernanceEvent) (events : List GovernanceEvent)
    → Sorted events
    → Sorted (insert_event e events)
unfolding insert_event
insert-Sorted e [] s = (tt, tt)
insert-Sorted e (f ∷ events) (a, s) =
    elim (Bool-cases (leb e.creation_timestamp f.creation_timestamp)) [
      | inl h ↦ rw h (
          let l = leb→le e.creation_timestamp f.creation_timestamp h in
          ((l, AllAfter-le e.creation_timestamp f.creation_timestamp events l a), (a, s)))
      | inr h ↦
          rw h (
            insert-AllAfter f.creation_timestamp e events (ground arith) a,
            insert-Sorted e events s,
          )
    ]

sort-Sorted : (events : List GovernanceEvent) → Sorted (sort_events events)
unfolding sort_events
sort-Sorted [] = tt
sort-Sorted (e ∷ events) = insert-Sorted e (sort_events events) (sort-Sorted events)

live-AllAfter :
    (t : ℕ) (events : List GovernanceEvent) → AllAfter t events → AllAfter t (live_events events)
unfolding live_events
live-AllAfter t [] a = tt
live-AllAfter t (e ∷ events) (b, a) = elim (Bool-cases (is_live e)) [
  | inl h ↦ rw h (b, live-AllAfter t events a)
  | inr h ↦ rw h (live-AllAfter t events a)
]

live-Sorted : (events : List GovernanceEvent) → Sorted events → Sorted (live_events events)
unfolding live_events
live-Sorted [] s = tt
live-Sorted (e ∷ events) (a, s) = elim (Bool-cases (is_live e)) [
  | inl h ↦ rw h (live-AllAfter e.creation_timestamp events a, live-Sorted events s)
  | inr h ↦ rw h (live-Sorted events s)
]

module _ (x : GovernanceEvent) where
  pass-Mem :
      (e f : GovernanceEvent) (xs events : List GovernanceEvent)
      → Memᴰ x xs ↔ Memᴰ x (e ∷ events)
      → Memᴰ x (f ∷ xs) ↔ Memᴰ x (e ∷ f ∷ events)
  pass-Mem e f xs events (there, back) = (forth, return)
    where
      moved : Memᴰ x (e ∷ events) → Memᴰ x (e ∷ f ∷ events)
      moved (Memᴰ.head p) = Memᴰ.head p
      moved (Memᴰ.tail m) = Memᴰ.tail (Memᴰ.tail m)

      forth : Memᴰ x (f ∷ xs) → Memᴰ x (e ∷ f ∷ events)
      forth (Memᴰ.head p) = Memᴰ.tail (Memᴰ.head p)
      forth (Memᴰ.tail m) = moved (there m)

      return : Memᴰ x (e ∷ f ∷ events) → Memᴰ x (f ∷ xs)
      return (Memᴰ.head p) = Memᴰ.tail (back (Memᴰ.head p))
      return (Memᴰ.tail (Memᴰ.head p)) = Memᴰ.head p
      return (Memᴰ.tail (Memᴰ.tail m)) = Memᴰ.tail (back (Memᴰ.tail m))

  insert-Mem_iff :
      (e : GovernanceEvent) (events : List GovernanceEvent)
      → Memᴰ x (insert_event e events) ↔ Memᴰ x (e ∷ events)
  unfolding insert_event
  insert-Mem_iff e [] = (λ m. m, λ m. m)
  insert-Mem_iff e (f ∷ events) =
      elim (Bool-cases (leb e.creation_timestamp f.creation_timestamp)) [
        | inl h ↦ rw h (λ m. m, λ m. m)
        | inr h ↦ rw h (pass-Mem e f (insert_event e events) events (insert-Mem_iff e events))
      ]

  sort-Mem_iff : (events : List GovernanceEvent) → Memᴰ x (sort_events events) ↔ Memᴰ x events
  unfolding sort_events
  sort-Mem_iff [] = (λ m. m, λ m. m)
  sort-Mem_iff (e ∷ events) =
      let (a, b) = insert-Mem_iff e (sort_events events) in
      let (c, d) = sort-Mem_iff events in (λ m. down c (a m), λ m. b (up d m))
    where
      down :
          (Memᴰ x (sort_events events) → Memᴰ x events)
          → Memᴰ x (e ∷ sort_events events)
          → Memᴰ x (e ∷ events)
      down c (Memᴰ.head p) = Memᴰ.head p
      down c (Memᴰ.tail m) = Memᴰ.tail (c m)

      up :
          (Memᴰ x events → Memᴰ x (sort_events events))
          → Memᴰ x (e ∷ events)
          → Memᴰ x (e ∷ sort_events events)
      up d (Memᴰ.head p) = Memᴰ.head p
      up d (Memᴰ.tail m) = Memᴰ.tail (d m)

  live-Mem_iff :
      (events : List GovernanceEvent)
      → Memᴰ x (live_events events) ↔ (Memᴰ x events × (is_live x ≡ true))
  unfolding live_events
  live-Mem_iff [] = (λ m. elim m [ ], λ (m, h). elim m [ ])
  live-Mem_iff (e ∷ events) = go (live-Mem_iff events) (is_live e) refl
    where
      go :
          Memᴰ x (live_events events) ↔ (Memᴰ x events × (is_live x ≡ true))
          → (b : Bool) → is_live e ≡ b
          → Memᴰ x (if b then e ∷ live_events events else live_events events)
            ↔ (Memᴰ x (e ∷ events) × (is_live x ≡ true))
      go (c, d) true h = (forth, back)
        where
          forth : Memᴰ x (e ∷ live_events events) → Memᴰ x (e ∷ events) × (is_live x ≡ true)
          forth (Memᴰ.head p) = (Memᴰ.head p, subst (λ y. is_live y ≡ true) (sym p) h)
          forth (Memᴰ.tail m) = let (k, l) = c m in (Memᴰ.tail k, l)

          back : Memᴰ x (e ∷ events) × (is_live x ≡ true) → Memᴰ x (e ∷ live_events events)
          back (Memᴰ.head p, l) = Memᴰ.head p
          back (Memᴰ.tail m, l) = Memᴰ.tail (d (m, l))
      go (c, d) false h = (forth, back)
        where
          forth : Memᴰ x (live_events events) → Memᴰ x (e ∷ events) × (is_live x ≡ true)
          forth m = let (k, l) = c m in (Memᴰ.tail k, l)

          no : false ≡ true → ⊥
          no q = cc

          back : Memᴰ x (e ∷ events) × (is_live x ≡ true) → Memᴰ x (live_events events)
          back (Memᴰ.head p, l) = absurd (no (sym h ∙ subst (λ y. is_live y ≡ true) p l))
          back (Memᴰ.tail m, l) = d (m, l)

-- The queue that a reconciliation aims at holds references of events in the order in which they
-- were created, and those events are exactly the events of the template that are not being deleted.
pub desired_queue-Sorted :
    (events : List GovernanceEvent)
    → (es : List GovernanceEvent) × (desired_queue events ≡ map reference_of es)
      × Sorted es
      × ((e : GovernanceEvent) → Memᴰ e es ↔ (Memᴰ e events × (is_live e ≡ true)))
unfolding desired_queue
desired_queue-Sorted events = (
  live_events (sort_events events),
  refl,
  live-Sorted (sort_events events) (sort-Sorted events),
  λ e.
      let (a, b) = live-Mem_iff e (sort_events events) in
      let (c, d) = sort-Mem_iff e events in
      (λ m. let (k, l) = a m in (c k, l), λ (m, l). b (d m, l)),
)
