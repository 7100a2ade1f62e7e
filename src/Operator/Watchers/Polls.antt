-- ===== src/Operator/Watchers/Polls.antt =====
-- operator/watchers.py, _poll_slurm_state: which pools a poll puts into the queue.
use kelpflux.Base.{
  ◌≡◌, ◌≢◌, ◌↔◌, ◌⊎◌, refl, sym, ◌∙◌, inl, inr, ◌||◌, Bool, true, false, Option, none, some, [],
  ◌∷◌, Text, IsDistinct-first, differs_sym, text_eq, text_eq_iff, text_eq_self, mem_text, Dict,
  lookup, lookup-insert, IsDistinct, Bool-cases, if◌then◌else◌, arith, subst,
}
use kelpflux.Operator.Models.{Time, PartitionState}
use kelpflux.Operator.EventQueue.{PoolEventQueue, put, put_locked, enqueue}
use kelpflux.Operator.Watchers.{
  Watcher, state_eq, has_changed, note_state, note_states, poll_slurm_state,
}

state_eq→≡ : (s t : PartitionState) → state_eq s t ≡ true → s ≡ t
unfolding state_eq
state_eq→≡ s t h = ground (
  arith,
  h,
  text_eq_iff s.partition t.partition,
  text_eq_iff s.worker_statefulset t.worker_statefulset,
)

≡→state_eq : (s : PartitionState) → state_eq s s ≡ true
unfolding state_eq
≡→state_eq s = ground (arith, text_eq_self s.partition, text_eq_self s.worker_statefulset)

has_changed_iff :
    (prev : Option PartitionState) (s : PartitionState)
    → (has_changed prev s ≡ true) ↔ (prev ≢ some s)
unfolding has_changed
has_changed_iff none s = ground arith
has_changed_iff (some prev) s = ground (arith, state_eq→≡ s prev, ≡→state_eq s)

or_iff : {P : Type 0} (a b : Bool) → ((a ≡ true) ↔ P) → (((a || b) ≡ true) ↔ ((b ≡ true) ⊎ P))
or_iff true b h = (λ e. inr (h.0 refl), λ e. refl)
or_iff false b h = (inl, λ either. elim either [ inl e ↦ e | inr p ↦ absurd (cc (h.1 p)) ])

put-pending :
    (k key source : Text) (now : Time) (queue : PoolEventQueue)
    → mem_text k (put key source now queue).1.pending ≡ (text_eq k key || mem_text k queue.pending)
unfolding put put_locked enqueue mem_text
put-pending k key source now queue = elim (Bool-cases (mem_text key queue.pending)) [
  | inl e ↦ elim (Bool-cases (text_eq k key)) [
    | inl same ↦
        rw (e, same)
          (subst (λ i. mem_text i queue.pending ≡ true) (sym ((text_eq_iff k key).0 same)) e)
    | inr other ↦ rw (e, other) refl
  ]
  | inr e ↦ rw e refl
]

-- What a poll keeps of a key, and whether it reports it.
abbrev stored : Option PartitionState → Option PartitionState → Option PartitionState
stored prev none = prev
stored prev (some s) = some s

abbrev noticed : Option PartitionState → Option PartitionState → Bool
noticed prev none = false
noticed prev (some s) = has_changed prev s

note_state-key :
    (now : Time) (key : Text) (state : PartitionState) (self : Watcher) (k : Text)
    → (lookup k (note_state now key state self).slurm_state_cache
        ≡ (if text_eq key k then some state else lookup k self.slurm_state_cache))
      × (mem_text k (note_state now key state self).event_queue.pending ≡ (
          (if text_eq key k then has_changed (lookup k self.slurm_state_cache) state else false)
          || mem_text k self.event_queue.pending))
unfolding note_state
note_state-key now key state self k = (
  lookup-insert key k state self.slurm_state_cache,
  (elim (Bool-cases (has_changed (lookup key self.slurm_state_cache) state)) [
    | inl c ↦
        rw (c, put-pending)
          (elim (Bool-cases (text_eq key k)) [
            | inl same ↦
                let k_is : k ≡ key = sym ((text_eq_iff key k).0 same) in
                subst
                  (λ i. (text_eq i key || mem_text i self.event_queue.pending) ≡ (
                    (if text_eq key i
                      then has_changed (lookup i self.slurm_state_cache) state
                      else false)
                    || mem_text i self.event_queue.pending))
                  (sym k_is) (rw (text_eq_self key, c) refl)
            | inr other ↦ rw (other, differs_sym key k other) refl
          ])
    | inr c ↦ rw c (elim (Bool-cases (text_eq key k)) [
      | inl same ↦
          subst
            (λ i. mem_text i self.event_queue.pending ≡ (
              (if text_eq key i then has_changed (lookup i self.slurm_state_cache) state else false)
              || mem_text i self.event_queue.pending))
            ((text_eq_iff key k).0 same) (rw (text_eq_self key, c) refl)
      | inr other ↦ rw other refl
    ])
  ]),
)

note_states-key :
    (now : Time) (states : Dict PartitionState) (self : Watcher) (k : Text)
    → IsDistinct states
    → (lookup k (note_states now states self).slurm_state_cache
        ≡ stored (lookup k self.slurm_state_cache) (lookup k states))
      × (mem_text k (note_states now states self).event_queue.pending ≡ (
          noticed (lookup k self.slurm_state_cache) (lookup k states)
          || mem_text k self.event_queue.pending))
unfolding note_states lookup
note_states-key now [] self k h = (refl, refl)
note_states-key now ((key, state) ∷ states) self k h =
    let after = note_state now key state self in
    let later = note_states-key now states after k h.1 in
    let one = note_state-key now key state self k in
    elim (Bool-cases (text_eq key k)) [
      | inl same ↦
          let gone = IsDistinct-first key k state states h same in
          rw same (later.0 ∙ (rw (gone, one.0, same) refl), later.1 ∙ (rw (gone, one.1, same) refl))
      | inr other ↦
          rw other (later.0 ∙ (rw (one.0, other) refl), later.1 ∙ (rw (one.0, one.1, other) refl))
    ]

-- A poll of Slurm's state that succeeds, with one state for each pool: afterwards the poller keeps
-- the new state of each pool, and it is pending in the work queue if and only if it was so before
-- or its state is not the one that was kept, or none was kept. A poll that fails changes nothing.
pub poll_slurm_state-Notices :
    (now : Time) (states : Dict PartitionState) (self : Watcher) (k : Text) (s : PartitionState)
    → IsDistinct states
    → lookup k states ≡ some s
    → let after = poll_slurm_state now (some states) self in
      (lookup k after.slurm_state_cache ≡ some s)
      × ((mem_text k after.event_queue.pending ≡ true) ↔ (
          (mem_text k self.event_queue.pending ≡ true)
          ⊎ (lookup k self.slurm_state_cache ≢ some s)))
      × (poll_slurm_state now none self ≡ self)
unfolding poll_slurm_state
poll_slurm_state-Notices now states self k s h e =
    let facts = note_states-key now states self k h in
    let changed = has_changed_iff (lookup k self.slurm_state_cache) s in
    (
      (facts.0 ∙ (rw e refl)),
      subst
          (λ b. (b ≡ true) ↔ (
            (mem_text k self.event_queue.pending ≡ true)
            ⊎ (lookup k self.slurm_state_cache ≢ some s)))
          (sym (rw e at facts.1)) (or_iff _ _ changed),
      refl,
    )
