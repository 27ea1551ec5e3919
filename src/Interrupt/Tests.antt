-- ===== src/Interrupt/Tests.antt =====
-- Runs of the interrupt model.
use knhv.Prelude.{ℕ, ◌+◌, ◌≤◌, ◌<◌, ◌≡◌, ◌||◌, refl, true, some, List, ◌∷◌, ◌++◌, arith}
use knhv.Prelude.Tests.{◌==◌}
use knhv.Prelude.Bits.{any_bits, u64_max}
use knhv.Prelude.Lists.{length, replicate, All}
use knhv.Interrupt.Defs.{
  InterruptEvent, InterruptState, InterruptDecision, ready, nmi, external, virtual, zero_event,
  block_nmi, priority, is_blocked, is_interrupt_event_valid, has_sequence, is_interrupt_state_valid,
  is_same_event, is_zero_event, all_zero, are_pending_valid, is_vector_valid,
}
use knhv.Interrupt.Ops.{
  live, append_event, enqueue_interrupt, select_from, select_interrupt, initialize_decision,
  commit_interrupt_injection, remove_event,
}
use knhv.Interrupt.Enqueue.{IsEnqueued, enqueue-refines_append}
use knhv.Interrupt.Select.{IsSelection, select-IsSelection}
use knhv.Interrupt.Removal.{erase_event}
use knhv.Interrupt.Commit.{commit-refines_erase, select-commit}
use knhv.Interrupt.Posted.{
  PostedInterruptDescriptor, is_posted_interrupt_valid, set_posted, post_interrupt,
  drain_posted_interrupt, drain_words,
}
use knhv.Interrupt.Drain.{is_posted, post_marks, drain-appends}

abbrev event : ℕ → ℕ → ℕ → InterruptEvent
event kind vector sequence = record zero_event {
  size = 56;
  version = 1;
  kind = kind;
  vector = vector;
  generation = 5;
  sequence = sequence;
}

abbrev queue : InterruptState
queue = record {
  size = 1832;
  version = 1;
  generation = 5;
  next_sequence = 3;
  pending_count = 2;
  interruptibility = 0;
  virtual_apic_tpr = 0x20;
  reserved = 0;
  pending = event external 0x41 1 ∷ event nmi 2 2 ∷ replicate 30 zero_event;
}

queue_valid : is_interrupt_state_valid (some queue) ≡ true
unfolding is_interrupt_state_valid are_pending_valid is_interrupt_event_valid is_vector_valid
    any_bits has_sequence all_zero is_zero_event
queue_valid = refl

abbrev arrival : InterruptEvent
arrival = event external 0x52 9

arrival_ready :
    enqueue_interrupt (some queue) (some arrival) ≡ (ready, some (append_event queue arrival))
unfolding enqueue_interrupt is_interrupt_state_valid are_pending_valid is_interrupt_event_valid
    is_vector_valid any_bits has_sequence all_zero is_zero_event
arrival_ready = refl

enqueue-refines_append_example : IsEnqueued queue arrival ready (append_event queue arrival)
enqueue-refines_append_example =
    enqueue-refines_append queue (append_event queue arrival) arrival ready queue_valid refl
      (omega arith) arrival_ready

abbrev nmi_decision : InterruptDecision
nmi_decision = record (initialize_decision 5) { kind = nmi; vector = 2; sequence = 2 }

nmi_selected :
    select_interrupt (some queue) 5 (some (initialize_decision 0)) ≡ (ready, some nmi_decision)
unfolding select_interrupt is_interrupt_state_valid are_pending_valid is_interrupt_event_valid
    is_vector_valid any_bits has_sequence all_zero is_zero_event select_from priority is_blocked
nmi_selected = refl

select-IsSelection_example : IsSelection queue ready nmi_decision
select-IsSelection_example =
    select-IsSelection queue (initialize_decision 0) nmi_decision ready queue_valid nmi_selected

select-commit_example : (commit_interrupt_injection (some queue) (some nmi_decision)).0 ≡ true
select-commit_example =
    select-commit queue (initialize_decision 0) nmi_decision queue_valid nmi_selected

nmi_committed :
    commit_interrupt_injection (some queue) (some nmi_decision)
    ≡ (true, some (remove_event queue nmi 1))
unfolding commit_interrupt_injection is_interrupt_state_valid are_pending_valid
    is_interrupt_event_valid is_vector_valid any_bits has_sequence all_zero is_zero_event
    is_same_event
nmi_committed = refl

commit-refines_erase_example :
    (is_interrupt_state_valid (some (remove_event queue nmi 1)) ≡ true)
    × (length (remove_event queue nmi 1).pending ≡ 32)
    × (live (remove_event queue nmi 1) ≡ erase_event nmi_decision (live queue))
    × ((remove_event queue nmi 1).pending_count + 1 ≡ 2)
    × (nmi ≡ nmi → any_bits (remove_event queue nmi 1).interruptibility block_nmi ≡ true)
commit-refines_erase_example =
    commit-refines_erase queue (remove_event queue nmi 1) nmi_decision refl nmi_committed

abbrev descriptor : List ℕ → PostedInterruptDescriptor
descriptor pir = record {
  size = 64;
  version = 1;
  notification_vector = 0xf2;
  suppress_notification = 0;
  reserved = 0;
  reserved2 = 0;
  pir = pir;
  generation = 5;
}

abbrev clear_pir : List ℕ
clear_pir = replicate 8 0

vector_posted :
    post_interrupt (some (descriptor clear_pir)) 0x61 5
    ≡ (true, some (descriptor (set_posted clear_pir 3 1)))
unfolding post_interrupt is_posted_interrupt_valid
vector_posted = refl

post_marks_example :
    (32 ≤ 0x61)
    × (0x61 < 256)
    × (is_posted (set_posted clear_pir 3 1) 0x62 ≡ (0x61 == 0x62 || is_posted clear_pir 0x62))
post_marks_example =
    post_marks (descriptor clear_pir) (descriptor (set_posted clear_pir 3 1)) 0x61 5 0x62 refl
      vector_posted

abbrev drained : InterruptState
drained = append_event queue (record (event virtual 0x61 3) { flags = 6; source_id = 9 })

posted_drained :
    (drain_posted_interrupt (some (descriptor (set_posted clear_pir 3 1))) (some queue) 5 9).2
    ≡ some drained
unfolding drain_posted_interrupt drain_words is_posted_interrupt_valid enqueue_interrupt
    append_event is_interrupt_state_valid are_pending_valid is_interrupt_event_valid is_vector_valid
    any_bits has_sequence all_zero is_zero_event
posted_drained = refl

drain-appends_example :
    (is_interrupt_state_valid (some drained) ≡ true)
    × (length drained.pending ≡ 32)
    × (drained.next_sequence ≤ u64_max)
    × ((es : List InterruptEvent) × (live drained ≡ live queue ++ es)
        × All (λ e. (e.kind ≡ virtual) × (e.source_id ≡ 9)) es)
drain-appends_example =
    drain-appends (descriptor (set_posted clear_pir 3 1)) queue drained 5 9 queue_valid refl
      (omega arith) posted_drained
