-- ===== src/Whp/Moves.antt =====
-- The calls on a partition of src/whp/whp_model.cpp: each keeps it sound and moves it on, or refuses.
use knhv.Prelude.{ℕ, ◌+◌, ◌≤◌, ◌<◌, ◌≡◌, ◌≢◌, ◌⊎◌, inl, inr, refl, true, some, List, [], ◌∷◌, arith}
use knhv.Prelude.Bits.{u32, u64}
use knhv.Whp.Defs.{
  partition_created, partition_configured, partition_running, partition_draining, partition_closed,
  partition_quarantined, WhpCapabilities, WhpPartitionConfig, WhpPartition, WhpMemoryMapping,
  success,
}
use knhv.Whp.Validity.{
  is_versioned_size_valid, is_partition_state_valid_value, is_whp_partition_config_valid,
  is_whp_partition_valid, is_whp_memory_mapping_valid,
}
use knhv.Whp.Partition.{
  may_create, created_partition, create_whp_partition, is_current, configure_whp_partition,
  map_whp_gpa, start_whp_partition, begin_whp_drain, close_whp_partition, quarantine_whp_partition,
}
use knhv.Whp.Lifecycle.{
  Call, configure, map_gpa, start, drain, close, quarantine, step, run, IsSound, Continues,
  Continues-refl, Continues-trans, moved, configured_valid, mapped_valid, mapping_pages,
}

-- A call that moves a partition on, or refuses.
abbrev Kept : WhpPartition → WhpPartition → Type 0
Kept p q = IsSound q × Continues p q

configure_parts :
    (p : WhpPartition) (g n : ℕ)
    → (step p (configure g n) ≡ p)
      ⊎ ((step p (configure g n) ≡ record p { configured_vcpus = n; state = partition_configured })
          × (p.state ≡ partition_created)
          × (n ≢ 0)
          × (n ≤ p.max_vcpus))
unfolding step configure_whp_partition
configure_parts p g n = ground arith

configure-keeps : (p : WhpPartition) (g n : ℕ) → IsSound p → Kept p (step p (configure g n))
configure-keeps p g n s = elim (configure_parts p g n) [
  | inl e ↦ rw e (s, Continues-refl p)
  | inr (e, at, some_vcpu, few) ↦ rw e (
    record {
      valid = configured_valid p n s.valid few;
      alive = omega arith;
      staffed = λ _. λ _. some_vcpu;
      paged = s.paged;
    },
    record {
      same_id = refl;
      same_owner = refl;
      same_generation = refl;
      same_flags = refl;
      same_bound = refl;
      forward = omega arith;
      frozen = λ live. absurd (omega arith);
    },
  )
]

map_parts :
    (p : WhpPartition) (m : WhpMemoryMapping) (g bits : ℕ)
    → (step p (map_gpa m g bits) ≡ p)
      ⊎ ((step p (map_gpa m g bits) ≡ record p {
        mapping_count = u32 (p.mapping_count + 1);
        mapped_pages = u64 (p.mapped_pages + m.page_count);
      })
          × (is_whp_memory_mapping_valid (some m) bits ≡ true)
          × (p.state ≤ partition_configured)
          × (p.mapping_count < 1024))
unfolding step map_whp_gpa
map_parts p m g bits = ground arith

map-keeps :
    (p : WhpPartition) (m : WhpMemoryMapping) (g bits : ℕ)
    → IsSound p
    → Kept p (step p (map_gpa m g bits))
map-keeps p m g bits s = elim (map_parts p m g bits) [
  | inl e ↦ rw e (s, Continues-refl p)
  | inr (e, v, early, room) ↦
      let pages = mapping_pages m bits v in
      let paged = s.paged in
      rw e (
        record {
          valid = mapped_valid p (u64 (p.mapped_pages + m.page_count)) s.valid s.alive room;
          alive = s.alive;
          staffed = s.staffed;
          paged = omega arith;
        },
        record {
          same_id = refl;
          same_owner = refl;
          same_generation = refl;
          same_flags = refl;
          same_bound = refl;
          forward = omega arith;
          frozen = λ live. absurd (omega arith);
        },
      )
]

-- The guards of the calls that write the state alone, by where they lead.
move_parts :
    (p : WhpPartition) (g : ℕ)
    → ((step p (start g) ≡ p)
        ⊎ ((step p (start g) ≡ record p { state = partition_running })
            × (p.state ≡ partition_configured)))
      × ((step p (drain g) ≡ p)
          ⊎ ((step p (drain g) ≡ record p { state = partition_draining })
              × (partition_configured ≤ p.state)
              × (p.state ≤ partition_running)))
      × ((step p (close g) ≡ p)
          ⊎ ((step p (close g) ≡ record p { state = partition_closed })
              × (p.state ≤ partition_draining)))
      × ((step p (quarantine g) ≡ p)
          ⊎ ((step p (quarantine g) ≡ record p { state = partition_quarantined })
              × (p.state ≤ partition_quarantined)))
unfolding step start_whp_partition begin_whp_drain close_whp_partition quarantine_whp_partition
    is_current is_whp_partition_valid is_partition_state_valid_value
move_parts p g = (ground arith, ground arith, ground arith, ground arith)

step-keeps : (p : WhpPartition) (c : Call) → IsSound p → Kept p (step p c)
step-keeps p (configure g n) s = configure-keeps p g n s
step-keeps p (map_gpa m g bits) s = map-keeps p m g bits s
step-keeps p (start g) s = elim (move_parts p g).0 [
  | inl e ↦ rw e (s, Continues-refl p)
  | inr (e, at) ↦ rw e (
      moved p partition_running s (omega arith) (omega arith)
        (λ _. λ _. s.staffed (omega arith) (omega arith)))
]
step-keeps p (drain g) s = elim (move_parts p g).1 [
  | inl e ↦ rw e (s, Continues-refl p)
  | inr (e, low, high) ↦ rw e (
      moved p partition_draining s (omega arith) (omega arith)
        (λ _. λ _. s.staffed (omega arith) (omega arith)))
]
step-keeps p (close g) s = elim (move_parts p g).2 [
  | inl e ↦ rw e (s, Continues-refl p)
  | inr (e, high) ↦
      rw e (moved p partition_closed s (omega arith) (omega arith) (λ q. absurd (omega arith)))
]
step-keeps p (quarantine g) s = elim (move_parts p g).3 [
  | inl e ↦ rw e (s, Continues-refl p)
  | inr (e, high) ↦
      rw e (moved p partition_quarantined s (omega arith) (omega arith) (λ q. absurd (omega arith)))
]

run-keeps : (p : WhpPartition) (cs : List Call) → IsSound p → Kept p (run p cs)
unfolding run
run-keeps p [] s = (s, Continues-refl p)
run-keeps p (c ∷ cs) s =
    let (t, on) = step-keeps p c s in
    let (u, on') = run-keeps (step p c) cs t in (u, Continues-trans on on')

step_final :
    (p : WhpPartition) (c : Call)
    → (p.state ≡ partition_closed) ⊎ (p.state ≡ partition_quarantined)
    → step p c ≡ p
unfolding step configure_whp_partition map_whp_gpa start_whp_partition begin_whp_drain
    close_whp_partition quarantine_whp_partition
step_final p (configure g n) ended = ground arith
step_final p (map_gpa m g bits) ended = ground arith
step_final p (start g) ended = ground arith
step_final p (drain g) ended = ground arith
step_final p (close g) ended = ground arith
step_final p (quarantine g) ended = ground arith

run_final :
    (p : WhpPartition) (cs : List Call)
    → (p.state ≡ partition_closed) ⊎ (p.state ≡ partition_quarantined)
    → run p cs ≡ p
unfolding run
run_final p [] ended = refl
run_final p (c ∷ cs) ended = rw (step_final p c ended) (run_final p cs ended)

created_valid :
    (config : WhpPartitionConfig) (id : ℕ)
    → is_whp_partition_config_valid (some config) ≡ true
    → id ≢ 0
    → is_whp_partition_valid (some (created_partition config id)) ≡ true
unfolding is_whp_partition_config_valid is_whp_partition_valid is_versioned_size_valid
    is_partition_state_valid_value
created_valid config id v named = ground arith

create_parts :
    (c : WhpCapabilities) (config : WhpPartitionConfig) (id : ℕ) (out p : WhpPartition)
    → create_whp_partition (some c) (some config) id (some out) ≡ (success, some p)
    → (p ≡ created_partition config id)
      × (is_whp_partition_config_valid (some config) ≡ true)
      × (id ≢ 0)
unfolding create_whp_partition may_create
create_parts c config id out p h = ground arith

create-IsSound :
    (c : WhpCapabilities) (config : WhpPartitionConfig) (id : ℕ) (out p : WhpPartition)
    → create_whp_partition (some c) (some config) id (some out) ≡ (success, some p)
    → IsSound p
create-IsSound c config id out p h =
    let (e, v, named) = create_parts c config id out p h in
    rw e (record {
      valid = created_valid config id v named;
      alive = omega arith;
      staffed = λ low. absurd (omega arith);
      paged = omega arith;
    })

-- A partition that was created stays valid and keeps its identity whatever calls are made: its state
-- moves on only, it has processors from its configuration to its end and at most 2 ^ 20 pages for each
-- mapping; from its start on, the processors and mappings do not change; and once it is closed or
-- quarantined, nothing does.
pub run_created :
    (c : WhpCapabilities) (config : WhpPartitionConfig) (id : ℕ) (out p : WhpPartition)
    (before after : List Call)
    → create_whp_partition (some c) (some config) id (some out) ≡ (success, some p)
    → let q = run p before in
      IsSound q
      × Continues p q
      × Continues q (run q after)
      × (((q.state ≡ partition_closed) ⊎ (q.state ≡ partition_quarantined)) → run q after ≡ q)
run_created c config id out p before after h =
    let (sound, on) = run-keeps p before (create-IsSound c config id out p h) in
    let (_, on') = run-keeps (run p before) after sound in
    (sound, on, on', run_final (run p before) after)
