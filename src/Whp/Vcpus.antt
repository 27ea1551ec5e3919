-- ===== src/Whp/Vcpus.antt =====
-- The processors of a partition in src/whp/whp_model.cpp: from their creation through runs and stops.
use knhv.Prelude.{ℕ, ◌+◌, ◌≤◌, ◌<◌, ◌≡◌, ◌≢◌, ◌⊎◌, refl, true, some, arith}
use knhv.Prelude.Bits.{u64, u64_max}
use knhv.Whp.Defs.{
  partition_running, vcpu_created, vcpu_running, vcpu_stopped, WhpPartition, WhpVcpu, success,
  state_conflict,
}
use knhv.Whp.Validity.{
  is_versioned_size_valid, is_vcpu_state_valid_value, is_whp_partition_valid, is_whp_vcpu_valid,
}
use knhv.Whp.Partition.{
  empty_vcpu, is_current, create_whp_vcpu, may_start_vcpu, start_whp_vcpu, may_stop_vcpu,
  stop_whp_vcpu, start_whp_partition,
}
use knhv.Whp.Lifecycle.{moved_valid}

abbrev pub run_vcpu : WhpVcpu → WhpVcpu
run_vcpu v = record v { state = vcpu_running; run_count = v.run_count + 1 }

started_valid :
    (p : WhpPartition) (v : WhpVcpu) (g : ℕ)
    → may_start_vcpu p v g ≡ true
    → is_whp_vcpu_valid (some (run_vcpu v)) ≡ true
unfolding may_start_vcpu is_whp_vcpu_valid is_vcpu_state_valid_value
started_valid p v g h = ground arith

stopped_valid :
    (v : WhpVcpu)
    → is_whp_vcpu_valid (some v) ≡ true
    → v.state ≡ vcpu_running
    → is_whp_vcpu_valid (some (record v { state = vcpu_stopped })) ≡ true
unfolding is_whp_vcpu_valid is_vcpu_state_valid_value
stopped_valid v h at = ground arith

start_parts :
    (p : WhpPartition) (v w : WhpVcpu) (g : ℕ)
    → start_whp_vcpu (some p) (some v) g ≡ (success, some w)
    → (may_start_vcpu p v g ≡ true)
      × (w ≡ record v { state = vcpu_running; run_count = u64 (v.run_count + 1) })
unfolding start_whp_vcpu
start_parts p v w g h = ground arith

start_guard :
    (p : WhpPartition) (v : WhpVcpu) (g : ℕ)
    → may_start_vcpu p v g ≡ true
    → (is_whp_partition_valid (some p) ≡ true)
      × (g ≢ 0)
      × (p.generation ≡ g)
      × (v.generation ≡ g)
      × (p.state ≡ partition_running)
      × (v.index < p.configured_vcpus)
      × ((v.state ≡ vcpu_created) ⊎ (v.state ≡ vcpu_stopped))
      × (v.run_count ≢ u64_max)
unfolding may_start_vcpu
start_guard p v g h = ground arith

may_stop :
    (p : WhpPartition) (v : WhpVcpu) (g : ℕ)
    → may_start_vcpu p v g ≡ true
    → may_stop_vcpu p (run_vcpu v) g ≡ true
unfolding may_stop_vcpu
may_stop p v g h = ground (arith, start_guard p v g h, started_valid p v g h)

stop_value :
    (p : WhpPartition) (v : WhpVcpu) (g : ℕ)
    → may_stop_vcpu p v g ≡ true
    → stop_whp_vcpu (some p) (some v) g ≡ (success, some (record v { state = vcpu_stopped }))
unfolding stop_whp_vcpu
stop_value p v g h = rw h refl

second_start :
    (p : WhpPartition) (v : WhpVcpu) (g : ℕ)
    → v.state ≡ vcpu_running
    → start_whp_vcpu (some p) (some v) g ≡ (state_conflict, some v)
unfolding start_whp_vcpu may_start_vcpu
second_start p v g at = ground arith

-- A processor with a 64-bit count of runs that starts was created or stopped, and is one that its
-- running partition has configured; it runs, valid, with one run more. No partition and generation
-- start it again while it runs; the same ones stop it, valid, with that count.
pub start-stop :
    (p : WhpPartition) (v w : WhpVcpu) (g : ℕ)
    → v.run_count ≤ u64_max
    → start_whp_vcpu (some p) (some v) g ≡ (success, some w)
    → ((v.state ≡ vcpu_created) ⊎ (v.state ≡ vcpu_stopped))
      × (p.state ≡ partition_running)
      × (v.index < p.configured_vcpus)
      × (w ≡ run_vcpu v)
      × (is_whp_vcpu_valid (some w) ≡ true)
      × ((q : WhpPartition) (h : ℕ) → start_whp_vcpu (some q) (some w) h ≡ (state_conflict, some w))
      × (stop_whp_vcpu (some p) (some w) g ≡ (success, some (record w { state = vcpu_stopped })))
      × (is_whp_vcpu_valid (some (record w { state = vcpu_stopped })) ≡ true)
start-stop p v w g wide h =
    let (may, e) = start_parts p v w g h in
    let (_, _, _, _, running, few, from, room) = start_guard p v g may in
    let same : w ≡ run_vcpu v = ground (arith, e) in
    let valid = started_valid p v g may in
    rw same (
      from,
      running,
      few,
      refl,
      valid,
      λ q. λ k. second_start q (run_vcpu v) k refl,
      stop_value p (run_vcpu v) g (may_stop p v g may),
      stopped_valid (run_vcpu v) valid refl,
    )

create_parts :
    (p : WhpPartition) (out v : WhpVcpu) (i g : ℕ)
    → create_whp_vcpu (some p) (some out) i g ≡ (success, some v)
    → (is_whp_partition_valid (some p) ≡ true)
      × (g ≢ 0)
      × (p.generation ≡ g)
      × (i < p.configured_vcpus)
      × (v ≡ record empty_vcpu { index = i; generation = g; state = vcpu_created })
unfolding create_whp_vcpu is_current
create_parts p out v i g h = ground arith

partition_parts :
    (p q : WhpPartition) (g : ℕ)
    → start_whp_partition (some p) g ≡ (true, some q)
    → q ≡ record p { state = partition_running }
unfolding start_whp_partition
partition_parts p q g h = ground arith

few_vcpus : (p : WhpPartition) → is_whp_partition_valid (some p) ≡ true → p.configured_vcpus ≤ 256
unfolding is_whp_partition_valid
few_vcpus p v = ground arith

created_starts :
    (p : WhpPartition) (i g : ℕ)
    → is_whp_partition_valid (some p) ≡ true
    → p.state ≡ partition_running
    → g ≢ 0
    → p.generation ≡ g
    → i < p.configured_vcpus
    → may_start_vcpu p (record empty_vcpu { index = i; generation = g; state = vcpu_created }) g
      ≡ true
unfolding may_start_vcpu is_whp_vcpu_valid is_vcpu_state_valid_value is_versioned_size_valid
created_starts p i g v running gen same few = ground (arith, few_vcpus p v)

start_value :
    (p : WhpPartition) (v : WhpVcpu) (g : ℕ)
    → may_start_vcpu p v g ≡ true
    → start_whp_vcpu (some p) (some v) g
      ≡ (success, some (record v { state = vcpu_running; run_count = u64 (v.run_count + 1) }))
unfolding start_whp_vcpu
start_value p v g h = rw h refl

-- A processor that was created in a partition starts for the first time once the partition has started.
pub create-start :
    (p q : WhpPartition) (out v : WhpVcpu) (i g : ℕ)
    → create_whp_vcpu (some p) (some out) i g ≡ (success, some v)
    → start_whp_partition (some p) g ≡ (true, some q)
    → start_whp_vcpu (some q) (some v) g
      ≡ (success, some (record v { state = vcpu_running; run_count = 1 }))
create-start p q out v i g made on =
    let (valid, gen, same, few, e) = create_parts p out v i g made in
    let e' = partition_parts p q g on in
    rw (e, e')
      (start_value (record p { state = partition_running })
        (record empty_vcpu { index = i; generation = g; state = vcpu_created }) g
        (created_starts (record p { state = partition_running }) i g
          (moved_valid p partition_running valid (omega arith) (omega arith)) refl gen same few))
