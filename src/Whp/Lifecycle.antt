-- ===== src/Whp/Lifecycle.antt =====
-- The life of a partition in src/whp/whp_model.cpp: what every call keeps, and where it ends.
use knhv.Prelude.{
  ℕ, ◌+◌, ◌*◌, ◌^◌, ◌≤◌, ◌<◌, ◌≡◌, ◌≢◌, refl, ◌∙◌, true, Option, none, some, List, [], ◌∷◌, arith,
}
use knhv.Prelude.Bits.{u32}
use knhv.Whp.Defs.{
  partition_empty, partition_configured, partition_running, partition_draining,
  partition_quarantined, WhpPartition, WhpMemoryMapping,
}
use knhv.Whp.Validity.{
  is_partition_state_valid_value, is_whp_partition_valid, is_whp_memory_mapping_valid,
}
use knhv.Whp.Partition.{
  configure_whp_partition, map_whp_gpa, start_whp_partition, begin_whp_drain, close_whp_partition,
  quarantine_whp_partition,
}

pub data Call : Type 0 where
  configure : (generation vcpu_count : ℕ) → Call
  map_gpa : (mapping : WhpMemoryMapping) → (generation physical_address_bits : ℕ) → Call
  start drain close quarantine : (generation : ℕ) → Call

-- What a call leaves of a partition.
abbrev pub left_by {ℓ} : {A : Type ℓ} → WhpPartition → A × Option WhpPartition → WhpPartition
left_by p (ok, some q) = q
left_by p (ok, none) = p

unfoldable pub step : WhpPartition → Call → WhpPartition
step p (configure g n) = left_by p (configure_whp_partition (some p) g n)
step p (map_gpa m g bits) = left_by p (map_whp_gpa (some p) (some m) g bits)
step p (start g) = left_by p (start_whp_partition (some p) g)
step p (drain g) = left_by p (begin_whp_drain (some p) g)
step p (close g) = left_by p (close_whp_partition (some p) g)
step p (quarantine g) = left_by p (quarantine_whp_partition (some p) g)

unfoldable pub run : WhpPartition → List Call → WhpPartition
run p [] = p
run p (c ∷ cs) = run (step p c) cs

-- What holds of a partition at rest: it is valid, has processors from its configuration to its end,
-- and at most 2 ^ 20 pages for each mapping.
pub record IsSound (p : WhpPartition) : Type 0 where
  pub valid : is_whp_partition_valid (some p) ≡ true
  pub alive : p.state ≢ partition_empty
  pub staffed :
      partition_configured ≤ p.state → p.state ≤ partition_draining → p.configured_vcpus ≢ 0
  pub paged : p.mapped_pages ≤ p.mapping_count * 2 ^ 20

-- What a later state of a partition shares with an earlier one: the identity, the direction of the life
-- cycle, and from the start on the processors and the mappings.
pub record Continues (p q : WhpPartition) : Type 0 where
  pub same_id : q.partition_id ≡ p.partition_id
  pub same_owner : q.owner_id ≡ p.owner_id
  pub same_generation : q.generation ≡ p.generation
  pub same_flags : q.flags ≡ p.flags
  pub same_bound : q.max_vcpus ≡ p.max_vcpus
  pub forward : p.state ≤ q.state
  pub frozen :
      partition_running ≤ p.state
      → (q.configured_vcpus ≡ p.configured_vcpus)
        × (q.mapping_count ≡ p.mapping_count)
        × (q.mapped_pages ≡ p.mapped_pages)

pub Continues-refl : (p : WhpPartition) → Continues p p
Continues-refl p = record {
  same_id = refl;
  same_owner = refl;
  same_generation = refl;
  same_flags = refl;
  same_bound = refl;
  forward = omega arith;
  frozen = λ _. (refl, refl, refl);
}

pub Continues-trans : {p q r : WhpPartition} → Continues p q → Continues q r → Continues p r
Continues-trans {p} {q} {r} a b = record {
  same_id = b.same_id ∙ a.same_id;
  same_owner = b.same_owner ∙ a.same_owner;
  same_generation = b.same_generation ∙ a.same_generation;
  same_flags = b.same_flags ∙ a.same_flags;
  same_bound = b.same_bound ∙ a.same_bound;
  forward = ground (arith, a.forward, b.forward);
  frozen = λ live. ground (arith, a.frozen, b.frozen, a.forward);
}

-- A valid partition moved on to a further state.
pub moved_valid :
    (p : WhpPartition) (state : ℕ)
    → is_whp_partition_valid (some p) ≡ true
    → state ≢ partition_empty
    → state ≤ partition_quarantined
    → is_whp_partition_valid (some (record p { state = state })) ≡ true
unfolding is_whp_partition_valid is_partition_state_valid_value
moved_valid p state v live low = ground arith

pub moved :
    (p : WhpPartition) (state : ℕ)
    → IsSound p
    → p.state ≤ state
    → state ≤ partition_quarantined
    → (state ≤ partition_draining → partition_configured ≤ state → p.configured_vcpus ≢ 0)
    → IsSound (record p { state = state }) × Continues p (record p { state = state })
moved p state s on low staffed = (
  record {
    valid = moved_valid p state s.valid (ground (arith, s.alive)) low;
    alive = ground (arith, s.alive);
    staffed = λ a. λ b. staffed b a;
    paged = s.paged;
  },
  record {
    same_id = refl;
    same_owner = refl;
    same_generation = refl;
    same_flags = refl;
    same_bound = refl;
    forward = on;
    frozen = λ _. (refl, refl, refl);
  },
)

-- The two calls that write more than the state.
pub configured_valid :
    (p : WhpPartition) (n : ℕ)
    → is_whp_partition_valid (some p) ≡ true
    → n ≤ p.max_vcpus
    → is_whp_partition_valid
        (some (record p { configured_vcpus = n; state = partition_configured }))
      ≡ true
unfolding is_whp_partition_valid is_partition_state_valid_value
configured_valid p n v low = ground arith

pub mapped_valid :
    (p : WhpPartition) (pages : ℕ)
    → is_whp_partition_valid (some p) ≡ true
    → p.state ≢ partition_empty
    → p.mapping_count < 1024
    → is_whp_partition_valid
        (some (record p { mapping_count = u32 (p.mapping_count + 1); mapped_pages = pages }))
      ≡ true
unfolding is_whp_partition_valid
mapped_valid p pages v live low = ground arith

pub mapping_pages :
    (m : WhpMemoryMapping) (bits : ℕ)
    → is_whp_memory_mapping_valid (some m) bits ≡ true
    → m.page_count ≤ 0x100000
unfolding is_whp_memory_mapping_valid
mapping_pages m bits v = ground arith
