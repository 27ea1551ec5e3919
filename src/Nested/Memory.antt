-- ===== src/Nested/Memory.antt =====
-- src/nested/nested_memory.cpp: reads and writes of the guest's linear memory, a page at a time. The
-- callbacks are code of the caller: parameters, on a state that stands for their context. A buffer is
-- the list of its bytes.
use knhv.Prelude.{
  ℕ, zero, suc, ◌+◌, ◌-◌, bit_and, Bool, true, false, not, Option, none, some, List, [], ◌∷◌, ◌++◌,
}
use knhv.Prelude.Tests.{ltb, ◌==◌, if◌then◌else◌}
use knhv.Prelude.Bits.{u64_max}
use knhv.Prelude.Lists.{length, take}
use knhv.Nested.Defs.{nested_page_size, memory_write}

-- A null callback is `none`. A translation gives the guest-physical address, a read the bytes, and a
-- write the answer with the state after it.
pub record NestedMemory (S : Type 0) : Type 0 where
  pub context : S
  pub translate : Option (S → ℕ → ℕ → Option ℕ)
  pub read : Option (S → ℕ → ℕ → Option (List ℕ))
  pub write : Option (S → ℕ → List ℕ → Bool × S)

abbrev pub drop : ℕ → List ℕ → List ℕ
drop zero bs = bs
drop (suc n) [] = []
drop (suc n) (b ∷ bs) = drop n bs

-- The bytes up to the end of the page, or all that remain.
unfoldable pub chunk_size : ℕ → ℕ → ℕ
chunk_size current remaining =
    let page_offset = bit_and current (nested_page_size - 1) in
    if ltb remaining (nested_page_size - page_offset)
    then remaining
    else nested_page_size - page_offset

module _ {S : Type 0} where
  unfoldable pub translate_linear : NestedMemory S → ℕ → ℕ → Option ℕ
  translate_linear m linear access = elim m.translate [
    | none ↦ none
    | some translate ↦ translate m.context linear access
  ]

  -- One turn of the loop of `ReadLinear`: the bytes of a chunk.
  unfoldable pub read_chunk :
      NestedMemory S → (S → ℕ → ℕ → Option (List ℕ)) → ℕ → ℕ → ℕ → Option (List ℕ)
  unfolding translate_linear
  read_chunk m read current chunk access = elim (translate_linear m current access) [
    | none ↦ none
    | some guest_physical ↦ if chunk == 0 then none else read m.context guest_physical chunk
  ]

  -- The loop, on fuel.
  unfoldable pub read_loop :
      ℕ → NestedMemory S → (S → ℕ → ℕ → Option (List ℕ)) → ℕ → ℕ → ℕ → Option (List ℕ)
  unfolding chunk_size read_chunk
  read_loop zero m read current remaining access = if remaining == 0 then some [] else none
  read_loop (suc fuel) m read current remaining access =
      let chunk = chunk_size current remaining in
      let rest = read_loop fuel m read (current + chunk) (remaining - chunk) access in
      if remaining == 0 then some [] else elim (read_chunk m read current chunk access) [
        | none ↦ none
        | some bytes ↦
            if remaining - chunk == 0
            then some bytes
            else if ltb (u64_max - chunk) current
            then none
            else elim rest [ none ↦ none | some more ↦ some (bytes ++ more) ]
      ]

  unfoldable pub read_linear : NestedMemory S → ℕ → ℕ → ℕ → Option (List ℕ)
  unfolding read_loop
  read_linear m linear length access = elim m.read [
    | none ↦ none
    | some read ↦ elim m.translate [
      | none ↦ none
      | some translate ↦ if length == 0 then none else read_loop length m read linear length access
    ]
  ]

  -- The loop of `WriteLinear`, on fuel: the answer, with the memory as the chunks written leave it.
  unfoldable pub write_loop :
      ℕ → NestedMemory S → (S → ℕ → List ℕ → Bool × S) → ℕ → List ℕ → Bool × NestedMemory S
  unfolding chunk_size translate_linear
  write_loop zero m write current bytes = (length bytes == 0, m)
  write_loop (suc fuel) m write current bytes =
      let remaining = length bytes in
      let chunk = chunk_size current remaining in
      let rest = λ (s : S).
        write_loop fuel (record m { context = s }) write (current + chunk) (drop chunk bytes) in
      if remaining == 0 then (true, m) else elim (translate_linear m current memory_write) [
        | none ↦ (false, m)
        | some guest_physical ↦
            if chunk == 0
            then (false, m)
            else let (written, s) = write m.context guest_physical (take chunk bytes) in
              if not written
              then (false, record m { context = s })
              else if remaining - chunk == 0
              then (true, record m { context = s })
              else if ltb (u64_max - chunk) current
              then (false, record m { context = s })
              else rest s
      ]

  unfoldable pub write_linear : NestedMemory S → ℕ → List ℕ → Bool × NestedMemory S
  unfolding write_loop
  write_linear m linear bytes = elim m.write [
    | none ↦ (false, m)
    | some write ↦ elim m.translate [
      | none ↦ (false, m)
      | some translate ↦
          if length bytes == 0 then (false, m) else write_loop (length bytes) m write linear bytes
    ]
  ]
