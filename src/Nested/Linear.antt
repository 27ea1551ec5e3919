-- ===== src/Nested/Linear.antt =====
-- The loop of `ReadLinear` in src/nested/nested_memory.cpp ends, with every byte.
use knhv.Prelude.{
  ℕ, zero, suc, ◌+◌, ◌-◌, ◌≤◌, ◌<◌, ◌≡◌, refl, inl, inr, false, Option, some, List, [], ◌∷◌, ◌++◌,
  arith,
}
use knhv.Prelude.Tests.{ltb, ◌==◌, Bool-cases}
use knhv.Prelude.Bits.{u64_max}
use knhv.Prelude.Lists.{length}
use knhv.Prelude.Power.{bit_and_mod}
use knhv.Nested.Memory.{
  NestedMemory, chunk_size, translate_linear, read_chunk, read_loop, read_linear,
}

chunk_bounds :
    (current remaining : ℕ)
    → 0 < remaining
    → (0 < chunk_size current remaining) × (chunk_size current remaining ≤ remaining)
unfolding chunk_size
chunk_bounds current remaining pos = ground (arith, bit_and_mod 12 current)

length-append : (xs ys : List ℕ) → length (xs ++ ys) ≡ length xs + length ys
length-append [] ys = omega arith
length-append (x ∷ xs) ys = omega (arith, length-append xs ys)

-- Memory of which every byte is mapped and readable: a translation answers, and a read answers with as
-- many bytes as were asked for.
pub record IsReadable {S : Type 0} (m : NestedMemory S) (read : S → ℕ → ℕ → Option (List ℕ))
    : Type 0 where
  pub translate : S → ℕ → ℕ → Option ℕ
  pub translates : m.translate ≡ some translate
  pub maps : (linear access : ℕ) → (g : ℕ) × (translate m.context linear access ≡ some g)
  pub reads : m.read ≡ some read
  pub answers : (g n : ℕ) → (bs : List ℕ) × (read m.context g n ≡ some bs) × (length bs ≡ n)

module _ {S : Type 0} (m : NestedMemory S) (read : S → ℕ → ℕ → Option (List ℕ)) where
  chunk_read :
      (current chunk access : ℕ)
      → IsReadable m read
      → 0 < chunk
      → (bs : List ℕ) × (read_chunk m read current chunk access ≡ some bs) × (length bs ≡ chunk)
  unfolding read_chunk translate_linear
  chunk_read current chunk access r pos =
      let (g, mapped) = r.maps current access in
      let (bs, answer, len) = r.answers g chunk in
      let some_bytes : (chunk == 0) ≡ false = ground arith in
      (bs, rw (read_chunk, r.translates, mapped, some_bytes, answer) refl, len)

  loop_reads :
      (fuel current remaining access : ℕ)
      → IsReadable m read
      → remaining ≤ fuel
      → current + remaining ≤ u64_max + 1
      → (bs : List ℕ) × (read_loop fuel m read current remaining access ≡ some bs)
        × (length bs ≡ remaining)
  unfolding read_loop
  loop_reads zero current remaining access r few fit =
      let done : remaining ≡ 0 = omega arith in ([], rw (read_loop, done) refl, omega arith)
  loop_reads (suc fuel) current remaining access r few fit = elim (Bool-cases (remaining == 0)) [
    | inl e ↦ ([], rw (read_loop, e) refl, ground arith)
    | inr e ↦
        let (pos, low) = chunk_bounds current remaining (ground arith) in
        let chunk = chunk_size current remaining in
        let (bs, got, len) = chunk_read current chunk access r pos in
        elim (Bool-cases (remaining - chunk == 0)) [
          | inl f ↦ (bs, rw (read_loop, e, got, f) refl, ground arith)
          | inr f ↦
              let (more, rest, len') =
                loop_reads fuel (current + chunk) (remaining - chunk) access r (omega arith)
                  (omega arith) in
              let no_wrap : ltb (u64_max - chunk) current ≡ false = ground arith in
              (
                bs ++ more,
                rw (read_loop, e, got, f, no_wrap, rest) refl,
                omega (arith, length-append bs more),
              )
        ]
  ]

  -- On memory of which every byte is mapped and readable, a read of some bytes that does not wrap
  -- around the address space ends with exactly that many: the fuel of the model, the length, is enough.
  pub read_linear-length :
      (linear n access : ℕ)
      → IsReadable m read
      → 0 < n
      → linear + n ≤ u64_max + 1
      → (bs : List ℕ) × (read_linear m linear n access ≡ some bs) × (length bs ≡ n)
  unfolding read_linear
  read_linear-length linear n access r pos fit =
      let (bs, got, len) = loop_reads n linear n access r (omega arith) fit in
      let some_bytes : (n == 0) ≡ false = ground arith in
      (bs, rw (read_linear, r.reads, r.translates, some_bytes, got) refl, len)
