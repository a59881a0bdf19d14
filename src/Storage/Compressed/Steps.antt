-- ===== src/Storage/Compressed/Steps.antt =====
-- The steps that the operations of a compressed backend share, on a backend that holds a vector.
use tmfqsfullstate.Prelude.{
  ℕ, ◌+◌, ◌*◌, ◌/◌, ◌%◌, ◌^◌, ◌≤◌, ◌<◌, ◌≡◌, refl, ap, ◌∙◌, subst, true, false, List, arith, length,
  ltb, leb, ◌==◌, set, some, Bool-cases, inl, inr, length-set,
}
use native.Mathlib.Decide.{ℕ_discrete}
use native.Mathlib.Nat.{mod-lt}
use tmfqsfullstate.Core.Action.{ok}
use tmfqsfullstate.Core.Amplitude.{Double, Amplitude, nought}
use tmfqsfullstate.Core.Validation.{ensure_backend_initialized, validate_state_index}
use tmfqsfullstate.Storage.PairKernel.Bits.{pow_pos, pow-le}
use tmfqsfullstate.Storage.ChunkLayout.{state_ref, chunk_elems}
use tmfqsfullstate.Storage.ChunkLayout.Chunks.{chunk_of, chunk_of-reads, chunk_of-writes, place}
use tmfqsfullstate.Storage.ChunkCache.{Cached, slot_of, on_cache, mark_dirty}
use tmfqsfullstate.Storage.ChunkCache.Represents.{Represents, Represents-congr}
use tmfqsfullstate.Storage.ChunkCache.Acquire.{acquire-Represents, IsAcquired}
use tmfqsfullstate.Storage.ChunkCache.Write.{written-Represents, flush_all-Represents}
use tmfqsfullstate.Storage.Codec.{CodecPolicy, IsLossless}
use tmfqsfullstate.Storage.Dense.{read_pair, write_pair}
use tmfqsfullstate.Storage.Dense.Cells.{length-write_pair}
use tmfqsfullstate.Storage.Compressed.{
  ChunkStorage, CompressedStateBackend, Compressed, chunk_store, on_cached, ensure_initialized,
  validate_state, acquire_chunk, acquire_amplitude_ref, read_cell, write_cell, update_cell,
  on_slots, flush_cache, flush_cache_if_needed, mutate,
}
use tmfqsfullstate.Storage.Compressed.Holds.{Holds, IsChunkSize, IsCounted, chunk_store-IsStore}

module _ {W : Type 0} ⦃d : Double W⦄ {p : CodecPolicy W} {n : ℕ} {v : List W}
    {b : CompressedStateBackend W} (h : Holds p n v b) where
  -- The backend holds what its cache and chunks represent.
  pub held :
      {v' : List W} (x' : Cached W (List ChunkStorage))
      → length v' ≡ 2 ^ n * 2
      → Represents
          (chunk_store p b.config)
          b.layout.chunk_count
          (chunk_elems b.layout)
          (IsCounted b.layout)
          (chunk_of b.layout v')
          x'
      → Holds p n v' (record b { cached = x' })
  held x' full r = record {
    few = h.few;
    qubits = h.qubits;
    states = h.states;
    exact = h.exact;
    total = h.total;
    full = full;
    holds = r;
  }

  pub some_chunks : 0 < b.layout.chunk_count
  some_chunks = elim (ℕ_discrete b.layout.chunk_count 0) [
    | yes e ↦
        let none_left : b.layout.total_states ≤ 0 * b.layout.states_per_chunk =
          subst (λ k. b.layout.total_states ≤ k * b.layout.states_per_chunk) e h.exact.covered in
        absurd (omega (arith, h.total, pow_pos n))
    | no ne ↦ omega arith
  ]

  pub ensure_initialized-Holds : ensure_initialized b ≡ (ok tt, b)
  unfolding ensure_initialized ensure_backend_initialized
  ensure_initialized-Holds =
      let chunks = h.holds.good.all_chunks in
      let filled : (length b.cached.store == 0) ≡ false = ground (arith, chunks, some_chunks) in
      let some_states : ltb 0 b.num_states ≡ true = ground (arith, h.states, pow_pos n) in
      rw (filled, some_states) refl

  pub validate_state-Holds : (s : ℕ) → s < 2 ^ n → validate_state s b ≡ (ok tt, b)
  unfolding validate_state validate_state_index
  validate_state-Holds s lt =
      let small = pow-le n 31 (omega (arith, h.few)) in
      let whole : b.num_states % 2 ^ 32 ≡ 2 ^ n = omega (arith, small, h.states) in
      let inside : leb (2 ^ n) s ≡ false = ground arith in rw (whole, inside) refl

  -- A cell of a slot that has the state's chunk.
  pub read_cell-Represents :
      (s : ℕ)
      → s < 2 ^ n
      → (k : ℕ) (x' : Cached W (List ChunkStorage))
      → Represents
          (chunk_store p b.config)
          b.layout.chunk_count
          (chunk_elems b.layout)
          (IsCounted b.layout)
          (chunk_of b.layout v)
          x'
      → slot_of x'.cache (s / b.layout.states_per_chunk) ≡ some k
      → read_cell k (s % b.layout.states_per_chunk * 2) x'.cache ≡ read_pair v s
  unfolding read_cell read_pair
  read_cell-Represents s lt k x' r placed =
      let w = b.layout.states_per_chunk in
      let below : s < b.layout.total_states = omega (arith, h.total) in
      let buffer = r.cached (s / w) k (r.chunk_of (s / w) k placed) in
      let (low, high) = chunk_of-reads h.exact s below v nought in
      rw buffer (λ i. record { real = low i; imag = high i })

  module _ (lossless : IsLossless p b.config (IsChunkSize b.layout.states_per_chunk)) where
    pub acquire_chunk-Holds :
        (c : ℕ)
        → c < b.layout.chunk_count
        → (k : ℕ) × (x' : Cached W (List ChunkStorage)) × (acquire_chunk p c b
            ≡ (ok k, record b { cached = x' }))
          × Represents
              (chunk_store p b.config)
              b.layout.chunk_count
              (chunk_elems b.layout)
              (IsCounted b.layout)
              (chunk_of b.layout v)
              x'
          × IsAcquired c k b.cached x'
    unfolding acquire_chunk on_cached
    acquire_chunk-Holds c inside =
        let (k, x', step, r, a) =
          acquire-Represents (chunk_store-IsStore p h.exact lossless) h.holds c inside in
        (k, x', rw step refl, r, a)

    pub flush_cache-Holds :
        (x' : Cached W (List ChunkStorage)) × (flush_cache p b ≡ (ok tt, record b { cached = x' }))
        × Holds p n v (record b { cached = x' })
    unfolding flush_cache on_cached
    flush_cache-Holds =
        let (x', step, r, map_, counter, loads) =
          flush_all-Represents (chunk_store-IsStore p h.exact lossless) h.holds in
        (x', rw step refl, held x' h.full r)

    pub flush_cache_if_needed-Holds :
        (x' : Cached W (List ChunkStorage)) × (flush_cache_if_needed p b
          ≡ (ok tt, record b { cached = x' }))
        × Holds p n v (record b { cached = x' })
    unfolding flush_cache_if_needed
    flush_cache_if_needed-Holds = elim (Bool-cases (b.batch_depth == 0)) [
      | inl e ↦ rw e flush_cache-Holds
      | inr e ↦ (b.cached, rw e refl, h)
    ]

    -- A reference to a state's amplitude: the slot and the offset, with what it reads.
    pub acquire_amplitude_ref-Holds :
        (s : ℕ)
        → s < 2 ^ n
        → (k : ℕ) × (x' : Cached W (List ChunkStorage)) × (acquire_amplitude_ref p s b
            ≡ (ok (k, s % b.layout.states_per_chunk * 2), record b { cached = x' }))
          × Represents
              (chunk_store p b.config)
              b.layout.chunk_count
              (chunk_elems b.layout)
              (IsCounted b.layout)
              (chunk_of b.layout v)
              x'
          × (slot_of x'.cache (s / b.layout.states_per_chunk) ≡ some k)
          × (read_cell k (s % b.layout.states_per_chunk * 2) x'.cache ≡ read_pair v s)
    unfolding acquire_amplitude_ref state_ref
    acquire_amplitude_ref-Holds s lt =
        let w = b.layout.states_per_chunk in
        let below : s < b.layout.total_states = omega (arith, h.total) in
        let (inside, at, off) = place h.exact s below in
        let small : s % w * 2 % 2 ^ 64 ≡ s % w * 2 =
          omega (arith, h.exact.small, mod-lt s h.exact.width_pos) in
        let (k, x', step, r, a) = acquire_chunk-Holds (s / w) inside in
        (k, x', rw (small, step) refl, r, a.placed, read_cell-Represents s lt k x' r a.placed)

    -- What is written through the reference.
    pub write_cell-Holds :
        (s k : ℕ) (amp : Amplitude W) (x' : Cached W (List ChunkStorage))
        → s < 2 ^ n
        → Represents
            (chunk_store p b.config)
            b.layout.chunk_count
            (chunk_elems b.layout)
            (IsCounted b.layout)
            (chunk_of b.layout v)
            x'
        → slot_of x'.cache (s / b.layout.states_per_chunk) ≡ some k
        → Holds p n (write_pair v s amp) (record b {
          cached = record {
            cache = mark_dirty k (write_cell k (s % b.layout.states_per_chunk * 2) amp x'.cache);
            store = x'.store;
          };
        })
    unfolding write_cell write_pair
    write_cell-Holds s k amp x' lt r placed =
        let w = b.layout.states_per_chunk in
        let below : s < b.layout.total_states = omega (arith, h.total) in
        let (inside, at, off) = place h.exact s below in
        let offset = s % w * 2 in
        let buffer = r.cached (s / w) k (r.chunk_of (s / w) k placed) in
        let old = chunk_of b.layout v (s / w) in
        let value = set (set old offset amp.real) (offset + 1) amp.imag in
        let long : length value ≡ chunk_elems b.layout (s / w) =
          length-set (set old offset amp.real) (offset + 1) amp.imag
          ∙ length-set old offset amp.real
          ∙ r.sized (s / w) inside in
        held _ (length-write_pair v s amp ∙ h.full) (
          rw buffer (
            Represents-congr
              (λ c hc. ground (
                arith,
                chunk_of-writes h.exact s below v amp.real amp.imag c hc,
                ap (chunk_of b.layout v) {x = c} {y = s / w},
              ))
              (written-Represents r (s / w) k placed value long)))

    -- One amplitude is rewritten.
    pub update_cell-Holds :
        (f : Amplitude W → Amplitude W) (s : ℕ)
        → s < 2 ^ n
        → (x' : Cached W (List ChunkStorage)) × (update_cell p f s b
            ≡ (ok tt, record b { cached = x' }))
          × Holds p n (write_pair v s (f (read_pair v s))) (record b { cached = x' })
    unfolding update_cell on_slots on_cached on_cache
    update_cell-Holds f s lt =
        let (k, x', step, r, placed, reads) = acquire_amplitude_ref-Holds s lt in
        (_, rw (step, reads) refl, write_cell-Holds s k (f (read_pair v s)) x' lt r placed)

module _ {W : Type 0} ⦃d : Double W⦄ {p : CodecPolicy W} {n : ℕ} {v : List W}
    {b : CompressedStateBackend W} (h : Holds p n v b)
    (lossless : IsLossless p b.config (IsChunkSize b.layout.states_per_chunk)) where
  -- A change that returns, with the check before it and the write-back after it.
  pub mutate-Holds :
      (change : Compressed W (Unit {0})) (v' : List W) (x' : Cached W (List ChunkStorage))
      → change b ≡ (ok tt, record b { cached = x' })
      → Holds p n v' (record b { cached = x' })
      → (x'' : Cached W (List ChunkStorage)) × (mutate p change b
          ≡ (ok tt, record b { cached = x'' }))
        × Holds p n v' (record b { cached = x'' })
  unfolding mutate
  mutate-Holds change v' x' step h' =
      let (x'', flushed, h'') = flush_cache_if_needed-Holds h' lossless in
      (x'', rw (ensure_initialized-Holds h, step, flushed) refl, h'')
