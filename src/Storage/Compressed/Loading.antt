-- ===== src/Storage/Compressed/Loading.antt =====
-- A vector that is loaded into the compressed backend is the vector that it holds.
use native.Mathlib.Decide.{ℕ_discrete}
use tmfqsfullstate.Prelude.{
  ℕ, zero, suc, ◌+◌, ◌*◌, ◌%◌, ◌^◌, ◌≤◌, ◌<◌, ◌≡◌, min, refl, ap, sym, ◌∙◌, subst, true, false,
  List, [], arith, length, ltb, ◌==◌, Option, none, inl, inr, replicate, length-replicate,
}
use tmfqsfullstate.Core.Action.{Result-cases, ok}
use tmfqsfullstate.Core.Amplitude.{Double}
use tmfqsfullstate.Core.StateSpace.{checked_state_count, checked_amplitude_element_count}
use tmfqsfullstate.Storage.PairKernel.Bits.{pow_pos, pow-le}
use tmfqsfullstate.Storage.ChunkCache
use tmfqsfullstate.Storage.ChunkCache.{ChunkCache, Cached, clear, on_store, on_cache}
use tmfqsfullstate.Storage.ChunkCache.Represents.{Loads}
use tmfqsfullstate.Storage.ChunkCache.Write.{configured-Represents}
use tmfqsfullstate.Storage.ChunkLayout.{ChunkLayout, make_chunk_layout, chunk_elems}
use tmfqsfullstate.Storage.ChunkLayout.Bounds.{IsExact, make_chunk_layout-IsExact}
use tmfqsfullstate.Storage.ChunkLayout.Chunks.{chunk_of, chunk_elems-bounds, length-chunk_of}
use tmfqsfullstate.Storage.Codec.{CodecPolicy, IsLossless}
use tmfqsfullstate.Storage.Compressed.{
  ChunkStorage, CompressedStateBackend, chunk_store, chunk_at, configure_storage, set_up_cache,
  make_chunks, on_cached, on_slots, store_bytes,
}
use tmfqsfullstate.Storage.Compressed.Access.{compress_chunks, load_amplitudes}
use tmfqsfullstate.Storage.Compressed.Holds.{Holds, IsChunkSize, IsCounted, stored}

make_chunk_layout-returns :
    (total width : ℕ) → 0 < width → (l : ChunkLayout) × (make_chunk_layout total width ≡ ok l)
unfolding make_chunk_layout
make_chunk_layout-returns total width pos = elim (Result-cases (make_chunk_layout total width)) [
  | inl found ↦ found
  | inr (e, failed) ↦ absurd (ground (arith, failed))
]

make_chunks-length : (l : ChunkLayout) (n c : ℕ) → length (make_chunks l n c) ≡ n
unfolding make_chunks
make_chunks-length l zero c = refl
make_chunks-length l (suc n) c = ap suc (make_chunks-length l n (suc c))

make_chunks-counts :
    (l : ChunkLayout) (n c j : ℕ)
    → j < n
    → (chunk_at (make_chunks l n c) j).elem_count ≡ chunk_elems l (c + j)
unfolding make_chunks
make_chunks-counts l zero c j h = absurd (omega arith)
make_chunks-counts l (suc n) c zero h = ap (chunk_elems l) (omega arith)
make_chunks-counts l (suc n) c (suc j) h =
    make_chunks-counts l n (suc c) j (omega arith) ∙ ap (chunk_elems l) (omega arith)

some_chunk : {l : ChunkLayout} → IsExact l → 0 < l.total_states → 0 < l.chunk_count
some_chunk {l} x h = elim (ℕ_discrete l.chunk_count 0) [
  | yes e ↦
      let none_left : l.total_states ≤ 0 * l.states_per_chunk =
        subst (λ k. l.total_states ≤ k * l.states_per_chunk) e x.covered in
      absurd (omega arith)
  | no ne ↦ omega arith
]

module _ {W : Type 0} ⦃d : Double W⦄ (p : CodecPolicy W) where
  -- What `configureStorage` leaves.
  abbrev fresh : ℕ → ChunkLayout → CompressedStateBackend W → CompressedStateBackend W
  fresh n l b = record {
    num_qubits = n;
    num_states = 2 ^ n;
    config = b.config;
    layout = l;
    cached = record {
      cache = record {
        capacity = min (p.cache_slots b.config) l.chunk_count;
        slots = [];
        chunk_to_slot = replicate l.chunk_count none;
        touch_counter = 0;
      };
      store = make_chunks l l.chunk_count 0;
    };
    batch_depth = 0;
  }

  configure_storage-eq :
      (n : ℕ) (b : CompressedStateBackend W) {l : ChunkLayout}
      → n < 32
      → make_chunk_layout (2 ^ n) (p.chunk_states b.config) ≡ ok l
      → 0 < l.chunk_count
      → 0 < p.cache_slots b.config
      → configure_storage p n b ≡ (ok tt, fresh n l b)
  unfolding configure_storage checked_state_count set_up_cache on_cached ChunkCache.configure
  configure_storage-eq n b {l} few made some_chunks room =
      let accepted : ltb 63 n ≡ false = ground arith in
      let states : 2 ^ n % 2 ^ 32 ≡ 2 ^ n = omega (arith, pow-le n 31 (omega arith)) in
      let slots : (min (p.cache_slots b.config) l.chunk_count == 0) ≡ false = ground arith in
      rw (accepted, states, made, make_chunks-length l l.chunk_count 0, slots) refl

  -- The chunks from `c` on are compressed.
  compress_chunks-Loads :
      (n c : ℕ) (v : List W) (b : CompressedStateBackend W)
      → IsExact b.layout
      → IsLossless p b.config (IsChunkSize b.layout.states_per_chunk)
      → IsCounted b.layout b.cached.store
      → length v ≡ b.layout.total_states * 2
      → c + n ≡ b.layout.chunk_count
      → ((j : ℕ)
          → j < c
          → Loads
              (chunk_store p b.config)
              (chunk_elems b.layout)
              b.cached.store
              j
              (chunk_of b.layout v j))
      → (s' : List ChunkStorage) × (compress_chunks p v n c b
          ≡ (ok tt, record b { cached = record b.cached { store = s' } }))
        × IsCounted b.layout s'
        × ((j : ℕ)
            → j < b.layout.chunk_count
            → Loads (chunk_store p b.config) (chunk_elems b.layout) s' j (chunk_of b.layout v j))
  unfolding compress_chunks on_cached on_store
  compress_chunks-Loads zero c v b x lossless g full e before =
      (b.cached.store, refl, g, λ j h. before j (omega arith))
  compress_chunks-Loads (suc n) c v b x lossless g full e before =
      let l = b.layout in
      let below : c < l.chunk_count = omega arith in
      let bounds = chunk_elems-bounds x c below in
      let long = length-chunk_of x c below v full in
      let (bytes, packed, g', loads, others) =
        stored p x lossless b.cached.store c (chunk_of l v c) g below long in
      let begin : c * l.elems_per_chunk % 2 ^ 64 ≡ c * (l.states_per_chunk * 2) =
        let same = ap (λ k. c * k) x.width in omega (arith, x.small) in
      let b' = record b {
        cached = record b.cached { store = store_bytes c bytes b.cached.store };
      } in
      let (s', rest, g'', after) =
        compress_chunks-Loads n (suc c) v b' x lossless g' full (omega arith) (λ j h.
          elim (ℕ_discrete j c) [
            | yes q ↦
                subst
                  (λ j.
                    Loads (chunk_store p b.config) (chunk_elems l)
                      (store_bytes c bytes b.cached.store) j (chunk_of l v j))
                  (sym q) loads
            | no ne ↦ others j (chunk_of l v j) ne (before j (omega arith))
          ]) in
      (s', rw (g.counts c below, begin, packed) rest, g'', after)

  load_amplitudes-fresh :
      (n : ℕ) (v : List W) (b : CompressedStateBackend W) {l : ChunkLayout}
      → n < 32
      → length v ≡ 2 ^ n * 2
      → make_chunk_layout (2 ^ n) (p.chunk_states b.config) ≡ ok l
      → 0 < l.chunk_count
      → 0 < p.cache_slots b.config
      → load_amplitudes p n v b ≡ compress_chunks p v l.chunk_count 0 (fresh n l b)
  unfolding load_amplitudes checked_amplitude_element_count checked_state_count on_slots on_cached
      on_cache clear
  load_amplitudes-fresh n v b {l} few full made some_chunks room =
      let states = pow-le n 31 (omega arith) in
      let accepted : ltb 63 n ≡ false = ground arith in
      let elems : 2 ^ n * 2 % 2 ^ 64 ≡ 2 ^ n * 2 = omega arith in
      let right : (2 ^ n * 2 == 2 ^ n * 2) ≡ true = ground arith in
      let count = length-replicate {A = Option ℕ} l.chunk_count none in
      rw
        (
          configure_storage-eq n b few made some_chunks room,
          accepted,
          elems,
          full,
          right,
          count,
          make_chunks-length l l.chunk_count 0,
        )
        refl

  loaded :
      (n : ℕ) (v : List W) (b : CompressedStateBackend W) {l : ChunkLayout}
      → n < 32
      → length v ≡ 2 ^ n * 2
      → make_chunk_layout (2 ^ n) (p.chunk_states b.config) ≡ ok l
      → p.chunk_states b.config ≤ 2 ^ 61
      → 0 < p.cache_slots b.config
      → IsLossless p b.config (IsChunkSize (p.chunk_states b.config))
      → (b' : CompressedStateBackend W) × (load_amplitudes p n v b ≡ (ok tt, b'))
        × Holds p n v b'
        × (b'.config ≡ b.config)
        × (b'.layout.states_per_chunk ≡ p.chunk_states b.config)
  loaded n v b {l} few full made narrow room lossless =
      let states = pow-le n 31 (omega arith) in
      let (x, total, width) =
        make_chunk_layout-IsExact (2 ^ n) (p.chunk_states b.config) (omega arith) made in
      let some_chunks = some_chunk x (omega (arith, pow_pos n)) in
      let counted : IsCounted l (make_chunks l l.chunk_count 0) = record {
        all_chunks = make_chunks-length l l.chunk_count 0;
        counts = λ c h. make_chunks-counts l l.chunk_count 0 c h ∙ ap (chunk_elems l) (omega arith);
      } in
      let full' : length v ≡ l.total_states * 2 = omega arith in
      let (s', step, g, loads) =
        compress_chunks-Loads l.chunk_count 0 v (fresh n l b) x
          (subst (λ k. IsLossless p b.config (IsChunkSize k)) (sym width) lossless) counted full'
          (omega arith) (λ j h. absurd (omega arith)) in
      (
        record (fresh n l b) { cached = record (fresh n l b).cached { store = s' } },
        load_amplitudes-fresh n v b few full made some_chunks room ∙ step,
        record {
          few = few;
          qubits = refl;
          states = refl;
          exact = x;
          total = total;
          full = full;
          holds =
              configured-Represents (min (p.cache_slots b.config) l.chunk_count) s' (omega arith) g
                (λ c h. length-chunk_of x c h v full') loads;
        },
        refl,
        width,
      )

  -- With a codec that restores chunks of the configured width, which is from 1 to 2^61 states, and at
  -- least one cache slot configured, loadAmplitudes of a vector of the right length returns for fewer
  -- than 32 qubits, whatever the backend was before, and leaves a backend that holds the vector, of the
  -- same configuration and of chunks of that width.
  pub load_amplitudes-Holds :
      (n : ℕ) (v : List W) (b : CompressedStateBackend W)
      → n < 32
      → length v ≡ 2 ^ n * 2
      → 0 < p.chunk_states b.config
      → p.chunk_states b.config ≤ 2 ^ 61
      → 0 < p.cache_slots b.config
      → IsLossless p b.config (IsChunkSize (p.chunk_states b.config))
      → (b' : CompressedStateBackend W) × (load_amplitudes p n v b ≡ (ok tt, b'))
        × Holds p n v b'
        × (b'.config ≡ b.config)
        × (b'.layout.states_per_chunk ≡ p.chunk_states b.config)
  load_amplitudes-Holds n v b few full some_width narrow room lossless =
      let (l, made) = make_chunk_layout-returns (2 ^ n) (p.chunk_states b.config) some_width in
      loaded n v b few full made narrow room lossless
