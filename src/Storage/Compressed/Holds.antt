-- ===== src/Storage/Compressed/Holds.antt =====
-- The vector that a compressed backend holds, whatever is cached, dirty or compressed.
use tmfqsfullstate.Prelude.{
  ℕ, ◌*◌, ◌^◌, ◌≤◌, ◌<◌, ◌≡◌, ◌≢◌, refl, ap, ◌∙◌, subst, true, List, [], not, arith, length, set,
  ◌==◌, if◌then◌else◌, get_or-set, length-set, take-all,
}
use tmfqsfullstate.Core.Action.{Result, ok, err, logic_error}
use tmfqsfullstate.Core.Amplitude.{Double}
use tmfqsfullstate.Config.{RegisterConfig}
use tmfqsfullstate.Storage.ChunkLayout.{ChunkLayout, chunk_elems}
use tmfqsfullstate.Storage.ChunkLayout.Bounds.{IsExact}
use tmfqsfullstate.Storage.ChunkLayout.Chunks.{chunk_of, chunk_elems-bounds}
use tmfqsfullstate.Storage.ChunkCache.Represents.{Represents, IsStore, Loads}
use tmfqsfullstate.Storage.Codec.{CodecPolicy, IsLossless}
use tmfqsfullstate.Storage.Compressed.{
  ChunkStorage, CompressedStateBackend, chunk_at, chunk_store, load_chunk, store_chunk, store_bytes,
}

-- The chunks have the sizes of the layout.
pub record IsCounted (l : ChunkLayout) (chunks : List ChunkStorage) : Type 0 where
  pub all_chunks : length chunks ≡ l.chunk_count
  pub counts : (c : ℕ) → c < l.chunk_count → (chunk_at chunks c).elem_count ≡ chunk_elems l c

-- The numbers of doubles that a chunk of this many states can have.
abbrev pub IsChunkSize : ℕ → ℕ → Type 0
IsChunkSize width elems = (0 < elems) × (elems ≤ width * 2)

module _ {W : Type 0} (p : CodecPolicy W) {cfg : RegisterConfig W} {l : ChunkLayout} (x : IsExact l)
    (lossless : IsLossless p cfg (IsChunkSize l.states_per_chunk)) where
  -- A chunk that is compressed and put in its place is loaded again, and the others are as before.
  pub stored :
      (chunks : List ChunkStorage) (c : ℕ) (value : List W)
      → IsCounted l chunks
      → c < l.chunk_count
      → length value ≡ chunk_elems l c
      → (bytes : List ℕ) × (p.compress cfg value ≡ ok bytes)
        × IsCounted l (store_bytes c bytes chunks)
        × Loads (chunk_store p cfg) (chunk_elems l) (store_bytes c bytes chunks) c value
        × ((j : ℕ) (other : List W)
            → j ≢ c
            → Loads (chunk_store p cfg) (chunk_elems l) chunks j other
            → Loads (chunk_store p cfg) (chunk_elems l) (store_bytes c bytes chunks) j other)
  unfolding store_bytes load_chunk
  stored chunks c value g h long =
      let n = chunk_elems l c in
      let bounds = chunk_elems-bounds x c h in
      let (bytes, packed, unpacked) = lossless.restores value (omega arith, omega arith) in
      let nothing : ChunkStorage = record { compressed = []; elem_count = 0 } in
      let new : ChunkStorage = record (chunk_at chunks c) { compressed = bytes } in
      let at = λ (j : ℕ). get_or-set chunks c j new nothing (rw g.all_chunks h) in
      let count = g.counts c h in
      let now : chunk_at (set chunks c new) c ≡ record { compressed = bytes; elem_count = n } =
        ground (arith, at c, count) in
      let same : (n == n) ≡ true = ground arith in
      let unpacked' = subst (λ n. p.decompress cfg bytes n ≡ ok value) long unpacked in
      (
        bytes,
        packed,
        record {
          all_chunks = length-set chunks c new ∙ g.all_chunks;
          counts = λ j q. ground (arith, at j, g.counts j q, count);
        },
        λ buffer. rw (now, same, unpacked') refl,
        λ j other ne before buffer.
            let kept : chunk_at (set chunks c new) j ≡ chunk_at chunks j = ground (arith, at j) in
            ap (λ (r : Result (List W)). (r, set chunks c new))
              (ap
                  (λ (ch : ChunkStorage).
                    if not (ch.elem_count == chunk_elems l j)
                    then err logic_error
                    else p.decompress cfg ch.compressed (chunk_elems l j))
                  kept
                ∙ ap (λ (r : Result (List W) × List ChunkStorage). r.0) (before [])),
      )

  -- A lossless codec makes the chunks a store that gives back what was stored.
  pub chunk_store-IsStore : IsStore (chunk_store p cfg) l.chunk_count (chunk_elems l) (IsCounted l)
  unfolding store_chunk
  chunk_store-IsStore = record {
    occupied = λ c h. (chunk_elems-bounds x c h).0;
    counts = λ s c g h. g.counts c h;
    stores = λ s c value g h long.
        let (bytes, packed, g', loads, others) = stored s c value g h long in
        let n = chunk_elems l c in
        let fits : ((chunk_at s c).elem_count == n) ≡ true = ground (arith, g.counts c h) in
        (
          store_bytes c bytes s,
          rw (fits, take-all n value (omega arith), packed) refl,
          g',
          loads,
          others,
        );
  }

-- The backend holds the vector `v` of a register of `n` qubits.
pub record Holds {W : Type 0} ⦃d : Double W⦄ (p : CodecPolicy W) (n : ℕ) (v : List W)
    (b : CompressedStateBackend W) : Type 0 where
  pub few : n < 32
  pub qubits : b.num_qubits ≡ n
  pub states : b.num_states ≡ 2 ^ n
  pub exact : IsExact b.layout
  pub total : b.layout.total_states ≡ 2 ^ n
  pub full : length v ≡ 2 ^ n * 2
  pub holds :
      Represents
        (chunk_store p b.config)
        b.layout.chunk_count
        (chunk_elems b.layout)
        (IsCounted b.layout)
        (chunk_of b.layout v)
        b.cached
