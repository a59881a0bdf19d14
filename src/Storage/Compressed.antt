-- ===== src/Storage/Compressed.antt =====
-- storage/common/compressed_state_backend.h: the state vector in compressed chunks behind a
-- ChunkCache. A pointer into a slot's buffer is the slot's index with the offset. Left out: the metrics, the
-- reused scratch buffers, and output to a stream.
pub mod Access
pub mod Transforms
pub mod Kernels
pub mod Matching
pub mod Backend
pub mod Holds
pub mod Steps
pub mod Refines
pub mod Everywhere
pub mod Loading
pub mod Reading
use tmfqsfullstate.Prelude.{
  ℕ, zero, suc, ◌+◌, ◌*◌, ◌/◌, ◌-◌, ◌<◌, Bool, true, false, not, ◌&&◌, ◌||◌, List, [], ◌∷◌, Option,
  none, some, ltb, leb, ◌==◌, if◌then◌else◌, length, get_or, set, replicate, take, drop, min,
}
use tmfqsfullstate.Core.Action.{
  Result, ok, err, invalid_argument, runtime_error, logic_error, Action, ◌>>=◌, ◌>>◌, pure, lift,
  current, modify, for_each, throw_if, and_then, continue,
}
use tmfqsfullstate.Core.Amplitude.{Double, Amplitude, ◌⊕◌, ◌⊖◌, ◌⊗◌, ◌⊘◌, nought, one, two}
use tmfqsfullstate.Core.StateSpace.{
  narrow, u64_mod, checked_state_count, checked_amplitude_element_count,
}
use tmfqsfullstate.Core.Validation.{validate_state_index, ensure_backend_initialized}
use tmfqsfullstate.Config.{RegisterConfig}
use tmfqsfullstate.Storage.ChunkCache
use tmfqsfullstate.Storage.ChunkCache.{
  ChunkCache, ChunkStore, Cached, slot_at, acquire, flush_all, find_buffer, write_buffer,
  mark_dirty, on_cache,
}
use tmfqsfullstate.Storage.ChunkLayout.{
  ChunkLayout, make_chunk_layout, chunk_elems, chunk_begin_state, state_ref,
}
use tmfqsfullstate.Storage.Codec.{CodecPolicy}
use tmfqsfullstate.Storage.Dense.{fold_pairs, map_pairs, norm_sq, invert_about, affine}
use tmfqsfullstate.Storage.Selected.{sorted_unique}

pub record ChunkStorage : Type 0 where
  pub compressed : List ℕ
  pub elem_count : ℕ

pub record CompressedStateBackend (W : Type 0) : Type 0 where
  pub num_qubits : ℕ
  pub num_states : ℕ
  pub config : RegisterConfig W
  pub layout : ChunkLayout
  -- `cache_` and `chunks_`
  pub cached : Cached W (List ChunkStorage)
  pub batch_depth : ℕ

-- A method of the backend.
abbrev pub Compressed : Type 0 → Type 0 → Type 0
Compressed W A = Action (CompressedStateBackend W) A

abbrev pub chunk_at : List ChunkStorage → ℕ → ChunkStorage
chunk_at chunks c = get_or chunks c (record { compressed = []; elem_count = 0 })

module _ {W : Type 0} where
  abbrev pub rejoin :
      {A : Type 0}
      → CompressedStateBackend W
      → Result A × Cached W (List ChunkStorage)
      → Result A × CompressedStateBackend W
  rejoin b (r, x) = (r, record b { cached = x })

  -- Work on the cache and the chunks.
  unfoldable pub on_cached : {A : Type 0} → Action (Cached W (List ChunkStorage)) A → Compressed W A
  on_cached m b = rejoin b (m b.cached)

  unfoldable pub on_slots : (ChunkCache W → ChunkCache W) → Compressed W (Unit {0})
  unfolding on_cached on_cache
  on_slots f = on_cached (on_cache f)

  unfoldable pub ensure_initialized : Compressed W (Unit {0})
  unfolding ensure_backend_initialized
  ensure_initialized b =
      (ensure_backend_initialized (ltb 0 b.num_states && not (length b.cached.store == 0)), b)

  unfoldable pub validate_state : ℕ → Compressed W (Unit {0})
  unfolding validate_state_index
  validate_state index b = (validate_state_index index b.num_states, b)

  unfoldable pub begin_operation_batch : Compressed W (Unit {0})
  unfolding ensure_initialized
  begin_operation_batch =
      ensure_initialized >> modify (λ b. record b { batch_depth = narrow (b.batch_depth + 1) })

module _ {W : Type 0} ⦃d : Double W⦄ where
  -- the two doubles at an offset of a slot's buffer
  unfoldable pub read_cell : ℕ → ℕ → ChunkCache W → Amplitude W
  read_cell k offset c = record {
    real = get_or (slot_at c k).buffer offset nought;
    imag = get_or (slot_at c k).buffer (offset + 1) nought;
  }

  unfoldable pub write_cell : ℕ → ℕ → Amplitude W → ChunkCache W → ChunkCache W
  unfolding write_buffer
  write_cell k offset amp c =
      write_buffer k (set (set (slot_at c k).buffer offset amp.real) (offset + 1) amp.imag) c

unfoldable pub make_chunks : ChunkLayout → ℕ → ℕ → List ChunkStorage
unfolding chunk_elems
make_chunks layout zero c = []
make_chunks layout (suc n) c =
    record { compressed = []; elem_count = chunk_elems layout c } ∷ make_chunks layout n (suc c)

unfoldable pub store_bytes : ℕ → List ℕ → List ChunkStorage → List ChunkStorage
store_bytes c bytes chunks = set chunks c (record (chunk_at chunks c) { compressed = bytes })

-- A method of the cache beside the chunks.
abbrev pub with_store :
    {W A : Type 0}
    → List ChunkStorage
    → Result A × ChunkCache W
    → Result A × Cached W (List ChunkStorage)
with_store chunks (r, c) = (r, record { cache = c; store = chunks })

module _ {W : Type 0} (p : CodecPolicy W) where
  unfoldable pub load_chunk : RegisterConfig W → ℕ → ℕ → Action (List ChunkStorage) (List W)
  load_chunk cfg c count chunks = (
    if not ((chunk_at chunks c).elem_count == count)
        then err logic_error
        else p.decompress cfg (chunk_at chunks c).compressed count,
    chunks,
  )

  unfoldable pub store_chunk :
      RegisterConfig W → ℕ → List W → ℕ → Action (List ChunkStorage) (Unit {0})
  unfolding store_bytes
  store_chunk cfg c buffer count chunks =
      if not ((chunk_at chunks c).elem_count == count)
      then (err logic_error, chunks)
      else (lift (p.compress cfg (take count buffer)) >>= λ bytes. modify (store_bytes c bytes))
          chunks

  -- the callbacks of `acquireChunk` and `flushCache`
  abbrev pub chunk_store : RegisterConfig W → ChunkStore W (List ChunkStorage)
  chunk_store cfg = record {
    load_chunk = λ c buffer count. load_chunk cfg c count;
    store_chunk = store_chunk cfg;
    elem_count = λ chunks c. (chunk_at chunks c).elem_count;
  }

module _ {W : Type 0} ⦃d : Double W⦄ (p : CodecPolicy W) where
  unfoldable pub acquire_chunk : ℕ → Compressed W ℕ
  unfolding on_cached acquire
  acquire_chunk c b = on_cached (acquire (chunk_store p b.config) c) b

  -- the slot and the offset of a state's amplitude
  unfoldable pub acquire_amplitude_ref : ℕ → Compressed W (ℕ × ℕ)
  unfolding acquire_chunk state_ref
  acquire_amplitude_ref state = current >>= λ b.
      let ref = state_ref b.layout state in
      acquire_chunk ref.chunk_index >>= λ k. pure (k, ref.elem_offset)

  unfoldable pub read_amplitude_mutable : ℕ → Compressed W (Amplitude W)
  unfolding acquire_amplitude_ref read_cell
  read_amplitude_mutable state =
      acquire_amplitude_ref state >>= λ ref b. (ok (read_cell ref.0 ref.1 b.cached.cache), b)

  -- What is written through a reference, with its slot marked.
  unfoldable pub update_cell : (Amplitude W → Amplitude W) → ℕ → Compressed W (Unit {0})
  unfolding acquire_amplitude_ref read_cell write_cell mark_dirty on_slots
  update_cell f state = acquire_amplitude_ref state >>= λ ref.
      on_slots (λ c. mark_dirty ref.0 (write_cell ref.0 ref.1 (f (read_cell ref.0 ref.1 c)) c))

  unfoldable pub write_amplitude_mutable : ℕ → Amplitude W → Compressed W (Unit {0})
  unfolding update_cell
  write_amplitude_mutable state amp = update_cell (λ _. amp) state

  unfoldable pub flush_cache : Compressed W (Unit {0})
  unfolding on_cached flush_all
  flush_cache b = on_cached (flush_all (chunk_store p b.config)) b

  unfoldable pub flush_cache_if_needed : Compressed W (Unit {0})
  unfolding flush_cache
  flush_cache_if_needed b = if b.batch_depth == 0 then flush_cache b else (ok tt, b)

  unfoldable pub mutate : Compressed W (Unit {0}) → Compressed W (Unit {0})
  unfolding ensure_initialized flush_cache_if_needed
  mutate change = ensure_initialized >> change >> flush_cache_if_needed

  unfoldable pub end_operation_batch : Compressed W (Unit {0})
  unfolding flush_cache
  end_operation_batch b =
      if b.batch_depth == 0
      then (err logic_error, b)
      else (modify (λ b. record b { batch_depth = b.batch_depth - 1 }) >> λ b.
            if b.batch_depth == 0 then flush_cache b else (ok tt, b))
          b

  -- cache_.configure(effectiveCacheSlots(), chunks_.size())
  unfoldable pub set_up_cache : ℕ → Compressed W (Unit {0})
  unfolding on_cached ChunkCache.configure
  set_up_cache count b =
      on_cached
        (λ x.
          with_store x.store
            (ChunkCache.configure (min (p.cache_slots b.config) count) count x.cache))
        b

  unfoldable pub configure_storage : ℕ → Compressed W (Unit {0})
  unfolding checked_state_count make_chunk_layout make_chunks set_up_cache
  configure_storage num_qubits =
      modify (λ b. record b { num_qubits = num_qubits })
      >> (lift (checked_state_count num_qubits) >>= λ states.
          modify (λ b. record b { num_states = narrow states }))
      >> λ b.
          (lift (make_chunk_layout b.num_states (p.chunk_states b.config)) >>= λ layout.
          let chunks = make_chunks layout layout.chunk_count 0 in
          modify (λ b. record b { layout = layout; cached = record b.cached { store = chunks } })
          >> set_up_cache (length chunks)
          >> modify (λ b. record b { batch_depth = 0 }))
            b
