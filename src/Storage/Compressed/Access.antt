-- ===== src/Storage/Compressed/Access.antt =====
-- storage/common/compressed_state_backend.h: initialisation, import and export, queries, and the
-- operations that treat every chunk alike.
use tmfqsfullstate.Prelude.{
  ℕ, zero, suc, ◌+◌, ◌*◌, ◌/◌, ◌-◌, ◌%◌, not, ◌||◌, List, [], ◌∷◌, Option, none, some, ltb, leb,
  ◌==◌, if◌then◌else◌, length, get_or, set, replicate, take, drop,
}
use tmfqsfullstate.Core.Action.{
  Result, ok, err, invalid_argument, runtime_error, ◌>>=◌, ◌>>◌, pure, lift, current, modify,
  for_each, throw_if, and_then, continue,
}
use tmfqsfullstate.Core.Amplitude.{Double, Amplitude, ◌⊕◌, ◌⊘◌, nought, one}
use tmfqsfullstate.Core.StateSpace.{checked_amplitude_element_count, u64_mod}
use tmfqsfullstate.Storage.ChunkCache.{find_buffer, clear, on_store}
use tmfqsfullstate.Storage.ChunkLayout.{chunk_begin_state, state_ref}
use tmfqsfullstate.Storage.Codec.{CodecPolicy}
use tmfqsfullstate.Storage.Dense.{fold_pairs, norm_sq}
use tmfqsfullstate.Storage.Selected.{sorted_unique}
use tmfqsfullstate.Storage.Compressed.{
  CompressedStateBackend, ChunkStorage, Compressed, chunk_at, on_cached, ensure_initialized,
  validate_state, store_chunk, store_bytes, acquire_chunk, read_cell, on_slots,
  write_amplitude_mutable, mutate, flush_cache_if_needed, configure_storage,
}

-- The state that the sampling loop has reached with the `cumulative` probability, or the state that it
-- returned.
pub data Sampling (W : Type 0) : Type 0 where
  going : ℕ → W → Sampling W
  found : ℕ → Sampling W

module _ {W : Type 0} ⦃d : Double W⦄ (p : CodecPolicy W) where
  -- storeChunk of `n` chunks from the chunk `c` on, with the values that are computed for each
  unfoldable pub store_chunks : (ℕ → ℕ → List W) → ℕ → ℕ → Compressed W (Unit {0})
  unfolding on_cached on_store store_chunk
  store_chunks values zero c b = (ok tt, b)
  store_chunks values (suc n) c b =
      let count = (chunk_at b.cached.store c).elem_count in
      continue (on_cached (on_store (store_chunk p b.config c (values c count) count)) b)
        (λ _. store_chunks values n (suc c))

  unfoldable pub store_all : (ℕ → ℕ → List W) → Compressed W (Unit {0})
  unfolding store_chunks
  store_all values b = store_chunks values (length b.cached.store) 0 b

  unfoldable pub init_zero : ℕ → Compressed W (Unit {0})
  unfolding configure_storage store_all
  init_zero num_qubits =
      configure_storage p num_qubits >> store_all (λ _ count. replicate count nought)

  unfoldable pub init_basis : ℕ → ℕ → Amplitude W → Compressed W (Unit {0})
  unfolding init_zero validate_state write_amplitude_mutable flush_cache_if_needed
  init_basis num_qubits init_state amp =
      init_zero num_qubits
      >> validate_state init_state
      >> write_amplitude_mutable p init_state amp
      >> flush_cache_if_needed p

  -- the `while` loop of one chunk over the states that are left
  unfoldable pub fill_selected : W → ℕ → ℕ → List ℕ → List W → List W × List ℕ
  fill_selected real_amplitude begin end_ [] chunk = (chunk, [])
  fill_selected real_amplitude begin end_ (state ∷ states) chunk =
      let rest =
        fill_selected real_amplitude begin end_ states
          (if leb begin state then set chunk (2 * (state - begin)) real_amplitude else chunk) in
      if ltb state end_ then rest else (chunk, state ∷ states)

  -- the loop over the chunks
  unfoldable pub store_selected : W → ℕ → ℕ → List ℕ → Compressed W (Unit {0})
  unfolding on_cached on_store store_chunk fill_selected chunk_begin_state
  store_selected real_amplitude zero c states b = (ok tt, b)
  store_selected real_amplitude (suc n) c states b =
      let count = (chunk_at b.cached.store c).elem_count in
      let begin = chunk_begin_state b.layout c in
      let filled =
        fill_selected real_amplitude begin (begin + count / 2) states (replicate count nought) in
      continue (on_cached (on_store (store_chunk p b.config c filled.0 count)) b)
        (λ _. store_selected real_amplitude n (suc c) filled.1)

  unfoldable pub init_uniform_superposition : ℕ → List ℕ → Compressed W (Unit {0})
  unfolding configure_storage validate_state sorted_unique store_selected for_each
  init_uniform_superposition num_qubits basis_states =
      let selected = sorted_unique basis_states in
      configure_storage p num_qubits
      >> for_each basis_states validate_state
      >> lift (throw_if (length selected == 0) invalid_argument)
      >> λ b.
          store_selected (one ⊘ d.sqrt (d.of_nat (length selected))) (length b.cached.store) 0
            selected b

  -- codec_.compress of each chunk's part of the vector
  unfoldable pub compress_chunks : List W → ℕ → ℕ → Compressed W (Unit {0})
  unfolding store_bytes on_cached on_store
  compress_chunks amplitudes zero c b = (ok tt, b)
  compress_chunks amplitudes (suc n) c b =
      let count = (chunk_at b.cached.store c).elem_count in
      let part = take count (drop (c * b.layout.elems_per_chunk % u64_mod) amplitudes) in
      continue
        ((lift (p.compress b.config part) >>= λ bytes.
            on_cached (on_store (modify (store_bytes c bytes))))
          b)
        (λ _. compress_chunks amplitudes n (suc c))

  unfoldable pub load_amplitudes : ℕ → List W → Compressed W (Unit {0})
  unfolding configure_storage checked_amplitude_element_count compress_chunks clear on_slots
  load_amplitudes num_qubits amplitudes =
      configure_storage p num_qubits
      >> (lift (checked_amplitude_element_count num_qubits) >>= λ elems.
          lift (throw_if (not (length amplitudes == elems)) invalid_argument))
      >> on_slots clear
      >> λ b. compress_chunks amplitudes (length b.cached.store) 0 b

  -- the data of a chunk: the cached buffer, or decompressed into a scratch buffer
  unfoldable pub read_chunk :
      CompressedStateBackend W → ChunkStorage → Option (List W) → Result (List W)
  read_chunk b chunk (some buffer) = ok buffer
  read_chunk b chunk none = p.decompress b.config chunk.compressed chunk.elem_count

  unfoldable pub chunk_data : CompressedStateBackend W → ℕ → Result (List W)
  unfolding read_chunk find_buffer
  chunk_data b c = read_chunk b (chunk_at b.cached.store c) (find_buffer b.cached.cache c)

  -- A loop over the chunks from `c` on that reads: the index, the elements and what was gathered.
  unfoldable pub fold_chunks :
      {V : Type 0} → CompressedStateBackend W → (ℕ → List W → V → V) → ℕ → ℕ → V → Result V
  unfolding chunk_data
  fold_chunks b visit zero c acc = ok acc
  fold_chunks b visit (suc n) c acc = and_then (chunk_data b c) (λ values.
      fold_chunks b visit n (suc c)
        (visit c (take (chunk_at b.cached.store c).elem_count values) acc))

  unfoldable pub visit_chunks : {V : Type 0} → (ℕ → List W → V → V) → V → Compressed W V
  unfolding ensure_initialized fold_chunks
  visit_chunks visit acc =
      ensure_initialized >> λ b. (fold_chunks b visit (length b.cached.store) 0 acc, b)

  -- std::copy(data, data + elemCount, out.begin() + baseElem)
  unfoldable pub copy_into : List W → ℕ → List W → List W
  copy_into [] base out = out
  copy_into (x ∷ values) base out = copy_into values (suc base) (set out base x)

  unfoldable pub copy_chunk : ℕ → List W → ℕ × List W → ℕ × List W
  unfolding copy_into
  copy_chunk c values (base, out) = (base + length values, copy_into values base out)

  unfoldable pub export_amplitudes : Compressed W (List W)
  unfolding ensure_initialized fold_chunks copy_chunk checked_amplitude_element_count
  export_amplitudes =
      ensure_initialized
      >> (current >>= λ b. lift (checked_amplitude_element_count b.num_qubits) >>= λ elems.
          lift (fold_chunks b copy_chunk (length b.cached.store) 0 (0, replicate elems nought))
          >>= λ out. pure out.1)

  unfoldable pub for_each_amplitude_chunk : {V : Type 0} → (ℕ → List W → V → V) → V → Compressed W V
  unfolding visit_chunks chunk_begin_state
  for_each_amplitude_chunk visitor acc =
      current >>= λ b. visit_chunks (λ c values. visitor (chunk_begin_state b.layout c) values) acc

  -- `findAmplitudeData` of a chunk and an offset: from the buffer that was found, or by acquiring the
  -- chunk although the backend is `const`
  unfoldable pub find_in : ℕ → ℕ → Option (List W) → Compressed W (Amplitude W)
  unfolding acquire_chunk read_cell
  find_in chunk offset (some buffer) =
      pure (record { real = get_or buffer offset nought; imag = get_or buffer (offset + 1) nought })
  find_in chunk offset none =
      acquire_chunk p chunk >>= λ k b. (ok (read_cell k offset b.cached.cache), b)

  unfoldable pub find_amplitude : ℕ → Compressed W (Amplitude W)
  unfolding find_in find_buffer state_ref
  find_amplitude state = current >>= λ b.
      let ref = state_ref b.layout state in
      find_in ref.chunk_index ref.elem_offset (find_buffer b.cached.cache ref.chunk_index)

  unfoldable pub amplitude : ℕ → Compressed W (Amplitude W)
  unfolding ensure_initialized validate_state find_amplitude
  amplitude state = ensure_initialized >> validate_state state >> find_amplitude state

  unfoldable pub set_amplitude : ℕ → Amplitude W → Compressed W (Unit {0})
  unfolding mutate validate_state write_amplitude_mutable
  set_amplitude state amp = mutate p (validate_state state >> write_amplitude_mutable p state amp)

  unfoldable pub probability : ℕ → Compressed W W
  unfolding amplitude norm_sq
  probability state = amplitude state >>= λ amp. pure (norm_sq amp)

  unfoldable pub total_probability : Compressed W W
  unfolding visit_chunks fold_pairs norm_sq
  total_probability =
      visit_chunks (λ c values total. fold_pairs (λ sum a. sum ⊕ norm_sq a) total values) nought

  unfoldable pub sample_values : W → ℕ → W → List W → Sampling W
  unfolding norm_sq
  sample_values rnd state cumulative [] = going state cumulative
  sample_values rnd state cumulative (x ∷ []) = going state cumulative
  sample_values rnd state cumulative (x ∷ y ∷ values) =
      let total = cumulative ⊕ norm_sq (record { real = x; imag = y }) in
      let rest = sample_values rnd (suc state) total values in
      if d.le rnd total then found state else rest

  unfoldable pub sample_chunks : CompressedStateBackend W → W → ℕ → ℕ → Sampling W → Result ℕ
  unfolding chunk_data sample_values
  sample_chunks b rnd n c (found state) = ok state
  sample_chunks b rnd zero c (going state cumulative) = err runtime_error
  sample_chunks b rnd (suc n) c (going state cumulative) = and_then (chunk_data b c) (λ values.
      sample_chunks b rnd n (suc c)
        (sample_values rnd state cumulative (take (chunk_at b.cached.store c).elem_count values)))

  unfoldable pub sample_measurement : W → Compressed W ℕ
  unfolding ensure_initialized sample_chunks
  sample_measurement rnd =
      ensure_initialized
      >> lift (throw_if (d.lt rnd nought || d.le one rnd) invalid_argument)
      >> λ b. (sample_chunks b rnd (length b.cached.store) 0 (going 0 nought), b)
