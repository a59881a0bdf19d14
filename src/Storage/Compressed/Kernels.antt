-- ===== src/Storage/Compressed/Kernels.antt =====
-- storage/common/compressed_state_backend.h: the pair kernels over cached chunks, and the gates. A
-- callback that throws ends the traversal.
use tmfqsfullstate.Prelude.{ℕ, Bool, true, false, Option, none, some, leb, ◌==◌, if◌then◌else◌, ◌*◌}
use tmfqsfullstate.Core.Action.{Result, ok, err, Action, ◌>>=◌, ◌>>◌, current, modify}
use tmfqsfullstate.Core.Amplitude.{Double, Amplitude}
use tmfqsfullstate.Core.Validation.{
  validate_qubit_index, validate_backend_two_qubits, qubit_mask_from_msb_index,
}
use tmfqsfullstate.Storage.ChunkCache.{ChunkCache, mark_dirty}
use tmfqsfullstate.Storage.Codec.{CodecPolicy}
use tmfqsfullstate.Storage.PairKernel.{
  PairKernelMode, fallback, intra_chunk, inter_chunk, select_mode, run_fallback, run_intra_chunk,
  run_inter_chunk,
}
use tmfqsfullstate.Storage.PairKernel.Effect.{
  PairUpdate, none_changed, second_changed, both_changed,
}
use tmfqsfullstate.Storage.Dense.Kernels.{
  hadamard_pair, pauli_x_pair, controlled_phase_shift_pair, controlled_not_pair,
}
use tmfqsfullstate.Storage.Compressed.{
  CompressedStateBackend, Compressed, ensure_initialized, acquire_chunk, acquire_amplitude_ref,
  read_cell, write_cell, on_slots, mutate,
}

-- The locals of `runPairKernel`, beside the backend: the active chunks, with `none` for the largest
-- number, and their slots.
pub record Traversal (W : Type 0) : Type 0 where
  pub backend : CompressedStateBackend W
  pub chunk0_active : Option ℕ
  pub slot0 : ℕ
  pub chunk1_active : Option ℕ
  pub slot1 : ℕ

abbrev pub is_active : Option ℕ → ℕ → Bool
is_active none c = false
is_active (some a) c = a == c

module _ {A : Type 0} where
  abbrev pub touches_first : PairUpdate A → Bool
  touches_first none_changed = false
  touches_first (second_changed y) = false
  touches_first (both_changed x y) = true

  abbrev pub touches_second : PairUpdate A → Bool
  touches_second none_changed = false
  touches_second (second_changed y) = true
  touches_second (both_changed x y) = true

module _ {W : Type 0} ⦃d : Double W⦄ where
  -- What a callback writes at its two places.
  unfoldable pub write_cells :
      ℕ → ℕ → ℕ → ℕ → PairUpdate (Amplitude W) → ChunkCache W → ChunkCache W
  unfolding write_cell
  write_cells k0 offset0 k1 offset1 none_changed c = c
  write_cells k0 offset0 k1 offset1 (second_changed y) c = write_cell k1 offset1 y c
  write_cells k0 offset0 k1 offset1 (both_changed x y) c =
      write_cell k1 offset1 y (write_cell k0 offset0 x c)

  unfoldable pub mark_touched : ℕ → ℕ → PairUpdate (Amplitude W) → ChunkCache W → ChunkCache W
  unfolding mark_dirty
  mark_touched k0 k1 u c =
      let first = if touches_first u then mark_dirty k0 c else c in
      if touches_second u then mark_dirty k1 first else first

  -- One call of the callback on two places, and the flags that it sets.
  unfoldable pub call_pair :
      (Amplitude W → Amplitude W → PairUpdate (Amplitude W))
      → ℕ
      → ℕ
      → ℕ
      → ℕ
      → ChunkCache W
      → ChunkCache W
  unfolding read_cell write_cells mark_touched
  call_pair f k0 offset0 k1 offset1 c =
      let u = f (read_cell k0 offset0 c) (read_cell k1 offset1 c) in
      mark_touched k0 k1 u (write_cells k0 offset0 k1 offset1 u c)

-- The first exception ends the traversal.
abbrev pub attempt :
    {T : Type 0} → Action T (Unit {0}) → Result (Unit {0}) × T → Result (Unit {0}) × T
attempt m (ok _, t) = m t
attempt m (err e, t) = (err e, t)

abbrev pub resume :
    {W A : Type 0} → Traversal W → Result A × CompressedStateBackend W → Result A × Traversal W
resume t (r, b) = (r, record t { backend = b })

abbrev pub finish :
    {W : Type 0} → Result (Unit {0}) × Traversal W → Result (Unit {0}) × CompressedStateBackend W
finish (r, t) = (r, t.backend)

module _ {W : Type 0} ⦃d : Double W⦄ (p : CodecPolicy W) where
  unfoldable pub on_backend : {A : Type 0} → Compressed W A → Action (Traversal W) A
  on_backend m t = resume t (m t.backend)

  unfoldable pub activate0 : ℕ → Action (Traversal W) (Unit {0})
  unfolding on_backend acquire_chunk
  activate0 chunk t =
      if is_active t.chunk0_active chunk
      then (ok tt, t)
      else (on_backend (acquire_chunk p chunk) >>= λ k.
            modify (λ t. record t { chunk0_active = some chunk; slot0 = k }))
          t

  unfoldable pub activate1 : ℕ → Action (Traversal W) (Unit {0})
  unfolding on_backend acquire_chunk
  activate1 chunk t =
      if is_active t.chunk1_active chunk
      then (ok tt, t)
      else (on_backend (acquire_chunk p chunk) >>= λ k.
            modify (λ t. record t { chunk1_active = some chunk; slot1 = k }))
          t

  module _ (f : ℕ → ℕ → Amplitude W → Amplitude W → PairUpdate (Amplitude W)) where
    unfoldable pub intra_pair : ℕ → ℕ → ℕ → ℕ → ℕ → Action (Traversal W) (Unit {0})
    unfolding activate0 on_backend on_slots call_pair
    intra_pair chunk local0 local1 state0 state1 = activate0 chunk >> λ t.
        on_backend
          (on_slots (call_pair (f state0 state1) t.slot0 (local0 * 2) t.slot0 (local1 * 2))) t

    unfoldable pub inter_pair : ℕ → ℕ → ℕ → ℕ → ℕ → Action (Traversal W) (Unit {0})
    unfolding activate0 activate1 on_backend on_slots call_pair
    inter_pair chunk0 chunk1 local_ state0 state1 = activate0 chunk0 >> activate1 chunk1 >> λ t.
        on_backend
          (on_slots (call_pair (f state0 state1) t.slot0 (local_ * 2) t.slot1 (local_ * 2))) t

    unfoldable pub fallback_pair : ℕ → ℕ → Compressed W (Unit {0})
    unfolding acquire_amplitude_ref on_slots call_pair
    fallback_pair state0 state1 = acquire_amplitude_ref p state0 >>= λ ref0.
        acquire_amplitude_ref p state1 >>= λ ref1.
        on_slots (call_pair (f state0 state1) ref0.0 ref0.1 ref1.0 ref1.1)

    unfoldable pub run_fallback_pairs : ℕ → Compressed W (Unit {0})
    unfolding run_fallback fallback_pair
    run_fallback_pairs target_mask b =
        run_fallback b.num_states target_mask
          (λ state0 state1. attempt (fallback_pair state0 state1)) (ok tt, b)

    abbrev start : CompressedStateBackend W → Traversal W
    start b = record {
      backend = b;
      chunk0_active = none;
      slot0 = 0;
      chunk1_active = none;
      slot1 = 0;
    }

    unfoldable pub run_intra_pairs : ℕ → Compressed W (Unit {0})
    unfolding run_intra_chunk intra_pair
    run_intra_pairs target_mask b = finish (
        run_intra_chunk b.layout target_mask
          (λ chunk local0 local1 state0 state1.
            attempt (intra_pair chunk local0 local1 state0 state1))
          (ok tt, start b))

    unfoldable pub run_inter_pairs : ℕ → Compressed W (Unit {0})
    unfolding run_inter_chunk inter_pair
    run_inter_pairs target_mask b = finish (
        run_inter_chunk b.layout target_mask
          (λ chunk0 chunk1 local_ state0 state1.
            attempt (inter_pair chunk0 chunk1 local_ state0 state1))
          (ok tt, start b))

    unfoldable pub run_pairs_in : PairKernelMode → ℕ → Compressed W (Unit {0})
    unfolding run_fallback_pairs run_intra_pairs run_inter_pairs
    run_pairs_in fallback target_mask b = run_fallback_pairs target_mask b
    run_pairs_in intra_chunk target_mask b = run_intra_pairs target_mask b
    run_pairs_in inter_chunk target_mask b =
        if leb 2 b.cached.cache.capacity
        then run_inter_pairs target_mask b
        else run_fallback_pairs target_mask b

    unfoldable pub run_pair_kernel : ℕ → Compressed W (Unit {0})
    unfolding select_mode run_pairs_in
    run_pair_kernel target_mask b = run_pairs_in (select_mode b.layout target_mask) target_mask b

  unfoldable pub validate_qubit : ℕ → Compressed W (Unit {0})
  unfolding ensure_initialized validate_qubit_index
  validate_qubit qubit = ensure_initialized >> λ b. (validate_qubit_index qubit b.num_qubits, b)

  unfoldable pub validate_pair : ℕ → ℕ → Compressed W (Unit {0})
  unfolding ensure_initialized validate_backend_two_qubits
  validate_pair q0 q1 =
      ensure_initialized >> λ b. (validate_backend_two_qubits q0 q1 b.num_qubits, b)

  unfoldable pub apply_hadamard : ℕ → Compressed W (Unit {0})
  unfolding validate_qubit qubit_mask_from_msb_index hadamard_pair run_pair_kernel mutate
  apply_hadamard qubit =
      validate_qubit qubit
      >> (current >>= λ b.
          mutate p (run_pair_kernel hadamard_pair (qubit_mask_from_msb_index qubit b.num_qubits)))

  unfoldable pub apply_pauli_x : ℕ → Compressed W (Unit {0})
  unfolding validate_qubit qubit_mask_from_msb_index pauli_x_pair run_pair_kernel mutate
  apply_pauli_x qubit =
      validate_qubit qubit
      >> (current >>= λ b.
          mutate p (run_pair_kernel pauli_x_pair (qubit_mask_from_msb_index qubit b.num_qubits)))

  unfoldable pub apply_controlled_phase_shift : ℕ → ℕ → W → Compressed W (Unit {0})
  unfolding validate_pair qubit_mask_from_msb_index controlled_phase_shift_pair run_pair_kernel
      mutate
  apply_controlled_phase_shift control_qubit target_qubit theta =
      validate_pair control_qubit target_qubit
      >> (current >>= λ b. mutate p (
          run_pair_kernel
            (controlled_phase_shift_pair (qubit_mask_from_msb_index control_qubit b.num_qubits)
              theta)
            (qubit_mask_from_msb_index target_qubit b.num_qubits)))

  unfoldable pub apply_controlled_not : ℕ → ℕ → Compressed W (Unit {0})
  unfolding validate_pair qubit_mask_from_msb_index controlled_not_pair run_pair_kernel mutate
  apply_controlled_not control_qubit target_qubit =
      validate_pair control_qubit target_qubit
      >> (current >>= λ b. mutate p (
          run_pair_kernel
            (controlled_not_pair (qubit_mask_from_msb_index control_qubit b.num_qubits))
            (qubit_mask_from_msb_index target_qubit b.num_qubits)))
