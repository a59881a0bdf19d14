-- ===== src/Storage/Dense.antt =====
-- storage/dense/dense_state_backend.cpp: the whole state vector in memory, `[re0, im0, re1, ...]`.
-- The vector is a list; an index outside of it, which C++ leaves undefined, reads 0.0 and writes
-- nothing. Output to a stream is left out, and so is the scratch buffer of the gate engine.
pub mod Cells
pub mod Kernels
pub mod Access
pub mod Sampling
pub mod Truncation
pub mod Backend
use tmfqsfullstate.Prelude.{
  ℕ, zero, suc, drop, ◌+◌, ◌*◌, ◌<◌, Bool, true, false, not, ◌&&◌, ◌||◌, List, [], ◌∷◌, Option,
  none, some, ltb, leb, ◌==◌, if◌then◌else◌, length, get_or, set, replicate, map,
}
use tmfqsfullstate.Core.Action.{
  Error, Result, ok, err, invalid_argument, runtime_error, Action, ◌>>=◌, ◌>>◌, pure, lift, current,
  modify, for_each, throw_if, and_then,
}
use tmfqsfullstate.Core.Amplitude.{Double, Amplitude, ◌⊕◌, ◌⊖◌, ◌⊗◌, ◌⊘◌, nought, one, two}
use tmfqsfullstate.Core.StateSpace.{narrow, checked_state_count, checked_amplitude_element_count}
use tmfqsfullstate.Core.Validation.{
  validate_state_index, validate_qubit_index, validate_backend_two_qubits,
  ensure_backend_initialized, qubit_mask_from_msb_index,
}
use tmfqsfullstate.Gates.{QuantumGate}
use tmfqsfullstate.Storage.GateBlock
use tmfqsfullstate.Storage.PairKernel.{run_fallback}
use tmfqsfullstate.Storage.PairKernel.Effect.{
  PairUpdate, none_changed, second_changed, both_changed,
}
use tmfqsfullstate.Storage.Selected.{sorted_unique}

pub record DenseStateBackend (W : Type 0) : Type 0 where
  pub num_qubits : ℕ
  pub num_states : ℕ
  pub amplitudes : List W

-- A method of the backend.
abbrev pub Dense : Type 0 → Type 0 → Type 0
Dense W A = Action (DenseStateBackend W) A

module _ {W : Type 0} ⦃d : Double W⦄ where
  -- The amplitude of a state in an interleaved vector.
  unfoldable pub read_pair : List W → ℕ → Amplitude W
  read_pair v state = record {
    real = get_or v (state * 2) nought;
    imag = get_or v (state * 2 + 1) nought;
  }

  unfoldable pub write_pair : List W → ℕ → Amplitude W → List W
  write_pair v state amp = set (set v (state * 2) amp.real) (state * 2 + 1) amp.imag

  -- A loop `for(; amp != end; amp += 2)` that rewrites each amplitude.
  unfoldable pub map_pairs : (Amplitude W → Amplitude W) → List W → List W
  map_pairs f [] = []
  map_pairs f (x ∷ []) = x ∷ []
  map_pairs f (x ∷ y ∷ v) =
      let a = f (record { real = x; imag = y }) in a.real ∷ a.imag ∷ map_pairs f v

  -- The same loop that adds up.
  unfoldable pub fold_pairs : {A : Type 0} → (A → Amplitude W → A) → A → List W → A
  fold_pairs f acc [] = acc
  fold_pairs f acc (x ∷ []) = acc
  fold_pairs f acc (x ∷ y ∷ v) = fold_pairs f (f acc (record { real = x; imag = y })) v

  unfoldable pub norm_sq : Amplitude W → W
  norm_sq a = a.real ⊗ a.real ⊕ a.imag ⊗ a.imag

  -- The cumulative loop of `sampleMeasurement` over `count` states from `state` on, where `amp` points at
  -- the rest of the vector.
  unfoldable pub sample_from : W → ℕ → ℕ → W → List W → Result ℕ
  unfolding norm_sq read_pair
  sample_from rnd zero state cumulative amp = err runtime_error
  sample_from rnd (suc count) state cumulative amp =
      let total = cumulative ⊕ norm_sq (read_pair amp 0) in
      let rest = sample_from rnd count (suc state) total (drop 2 amp) in
      if d.le rnd total then ok state else rest

  unfoldable pub ensure_initialized : Dense W (Unit {0})
  unfolding ensure_backend_initialized
  ensure_initialized b =
      (ensure_backend_initialized (ltb 0 b.num_states && not (length b.amplitudes == 0)), b)

  unfoldable pub validate_state : ℕ → Dense W (Unit {0})
  unfolding validate_state_index
  validate_state index b = (validate_state_index index b.num_states, b)

  unfoldable pub validate_single_qubit_operation : ℕ → Dense W (Unit {0})
  unfolding ensure_initialized validate_qubit_index
  validate_single_qubit_operation qubit =
      ensure_initialized >> λ b. (validate_qubit_index qubit b.num_qubits, b)

  unfoldable pub validate_two_qubit_operation : ℕ → ℕ → Dense W (Unit {0})
  unfolding ensure_initialized validate_backend_two_qubits
  validate_two_qubit_operation q0 q1 =
      ensure_initialized >> λ b. (validate_backend_two_qubits q0 q1 b.num_qubits, b)

  -- What one call of a pair callback writes, on the two places of the buffer.
  unfoldable pub perform : PairUpdate (Amplitude W) → ℕ → ℕ → List W → List W
  unfolding write_pair
  perform none_changed state0 state1 v = v
  perform (second_changed y) state0 state1 v = write_pair v state1 y
  perform (both_changed x y) state0 state1 v = write_pair (write_pair v state0 x) state1 y

  unfoldable pub apply_pair :
      (ℕ → ℕ → Amplitude W → Amplitude W → PairUpdate (Amplitude W)) → ℕ → ℕ → List W → List W
  unfolding read_pair perform
  apply_pair f state0 state1 v =
      perform (f state0 state1 (read_pair v state0) (read_pair v state1)) state0 state1 v

  unfoldable pub run_pair_kernel :
      ℕ → (ℕ → ℕ → Amplitude W → Amplitude W → PairUpdate (Amplitude W)) → Dense W (Unit {0})
  unfolding run_fallback apply_pair
  run_pair_kernel target_mask f = modify (λ b. record b {
    amplitudes = run_fallback b.num_states target_mask (apply_pair f) b.amplitudes;
  })

  unfoldable pub set_size : ℕ → Dense W (Unit {0})
  unfolding checked_state_count
  set_size num_qubits =
      modify (λ b. record b { num_qubits = num_qubits })
      >> (lift (checked_state_count num_qubits) >>= λ states.
          modify (λ b. record b { num_states = narrow states }))

  unfoldable pub init_zero : ℕ → Dense W (Unit {0})
  unfolding set_size checked_amplitude_element_count
  init_zero num_qubits =
      set_size num_qubits
      >> (lift (checked_amplitude_element_count num_qubits) >>= λ elems.
          modify (λ b. record b { amplitudes = replicate elems nought }))

  unfoldable pub init_basis : ℕ → ℕ → Amplitude W → Dense W (Unit {0})
  unfolding init_zero validate_state write_pair
  init_basis num_qubits init_state amp =
      init_zero num_qubits
      >> validate_state init_state
      >> modify (λ b. record b { amplitudes = write_pair b.amplitudes init_state amp })

  -- the last loop of `initUniformSuperposition`
  unfoldable pub write_selected : W → List ℕ → List W → List W
  unfolding write_pair
  write_selected real_amplitude [] v = v
  write_selected real_amplitude (state ∷ states) v =
      write_selected real_amplitude states
        (write_pair v state (record { real = real_amplitude; imag = nought }))

  unfoldable pub init_uniform_superposition : ℕ → List ℕ → Dense W (Unit {0})
  unfolding init_zero validate_state sorted_unique write_selected for_each
  init_uniform_superposition num_qubits basis_states =
      let selected = sorted_unique basis_states in
      let real_amplitude = one ⊘ d.sqrt (d.of_nat (length selected)) in
      init_zero num_qubits
      >> for_each basis_states validate_state
      >> lift (throw_if (length selected == 0) invalid_argument)
      >> modify (λ b. record b { amplitudes = write_selected real_amplitude selected b.amplitudes })

  unfoldable pub load_amplitudes : ℕ → List W → Dense W (Unit {0})
  unfolding set_size checked_amplitude_element_count
  load_amplitudes num_qubits amplitudes =
      set_size num_qubits
      >> (lift (checked_amplitude_element_count num_qubits) >>= λ elems.
          lift (throw_if (not (length amplitudes == elems)) invalid_argument))
      >> modify (λ b. record b { amplitudes = amplitudes })

  unfoldable pub export_amplitudes : Dense W (List W)
  unfolding ensure_initialized
  export_amplitudes = ensure_initialized >> λ b. (ok b.amplitudes, b)

  -- the visitor is called once, with the first state and the whole buffer
  unfoldable pub for_each_amplitude_chunk : {V : Type 0} → (ℕ → List W → V → V) → V → Dense W V
  unfolding ensure_initialized
  for_each_amplitude_chunk visitor acc =
      ensure_initialized >> λ b. (ok (visitor 0 b.amplitudes acc), b)

  unfoldable pub amplitude : ℕ → Dense W (Amplitude W)
  unfolding ensure_initialized validate_state read_pair
  amplitude index =
      ensure_initialized >> validate_state index >> λ b. (ok (read_pair b.amplitudes index), b)

  unfoldable pub set_amplitude : ℕ → Amplitude W → Dense W (Unit {0})
  unfolding ensure_initialized validate_state write_pair
  set_amplitude index amp =
      ensure_initialized
      >> validate_state index
      >> modify (λ b. record b { amplitudes = write_pair b.amplitudes index amp })

  unfoldable pub probability : ℕ → Dense W W
  unfolding amplitude norm_sq
  probability index = amplitude index >>= λ amp. pure (norm_sq amp)

  unfoldable pub total_probability : Dense W W
  unfolding ensure_initialized fold_pairs norm_sq
  total_probability =
      ensure_initialized >> λ b. (ok (fold_pairs (λ sum a. sum ⊕ norm_sq a) nought b.amplitudes), b)

  unfoldable pub sample_measurement : W → Dense W ℕ
  unfolding ensure_initialized sample_from
  sample_measurement rnd =
      ensure_initialized
      >> lift (throw_if (d.lt rnd nought || d.le one rnd) invalid_argument)
      >> λ b. (sample_from rnd b.num_states 0 nought b.amplitudes, b)

  unfoldable pub phase_flip_basis_state : ℕ → Dense W (Unit {0})
  unfolding ensure_initialized validate_state read_pair write_pair
  phase_flip_basis_state index =
      ensure_initialized
      >> validate_state index
      >> modify (λ b.
        let a = read_pair b.amplitudes index in
        record b {
          amplitudes =
              write_pair b.amplitudes index (record { real = d.neg a.real; imag = d.neg a.imag });
        })

  -- 2.0 * mean - amp
  unfoldable pub invert_about : Amplitude W → Amplitude W → Amplitude W
  invert_about mean a = record { real = two ⊗ mean.real ⊖ a.real; imag = two ⊗ mean.imag ⊖ a.imag }

  unfoldable pub inversion_about : Amplitude W → Dense W (Unit {0})
  unfolding ensure_initialized map_pairs invert_about
  inversion_about mean =
      ensure_initialized
      >> modify (λ b. record b { amplitudes = map_pairs (invert_about mean) b.amplitudes })

  unfoldable pub inversion_about_mean : Dense W (Unit {0})
  unfolding ensure_initialized fold_pairs inversion_about
  inversion_about_mean =
      ensure_initialized
      >> (current >>= λ b.
          let sum_real = fold_pairs (λ acc a. acc ⊕ a.real) nought b.amplitudes in
          let sum_imag = fold_pairs (λ acc a. acc ⊕ a.imag) nought b.amplitudes in
          inversion_about (record {
            real = sum_real ⊘ d.of_nat b.num_states;
            imag = sum_imag ⊘ d.of_nat b.num_states;
          }))

  unfoldable pub affine : Amplitude W → Amplitude W → Amplitude W → Amplitude W
  affine scale bias a = record {
    real = scale.real ⊗ a.real ⊖ scale.imag ⊗ a.imag ⊕ bias.real;
    imag = scale.real ⊗ a.imag ⊕ scale.imag ⊗ a.real ⊕ bias.imag;
  }

  unfoldable pub apply_affine_transform : Amplitude W → Amplitude W → Dense W (Unit {0})
  unfolding ensure_initialized map_pairs affine
  apply_affine_transform scale bias =
      ensure_initialized
      >> modify (λ b. record b { amplitudes = map_pairs (affine scale bias) b.amplitudes })
