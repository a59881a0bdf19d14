-- ===== src/Register/Access.antt =====
-- register/quantum_register.cpp: the constructors, and the operations that read and load the register.
use tmfqsfullstate.Prelude.{
  ℕ, suc, ◌*◌, ◌%◌, false, not, List, [], ◌∷◌, none, some, ◌==◌, if◌then◌else◌, length,
}
use tmfqsfullstate.Core.Action.{
  Result, ok, err, invalid_argument, runtime_error, ◌>>=◌, ◌>>◌, pure, lift, current, for_each,
  throw_if, and_then,
}
use tmfqsfullstate.Core.Amplitude.{Double, Amplitude, ◌⊕◌, ◌⊗◌, nought, one}
use tmfqsfullstate.Core.StateSpace.{u64_mod, checked_state_count}
use tmfqsfullstate.Core.Validation.{validate_state_index}
use tmfqsfullstate.Storage.Backend.{IStateBackend}
use tmfqsfullstate.Register.{
  QuantumRegister, Register, identity_scale, no_bias, require_initialized, on_backend, forget_sum,
  reset_affine_overlay, apply_affine_overlay, remove_affine_overlay, visit_logical_amplitude_chunks,
  snapshot_logical_amplitudes,
}

-- The sampler's two variables.
pub record Measuring (W : Type 0) : Type 0 where
  pub cumulative : W
  pub measured_state : ℕ

module _ {W : Type 0} ⦃d : Double W⦄ where
  unfoldable pub probability_of : Amplitude W → W
  probability_of a = a.real ⊗ a.real ⊕ a.imag ⊗ a.imag

  unfoldable pub add_probabilities : List W → W → W
  unfolding probability_of
  add_probabilities [] total = total
  add_probabilities (x ∷ []) total = total
  add_probabilities (x ∷ y ∷ elems) total =
      add_probabilities elems (total ⊕ probability_of (record { real = x; imag = y }))

  -- the inner loop of `measure`, from `state` on
  unfoldable pub measure_chunk : W → ℕ → List W → Measuring W → Measuring W
  unfolding probability_of
  measure_chunk rnd state [] m = m
  measure_chunk rnd state (x ∷ []) m = m
  measure_chunk rnd state (x ∷ y ∷ elems) m =
      let total = m.cumulative ⊕ probability_of (record { real = x; imag = y }) in
      let rest = measure_chunk rnd (suc state) elems (record m { cumulative = total }) in
      if d.le rnd total then record { cumulative = total; measured_state = state } else rest

module _ {W B : Type 0} ⦃d : Double W⦄ ⦃i : IStateBackend W B⦄ where
  -- `initializeBackend`, on the backend that the factory has made, or has not
  unfoldable pub initialize_backend : ℕ → Result B → Result (QuantumRegister W B)
  unfolding checked_state_count
  initialize_backend qubits created = and_then (checked_state_count qubits) (λ states.
      and_then created (λ b. ok (record {
        num_qubits = qubits;
        num_states = states;
        backend = some b;
        cached_logical_amplitude_sum = none;
        affine_scale = identity_scale;
        affine_bias = no_bias;
        affine_overlay_active = false;
      })))

  -- the register that an action on it leaves, or its exception
  abbrev pub register_of : Result (Unit {0}) × QuantumRegister W B → Result (QuantumRegister W B)
  register_of (ok a, reg) = ok reg
  register_of (err e, reg) = err e

  unfoldable pub make_basis_amplitude :
      ℕ → ℕ → Amplitude W → Result B → Result (QuantumRegister W B)
  unfolding initialize_backend on_backend
  make_basis_amplitude qubits init_state amp created =
      and_then (initialize_backend qubits created)
        (λ reg. register_of (on_backend (i.init_basis reg.num_qubits init_state amp) reg))

  unfoldable pub make_basis : ℕ → ℕ → Result B → Result (QuantumRegister W B)
  unfolding make_basis_amplitude
  make_basis qubits init_state created =
      make_basis_amplitude qubits init_state (record { real = one; imag = nought }) created

  unfoldable pub make_loaded : ℕ → List W → Result B → Result (QuantumRegister W B)
  unfolding initialize_backend on_backend
  make_loaded qubits amplitudes created =
      and_then (initialize_backend qubits created)
        (λ reg. register_of (on_backend (i.load_amplitudes reg.num_qubits amplitudes) reg))

  unfoldable pub amplitude_element_count : QuantumRegister W B → ℕ
  amplitude_element_count reg = reg.num_states * 2 % u64_mod

  unfoldable pub validate_state : ℕ → Register W B (Unit {0})
  unfolding validate_state_index
  validate_state index reg = (validate_state_index index reg.num_states, reg)

  unfoldable pub amplitude : ℕ → Register W B (Amplitude W)
  unfolding require_initialized validate_state on_backend apply_affine_overlay
  amplitude index =
      require_initialized
      >> validate_state index
      >> (on_backend (i.amplitude index) >>= λ a.
          current >>= λ reg. pure (apply_affine_overlay reg a))

  unfoldable pub amplitudes : Register W B (List W)
  unfolding require_initialized snapshot_logical_amplitudes
  amplitudes = require_initialized >> snapshot_logical_amplitudes

  unfoldable pub probability : ℕ → Register W B W
  unfolding require_initialized validate_state amplitude probability_of
  probability index =
      require_initialized
      >> validate_state index
      >> (amplitude index >>= λ a. pure (probability_of a))

  unfoldable pub total_probability : Register W B W
  unfolding require_initialized on_backend visit_logical_amplitude_chunks add_probabilities
  total_probability =
      require_initialized
      >> (current >>= λ reg.
          if not reg.affine_overlay_active
          then on_backend i.total_probability
          else visit_logical_amplitude_chunks (λ base_state elems. add_probabilities elems) nought)

  -- `rnd` is the number that the random source gives
  unfoldable pub measure : W → Register W B ℕ
  unfolding require_initialized on_backend visit_logical_amplitude_chunks measure_chunk
  measure rnd =
      require_initialized
      >> (current >>= λ reg.
          if not reg.affine_overlay_active
          then on_backend (i.sample_measurement rnd)
          else visit_logical_amplitude_chunks
              (λ base_state elems m.
                if not (m.measured_state == reg.num_states)
                then m
                else measure_chunk rnd base_state elems m)
              (record { cumulative = nought; measured_state = reg.num_states })
            >>= λ m.
                if not (m.measured_state == reg.num_states)
                then pure m.measured_state
                else lift (err runtime_error))

  unfoldable pub set_amplitude : ℕ → Amplitude W → Register W B (Unit {0})
  unfolding require_initialized validate_state remove_affine_overlay on_backend forget_sum
  set_amplitude index amp =
      require_initialized
      >> validate_state index
      >> (current >>= λ reg. lift (remove_affine_overlay reg amp) >>= λ a.
          on_backend (i.set_amplitude index a) >> forget_sum)

  unfoldable pub load_amplitudes : List W → Register W B (Unit {0})
  unfolding require_initialized amplitude_element_count reset_affine_overlay on_backend
  load_amplitudes values =
      require_initialized
      >> (current >>= λ reg.
          lift (throw_if (not (length values == amplitude_element_count reg)) invalid_argument)
          >> reset_affine_overlay
          >> on_backend (i.load_amplitudes reg.num_qubits values))

  unfoldable pub init_uniform_superposition : List ℕ → Register W B (Unit {0})
  unfolding require_initialized validate_state for_each reset_affine_overlay on_backend
  init_uniform_superposition basis_states =
      require_initialized
      >> lift (throw_if (length basis_states == 0) invalid_argument)
      >> for_each basis_states validate_state
      >> reset_affine_overlay
      >> (current >>= λ reg. on_backend (i.init_uniform_superposition reg.num_qubits basis_states))
