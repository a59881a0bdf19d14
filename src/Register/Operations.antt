-- ===== src/Register/Operations.antt =====
-- register/quantum_register.cpp: the operations that a circuit performs on a register.
use tmfqsfullstate.Prelude.{ℕ, Bool, true, false, ◌||◌, List, Option, none, some, if◌then◌else◌}
use tmfqsfullstate.Core.Action.{Action, ◌>>=◌, ◌>>◌, pure, lift, current, modify}
use tmfqsfullstate.Core.Amplitude.{Double, Amplitude, ◌⊖◌, ◌⊗◌, ◌⊘◌, two}
use tmfqsfullstate.Core.Validation.{
  validate_qubit_index, validate_distinct_qubits, validate_gate_targets,
}
use tmfqsfullstate.Gates.{QuantumGate}
use tmfqsfullstate.Storage.Backend.{IStateBackend}
use tmfqsfullstate.Register.{
  Register, identity_scale, no_bias, sub_amplitude, negate_amplitude, scale_amplitude,
  require_initialized, on_backend, forget_sum, remove_affine_overlay, logical_amplitude_sum,
  flush_affine_overlay,
}
use tmfqsfullstate.Register.Access.{amplitude, validate_state}

module _ {W : Type 0} ⦃d : Double W⦄ where
  -- cachedLogicalAmplitudeSum_->real -= 2.0 * logical.real, and the imaginary part
  unfoldable pub subtract_twice : Amplitude W → Amplitude W → Amplitude W
  subtract_twice logical sum = record {
    real = sum.real ⊖ two ⊗ logical.real;
    imag = sum.imag ⊖ two ⊗ logical.imag;
  }

  unfoldable pub inverted_sum : Amplitude W → ℕ → Amplitude W → Amplitude W
  inverted_sum mean num_states sum = record {
    real = two ⊗ mean.real ⊗ d.of_nat num_states ⊖ sum.real;
    imag = two ⊗ mean.imag ⊗ d.of_nat num_states ⊖ sum.imag;
  }

  -- an update of the cached sum, where there is one
  abbrev pub update_sum : (Amplitude W → Amplitude W) → Option (Amplitude W) → Option (Amplitude W)
  update_sum f none = none
  update_sum f (some sum) = some (f sum)

  abbrev pub has_value : Option (Amplitude W) → Bool
  has_value none = false
  has_value (some sum) = true

  unfoldable pub mean_of : Amplitude W → ℕ → Amplitude W
  mean_of sum num_states = record {
    real = sum.real ⊘ d.of_nat num_states;
    imag = sum.imag ⊘ d.of_nat num_states;
  }

module _ {W B : Type 0} ⦃d : Double W⦄ ⦃i : IStateBackend W B⦄ where
  unfoldable pub validate_qubit : ℕ → Register W B (Unit {0})
  unfolding validate_qubit_index
  validate_qubit qubit reg = (validate_qubit_index qubit reg.num_qubits, reg)

  -- `if(affineOverlayActive_) flushAffineOverlay()`, the gate, and the reset of the cached sum
  unfoldable pub flushed : Action B (Unit {0}) → Register W B (Unit {0})
  unfolding flush_affine_overlay on_backend forget_sum
  flushed gate =
      (current >>= λ reg. if reg.affine_overlay_active then flush_affine_overlay else pure tt)
      >> on_backend gate
      >> forget_sum

  unfoldable pub apply_gate : QuantumGate W → List ℕ → Register W B (Unit {0})
  unfolding require_initialized validate_gate_targets flushed
  apply_gate gate qubits =
      require_initialized
      >> (current >>= λ reg. lift (validate_gate_targets qubits reg.num_qubits gate.dimension))
      >> flushed (i.apply_gate gate qubits)

  unfoldable pub apply_phase_flip_basis_state : ℕ → Register W B (Unit {0})
  unfolding require_initialized validate_state amplitude subtract_twice remove_affine_overlay
      negate_amplitude on_backend
  apply_phase_flip_basis_state index =
      require_initialized
      >> validate_state index
      >> (current >>= λ reg.
          if has_value reg.cached_logical_amplitude_sum || reg.affine_overlay_active
          then (amplitude index >>= λ logical.
              modify (λ r. record r {
                cached_logical_amplitude_sum =
                    update_sum (subtract_twice logical) r.cached_logical_amplitude_sum;
              })
              >> (if reg.affine_overlay_active
                  then (lift (remove_affine_overlay reg (negate_amplitude logical)) >>= λ a.
                      on_backend (i.set_amplitude index a))
                  else on_backend (i.phase_flip_basis_state index)))
          else on_backend (i.phase_flip_basis_state index))

  -- the update of the cached sum in both inversions
  unfoldable pub invert_sum : Amplitude W → Register W B (Unit {0})
  unfolding inverted_sum
  invert_sum mean = modify (λ reg. record reg {
    cached_logical_amplitude_sum =
        update_sum (inverted_sum mean reg.num_states) reg.cached_logical_amplitude_sum;
  })

  unfoldable pub apply_inversion_about : Amplitude W → Register W B (Unit {0})
  unfolding require_initialized invert_sum negate_amplitude sub_amplitude scale_amplitude
  apply_inversion_about mean =
      require_initialized
      >> invert_sum mean
      >> modify (λ reg.
        let scale = if reg.affine_overlay_active then reg.affine_scale else identity_scale in
        let bias = if reg.affine_overlay_active then reg.affine_bias else no_bias in
        record reg {
          affine_scale = negate_amplitude scale;
          affine_bias = sub_amplitude (scale_amplitude mean two) bias;
          affine_overlay_active = true;
        })

  unfoldable pub apply_inversion_about_mean : Register W B (Unit {0})
  unfolding require_initialized logical_amplitude_sum mean_of apply_inversion_about
  apply_inversion_about_mean =
      require_initialized
      >> (logical_amplitude_sum >>= λ sum.
          current >>= λ reg. apply_inversion_about (mean_of sum reg.num_states))

  unfoldable pub apply_inversion_about_materialized : Amplitude W → Register W B (Unit {0})
  unfolding require_initialized invert_sum flush_affine_overlay on_backend
  apply_inversion_about_materialized mean =
      require_initialized
      >> invert_sum mean
      >> (current >>= λ reg. if reg.affine_overlay_active then flush_affine_overlay else pure tt)
      >> on_backend (i.inversion_about mean)

  unfoldable pub apply_inversion_about_mean_materialized : Register W B (Unit {0})
  unfolding require_initialized logical_amplitude_sum mean_of apply_inversion_about_materialized
  apply_inversion_about_mean_materialized =
      require_initialized
      >> (logical_amplitude_sum >>= λ sum.
          current >>= λ reg. apply_inversion_about_materialized (mean_of sum reg.num_states))

  unfoldable pub apply_hadamard : ℕ → Register W B (Unit {0})
  unfolding require_initialized validate_qubit flushed
  apply_hadamard qubit =
      require_initialized >> validate_qubit qubit >> flushed (i.apply_hadamard qubit)

  unfoldable pub apply_pauli_x : ℕ → Register W B (Unit {0})
  unfolding require_initialized validate_qubit flushed
  apply_pauli_x qubit =
      require_initialized >> validate_qubit qubit >> flushed (i.apply_pauli_x qubit)

  unfoldable pub validate_pair : ℕ → ℕ → Register W B (Unit {0})
  unfolding validate_qubit validate_distinct_qubits
  validate_pair q0 q1 =
      validate_qubit q0 >> validate_qubit q1 >> lift (validate_distinct_qubits q0 q1)

  unfoldable pub apply_controlled_phase_shift : ℕ → ℕ → W → Register W B (Unit {0})
  unfolding require_initialized validate_pair flushed
  apply_controlled_phase_shift control target theta =
      require_initialized
      >> validate_pair control target
      >> flushed (i.apply_controlled_phase_shift control target theta)

  unfoldable pub apply_controlled_not : ℕ → ℕ → Register W B (Unit {0})
  unfolding require_initialized validate_pair flushed
  apply_controlled_not control target =
      require_initialized
      >> validate_pair control target
      >> flushed (i.apply_controlled_not control target)

  unfoldable pub apply_swap : ℕ → ℕ → Register W B (Unit {0})
  unfolding require_initialized validate_pair apply_controlled_not
  apply_swap qubit1 qubit2 =
      require_initialized
      >> validate_pair qubit1 qubit2
      >> apply_controlled_not qubit1 qubit2
      >> apply_controlled_not qubit2 qubit1
      >> apply_controlled_not qubit1 qubit2

  unfoldable pub begin_operation_batch : Register W B (Unit {0})
  unfolding require_initialized on_backend
  begin_operation_batch = require_initialized >> on_backend i.begin_operation_batch

  unfoldable pub end_operation_batch : Register W B (Unit {0})
  unfolding require_initialized on_backend
  end_operation_batch = require_initialized >> on_backend i.end_operation_batch
