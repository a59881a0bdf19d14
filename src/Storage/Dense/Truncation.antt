-- ===== src/Storage/Dense/Truncation.antt =====
-- DenseStateBackend at 32 qubits and more: `checkedStateCount` allows up to 63, but the number of states
-- is kept in an `unsigned int`.
use tmfqsfullstate.Prelude.{
  ℕ, ◌*◌, ◌%◌, ◌^◌, ◌≤◌, ◌≡◌, refl, arith, ltb, leb, false, true, replicate,
}
use tmfqsfullstate.Core.Action.{ok, err, logic_error, out_of_range}
use tmfqsfullstate.Core.Amplitude.{Double, Amplitude, nought}
use tmfqsfullstate.Core.StateSpace.{checked_state_count, checked_amplitude_element_count}
use tmfqsfullstate.Core.Validation.{ensure_backend_initialized, validate_state_index}
use tmfqsfullstate.Storage.PairKernel.Bits.{pow_split}
use tmfqsfullstate.Storage.Dense.{
  DenseStateBackend, init_zero, init_basis, ensure_initialized, amplitude, set_size, validate_state,
}

states_lost : (n : ℕ) → 32 ≤ n → 2 ^ n % 2 ^ 32 ≡ 0
states_lost n h = omega (arith, pow_split 32 n h)

module _ {W : Type 0} ⦃d : Double W⦄ where
  -- For 32 to 63 qubits, initZero returns and leaves a number of states of 0, after which amplitude
  -- throws logic_error at every state, and initBasis throws out_of_range at every state.
  pub init_zero_truncated :
      (n s : ℕ) (a : Amplitude W) (b : DenseStateBackend W)
      → 32 ≤ n
      → n ≤ 63
      → (b' : DenseStateBackend W) × (init_zero n b ≡ (ok tt, b'))
        × (b'.num_states ≡ 0)
        × (amplitude s b' ≡ (err logic_error, b'))
        × ((init_basis n s a b).0 ≡ err out_of_range)
  unfolding init_zero init_basis amplitude set_size checked_state_count
      checked_amplitude_element_count ensure_initialized ensure_backend_initialized validate_state
      validate_state_index
  init_zero_truncated n s a b low high =
      let accepted : ltb 63 n ≡ false = ground arith in
      let lost = states_lost n low in
      (
        record {
          num_qubits = n;
          num_states = 0;
          amplitudes = replicate (2 ^ n * 2 % 2 ^ 64) nought;
        },
        rw (accepted, lost) refl,
        refl,
        refl,
        (let outside : leb 0 s ≡ true = ground arith in rw (accepted, lost, outside) refl),
      )
