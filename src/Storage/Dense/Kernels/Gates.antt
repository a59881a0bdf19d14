-- ===== src/Storage/Dense/Kernels/Gates.antt =====
-- The four native gates of DenseStateBackend on a well-formed backend: what each leaves in each cell.
use tmfqsfullstate.Prelude.{
  ℕ, ◌+◌, ◌-◌, ◌/◌, ◌%◌, ◌^◌, ◌<◌, ◌≡◌, ◌≢◌, refl, ◌∙◌, arith, length, ◌==◌, if◌then◌else◌, true,
  false, ◌&&◌, ◌||◌, ltb, leb,
}
use Prim.Native.Nat.{bit_and}
use tmfqsfullstate.Core.Action.{ok}
use tmfqsfullstate.Core.Amplitude.{
  Double, Amplitude, ◌⊕◌, ◌⊖◌, ◌⊗◌, inv_sqrt2, is_zero, amplitude_multiply,
}
use tmfqsfullstate.Core.Validation.{
  qubit_mask_from_msb_index, ensure_backend_initialized, validate_qubit_index,
  validate_backend_two_qubits, validate_distinct_qubits,
}
use tmfqsfullstate.Storage.PairKernel.Bits.{pow_pos}
use tmfqsfullstate.Storage.PairKernel.Effect.{PairUpdate}
use tmfqsfullstate.Storage.Dense.{
  DenseStateBackend, read_pair, run_pair_kernel, ensure_initialized,
  validate_single_qubit_operation, validate_two_qubit_operation,
}
use tmfqsfullstate.Storage.Dense.Kernels.{
  hadamard_pair, pauli_x_pair, controlled_phase_shift_pair, controlled_not_pair, same_amplitude,
  apply_hadamard, apply_pauli_x, apply_controlled_phase_shift, apply_controlled_not,
}
use tmfqsfullstate.Storage.Dense.Cells.{IsWellFormed}
use tmfqsfullstate.Storage.Dense.Kernels.Pointwise.{paired, run_fallback-paired}

module _ {W : Type 0} ⦃d : Double W⦄ where
  pub ensure_initialized-IsWellFormed :
      (b : DenseStateBackend W) → IsWellFormed b → ensure_initialized b ≡ (ok tt, b)
  unfolding ensure_initialized ensure_backend_initialized
  ensure_initialized-IsWellFormed b w =
      let filled : (length b.amplitudes == 0) ≡ false =
        ground (arith, w.full, pow_pos b.num_qubits) in
      let some_states : ltb 0 b.num_states ≡ true =
        ground (arith, w.counted, pow_pos b.num_qubits) in
      rw (filled, some_states) refl

  pub validate_single_qubit_operation-IsWellFormed :
      (b : DenseStateBackend W) (q : ℕ)
      → IsWellFormed b
      → q < b.num_qubits
      → validate_single_qubit_operation q b ≡ (ok tt, b)
  unfolding validate_single_qubit_operation validate_qubit_index
  validate_single_qubit_operation-IsWellFormed b q w h =
      let below : leb b.num_qubits q ≡ false = ground arith in
      rw (ensure_initialized-IsWellFormed b w, below) refl

  -- What a pair callback leaves behind.
  pub record HasRun (f : ℕ → ℕ → Amplitude W → Amplitude W → PairUpdate (Amplitude W)) (q : ℕ)
      (b b' : DenseStateBackend W) : Type 0 where
    pub fine : IsWellFormed b'
    pub same_qubits : b'.num_qubits ≡ b.num_qubits
    pub cells :
        (s : ℕ)
        → s < 2 ^ b.num_qubits
        → read_pair b'.amplitudes s
          ≡ paired f (qubit_mask_from_msb_index q b.num_qubits) (read_pair b.amplitudes) s

  pub run_pair_kernel-HasRun :
      (f : ℕ → ℕ → Amplitude W → Amplitude W → PairUpdate (Amplitude W)) (q : ℕ)
      (b : DenseStateBackend W)
      → IsWellFormed b
      → q < b.num_qubits
      → (b' : DenseStateBackend W) × (run_pair_kernel (qubit_mask_from_msb_index q b.num_qubits) f b
          ≡ (ok tt, b'))
        × HasRun f q b b'
  unfolding run_pair_kernel
  run_pair_kernel-HasRun f q b w h =
      let at = λ (s : ℕ). run_fallback-paired f b.num_qubits q s b.amplitudes w.few h w.full in
      (
        _,
        refl,
        record {
          fine = record {
            few = w.few;
            counted = w.counted;
            full = rw w.counted (let (kept, cell) = at 0 in kept);
          };
          same_qubits = refl;
          cells = λ s below. rw w.counted (let (kept, cell) = at s in cell below);
        },
      )

  -- (a + b) / sqrt 2 and (a - b) / sqrt 2
  abbrev pub scaled_sum : Amplitude W → Amplitude W → Amplitude W
  scaled_sum a b = record {
    real = (a.real ⊕ b.real) ⊗ inv_sqrt2;
    imag = (a.imag ⊕ b.imag) ⊗ inv_sqrt2;
  }

  abbrev pub scaled_difference : Amplitude W → Amplitude W → Amplitude W
  scaled_difference a b = record {
    real = (a.real ⊖ b.real) ⊗ inv_sqrt2;
    imag = (a.imag ⊖ b.imag) ⊗ inv_sqrt2;
  }

  -- On a well-formed backend and a qubit below its size, applyHadamard returns; the backend stays
  -- well-formed with the same qubits, and a state whose target bit is clear holds the scaled sum of
  -- the two old amplitudes of its pair, one whose bit is set the scaled difference, but for a pair
  -- of two zero amplitudes, which stays as it was.
  pub apply_hadamard-amplitudes :
      (q s : ℕ) (b : DenseStateBackend W)
      → IsWellFormed b
      → q < b.num_qubits
      → s < 2 ^ b.num_qubits
      → let mask = qubit_mask_from_msb_index q b.num_qubits in
        let old = read_pair b.amplitudes in
        (b' : DenseStateBackend W) × (apply_hadamard q b ≡ (ok tt, b'))
        × IsWellFormed b'
        × (b'.num_qubits ≡ b.num_qubits)
        × (read_pair b'.amplitudes s ≡ (
            if s / mask % 2 == 0
            then (if is_zero (old s) && is_zero (old (s + mask))
                then old s
                else scaled_sum (old s) (old (s + mask)))
            else if is_zero (old (s - mask)) && is_zero (old s)
            then old s
            else scaled_difference (old (s - mask)) (old s)))
  unfolding apply_hadamard hadamard_pair
  apply_hadamard-amplitudes q s b w h below =
      let (b', e, run) = run_pair_kernel-HasRun hadamard_pair q b w h in
      (
        b',
        rw (validate_single_qubit_operation-IsWellFormed b q w h) e,
        run.fine,
        run.same_qubits,
        ground (arith, run.cells s below),
      )

  -- On a well-formed backend and a qubit below its size, applyPauliX returns; the backend stays
  -- well-formed, and each state holds the old amplitude of its partner, unless the two compare equal:
  -- then it holds its own.
  pub apply_pauli_x-amplitudes :
      (q s : ℕ) (b : DenseStateBackend W)
      → IsWellFormed b
      → q < b.num_qubits
      → s < 2 ^ b.num_qubits
      → let mask = qubit_mask_from_msb_index q b.num_qubits in
        let old = read_pair b.amplitudes in
        (b' : DenseStateBackend W) × (apply_pauli_x q b ≡ (ok tt, b'))
        × IsWellFormed b'
        × (b'.num_qubits ≡ b.num_qubits)
        × (read_pair b'.amplitudes s ≡ (
            if s / mask % 2 == 0
            then (if same_amplitude (old s) (old (s + mask)) then old s else old (s + mask))
            else if same_amplitude (old (s - mask)) (old s)
            then old s
            else old (s - mask)))
  unfolding apply_pauli_x pauli_x_pair
  apply_pauli_x-amplitudes q s b w h below =
      let (b', e, run) = run_pair_kernel-HasRun pauli_x_pair q b w h in
      (
        b',
        rw (validate_single_qubit_operation-IsWellFormed b q w h) e,
        run.fine,
        run.same_qubits,
        ground (arith, run.cells s below),
      )

  pub validate_two_qubit_operation-IsWellFormed :
      (b : DenseStateBackend W) (q0 q1 : ℕ)
      → IsWellFormed b
      → q0 < b.num_qubits
      → q1 < b.num_qubits
      → q0 ≢ q1
      → validate_two_qubit_operation q0 q1 b ≡ (ok tt, b)
  unfolding validate_two_qubit_operation validate_backend_two_qubits validate_qubit_index
      validate_distinct_qubits
  validate_two_qubit_operation-IsWellFormed b q0 q1 w h0 h1 ne =
      let below0 : leb b.num_qubits q0 ≡ false = ground arith in
      let below1 : leb b.num_qubits q1 ≡ false = ground arith in
      let apart : (q0 == q1) ≡ false = ground arith in
      rw (ensure_initialized-IsWellFormed b w, below0, below1, apart) refl

  controlled_not_cell :
      (control_mask mask s : ℕ) (old : ℕ → Amplitude W)
      → paired (controlled_not_pair control_mask) mask old s ≡ (
          if s / mask % 2 == 0
          then (if (bit_and s control_mask == 0) || same_amplitude (old s) (old (s + mask))
              then old s
              else old (s + mask))
          else if (bit_and (s - mask) control_mask == 0) || same_amplitude (old (s - mask)) (old s)
          then old s
          else old (s - mask))
  unfolding controlled_not_pair
  controlled_not_cell control_mask mask s old = ground arith

  -- On a well-formed backend and two different qubits below its size, applyControlledNot returns; the
  -- backend stays well-formed, a pair whose control bit is clear stays as it was, and in the others
  -- each state holds the old amplitude of its partner, unless the two compare equal.
  pub apply_controlled_not-amplitudes :
      (control target s : ℕ) (b : DenseStateBackend W)
      → IsWellFormed b
      → control < b.num_qubits
      → target < b.num_qubits
      → control ≢ target
      → s < 2 ^ b.num_qubits
      → let control_mask = qubit_mask_from_msb_index control b.num_qubits in
        let mask = qubit_mask_from_msb_index target b.num_qubits in
        let old = read_pair b.amplitudes in
        (b' : DenseStateBackend W) × (apply_controlled_not control target b ≡ (ok tt, b'))
        × IsWellFormed b'
        × (b'.num_qubits ≡ b.num_qubits)
        × (read_pair b'.amplitudes s ≡ (
            if s / mask % 2 == 0
            then (if (bit_and s control_mask == 0) || same_amplitude (old s) (old (s + mask))
                then old s
                else old (s + mask))
            else if (bit_and (s - mask) control_mask == 0)
                || same_amplitude (old (s - mask)) (old s)
            then old s
            else old (s - mask)))
  unfolding apply_controlled_not
  apply_controlled_not-amplitudes control target s b w hc ht ne below =
      let (b', e, run) =
        run_pair_kernel-HasRun
          (controlled_not_pair (qubit_mask_from_msb_index control b.num_qubits)) target b w ht in
      (
        b',
        rw (validate_two_qubit_operation-IsWellFormed b control target w hc ht ne) e,
        run.fine,
        run.same_qubits,
        run.cells s below ∙ controlled_not_cell _ _ s (read_pair b.amplitudes),
      )

  -- On a well-formed backend and two different qubits below its size, applyControlledPhaseShift
  -- returns; the backend stays well-formed, and the amplitudes of the states whose control and target
  -- bits are set are multiplied by (cos theta, sin theta), those that are zero and all others stay.
  pub apply_controlled_phase_shift-amplitudes :
      (control target s : ℕ) (theta : W) (b : DenseStateBackend W)
      → IsWellFormed b
      → control < b.num_qubits
      → target < b.num_qubits
      → control ≢ target
      → s < 2 ^ b.num_qubits
      → let control_mask = qubit_mask_from_msb_index control b.num_qubits in
        let mask = qubit_mask_from_msb_index target b.num_qubits in
        let old = read_pair b.amplitudes in
        (b' : DenseStateBackend W) × (apply_controlled_phase_shift control target theta b
          ≡ (ok tt, b'))
        × IsWellFormed b'
        × (b'.num_qubits ≡ b.num_qubits)
        × (read_pair b'.amplitudes s ≡ (
            if (s / mask % 2 == 0) || (bit_and s control_mask == 0) || is_zero (old s)
            then old s
            else amplitude_multiply (record { real = d.cos theta; imag = d.sin theta }) (old s)))
  unfolding apply_controlled_phase_shift controlled_phase_shift_pair amplitude_multiply
  apply_controlled_phase_shift-amplitudes control target s theta b w hc ht ne below =
      let (b', e, run) =
        run_pair_kernel-HasRun
          (controlled_phase_shift_pair (qubit_mask_from_msb_index control b.num_qubits) theta)
          target b w ht in
      (
        b',
        rw (validate_two_qubit_operation-IsWellFormed b control target w hc ht ne) e,
        run.fine,
        run.same_qubits,
        ground (arith, run.cells s below),
      )
