-- ===== src/Storage/Dense/Access.antt =====
-- Initialisation, reads and writes of DenseStateBackend.
use tmfqsfullstate.Prelude.{
  ℕ, ◌+◌, ◌*◌, ◌%◌, ◌^◌, ◌<◌, ◌≡◌, refl, ◌∙◌, List, arith, length, replicate, length-replicate,
  get_or-replicate, ◌==◌, ltb, leb, if◌then◌else◌, ◌&&◌, Bool-cases, inl, inr, true, false,
}
use tmfqsfullstate.Core.Action.{
  ok, err, out_of_range, invalid_argument, ◌>>◌, throw_if, continue-throw_if,
}
use tmfqsfullstate.Core.Amplitude.{Double, Amplitude, nought, no_amplitude}
use tmfqsfullstate.Core.StateSpace.{checked_state_count, checked_amplitude_element_count}
use tmfqsfullstate.Core.Validation.{validate_state_index}
use tmfqsfullstate.Storage.PairKernel.Bits.{pow-le}
use tmfqsfullstate.Storage.Dense.{
  DenseStateBackend, read_pair, write_pair, validate_state, set_size, init_zero, init_basis,
  load_amplitudes, export_amplitudes, amplitude, set_amplitude,
}
use tmfqsfullstate.Storage.Dense.Cells.{
  IsWellFormed, length-write_pair, read_pair-write_pair_self, read_pair-write_pair_ne,
}
use tmfqsfullstate.Storage.Dense.Kernels.Gates.{ensure_initialized-IsWellFormed}

sizes : (n : ℕ) → n < 32 → (2 ^ n % 2 ^ 32 ≡ 2 ^ n) × (2 ^ n * 2 % 2 ^ 64 ≡ 2 ^ n * 2)
sizes n few = let small = pow-le n 31 (omega arith) in (omega (arith, small), omega (arith, small))

module _ {W : Type 0} ⦃d : Double W⦄ where
  -- a backend of `n` qubits over a vector
  abbrev pub sized : ℕ → List W → DenseStateBackend W
  sized n v = record { num_qubits = n; num_states = 2 ^ n; amplitudes = v }

  pub sized-IsWellFormed :
      (n : ℕ) (v : List W) → n < 32 → length v ≡ 2 ^ n * 2 → IsWellFormed (sized n v)
  sized-IsWellFormed n v few full = record { few = few; counted = refl; full = full }

  pub init_zero-sized :
      (n : ℕ) (b : DenseStateBackend W)
      → n < 32
      → init_zero n b ≡ (ok tt, sized n (replicate (2 ^ n * 2) nought))
  unfolding init_zero set_size checked_state_count checked_amplitude_element_count
  init_zero-sized n b few =
      let accepted : ltb 63 n ≡ false = ground arith in
      let (states, elems) = sizes n few in rw (accepted, states, elems) refl

  pub load_amplitudes-sized :
      (n : ℕ) (v : List W) (b : DenseStateBackend W)
      → n < 32
      → length v ≡ 2 ^ n * 2
      → load_amplitudes n v b ≡ (ok tt, sized n v)
  unfolding load_amplitudes set_size checked_state_count checked_amplitude_element_count
  load_amplitudes-sized n v b few full =
      let accepted : ltb 63 n ≡ false = ground arith in
      let same : (length v == 2 ^ n * 2) ≡ true = ground (arith, full) in
      let (states, elems) = sizes n few in rw (accepted, states, elems, same) refl

  pub validate_state-IsWellFormed :
      (b : DenseStateBackend W) (s : ℕ)
      → IsWellFormed b
      → validate_state s b ≡ (throw_if (leb (2 ^ b.num_qubits) s) out_of_range, b)
  unfolding validate_state validate_state_index
  validate_state-IsWellFormed b s w =
      let small = pow-le b.num_qubits 31 (omega (arith, w.few)) in
      let whole : b.num_states % 2 ^ 32 ≡ 2 ^ b.num_qubits = omega (arith, small, w.counted) in
      rw whole refl

  -- On a well-formed backend, amplitude throws out_of_range at a state that is not below the number of
  -- states and returns the amplitude of any other, and changes nothing.
  pub amplitude-IsWellFormed :
      (b : DenseStateBackend W) (s : ℕ)
      → IsWellFormed b
      → amplitude s b ≡ (
          if leb (2 ^ b.num_qubits) s
          then (err out_of_range, b)
          else (ok (read_pair b.amplitudes s), b))
  unfolding amplitude
  amplitude-IsWellFormed b s w =
      rw (ensure_initialized-IsWellFormed b w, validate_state-IsWellFormed b s w)
        (continue-throw_if (leb (2 ^ b.num_qubits) s) out_of_range b
          (λ _ b. (ok (read_pair b.amplitudes s), b)))

  -- On a well-formed backend, setAmplitude throws out_of_range at a state that is not below the number
  -- of states and returns at any other. The backend stays well-formed, and amplitude at a state `t`
  -- answers with the value where it was written to that state, and as before otherwise.
  pub set_amplitude-amplitude :
      (b : DenseStateBackend W) (s t : ℕ) (a : Amplitude W)
      → IsWellFormed b
      → (b' : DenseStateBackend W) × (set_amplitude s a b
          ≡ (throw_if (leb (2 ^ b.num_qubits) s) out_of_range, b'))
        × IsWellFormed b'
        × ((amplitude t b').0
            ≡ (if (t == s) && ltb s (2 ^ b.num_qubits) then ok a else (amplitude t b).0))
  unfolding set_amplitude
  set_amplitude-amplitude b s t a w =
      rw (ensure_initialized-IsWellFormed b w, validate_state-IsWellFormed b s w)
        (elim (Bool-cases (leb (2 ^ b.num_qubits) s)) [
          | inl e ↦
              let outside : ltb s (2 ^ b.num_qubits) ≡ false = ground (arith, e) in
              rw e (b, refl, w, ground (arith, outside))
          | inr e ↦ rw e (b', refl, w', read e)
        ])
    where
      b' : DenseStateBackend W
      b' = record b { amplitudes = write_pair b.amplitudes s a }

      w' : IsWellFormed b'
      w' = record {
        few = w.few;
        counted = w.counted;
        full = length-write_pair b.amplitudes s a ∙ w.full;
      }

      read :
          leb (2 ^ b.num_qubits) s ≡ false
          → (amplitude t b').0
            ≡ (if (t == s) && ltb s (2 ^ b.num_qubits) then ok a else (amplitude t b).0)
      read e =
          let inside : s < 2 ^ b.num_qubits = ground (arith, e) in
          let self = read_pair-write_pair_self b.amplitudes s a in
          ground (
            arith,
            inside,
            amplitude-IsWellFormed b t w,
            amplitude-IsWellFormed b' t w',
            self (omega (arith, w.full, inside)),
            read_pair-write_pair_ne b.amplitudes s t a,
          )

  blank : (n t : ℕ) → read_pair (replicate n (nought {W = W})) t ≡ no_amplitude
  unfolding read_pair
  blank n t =
      let low = get_or-replicate n (t * 2) nought in
      let high = get_or-replicate n (t * 2 + 1) nought in
      λ i. record { real = low i; imag = high i }

  -- For fewer than 32 qubits, initBasis throws out_of_range at a state that is not below the number of
  -- states and returns at any other. Whatever was there before, it leaves a well-formed backend of
  -- that size, in which a state `t` holds the given amplitude where it is the initial state, and zero
  -- otherwise.
  pub init_basis-amplitudes :
      (n s t : ℕ) (a : Amplitude W) (b : DenseStateBackend W)
      → n < 32
      → (v : List W) × (init_basis n s a b ≡ (throw_if (leb (2 ^ n) s) out_of_range, sized n v))
        × IsWellFormed (sized n v)
        × (read_pair v t ≡ (if (t == s) && ltb s (2 ^ n) then a else no_amplitude))
  unfolding init_basis
  init_basis-amplitudes n s t a b few =
      rw (init_zero-sized n b few, validate_state-IsWellFormed clear s clear-IsWellFormed)
        (elim (Bool-cases (leb (2 ^ n) s)) [
          | inl e ↦
              let outside : ltb s (2 ^ n) ≡ false = ground (arith, e) in
              rw e (zeros, refl, clear-IsWellFormed, ground (arith, outside, blank (2 ^ n * 2) t))
          | inr e ↦ rw e (
            write_pair zeros s a,
            refl,
            sized-IsWellFormed n (write_pair zeros s a) few
                (length-write_pair zeros s a ∙ length-replicate (2 ^ n * 2) nought),
            cell e,
          )
        ])
    where
      zeros : List W
      zeros = replicate (2 ^ n * 2) nought

      clear : DenseStateBackend W
      clear = sized n zeros

      clear-IsWellFormed : IsWellFormed clear
      clear-IsWellFormed = sized-IsWellFormed n zeros few (length-replicate (2 ^ n * 2) nought)

      cell :
          leb (2 ^ n) s ≡ false
          → read_pair (write_pair zeros s a) t
            ≡ (if (t == s) && ltb s (2 ^ n) then a else no_amplitude)
      cell e =
          let inside : s < 2 ^ n = ground (arith, e) in
          ground (
            arith,
            inside,
            read_pair-write_pair_self zeros s a
                (omega (arith, inside, length-replicate (2 ^ n * 2) (nought {W = W}))),
            read_pair-write_pair_ne zeros s t a,
            blank (2 ^ n * 2) t,
          )

  -- For fewer than 32 qubits, loadAmplitudes and then exportAmplitudes return the vector that was
  -- loaded where it has two numbers for each state; at any other length the load throws
  -- invalid_argument and only the sizes of the backend have changed.
  pub load_amplitudes-export_amplitudes :
      (n : ℕ) (v : List W) (b : DenseStateBackend W)
      → n < 32
      → (load_amplitudes n v >> export_amplitudes) b ≡ (
          if length v == 2 ^ n * 2
          then (ok v, sized n v)
          else (err invalid_argument, record b { num_qubits = n; num_states = 2 ^ n }))
  unfolding load_amplitudes export_amplitudes set_size checked_state_count
      checked_amplitude_element_count
  load_amplitudes-export_amplitudes n v b few =
      let accepted : ltb 63 n ≡ false = ground arith in
      let (states, elems) = sizes n few in
      elim (Bool-cases (length v == 2 ^ n * 2)) [
        | inl e ↦
            let full : length v ≡ 2 ^ n * 2 = ground (arith, e) in
            let w = sized-IsWellFormed n v few full in
            rw (accepted, states, elems, e, ensure_initialized-IsWellFormed (sized n v) w) refl
        | inr e ↦ rw (accepted, states, elems, e) refl
      ]
