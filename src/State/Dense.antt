-- ===== src/State/Dense.antt =====
-- What a quantum state answers, against the dense register that it is materialized into.
use tmfqsfullstate.Prelude.{
  ℕ, ◌%◌, ◌^◌, ◌*◌, ◌<◌, ◌≡◌, refl, ap, sym, ◌∙◌, true, false, none, some, List, arith, length,
  ◌==◌, ltb, leb, if◌then◌else◌, Bool-cases, inl, inr,
}
use tmfqsfullstate.Core.Action.{Result, ok, and_then}
use tmfqsfullstate.Core.Amplitude.{Double, Amplitude, nought, one, no_amplitude}
use tmfqsfullstate.Core.StateSpace.{checked_state_count}
use tmfqsfullstate.Core.Validation.{validate_state_index}
use tmfqsfullstate.Storage.PairKernel.Bits.{pow-le}
use tmfqsfullstate.Storage.Dense.{DenseStateBackend, read_pair}
use tmfqsfullstate.Storage.Dense.Cells.{IsWellFormed}
use tmfqsfullstate.Storage.Dense.Access.{
  sized, sized-IsWellFormed, amplitude-IsWellFormed, init_basis-amplitudes, load_amplitudes-sized,
}
use tmfqsfullstate.Storage.Dense.Backend.{dense_state_backend, IsDense}
use tmfqsfullstate.Register.{
  QuantumRegister, require_initialized, on_backend, apply_affine_overlay, identity_scale, no_bias,
}
use tmfqsfullstate.Register.Access
use tmfqsfullstate.Register.Access.{
  make_basis, make_basis_amplitude, make_loaded, initialize_backend, register_of, validate_state,
}
use tmfqsfullstate.State.{QuantumState, StateKind}
use tmfqsfullstate.State.Access.{materialize, amplitude, amplitude_at, on_register, on_materialized}
use tmfqsfullstate.State.Valid.{IsState, Form}

module _ {W : Type 0} ⦃d : Double W⦄ where
  -- a register over a vector, as a constructor leaves it
  abbrev dense_register : ℕ → List W → QuantumRegister W (DenseStateBackend W)
  dense_register n v = record {
    num_qubits = n;
    num_states = 2 ^ n;
    backend = some (sized n v);
    cached_logical_amplitude_sum = none;
    affine_scale = identity_scale;
    affine_bias = no_bias;
    affine_overlay_active = false;
  }

  amplitude-dense_register :
      (n s : ℕ) (v : List W)
      → s < 2 ^ n
      → IsWellFormed (sized n v)
      → (Access.amplitude s (dense_register n v)).0 ≡ ok (read_pair v s)
  unfolding Access.amplitude require_initialized validate_state validate_state_index on_backend
      apply_affine_overlay dense_state_backend
  amplitude-dense_register n s v lt w =
      let small = pow-le n 31 (omega (arith, w.few)) in
      let inside : leb (2 ^ n % 2 ^ 32) s ≡ false = ground (arith, small) in
      let below : leb (2 ^ n) s ≡ false = ground arith in
      rw (inside, amplitude-IsWellFormed (sized n v) s w, below) refl

  make_basis_amplitude-dense :
      (n s t : ℕ) (a : Amplitude W) (created : DenseStateBackend W)
      → n < 32
      → s < 2 ^ n
      → t < 2 ^ n
      → and_then (make_basis_amplitude n s a (ok created)) (λ reg. (Access.amplitude t reg).0)
        ≡ ok (if t == s then a else no_amplitude)
  unfolding make_basis_amplitude initialize_backend checked_state_count on_backend
      dense_state_backend
  make_basis_amplitude-dense n s t a created few lt lt' =
      let accepted : ltb 63 n ≡ false = ground arith in
      let inside : leb (2 ^ n) s ≡ false = ground arith in
      let among : ltb s (2 ^ n) ≡ true = ground arith in
      let (v, e, w, cell) = init_basis-amplitudes n s t a created few in
      rw (accepted, e, inside, amplitude-dense_register n t v lt' w, cell, among)
        (elim (Bool-cases (t == s)) [ inl h ↦ rw h refl | inr h ↦ rw h refl ])

  make_loaded-dense :
      (n t : ℕ) (v : List W) (created : DenseStateBackend W)
      → n < 32
      → length v ≡ 2 ^ n * 2
      → t < 2 ^ n
      → and_then (make_loaded n v (ok created)) (λ reg. (Access.amplitude t reg).0)
        ≡ ok (amplitude_at v t)
  unfolding make_loaded initialize_backend checked_state_count on_backend amplitude_at read_pair
      dense_state_backend
  make_loaded-dense n t v created few full lt =
      let accepted : ltb 63 n ≡ false = ground arith in
      let small = pow-le n 31 (omega arith) in
      let elem : t * 2 % 2 ^ 64 ≡ t * 2 = omega (arith, small, lt) in
      rw
        (
          accepted,
          load_amplitudes-sized n v created few full,
          amplitude-dense_register n t v lt (sized-IsWellFormed n v few full),
          elem,
        )
        refl

  -- For a state of fewer than 32 qubits whose kind's members are in range and a basis state below
  -- 2^n, `amplitude` answers, whatever the kind, what the dense register that the state is materialized
  -- into answers.
  pub amplitude-materialize :
      {n : ℕ} (t : ℕ) (created : DenseStateBackend W) {st : QuantumState W (DenseStateBackend W)}
      → IsState IsDense n st
      → t < 2 ^ n
      → (amplitude (ok created) t st).0
        ≡ and_then (materialize (ok created) st) (λ reg. (Access.amplitude t reg).0)
  unfolding amplitude materialize make_basis checked_state_count
  amplitude-materialize {n} t created {st} h lt = by_kind st.kind refl h.form
    where
      answer : Result (QuantumRegister W (DenseStateBackend W)) → Result (Amplitude W)
      answer made = and_then made (λ reg. (Access.amplitude t reg).0)

      real_one : Amplitude W
      real_one = record { real = one; imag = nought }

      below : leb (2 ^ n) t ≡ false
      below = ground (arith, lt)

      accepted : ltb 63 n ≡ false
      accepted = let few = h.few in ground (arith, few)

      by_kind :
          (kind : StateKind)
          → st.kind ≡ kind
          → Form IsDense n kind st
          → (amplitude (ok created) t st).0
            ≡ and_then (materialize (ok created) st) (λ reg. (Access.amplitude t reg).0)
      by_kind StateKind.basis e (inside, unit) =
          let here : (amplitude (ok created) t st).0
              ≡ ok (if t == st.basis_state then real_one else no_amplitude) =
            simp (e, h.size, accepted, below, unit) refl in
          let there : materialize (ok created) st
              ≡ make_basis_amplitude n st.basis_state real_one (ok created) =
            simp (e, h.size, materialize) refl in
          here
          ∙ sym (
              ap answer there
              ∙ make_basis_amplitude-dense n st.basis_state t real_one created h.few inside lt)
      by_kind StateKind.basis_amplitude e inside =
          let here : (amplitude (ok created) t st).0
              ≡ ok (if t == st.basis_state then st.basis_amplitude else no_amplitude) =
            simp (e, h.size, accepted, below) refl in
          let there : materialize (ok created) st
              ≡ make_basis_amplitude n st.basis_state st.basis_amplitude (ok created) =
            simp (e, h.size, materialize) refl in
          here
          ∙ sym (
              ap answer there
              ∙ make_basis_amplitude-dense n st.basis_state t st.basis_amplitude created h.few
                  inside lt)
      by_kind StateKind.uniform_subset e f = simp (e, h.size, accepted, below, on_materialized) refl
      by_kind StateKind.amplitudes e full =
          let here : (amplitude (ok created) t st).0 ≡ ok (amplitude_at st.amplitudes t) =
            simp (e, h.size, accepted, below) refl in
          let there : materialize (ok created) st ≡ make_loaded n st.amplitudes (ok created) =
            simp (e, h.size, materialize) refl in
          here ∙ sym (ap answer there ∙ make_loaded-dense n t st.amplitudes created h.few full lt)
      by_kind StateKind.register e (reg, held, p) =
          let here : (amplitude (ok created) t st).0 ≡ (Access.amplitude t reg).0 =
            simp (e, held, h.size, accepted, below, on_register) refl in
          let there : materialize (ok created) st ≡ ok reg = simp (e, held, materialize) refl in
          here ∙ sym (ap answer there)
