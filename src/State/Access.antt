-- ===== src/State/Access.antt =====
-- state/quantum_state.cpp: what a state is materialized into, and the operations that read and load it.
use tmfqsfullstate.Prelude.{
  ℕ, zero, suc, ◌+◌, ◌*◌, ◌%◌, not, List, Option, none, some, leb, ◌==◌, if◌then◌else◌, length,
  get_or, set,
}
use tmfqsfullstate.Core.Action.{
  Result, ok, err, invalid_argument, logic_error, runtime_error, Action, ◌>>=◌, ◌>>◌, pure, lift,
  modify, throw_if, and_then,
}
use tmfqsfullstate.Core.Amplitude.{Double, Amplitude, ◌⊕◌, ◌⊗◌, nought, no_amplitude}
use tmfqsfullstate.Core.StateSpace.{u64_mod, checked_state_count, checked_amplitude_element_count}
use tmfqsfullstate.Storage.Backend.{IStateBackend}
use tmfqsfullstate.Register.{QuantumRegister, Register}
use tmfqsfullstate.Register.Access.{make_basis, make_basis_amplitude, make_loaded, register_of}
use tmfqsfullstate.Register.Access
use tmfqsfullstate.State.{QuantumState, StateKind, StateValidation}
use tmfqsfullstate.State.Validation.{probability_mass, validate_or_normalize}

abbrev pub State : Type 0 → Type 0 → Type 0 → Type 0
State W B A = Action (QuantumState W B) A

module _ {W : Type 0} ⦃d : Double W⦄ where
  -- {amplitudes[elem], amplitudes[elem + 1]} with elem = state * 2
  unfoldable pub amplitude_at : List W → ℕ → Amplitude W
  amplitude_at v state =
      let elem = state * 2 % u64_mod in
      record { real = get_or v elem nought; imag = get_or v (elem + 1) nought }

  -- the loop of `measure` over `count` states from `state` on
  unfoldable pub measure_from : W → List W → ℕ → ℕ → W → Result ℕ
  unfolding amplitude_at
  measure_from rnd v zero state cumulative = err runtime_error
  measure_from rnd v (suc count) state cumulative =
      let a = amplitude_at v state in
      let total = cumulative ⊕ (a.real ⊗ a.real ⊕ a.imag ⊗ a.imag) in
      let rest = measure_from rnd v count (suc state) total in
      if d.le rnd total then ok state else rest

module _ {W B : Type 0} ⦃d : Double W⦄ ⦃i : IStateBackend W B⦄ where
  -- `*reg`: a null pointer, which is undefined in C++, is a logic_error here
  abbrev pub register_held : Option (QuantumRegister W B) → Result (QuantumRegister W B)
  register_held none = err logic_error
  register_held (some reg) = ok reg

  -- `created` is what the factory makes for the configuration
  unfoldable pub materialize : Result B → QuantumState W B → Result (QuantumRegister W B)
  unfolding make_basis make_basis_amplitude make_loaded Access.init_uniform_superposition
  materialize created st = elim st.kind [
    | StateKind.basis ↦ make_basis st.qubits st.basis_state created
    | StateKind.basis_amplitude ↦
        make_basis_amplitude st.qubits st.basis_state st.basis_amplitude created
    | StateKind.uniform_subset ↦
        and_then (make_basis st.qubits 0 created)
          (λ reg. register_of (Access.init_uniform_superposition st.basis_states reg))
    | StateKind.amplitudes ↦ make_loaded st.qubits st.amplitudes created
    | StateKind.register ↦ register_held st.reg
  ]

  -- `impl_->reg->m()`
  unfoldable pub on_register : {A : Type 0} → Register W B A → State W B A
  on_register m st = elim st.reg [
    | none ↦ (err logic_error, st)
    | some reg ↦ let (r, reg') = m reg in (r, record st { reg = some reg' })
  ]

  -- `materialize(cfg).m()` on a dense configuration, for which the factory makes `created`
  unfoldable pub on_materialized : {A : Type 0} → Result B → Register W B A → State W B A
  unfolding materialize
  on_materialized created m st = (and_then (materialize created st) (λ reg. (m reg).0), st)

  unfoldable pub amplitude : Result B → ℕ → State W B (Amplitude W)
  unfolding checked_state_count amplitude_at on_register on_materialized Access.amplitude
  amplitude created state st =
      (lift (
            and_then (checked_state_count st.qubits)
              (λ states. throw_if (leb states state) invalid_argument))
          >> elim st.kind [
            | StateKind.amplitudes ↦ pure (amplitude_at st.amplitudes state)
            | StateKind.basis ↦
                pure (if state == st.basis_state then st.basis_amplitude else no_amplitude)
            | StateKind.basis_amplitude ↦
                pure (if state == st.basis_state then st.basis_amplitude else no_amplitude)
            | StateKind.register ↦ on_register (Access.amplitude state)
            | StateKind.uniform_subset ↦ on_materialized created (Access.amplitude state)
          ])
        st

  unfoldable pub total_probability : Result B → State W B W
  unfolding probability_mass on_register on_materialized Access.total_probability
  total_probability created st =
      let a = st.basis_amplitude in
      elim st.kind [
        | StateKind.amplitudes ↦ (ok (probability_mass st.amplitudes), st)
        | StateKind.basis ↦ (ok (a.real ⊗ a.real ⊕ a.imag ⊗ a.imag), st)
        | StateKind.basis_amplitude ↦ (ok (a.real ⊗ a.real ⊕ a.imag ⊗ a.imag), st)
        | StateKind.register ↦ on_register Access.total_probability st
        | StateKind.uniform_subset ↦ on_materialized created Access.total_probability st
      ]

  unfoldable pub amplitudes : Result B → State W B (List W)
  unfolding on_register on_materialized Access.amplitudes
  amplitudes created st = elim st.kind [
    | StateKind.amplitudes ↦ (ok st.amplitudes, st)
    | StateKind.register ↦ on_register Access.amplitudes st
    | StateKind.basis ↦ on_materialized created Access.amplitudes st
    | StateKind.basis_amplitude ↦ on_materialized created Access.amplitudes st
    | StateKind.uniform_subset ↦ on_materialized created Access.amplitudes st
  ]

  -- `rnd` is the number that the random source gives, which a basis state does not ask for
  unfoldable pub measure : Result B → W → State W B ℕ
  unfolding checked_state_count measure_from on_register on_materialized Access.measure
  measure created rnd st = elim st.kind [
    | StateKind.basis ↦ (ok st.basis_state, st)
    | StateKind.basis_amplitude ↦ (ok st.basis_state, st)
    | StateKind.amplitudes ↦ (
      and_then (checked_state_count st.qubits)
          (λ states. measure_from rnd st.amplitudes states 0 nought),
      st,
    )
    | StateKind.register ↦ on_register (Access.measure rnd) st
    | StateKind.uniform_subset ↦ on_materialized created (Access.measure rnd) st
  ]

  unfoldable pub load_amplitudes : List W → StateValidation W → State W B (Unit {0})
  unfolding checked_amplitude_element_count validate_or_normalize
  load_amplitudes values validation st =
      ((lift (
              and_then (checked_amplitude_element_count st.qubits)
                (λ elems. throw_if (not (length values == elems)) invalid_argument))
            >> lift (validate_or_normalize values validation))
          >>= λ loaded.
              modify (λ st. record st { kind = StateKind.amplitudes; amplitudes = loaded }))
        st

  unfoldable pub set_amplitude :
      Result B → ℕ → Amplitude W → StateValidation W → State W B (Unit {0})
  unfolding amplitudes checked_state_count load_amplitudes
  set_amplitude created state a validation st =
      (amplitudes created >>= λ values.
      lift (
        and_then (checked_state_count st.qubits)
          (λ states. throw_if (leb states state) invalid_argument))
      >> (let elem = state * 2 % u64_mod in
          load_amplitudes (set (set values elem a.real) (elem + 1) a.imag) validation))
        st
