-- ===== src/State/Keeps.antt =====
-- The writes to a quantum state, on every way out.
use tmfqsfullstate.Prelude.{
  ℕ, ◌%◌, ◌^◌, ◌*◌, ◌+◌, ◌<◌, ◌≡◌, refl, ◌∙◌, false, some, List, arith, length, length-map, ◌==◌,
  ltb, leb, Bool-cases, inl, inr, set,
}
use tmfqsfullstate.Core.Action.{
  Result, ok, err, continue, Result-cases, and_then, throw_if, invalid_argument,
}
use tmfqsfullstate.Core.Amplitude.{Double, Amplitude, ◌⊖◌, nought, one}
use tmfqsfullstate.Core.StateSpace.{checked_state_count, checked_amplitude_element_count}
use tmfqsfullstate.Storage.PairKernel.Bits.{pow-le}
use tmfqsfullstate.Storage.Backend.{IStateBackend, Contract, Returns, returned, returned_then}
use tmfqsfullstate.Register.{
  QuantumRegister, Register, require_initialized, snapshot_logical_amplitudes,
}
use tmfqsfullstate.Register.Access
use tmfqsfullstate.Register.Valid.{IsReady, KeepsReady, require_initialized-Keeps, visit-Keeps}
use tmfqsfullstate.State.{NormalizationPolicy, StateValidation, QuantumState, StateKind}
use tmfqsfullstate.State.Validation.{probability_mass, normalize, validate_or_normalize}
use tmfqsfullstate.State.Access.{State, amplitudes, on_register, load_amplitudes, set_amplitude}
use tmfqsfullstate.State.Valid.{IsState, Form}

-- A result that, where it is one, satisfies the predicate.
abbrev IfOk : {A : Type 0} → (A → Type 0) → Result A → Type 0
IfOk P (ok a) = P a
IfOk P (err e) = Unit

-- Whatever it returns or throws, an action leaves a state that satisfies the predicate.
abbrev pub Leaves : {S A : Type 0} → (S → Type 0) → Result A × S → Type 0
Leaves P x = P x.1

module _ {W : Type 0} ⦃d : Double W⦄ where
  same_length :
      (policy : NormalizationPolicy) (tolerance : W) (v : List W)
      → IfOk
          (λ w. length w ≡ length v)
          (validate_or_normalize v
            (record { probability_tolerance = tolerance; normalization = policy }))
  unfolding validate_or_normalize normalize
  same_length NormalizationPolicy.allow_unnormalized tolerance v =
      elim (Bool-cases (length v % 2 == 0)) [ inl e ↦ rw e refl | inr e ↦ rw e tt ]
  same_length NormalizationPolicy.normalize tolerance v = elim (Bool-cases (length v % 2 == 0)) [
    | inl e ↦ elim (Bool-cases (d.le (probability_mass v) nought)) [
      | inl h ↦ rw (e, h) tt
      | inr h ↦ rw (e, h) (length-map _ v)
    ]
    | inr e ↦ rw e tt
  ]
  same_length NormalizationPolicy.validate tolerance v = elim (Bool-cases (length v % 2 == 0)) [
    | inl e ↦ elim (Bool-cases (d.lt tolerance (d.abs (probability_mass v ⊖ one)))) [
      | inl h ↦ rw (e, h) tt
      | inr h ↦ rw (e, h) refl
    ]
    | inr e ↦ rw e tt
  ]

module _ {W B : Type 0} ⦃d : Double W⦄ ⦃i : IStateBackend W B⦄ (Ready : ℕ → B → Type 0) where
  holding-IsState :
      {n : ℕ} {st : QuantumState W B} (v : List W)
      → IsState Ready n st
      → length v ≡ 2 ^ n * 2
      → IsState Ready n (record st { kind = StateKind.amplitudes; amplitudes = v })
  holding-IsState v h full = record { few = h.few; size = h.size; form = full }

  -- Whatever the vector and the policy, loadAmplitudes keeps a state's members in range.
  load_amplitudes-IsState :
      {n : ℕ} (validation : StateValidation W) (v : List W) {st : QuantumState W B}
      → IsState Ready n st
      → IsState Ready n (load_amplitudes v validation st).1
  unfolding load_amplitudes checked_amplitude_element_count checked_state_count
  load_amplitudes-IsState {n} validation v {st} h =
      let small = pow-le n 31 (omega (arith, h.few)) in
      let accepted : ltb 63 st.qubits ≡ false =
        let few = h.few in let size = h.size in ground (arith, few, size) in
      let elems : 2 ^ st.qubits * 2 % 2 ^ 64 ≡ 2 ^ n * 2 = rw h.size (omega (arith, small)) in
      elim (Bool-cases (length v == 2 ^ n * 2)) [
        | inl e ↦
            rw (accepted, elems, e)
              (checked (ground (arith, e)) (validate_or_normalize v validation)
                (same_length validation.normalization validation.probability_tolerance v))
        | inr e ↦ rw (accepted, elems, e) h
      ]
    where
      checked :
          length v ≡ 2 ^ n * 2
          → (r : Result (List W)) → IfOk (λ w. length w ≡ length v) r
          → IsState Ready n
              (continue {S = QuantumState W B} {B = Unit {0}}
                (r, st)
                (λ w st. (ok tt, record st { kind = StateKind.amplitudes; amplitudes = w }))).1
      checked full (ok w) same = holding-IsState w h (same ∙ full)
      checked full (err e) same = h

module _ {W B : Type 0} ⦃d : Double W⦄ ⦃i : IStateBackend W B⦄ (Ready : ℕ → B → Type 0)
    (contract : Contract i Ready) (n : ℕ) where
  on_register-IsState :
      {A : Type 0} (m : Register W B A) (st : QuantumState W B)
      → KeepsReady {W = W} Ready n m
      → n < 32
      → st.qubits ≡ n
      → st.kind ≡ StateKind.register
      → (reg : QuantumRegister W B) × (st.reg ≡ some reg) × IsReady Ready n reg
      → IsState Ready n (on_register m st).1
  unfolding on_register
  on_register-IsState {A} m st keep few size kind (reg, held, p) = rw held (go (m reg) (keep reg p))
    where
      go :
          (x : Result A × QuantumRegister W B)
          → Returns (IsReady Ready n) x
          → IsState Ready n (record st { reg = some x.1 })
      go x (returned a {s = reg'} q) = record {
        few = few;
        size = size;
        form = rw kind (reg', refl, q);
      }

  amplitudes-Keeps : KeepsReady {W = W} Ready n Access.amplitudes
  unfolding Access.amplitudes snapshot_logical_amplitudes
  amplitudes-Keeps =
      returned_then require_initialized _ (require_initialized-Keeps Ready n)
        (λ reg p. visit-Keeps Ready n contract _ _ reg p)

  amplitudes-IsState :
      (created : Result B) (st : QuantumState W B)
      → IsState Ready n st
      → IsState Ready n (amplitudes created st).1
  unfolding amplitudes
  amplitudes-IsState created st h = by_kind st.kind refl h.form
    where
      by_kind :
          (kind : StateKind)
          → st.kind ≡ kind
          → Form Ready n kind st
          → IsState Ready n (amplitudes created st).1
      by_kind StateKind.basis e f = simp (e, amplitudes) h
      by_kind StateKind.basis_amplitude e f = simp (e, amplitudes) h
      by_kind StateKind.uniform_subset e f = simp (e, amplitudes) h
      by_kind StateKind.amplitudes e f = simp (e, amplitudes) h
      by_kind StateKind.register e f =
          simp (e, amplitudes)
            (on_register-IsState Access.amplitudes st amplitudes-Keeps h.few h.size e f)

  -- Over any backend that keeps its contract, setAmplitude on a state of fewer than 32 qubits whose
  -- kind's members are in range leaves, whatever the index, the amplitude and the policy and whether it
  -- returns or throws, a state of as many qubits whose kind's members are in range.
  pub set_amplitude-IsState :
      (created : Result B) (s : ℕ) (a : Amplitude W) (validation : StateValidation W)
      {st : QuantumState W B}
      → IsState Ready n st
      → IsState Ready n (set_amplitude created s a validation st).1
  unfolding set_amplitude checked_state_count
  set_amplitude-IsState created s a validation {st} h =
      go (amplitudes created st) (amplitudes-IsState created st h)
    where
      guarded : List W → Result (Unit {0}) → State W B (Unit {0})
      guarded values guard st' =
          continue (guard, st')
            (λ _.
              load_amplitudes (set (set values (s * 2 % 2 ^ 64) a.real) (s * 2 % 2 ^ 64 + 1) a.imag)
                validation)

      go :
          (x : Result (List W) × QuantumState W B)
          → IsState Ready n x.1
          → IsState Ready n
              (continue x (λ values. guarded values (
                and_then
                  (checked_state_count st.qubits)
                  (λ states. throw_if (leb states s) invalid_argument)))).1
      go (err e, st') p = p
      go (ok values, st') p =
          elim (Result-cases (
            and_then (checked_state_count st.qubits)
              (λ states. throw_if (leb states s) invalid_argument))) [
                | inl (u, e) ↦ rw e (load_amplitudes-IsState Ready validation _ p)
                | inr (x, e) ↦ rw e p
              ]
