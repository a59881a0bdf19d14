-- ===== src/State/Valid.antt =====
-- The states that can be materialized for fewer than 32 qubits, and what leaves a state one of them.
use tmfqsfullstate.Prelude.{
  ℕ, ◌^◌, ◌*◌, ◌<◌, ◌≡◌, refl, some, List, arith, length, All, ◌==◌, false,
}
use tmfqsfullstate.Core.Action.{
  Result, ok, invalid_argument, lift, for_each, throw_if, ◌>>◌, and_then,
}
use tmfqsfullstate.Core.Amplitude.{Double, nought, one}
use tmfqsfullstate.Storage.Backend.{
  IStateBackend, Contract, Returns, returned, returned_then, for_each-Keeps,
}
use tmfqsfullstate.Storage.PairKernel.Bits.{pow_pos}
use tmfqsfullstate.Register.{QuantumRegister, Register, require_initialized, reset_affine_overlay}
use tmfqsfullstate.Register.Access.{register_of, init_uniform_superposition, validate_state}
use tmfqsfullstate.Register.Valid.{
  IsReady, KeepsReady, require_initialized-Keeps, validate_state-Keeps, reset_affine_overlay-Keeps,
  on_backend-Keeps,
}
use tmfqsfullstate.Register.Starts.{
  Starts, make_basis-IsReady, make_basis_amplitude-IsReady, make_loaded-IsReady,
}
use tmfqsfullstate.State.{QuantumState, StateKind}
use tmfqsfullstate.State.Access.{materialize}

module _ {W B : Type 0} ⦃d : Double W⦄ ⦃i : IStateBackend W B⦄ (Ready : ℕ → B → Type 0) where
  -- what each kind of state asks of its members
  abbrev pub Form : ℕ → StateKind → QuantumState W B → Type 0
  Form n StateKind.basis st =
      (st.basis_state < 2 ^ n) × (st.basis_amplitude ≡ record { real = one; imag = nought })
  Form n StateKind.basis_amplitude st = st.basis_state < 2 ^ n
  Form n StateKind.uniform_subset st =
      (0 < length st.basis_states) × All (λ s. s < 2 ^ n) st.basis_states
  Form n StateKind.amplitudes st = length st.amplitudes ≡ 2 ^ n * 2
  Form n StateKind.register st =
      (reg : QuantumRegister W B) × (st.reg ≡ some reg) × IsReady Ready n reg

  pub record IsState (n : ℕ) (st : QuantumState W B) : Type 0 where
    pub few : n < 32
    pub size : st.qubits ≡ n
    pub form : Form n st.kind st

module _ {W B : Type 0} ⦃d : Double W⦄ ⦃i : IStateBackend W B⦄ (Ready : ℕ → B → Type 0)
    (contract : Contract i Ready) (n : ℕ) (few : n < 32) where
  init_uniform_superposition-Keeps :
      (states : List ℕ)
      → 0 < length states
      → All (λ s. s < 2 ^ n) states
      → KeepsReady {W = W} Ready n (init_uniform_superposition states)
  unfolding init_uniform_superposition
  init_uniform_superposition-Keeps states nonempty inside =
      returned_then (require_initialized >> some_states >> checked >> reset_affine_overlay) _
        (returned_then (require_initialized >> some_states >> checked) reset_affine_overlay
          (returned_then (require_initialized >> some_states) checked
            (returned_then require_initialized some_states (require_initialized-Keeps Ready n)
              (λ reg p.
                let enough : (length states == 0) ≡ false = ground arith in
                rw enough (returned tt p)))
            (for_each-Keeps (λ s. s < 2 ^ n) validate_state (validate_state-Keeps Ready n) states
              inside))
          (reset_affine_overlay-Keeps Ready n))
        (λ reg p.
          on_backend-Keeps Ready n (i.init_uniform_superposition reg.num_qubits states)
            (λ b q. rw p.size (contract.init_uniform_ready n states b few nonempty inside)) reg p)
    where
      some_states : Register W B (Unit {0})
      some_states = lift (throw_if (length states == 0) invalid_argument)

      checked : Register W B (Unit {0})
      checked = for_each states validate_state

  after :
      (m : Register W B (Unit {0})) (created : B) {made : Result (QuantumRegister W B)}
      → KeepsReady {W = W} Ready n m
      → Starts Ready contract n created few made
      → Starts Ready contract n created few (and_then made (λ reg. register_of (m reg)))
  after m created {made} keep (reg, e, p) = rw e (go (m reg) (keep reg p))
    where
      go :
          (x : Result (Unit {0}) × QuantumRegister W B)
          → Returns (IsReady Ready n) x
          → Starts Ready contract n created few (register_of x)
      go x (returned a {s = reg'} q) = (reg', refl, q)

  of_kind :
      (kind : StateKind) (created : B) (st : QuantumState W B)
      → st.kind ≡ kind
      → st.qubits ≡ n
      → Form Ready n kind st
      → Starts Ready contract n created few (materialize (ok created) st)
  unfolding materialize
  of_kind StateKind.basis created st e size (inside, unit) =
      rw (e, size) (make_basis-IsReady Ready contract n created few st.basis_state inside)
  of_kind StateKind.basis_amplitude created st e size form =
      rw (e, size)
        (make_basis_amplitude-IsReady Ready contract n created few st.basis_state st.basis_amplitude
          form)
  of_kind StateKind.uniform_subset created st e size (nonempty, inside) =
      rw (e, size)
        (after (init_uniform_superposition st.basis_states) created
          (init_uniform_superposition-Keeps st.basis_states nonempty inside)
          (make_basis-IsReady Ready contract n created few 0 (pow_pos n)))
  of_kind StateKind.amplitudes created st e size form =
      rw (e, size) (make_loaded-IsReady Ready contract n created few st.amplitudes form)
  of_kind StateKind.register created st e size (reg, held, p) = rw (e, held) (reg, refl, p)

-- Over any backend that keeps its contract, a state of fewer than 32 qubits whose kind's members are in
-- range is materialized, whatever its kind, into a register that is ready for its qubits.
pub materialize-IsReady :
    {W B : Type 0} ⦃d : Double W⦄ ⦃i : IStateBackend W B⦄ (Ready : ℕ → B → Type 0)
    → Contract i Ready
    → {n : ℕ} (created : B) {st : QuantumState W B} → IsState Ready n st
    → (reg : QuantumRegister W B) × (materialize (ok created) st ≡ ok reg) × IsReady Ready n reg
materialize-IsReady Ready contract {n} created {st} h =
    of_kind Ready contract n h.few st.kind created st refl h.size h.form
