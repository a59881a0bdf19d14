-- ===== src/Register/Valid.antt =====
-- A register over a backend that keeps its contract: every operation with valid arguments returns and
-- leaves the register ready for the next one.
use mathlib.Core.Logic.{◌⊎◌, inl, inr}
use tmfqsfullstate.Prelude.{
  ℕ, ◌%◌, ◌^◌, ◌<◌, ◌≡◌, ◌≢◌, refl, false, List, Option, none, some, arith, leb, ◌==◌, Bool-cases,
  Option-cases,
}
use tmfqsfullstate.Core.Action.{Result, ok, Action, ◌>>=◌, ◌>>◌, pure, modify}
use tmfqsfullstate.Core.Amplitude.{Double, Amplitude, ◌⊕◌, ◌⊗◌, ◌≐◌, nought, one}
use tmfqsfullstate.Core.Validation.{
  validate_state_index, validate_qubit_index, validate_distinct_qubits,
}
use tmfqsfullstate.Storage.PairKernel.Bits.{pow-le}
use tmfqsfullstate.Storage.Backend.{
  IStateBackend, Contract, Returns, returned, Keeps, returned_after, returned_then,
}
use tmfqsfullstate.Register.{
  QuantumRegister, Register, identity_scale, no_bias, add_chunk, negate_amplitude,
  require_initialized, on_backend, forget_sum, reset_affine_overlay, visit_logical_amplitude_chunks,
  logical_amplitude_sum, flush_affine_overlay,
}
use tmfqsfullstate.Register.Access.{validate_state}
use tmfqsfullstate.Register.Operations.{validate_qubit, validate_pair}

-- What the code relies on of the signs of doubles: negation undoes itself, and the squared norm of 1
-- and of -1 does not compare equal to 0.0.
pub record Signs (W : Type 0) ⦃d : Double W⦄ : Type 0 where
  pub neg_neg : (x : W) → d.neg (d.neg x) ≡ x
  pub plus : (one {W = W} ⊗ one ⊕ nought ⊗ nought ≐ nought) ≡ false
  pub minus : (d.neg (one {W = W}) ⊗ d.neg one ⊕ d.neg nought ⊗ d.neg nought ≐ nought) ≡ false

module _ {W B : Type 0} ⦃d : Double W⦄ ⦃i : IStateBackend W B⦄ (Ready : ℕ → B → Type 0) where
  pub record IsReady (n : ℕ) (reg : QuantumRegister W B) : Type 0 where
    pub few : n < 32
    pub size : reg.num_qubits ≡ n
    pub states : reg.num_states ≡ 2 ^ n
    pub held : B
    pub holds : reg.backend ≡ some held
    pub ready : Ready n held
    pub unit :
        (reg.affine_scale ≡ identity_scale) ⊎ (reg.affine_scale ≡ negate_amplitude identity_scale)

module _ {W B : Type 0} ⦃d : Double W⦄ ⦃i : IStateBackend W B⦄ (Ready : ℕ → B → Type 0)
    (n : ℕ) where
  abbrev pub KeepsReady : {A : Type 0} → Register W B A → Type 0
  KeepsReady m = Keeps (IsReady Ready n) m

  pub require_initialized-Keeps : KeepsReady require_initialized
  unfolding require_initialized
  require_initialized-Keeps reg p =
      let e : require_initialized reg ≡ (ok tt, reg) = ground (arith, p.holds) in
      rw e (returned tt p)

  pub on_backend-Keeps :
      {A : Type 0} (m : Action B A) → Keeps (Ready n) m → KeepsReady (on_backend m)
  unfolding on_backend
  on_backend-Keeps {A} m keep reg p = rw p.holds (go (m p.held) (keep p.held p.ready))
    where
      go :
          (x : Result A × B)
          → Returns (Ready n) x
          → Returns (IsReady Ready n) (x.0, record reg { backend = some x.1 })
      go x (returned a {s} q) = returned a (record {
        few = p.few;
        size = p.size;
        states = p.states;
        held = s;
        holds = refl;
        ready = q;
        unit = p.unit;
      })

  pub modify-Keeps :
      (f : QuantumRegister W B → QuantumRegister W B)
      → ((reg : QuantumRegister W B) → IsReady Ready n reg → IsReady Ready n (f reg))
      → KeepsReady (modify f)
  modify-Keeps f h reg p = returned tt (h reg p)

  -- the cached sum and the overlay are not part of being ready
  pub resum :
      (sum : Option (Amplitude W)) (reg : QuantumRegister W B)
      → IsReady Ready n reg
      → IsReady Ready n (record reg { cached_logical_amplitude_sum = sum })
  resum sum reg p = record {
    few = p.few;
    size = p.size;
    states = p.states;
    held = p.held;
    holds = p.holds;
    ready = p.ready;
    unit = p.unit;
  }

  fresh :
      (reg : QuantumRegister W B)
      → IsReady Ready n reg
      → IsReady Ready n (record reg {
        affine_scale = identity_scale;
        affine_bias = no_bias;
        affine_overlay_active = false;
        cached_logical_amplitude_sum = none;
      })
  fresh reg p = record {
    few = p.few;
    size = p.size;
    states = p.states;
    held = p.held;
    holds = p.holds;
    ready = p.ready;
    unit = inl refl;
  }

  pub reset_affine_overlay-Keeps : KeepsReady reset_affine_overlay
  unfolding reset_affine_overlay
  reset_affine_overlay-Keeps reg p = returned tt (fresh reg p)

  pub forget_sum-Keeps : KeepsReady forget_sum
  unfolding forget_sum
  forget_sum-Keeps reg p = returned tt (resum none reg p)

  pub validate_state-Keeps : (s : ℕ) → s < 2 ^ n → KeepsReady (validate_state s)
  unfolding validate_state validate_state_index
  validate_state-Keeps s lt reg p =
      let small = pow-le n 31 (omega (arith, p.few)) in
      let inside : leb (reg.num_states % 2 ^ 32) s ≡ false = ground (arith, p.states, small) in
      rw inside (returned tt p)

  pub validate_qubit-Keeps : (q : ℕ) → q < n → KeepsReady (validate_qubit q)
  unfolding validate_qubit validate_qubit_index
  validate_qubit-Keeps q lt reg p =
      let inside : leb reg.num_qubits q ≡ false = ground (arith, p.size) in
      rw inside (returned tt p)

  pub validate_pair-Keeps :
      (q0 q1 : ℕ) → q0 < n → q1 < n → q0 ≢ q1 → KeepsReady (validate_pair q0 q1)
  unfolding validate_pair validate_distinct_qubits
  validate_pair-Keeps q0 q1 h0 h1 ne =
      returned_then (validate_qubit q0 >> validate_qubit q1) _
        (returned_then (validate_qubit q0) (validate_qubit q1) (validate_qubit-Keeps q0 h0)
          (validate_qubit-Keeps q1 h1))
        (λ reg p. let apart : (q0 == q1) ≡ false = ground arith in rw apart (returned tt p))

  module _ (contract : Contract i Ready) where
    pub flush_affine_overlay-Keeps : KeepsReady flush_affine_overlay
    unfolding flush_affine_overlay reset_affine_overlay
    flush_affine_overlay-Keeps reg p = elim (Bool-cases reg.affine_overlay_active) [
      | inl e ↦ simp e (
          returned_then (on_backend transform >> reset_affine_overlay) restore
            (returned_then (on_backend transform) reset_affine_overlay
              (on_backend-Keeps transform (contract.transforms n reg.affine_scale reg.affine_bias))
              (λ reg p. returned tt (fresh reg p)))
            (λ after p. returned tt (resum reg.cached_logical_amplitude_sum after p)) reg p)
      | inr e ↦ simp e (returned tt p)
    ]
      where
        transform : Action B (Unit {0})
        transform = i.apply_affine_transform reg.affine_scale reg.affine_bias

        restore : Register W B (Unit {0})
        restore = modify (λ after. record after {
          cached_logical_amplitude_sum = reg.cached_logical_amplitude_sum;
        })

    pub visit-Keeps :
        {V : Type 0} (visitor : ℕ → List W → V → V) (acc : V)
        → KeepsReady (visit_logical_amplitude_chunks visitor acc)
    unfolding visit_logical_amplitude_chunks
    visit-Keeps visitor acc =
        returned_then require_initialized _ require_initialized-Keeps (λ reg p.
          elim (Bool-cases reg.affine_overlay_active) [
            | inl e ↦ simp e (on_backend-Keeps _ (contract.visits _ acc n) reg p)
            | inr e ↦ simp e (on_backend-Keeps _ (contract.visits visitor acc n) reg p)
          ])

    pub logical_amplitude_sum-Keeps : KeepsReady logical_amplitude_sum
    unfolding logical_amplitude_sum
    logical_amplitude_sum-Keeps reg p = elim (Option-cases reg.cached_logical_amplitude_sum) [
      | inl e ↦
          let same : logical_amplitude_sum reg ≡ (visited >>= remembered) reg = ground (arith, e) in
          rw same (
            returned_after visited remembered (visit-Keeps _ no_bias)
              (λ sum.
                returned_then
                  (modify (λ reg. record reg { cached_logical_amplitude_sum = some sum }))
                  (pure sum) (λ reg p. returned tt (resum (some sum) reg p))
                  (λ reg p. returned sum p))
              reg p)
      | inr (sum, e) ↦
          let same : logical_amplitude_sum reg ≡ (ok sum, reg) = ground (arith, e) in
          rw same (returned sum p)
    ]
      where
        visited : Register W B (Amplitude W)
        visited =
            visit_logical_amplitude_chunks (λ base_state elems sum. add_chunk elems sum) no_bias

        remembered : Amplitude W → Register W B (Amplitude W)
        remembered sum =
            modify (λ reg. record reg { cached_logical_amplitude_sum = some sum }) >> pure sum
