-- ===== src/Register/Performs.antt =====
-- The operations of a circuit on a register that is ready for them.
use mathlib.Core.Logic.{◌⊎◌, inl, inr}
use tmfqsfullstate.Prelude.{
  ℕ, ◌^◌, ◌≤◌, ◌<◌, ◌≡◌, ◌≢◌, refl, ap, sym, ◌∙◌, List, arith, length, Bool-cases, if◌then◌else◌,
}
use tmfqsfullstate.Core.Action.{ok, Action, ◌>>=◌, ◌>>◌, pure, current}
use tmfqsfullstate.Core.Amplitude.{Double, Amplitude, nought, one}
use tmfqsfullstate.Core.Validation.{validate_gate_targets}
use tmfqsfullstate.Core.Validation.Targets.{AreTargets, validate_gate_targets_iff}
use tmfqsfullstate.Gates.{QuantumGate}
use tmfqsfullstate.Storage.Backend.{
  IStateBackend, Contract, returned, Keeps, returned_after, returned_then,
}
use tmfqsfullstate.Register.{
  QuantumRegister, Register, identity_scale, negate_amplitude, require_initialized, on_backend,
  forget_sum, logical_amplitude_sum, flush_affine_overlay,
}
use tmfqsfullstate.Register.Operations
use tmfqsfullstate.Register.Operations.{
  validate_qubit, validate_pair, flushed, invert_sum, mean_of, has_value, update_sum,
  subtract_twice,
}
use tmfqsfullstate.Register.Valid.{
  Signs, IsReady, require_initialized-Keeps, on_backend-Keeps, resum, forget_sum-Keeps,
  validate_qubit-Keeps, validate_pair-Keeps, flush_affine_overlay-Keeps,
  logical_amplitude_sum-Keeps,
}

module _ {W B : Type 0} ⦃d : Double W⦄ ⦃i : IStateBackend W B⦄ (Ready : ℕ → B → Type 0) (n : ℕ)
    (contract : Contract i Ready) (signs : Signs W) where
  abbrev pub Preserves : {A : Type 0} → Register W B A → Type 0
  Preserves m = Keeps (IsReady Ready n) m

  pub flush-Keeps :
      Preserves
        (current >>= λ reg. if reg.affine_overlay_active then flush_affine_overlay else pure tt)
  flush-Keeps reg p = elim (Bool-cases reg.affine_overlay_active) [
    | inl e ↦ simp e (flush_affine_overlay-Keeps Ready n contract reg p)
    | inr e ↦ simp e (returned tt p)
  ]

  pub flushed-Keeps : (gate : Action B (Unit {0})) → Keeps (Ready n) gate → Preserves (flushed gate)
  unfolding flushed
  flushed-Keeps gate keep =
      returned_then _ forget_sum
        (returned_then _ (on_backend gate) flush-Keeps (on_backend-Keeps Ready n gate keep))
        (forget_sum-Keeps Ready n)

  pub apply_hadamard-Keeps : (q : ℕ) → q < n → Preserves (Operations.apply_hadamard q)
  unfolding Operations.apply_hadamard
  apply_hadamard-Keeps q h =
      returned_then _ _
        (returned_then require_initialized (validate_qubit q) (require_initialized-Keeps Ready n)
          (validate_qubit-Keeps Ready n q h))
        (flushed-Keeps (i.apply_hadamard q) (contract.hadamards n q h))

  pub apply_pauli_x-Keeps : (q : ℕ) → q < n → Preserves (Operations.apply_pauli_x q)
  unfolding Operations.apply_pauli_x
  apply_pauli_x-Keeps q h =
      returned_then _ _
        (returned_then require_initialized (validate_qubit q) (require_initialized-Keeps Ready n)
          (validate_qubit-Keeps Ready n q h))
        (flushed-Keeps (i.apply_pauli_x q) (contract.negates n q h))

  pair-Keeps :
      (c t : ℕ) (gate : Action B (Unit {0}))
      → c < n
      → t < n
      → c ≢ t
      → Keeps (Ready n) gate
      → Preserves (require_initialized >> validate_pair c t >> flushed gate)
  pair-Keeps c t gate hc ht ne keep =
      returned_then _ _
        (returned_then require_initialized (validate_pair c t) (require_initialized-Keeps Ready n)
          (validate_pair-Keeps Ready n c t hc ht ne))
        (flushed-Keeps gate keep)

  pub apply_controlled_not-Keeps :
      (c t : ℕ) → c < n → t < n → c ≢ t → Preserves (Operations.apply_controlled_not c t)
  unfolding Operations.apply_controlled_not
  apply_controlled_not-Keeps c t hc ht ne =
      pair-Keeps c t (i.apply_controlled_not c t) hc ht ne (contract.controls n c t hc ht ne)

  pub apply_controlled_phase_shift-Keeps :
      (c t : ℕ) (theta : W)
      → c < n
      → t < n
      → c ≢ t
      → Preserves (Operations.apply_controlled_phase_shift c t theta)
  unfolding Operations.apply_controlled_phase_shift
  apply_controlled_phase_shift-Keeps c t theta hc ht ne =
      pair-Keeps c t (i.apply_controlled_phase_shift c t theta) hc ht ne
        (contract.shifts n c t theta hc ht ne)

  pub apply_swap-Keeps : (a b : ℕ) → a < n → b < n → a ≢ b → Preserves (Operations.apply_swap a b)
  unfolding Operations.apply_swap
  apply_swap-Keeps a b ha hb ne =
      let forth = apply_controlled_not-Keeps a b ha hb ne in
      let back = apply_controlled_not-Keeps b a hb ha (λ e. ne (sym e)) in
      returned_then _ _
        (returned_then _ _
          (returned_then _ _
            (returned_then require_initialized (validate_pair a b)
              (require_initialized-Keeps Ready n) (validate_pair-Keeps Ready n a b ha hb ne))
            forth)
          back)
        forth

  pub apply_gate-Keeps :
      (g : QuantumGate W) (qs : List ℕ)
      → length qs ≤ n
      → g.dimension ≡ 2 ^ length qs
      → AreTargets n qs
      → Preserves (Operations.apply_gate g qs)
  unfolding Operations.apply_gate
  apply_gate-Keeps g qs most dim ts =
      returned_then _ _
        (returned_then require_initialized _ (require_initialized-Keeps Ready n) (λ reg p.
          let (accepts, accepted) = validate_gate_targets_iff qs n g.dimension in
          let few = p.few in
          let valid = accepted (omega arith, most, dim, ts) in
          let same : validate_gate_targets qs reg.num_qubits g.dimension ≡ ok tt =
            ap (λ m. validate_gate_targets qs m g.dimension) p.size ∙ valid in
          rw same (returned tt p)))
        (flushed-Keeps (i.apply_gate g qs) (contract.applies n g qs most dim ts))

  pub invert_sum-Keeps : (mean : Amplitude W) → Preserves (invert_sum mean)
  unfolding invert_sum
  invert_sum-Keeps mean reg p = returned tt (resum Ready n _ reg p)

  -- the next scale is 1 or -1 as the last one was
  negated :
      (reg : QuantumRegister W B)
      → IsReady Ready n reg
      → let scale = if reg.affine_overlay_active then reg.affine_scale else identity_scale in
        (negate_amplitude scale ≡ identity_scale)
        ⊎ (negate_amplitude scale ≡ negate_amplitude identity_scale)
  unfolding negate_amplitude
  negated reg p = elim (Bool-cases reg.affine_overlay_active) [
    | inl e ↦ elim p.unit [
      | inl u ↦ rw (e, u) (inr refl)
      | inr u ↦
          rw (e, u)
            (inl (λ j. record { real = signs.neg_neg one j; imag = signs.neg_neg nought j }))
    ]
    | inr e ↦ rw e (inr refl)
  ]

  pub apply_inversion_about-Keeps :
      (mean : Amplitude W) → Preserves (Operations.apply_inversion_about mean)
  unfolding Operations.apply_inversion_about
  apply_inversion_about-Keeps mean =
      returned_then _ _
        (returned_then require_initialized (invert_sum mean) (require_initialized-Keeps Ready n)
          (invert_sum-Keeps mean))
        (λ reg p. returned tt (record {
          few = p.few;
          size = p.size;
          states = p.states;
          held = p.held;
          holds = p.holds;
          ready = p.ready;
          unit = negated reg p;
        }))

  pub apply_inversion_about_materialized-Keeps :
      (mean : Amplitude W) → Preserves (Operations.apply_inversion_about_materialized mean)
  unfolding Operations.apply_inversion_about_materialized
  apply_inversion_about_materialized-Keeps mean =
      returned_then _ (on_backend (i.inversion_about mean))
        (returned_then _ _
          (returned_then require_initialized (invert_sum mean) (require_initialized-Keeps Ready n)
            (invert_sum-Keeps mean))
          flush-Keeps)
        (on_backend-Keeps Ready n (i.inversion_about mean) (contract.inverts n mean))

  -- both inversions about the mean that the register computes itself
  pub about_mean-Keeps :
      (invert : Amplitude W → Register W B (Unit {0}))
      → ((mean : Amplitude W) → Preserves (invert mean))
      → Preserves (
          require_initialized
          >> (logical_amplitude_sum >>= λ sum.
              current >>= λ reg. invert (mean_of sum reg.num_states)))
  about_mean-Keeps invert keep =
      returned_then require_initialized _ (require_initialized-Keeps Ready n) (
        returned_after logical_amplitude_sum _ (logical_amplitude_sum-Keeps Ready n contract)
          (λ sum reg p. keep (mean_of sum reg.num_states) reg p))
