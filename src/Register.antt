-- ===== src/Register.antt =====
-- register/quantum_register.cpp: a register forwards to its backend, under an affine overlay
-- `scale * a + bias` that inversion about the mean composes lazily, and a cached sum of the logical
-- amplitudes. Printing is left out, and the configuration, which is only kept.
pub mod Access
pub mod Operations
pub mod Valid
pub mod Performs
pub mod Flips
pub mod Starts
use tmfqsfullstate.Prelude.{
  ℕ, suc, ◌*◌, ◌%◌, Bool, true, false, not, ◌&&◌, ◌||◌, List, [], ◌∷◌, Option, none, some, ltb,
  ◌==◌, if◌then◌else◌, length, set, replicate,
}
use tmfqsfullstate.Core.Action.{
  Error, Result, ok, err, logic_error, invalid_argument, runtime_error, Action, ◌>>=◌, ◌>>◌, pure,
  lift, current, modify, for_each, throw_if,
}
use tmfqsfullstate.Core.Amplitude.{Double, Amplitude, ◌⊕◌, ◌⊖◌, ◌⊗◌, ◌⊘◌, ◌≐◌, nought, one, two}
use tmfqsfullstate.Core.StateSpace.{u64_mod, checked_state_count}
use tmfqsfullstate.Core.Validation.{
  validate_state_index, validate_qubit_index, validate_distinct_qubits, validate_gate_targets,
}
use tmfqsfullstate.Gates.{QuantumGate}
use tmfqsfullstate.Storage.Backend.{IStateBackend}

pub record QuantumRegister (W B : Type 0) : Type 0 where
  pub num_qubits : ℕ
  pub num_states : ℕ
  pub backend : Option B
  pub cached_logical_amplitude_sum : Option (Amplitude W)
  pub affine_scale : Amplitude W
  pub affine_bias : Amplitude W
  pub affine_overlay_active : Bool

abbrev pub Register : Type 0 → Type 0 → Type 0 → Type 0
Register W B A = Action (QuantumRegister W B) A

module _ {W : Type 0} ⦃d : Double W⦄ where
  unfoldable pub add_amplitude : Amplitude W → Amplitude W → Amplitude W
  add_amplitude lhs rhs = record { real = lhs.real ⊕ rhs.real; imag = lhs.imag ⊕ rhs.imag }

  unfoldable pub sub_amplitude : Amplitude W → Amplitude W → Amplitude W
  sub_amplitude lhs rhs = record { real = lhs.real ⊖ rhs.real; imag = lhs.imag ⊖ rhs.imag }

  unfoldable pub negate_amplitude : Amplitude W → Amplitude W
  negate_amplitude a = record { real = d.neg a.real; imag = d.neg a.imag }

  unfoldable pub scale_amplitude : Amplitude W → W → Amplitude W
  scale_amplitude a scalar = record { real = a.real ⊗ scalar; imag = a.imag ⊗ scalar }

  unfoldable pub multiply_amplitude : Amplitude W → Amplitude W → Amplitude W
  multiply_amplitude lhs rhs = record {
    real = lhs.real ⊗ rhs.real ⊖ lhs.imag ⊗ rhs.imag;
    imag = lhs.real ⊗ rhs.imag ⊕ lhs.imag ⊗ rhs.real;
  }

  unfoldable pub divide_amplitude : Amplitude W → Amplitude W → Result (Amplitude W)
  divide_amplitude numerator denominator =
      let norm = denominator.real ⊗ denominator.real ⊕ denominator.imag ⊗ denominator.imag in
      if norm ≐ nought
      then err logic_error
      else ok (record {
        real = (numerator.real ⊗ denominator.real ⊕ numerator.imag ⊗ denominator.imag) ⊘ norm;
        imag = (numerator.imag ⊗ denominator.real ⊖ numerator.real ⊗ denominator.imag) ⊘ norm;
      })

  abbrev pub identity_scale : Amplitude W
  identity_scale = record { real = one; imag = nought }

  abbrev pub no_bias : Amplitude W
  no_bias = record { real = nought; imag = nought }

  -- sum.real += data[elem], sum.imag += data[elem + 1] over a chunk
  unfoldable pub add_chunk : List W → Amplitude W → Amplitude W
  unfolding add_amplitude
  add_chunk [] sum = sum
  add_chunk (x ∷ []) sum = sum
  add_chunk (x ∷ y ∷ elems) sum =
      add_chunk elems (add_amplitude sum (record { real = x; imag = y }))

  -- the copy of a chunk under the overlay; an odd last number of a chunk stays 0.0
  unfoldable pub map_chunk : (Amplitude W → Amplitude W) → List W → List W
  map_chunk f [] = []
  map_chunk f (x ∷ []) = nought ∷ []
  map_chunk f (x ∷ y ∷ elems) =
      let a = f (record { real = x; imag = y }) in a.real ∷ a.imag ∷ map_chunk f elems

  -- std::copy(data, data + elemCount, snapshot.begin() + beginElem)
  unfoldable pub copy_chunk : List W → ℕ → List W → List W
  copy_chunk [] index snapshot = snapshot
  copy_chunk (x ∷ elems) index snapshot = copy_chunk elems (suc index) (set snapshot index x)

module _ {W B : Type 0} ⦃d : Double W⦄ ⦃i : IStateBackend W B⦄ where
  unfoldable pub require_initialized : Register W B (Unit {0})
  require_initialized reg = elim reg.backend [
    | none ↦ (err logic_error, reg)
    | some b ↦ (ok tt, reg)
  ]

  -- a call `backend_->m()`; each one stands behind `requireInitialized`
  unfoldable pub on_backend : {A : Type 0} → Action B A → Register W B A
  on_backend m reg = elim reg.backend [
    | none ↦ (err logic_error, reg)
    | some b ↦ let (r, b') = m b in (r, record reg { backend = some b' })
  ]

  unfoldable pub forget_sum : Register W B (Unit {0})
  forget_sum = modify (λ reg. record reg { cached_logical_amplitude_sum = none })

  unfoldable pub reset_affine_overlay : Register W B (Unit {0})
  reset_affine_overlay = modify (λ reg. record reg {
    affine_scale = identity_scale;
    affine_bias = no_bias;
    affine_overlay_active = false;
    cached_logical_amplitude_sum = none;
  })

  unfoldable pub apply_affine_overlay : QuantumRegister W B → Amplitude W → Amplitude W
  unfolding add_amplitude multiply_amplitude
  apply_affine_overlay reg a =
      if not reg.affine_overlay_active
      then a
      else add_amplitude (multiply_amplitude reg.affine_scale a) reg.affine_bias

  unfoldable pub remove_affine_overlay : QuantumRegister W B → Amplitude W → Result (Amplitude W)
  unfolding sub_amplitude divide_amplitude
  remove_affine_overlay reg a =
      if not reg.affine_overlay_active
      then ok a
      else divide_amplitude (sub_amplitude a reg.affine_bias) reg.affine_scale

  unfoldable pub visit_logical_amplitude_chunks :
      {V : Type 0} → (ℕ → List W → V → V) → V → Register W B V
  unfolding require_initialized on_backend apply_affine_overlay map_chunk
  visit_logical_amplitude_chunks visitor acc =
      require_initialized
      >> (current >>= λ reg.
          if not reg.affine_overlay_active
          then on_backend (i.for_each_amplitude_chunk visitor acc)
          else on_backend (
              i.for_each_amplitude_chunk
                (λ base_state elems.
                  visitor base_state (map_chunk (apply_affine_overlay reg) elems))
                acc))

  unfoldable pub logical_amplitude_sum : Register W B (Amplitude W)
  unfolding visit_logical_amplitude_chunks add_chunk
  logical_amplitude_sum reg = elim reg.cached_logical_amplitude_sum [
    | some sum ↦ (ok sum, reg)
    | none ↦
        (visit_logical_amplitude_chunks (λ base_state elems sum. add_chunk elems sum) no_bias
            >>= λ sum.
                modify (λ reg. record reg { cached_logical_amplitude_sum = some sum }) >> pure sum)
          reg
  ]

  unfoldable pub snapshot_logical_amplitudes : Register W B (List W)
  unfolding visit_logical_amplitude_chunks copy_chunk
  snapshot_logical_amplitudes = current >>= λ reg.
      visit_logical_amplitude_chunks
        (λ base_state elems snapshot. copy_chunk elems (base_state * 2) snapshot)
        (replicate (reg.num_states * 2 % u64_mod) nought)

  unfoldable pub flush_affine_overlay : Register W B (Unit {0})
  unfolding on_backend reset_affine_overlay
  flush_affine_overlay = current >>= λ reg.
      if not reg.affine_overlay_active
      then pure tt
      else on_backend (i.apply_affine_transform reg.affine_scale reg.affine_bias)
        >> reset_affine_overlay
        >> modify (λ after. record after {
          cached_logical_amplitude_sum = reg.cached_logical_amplitude_sum;
        })
