-- ===== src/Register/Flips.antt =====
-- A phase flip on a register that is ready for it: the overlay can be taken off.
use mathlib.Core.Logic.{inl, inr}
use tmfqsfullstate.Prelude.{ℕ, ◌^◌, ◌<◌, ◌≡◌, refl, false, ◌||◌, Bool-cases, if◌then◌else◌}
use tmfqsfullstate.Core.Action.{ok, ◌>>=◌, lift, modify}
use tmfqsfullstate.Core.Amplitude.{Double, Amplitude, ◌⊕◌, ◌⊖◌, ◌⊗◌, ◌⊘◌, ◌≐◌, nought}
use tmfqsfullstate.Storage.Backend.{
  IStateBackend, Contract, returned, Keeps, returned_after, returned_then,
}
use tmfqsfullstate.Register.{
  QuantumRegister, Register, negate_amplitude, sub_amplitude, divide_amplitude, require_initialized,
  on_backend, remove_affine_overlay,
}
use tmfqsfullstate.Register.Access.{amplitude, validate_state}
use tmfqsfullstate.Register.Operations
use tmfqsfullstate.Register.Operations.{
  validate_qubit, validate_pair, flushed, invert_sum, mean_of, has_value, update_sum,
  subtract_twice,
}
use tmfqsfullstate.Register.Valid.{
  Signs, IsReady, require_initialized-Keeps, on_backend-Keeps, resum, validate_state-Keeps,
}

divide_amplitude-ok :
    {W : Type 0} ⦃d : Double W⦄ (a s : Amplitude W)
    → (s.real ⊗ s.real ⊕ s.imag ⊗ s.imag ≐ nought) ≡ false
    → (b : Amplitude W) × (divide_amplitude a s ≡ ok b)
unfolding divide_amplitude
divide_amplitude-ok a s e =
    let norm = s.real ⊗ s.real ⊕ s.imag ⊗ s.imag in
    (
      record {
        real = (a.real ⊗ s.real ⊕ a.imag ⊗ s.imag) ⊘ norm;
        imag = (a.imag ⊗ s.real ⊖ a.real ⊗ s.imag) ⊘ norm;
      },
      rw e refl,
    )

module _ {W B : Type 0} ⦃d : Double W⦄ ⦃i : IStateBackend W B⦄ (Ready : ℕ → B → Type 0) (n : ℕ)
    (contract : Contract i Ready) (signs : Signs W) where
  abbrev pub Preserves : {A : Type 0} → Register W B A → Type 0
  Preserves m = Keeps (IsReady Ready n) m

  amplitude-Keeps : (s : ℕ) → s < 2 ^ n → Preserves (amplitude s)
  unfolding amplitude
  amplitude-Keeps s lt =
      returned_then _ _
        (returned_then require_initialized (validate_state s) (require_initialized-Keeps Ready n)
          (validate_state-Keeps Ready n s lt))
        (returned_after (on_backend (i.amplitude s)) _
          (on_backend-Keeps Ready n (i.amplitude s) (contract.reads n s lt))
          (λ a reg p. returned _ p))

  unit_norm :
      (reg : QuantumRegister W B)
      → IsReady Ready n reg
      → (reg.affine_scale.real ⊗ reg.affine_scale.real
            ⊕ reg.affine_scale.imag ⊗ reg.affine_scale.imag
          ≐ nought)
        ≡ false
  unfolding negate_amplitude
  unit_norm reg p = elim p.unit [ inl u ↦ rw u signs.plus | inr u ↦ rw u signs.minus ]

  remove_affine_overlay-ok :
      (reg : QuantumRegister W B) (a : Amplitude W)
      → IsReady Ready n reg
      → (b : Amplitude W) × (remove_affine_overlay reg a ≡ ok b)
  unfolding remove_affine_overlay
  remove_affine_overlay-ok reg a p = elim (Bool-cases reg.affine_overlay_active) [
    | inl e ↦
        rw e
          (divide_amplitude-ok (sub_amplitude a reg.affine_bias) reg.affine_scale (unit_norm reg p))
    | inr e ↦ (a, rw e refl)
  ]

  write-Keeps :
      (s : ℕ) (reg : QuantumRegister W B)
      → s < 2 ^ n
      → IsReady Ready n reg
      → (logical : Amplitude W)
      → Preserves (
          if reg.affine_overlay_active
          then (lift (remove_affine_overlay reg (negate_amplitude logical)) >>= λ a.
              on_backend (i.set_amplitude s a))
          else on_backend (i.phase_flip_basis_state s))
  write-Keeps s reg lt p logical r q = elim (Bool-cases reg.affine_overlay_active) [
    | inl e ↦
        let (a, ok_a) = remove_affine_overlay-ok reg (negate_amplitude logical) p in
        simp (e, ok_a)
          (on_backend-Keeps Ready n (i.set_amplitude s a) (contract.writes n s a lt) r q)
    | inr e ↦
        rw e (on_backend-Keeps Ready n (i.phase_flip_basis_state s) (contract.flips n s lt) r q)
  ]

  pub apply_phase_flip_basis_state-Keeps :
      (s : ℕ) → s < 2 ^ n → Preserves (Operations.apply_phase_flip_basis_state s)
  unfolding Operations.apply_phase_flip_basis_state
  apply_phase_flip_basis_state-Keeps s lt =
      returned_then _ _
        (returned_then require_initialized (validate_state s) (require_initialized-Keeps Ready n)
          (validate_state-Keeps Ready n s lt))
        (λ reg p.
          elim (Bool-cases
            (has_value reg.cached_logical_amplitude_sum || reg.affine_overlay_active)) [
              | inl e ↦ rw e (
                  returned_after (amplitude s) _ (amplitude-Keeps s lt)
                    (λ logical.
                      returned_then (modify _) _ (λ r q. returned tt (resum Ready n _ r q))
                        (write-Keeps s reg lt p logical))
                    reg p)
              | inr e ↦ rw e (
                  on_backend-Keeps Ready n (i.phase_flip_basis_state s) (contract.flips n s lt) reg
                    p)
            ])
