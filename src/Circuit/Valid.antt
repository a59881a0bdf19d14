-- ===== src/Circuit/Valid.antt =====
-- The operations that a register accepts, as its validations state them.
use tmfqsfullstate.Prelude.{
  ℕ, suc, ◌+◌, ◌^◌, ◌≤◌, ◌<◌, ◌≡◌, ◌≢◌, ap, ◌∙◌, List, [], ◌∷◌, ◌++◌, arith, length, length-append,
  All, range_ind,
}
use tmfqsfullstate.Core.Validation.Targets.{AreTargets}
use tmfqsfullstate.Circuit.{
  Operation, Circuit, hadamard, pauli_x, controlled_not, controlled_phase_shift, swap, matrix_gate,
  phase_flip_basis_state, inversion_about_mean, append, h, h_all,
}

abbrev pub IsValidOperation : {W : Type 0} → ℕ → Operation W → Type 0
IsValidOperation n (hadamard t) = t < n
IsValidOperation n (pauli_x t) = t < n
IsValidOperation n (controlled_not c t) = (c < n) × (t < n) × (c ≢ t)
IsValidOperation n (controlled_phase_shift c t theta) = (c < n) × (t < n) × (c ≢ t)
IsValidOperation n (swap a b) = (a < n) × (b < n) × (a ≢ b)
IsValidOperation n (matrix_gate g qs) =
    (length qs ≤ n) × (g.dimension ≡ 2 ^ length qs) × AreTargets n qs
IsValidOperation n (phase_flip_basis_state s) = s < 2 ^ n
IsValidOperation n (inversion_about_mean m) = Unit

-- A circuit of `n` qubits and `count` operations, all of them valid.
pub record IsCircuit {W : Type 0} (n count : ℕ) (c : Circuit W) : Type 0 where
  pub size : c.qubits ≡ n
  pub valid : All (IsValidOperation n) c.operations
  pub counted : length c.operations ≡ count

module _ {W : Type 0} where
  All-append :
      (P : Operation W → Type 0) (xs : List (Operation W)) (x : Operation W)
      → All P xs
      → P x
      → All P (xs ++ x ∷ [])
  All-append P [] x h p = (p, tt)
  All-append P (y ∷ xs) x (q, h) p = (q, All-append P xs x h p)

  pub append-IsCircuit :
      (n count : ℕ) (op : Operation W) (c : Circuit W)
      → IsValidOperation n op
      → IsCircuit n count c
      → IsCircuit n (suc count) (append op c)
  unfolding append
  append-IsCircuit n count op c p q = record {
    size = q.size;
    valid = All-append (IsValidOperation n) c.operations op q.valid p;
    counted = omega (arith, length-append c.operations (op ∷ []), q.counted);
  }

  pub recount : {n a b : ℕ} {c : Circuit W} → a ≡ b → IsCircuit n a c → IsCircuit n b c
  recount e q = record { size = q.size; valid = q.valid; counted = q.counted ∙ e }

  pub h_all-IsCircuit :
      (n count : ℕ) (c : Circuit W) → IsCircuit n count c → IsCircuit n (count + n) (h_all c)
  unfolding h_all h
  h_all-IsCircuit n count c q = recount (ap (λ k. count + k) q.size) (
      range_ind (λ k. IsCircuit n (count + k)) c.qubits 0 c.qubits _ c (omega arith)
        (λ k t lo hi r.
          recount (omega arith)
            (append-IsCircuit n (count + k) (hadamard k) t (omega (arith, q.size)) r))
        (recount (omega arith) q))
