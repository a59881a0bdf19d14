-- ===== src/Circuit/Qft.antt =====
-- The circuit of the quantum Fourier transform.
use tmfqsfullstate.Prelude.{
  ℕ, zero, suc, ◌+◌, ◌-◌, ◌*◌, ◌/◌, ◌≤◌, ◌<◌, ◌≡◌, refl, [], arith, range, range_ind,
}
use tmfqsfullstate.Core.Amplitude.{Double}
use tmfqsfullstate.Circuit.{
  Circuit, hadamard, controlled_phase_shift, swap, append, h, controlled_phase, swap_qubits,
  qft_phases, append_qft, make_qft,
}
use tmfqsfullstate.Circuit.Valid.{IsCircuit, append-IsCircuit, recount}

-- the operations of the first `k` targets
abbrev phases : ℕ → ℕ → ℕ
phases n zero = 0
phases n (suc k) = suc (phases n k) + (n - suc k)

phases_lem : (n k : ℕ) → k ≤ n → phases n k * 2 + k * k ≡ k * (n * 2 + 1)
phases_lem n zero h = grind arith
phases_lem n (suc k) h =
    let rest = phases_lem n k (omega arith) in
    let square : suc k * suc k ≡ k * k + k * 2 + 1 = grind arith in
    let line : suc k * (n * 2 + 1) ≡ k * (n * 2 + 1) + n * 2 + 1 = grind arith in
    omega (arith, rest, square, line)

module _ {W : Type 0} ⦃d : Double W⦄ (pi : W) where
  qft_phases-IsCircuit :
      (n target count : ℕ) (c : Circuit W)
      → target < n
      → IsCircuit n count c
      → IsCircuit n (count + (n - suc target)) (qft_phases pi n target c)
  unfolding qft_phases controlled_phase
  qft_phases-IsCircuit n target count c lt q =
      range_ind (λ k. IsCircuit n (count + (k - suc target))) (n - (target + 1)) (target + 1) n _ c
        (omega arith)
        (λ k t lo hi r. recount (omega arith) (
          append-IsCircuit n (count + (k - suc target)) (controlled_phase_shift k target _) t
            (hi, lt, (omega arith)) r))
        (recount (omega arith) q)

  -- The circuit that makeQft builds for `n` qubits has n (n + 1) / 2 + n / 2 operations, and in each
  -- of them all qubits are below `n` and the two of a controlled or swap operation differ.
  pub make_qft-IsCircuit :
      (n : ℕ)
      → (count : ℕ) × (count * 2 ≡ n * (n + 1) + n / 2 * 2) × IsCircuit n count (make_qft pi n)
  unfolding make_qft append_qft h swap_qubits
  make_qft-IsCircuit n = (phases n n + n / 2, total, swapped)
    where
      total : (phases n n + n / 2) * 2 ≡ n * (n + 1) + n / 2 * 2
      total =
          let line : n * (n * 2 + 1) ≡ n * (n + 1) + n * n = grind arith in
          omega (arith, phases_lem n n (omega arith), line)

      transformed : IsCircuit n (phases n n) (
          range n 0
            (λ target circuit. qft_phases pi n target (append (hadamard target) circuit))
            (record { qubits = n; operations = [] }))
      transformed =
          range_ind (λ k. IsCircuit n (phases n k)) n 0 n _ _ (omega arith)
            (λ k t lo hi r.
              qft_phases-IsCircuit n k (suc (phases n k)) (append (hadamard k) t) hi
                (append-IsCircuit n (phases n k) (hadamard k) t hi r))
            (record { size = refl; valid = tt; counted = refl })

      swapped : IsCircuit n (phases n n + n / 2) (make_qft pi n)
      swapped =
          range_ind (λ k. IsCircuit n (phases n n + k)) (n / 2) 0 (n / 2)
            (λ left. append (swap left (n - left - 1)))
            (range n 0 (λ target circuit. qft_phases pi n target (append (hadamard target) circuit))
              (record { qubits = n; operations = [] }))
            (omega arith)
            (λ k t lo hi r.
              recount {a = suc (phases n n + k)} {b = phases n n + suc k} (omega arith) (
                append-IsCircuit n (phases n n + k) (swap k (n - k - 1)) t
                  (omega arith, omega arith, omega arith) r))
            (recount {a = phases n n} {b = phases n n + 0} (omega arith) transformed)
