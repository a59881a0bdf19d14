-- ===== src/State/Sparse.antt =====
-- QuantumState::sparsePattern: its loop ends, and what it selects.
use tmfqsfullstate.Prelude.{
  ℕ, zero, suc, ◌+◌, ◌*◌, ◌/◌, ◌%◌, ◌^◌, ◌≤◌, ◌<◌, ◌≡◌, ◌≢◌, ◌↔◌, refl, true, false, Option, some,
  List, [], ◌∷◌, arith, leb, ltb, ◌==◌, inl, inr, Bool-cases,
}
use tmfqsfullstate.Core.Action.{ok}
use tmfqsfullstate.Core.Amplitude.{Double}
use tmfqsfullstate.Core.StateSpace.{checked_state_count}
use tmfqsfullstate.Storage.PairKernel.Bits.{pow-le}
use tmfqsfullstate.Storage.Selected.Laws.{member, Ordered, All-member}
use tmfqsfullstate.State.Build.{sparse_from, sparse_pattern, uniform_subset}

-- the states of the pattern from `8 * x` on
abbrev IsSelected : ℕ → ℕ → ℕ → Type 0
IsSelected states x z = (8 * x ≤ z) × (z < states) × (z % 8 ≡ z / 8 % 2)

abbrev Selects : ℕ → ℕ → Option (List ℕ) → Type 0
Selects states x out =
    (sel : List ℕ) × (out ≡ some sel)
    × Ordered (λ a b. a < b) sel
    × ((z : ℕ) → (member z sel ≡ true) ↔ IsSelected states x z)

split : (x z : ℕ) → 8 * x ≤ z → z % 8 ≡ z / 8 % 2 → (z == 8 * x + x % 2) ≡ false → 8 * (x + 1) ≤ z
split x z from pattern other =
    let ne : z ≢ 8 * x + x % 2 = ground (arith, other) in omega (arith, ne)

chosen : (x : ℕ) → (8 * x + x % 2) % 8 ≡ (8 * x + x % 2) / 8 % 2
chosen x = omega arith

sparse_from-Selects :
    (fuel states x : ℕ)
    → states ≤ 2 ^ 63
    → 8 * x < states + 8
    → states + 8 ≤ 8 * (x + fuel)
    → Selects states x (sparse_from fuel states x)
unfolding sparse_from
sparse_from-Selects zero states x most reached enough = absurd (omega arith)
sparse_from-Selects (suc fuel) states x most reached enough =
    let whole : (8 * x + x % 2) % 2 ^ 64 ≡ 8 * x + x % 2 = omega (arith, most, reached) in
    let next : (x + 1) % 2 ^ 64 ≡ x + 1 = omega (arith, most, reached) in
    elim (Bool-cases (leb states (8 * x + x % 2))) [
      | inl e ↦
          let stop : states ≤ 8 * x + x % 2 = ground (arith, e) in
          rw (whole, e)
            (
              [],
              refl,
              tt,
              λ z. (
                λ m. absurd (ground (arith, m)),
                λ (from, below, pattern). absurd (omega (arith, stop, from, below, pattern)),
              ),
            )
      | inr e ↦
          let more : 8 * x + x % 2 < states = ground (arith, e) in
          let (sel, out, ordered, members) =
            sparse_from-Selects fuel states (x + 1) most (omega (arith, more)) (omega arith) in
          rw (whole, next, e, out)
            (
              (8 * x + x % 2) ∷ sel,
              refl,
              (
                All-member (λ z. 8 * x + x % 2 < z) sel
                    (λ z m. let (from, below, pattern) = (members z).0 m in omega arith),
                ordered,
              ),
              λ z. (
                λ m. elim (Bool-cases (z == 8 * x + x % 2)) [
                  | inl same ↦
                      let here : z ≡ 8 * x + x % 2 = ground (arith, same) in
                      (omega arith, omega arith, rw here (chosen x))
                  | inr other ↦
                      let (from, below, pattern) = (members z).0 (ground (arith, m, other)) in
                      (omega arith, below, pattern)
                ],
                λ (from, below, pattern). elim (Bool-cases (z == 8 * x + x % 2)) [
                  | inl same ↦ ground (arith, same)
                  | inr other ↦
                      let later = (members z).1 (split x z from pattern other, below, pattern) in
                      ground (arith, other, later)
                ],
              ),
            )
    ]

-- For at most 63 qubits, the loop of sparsePattern ends (2^n / 8 + 2 rounds of fuel are enough), and its state is the
-- uniform superposition, in increasing order and without repetitions, of the states `z` below 2^n for which z mod 8 equals
-- (z / 8) mod 2, and of no other.
pub sparse_pattern-Selects :
    {W B : Type 0} ⦃d : Double W⦄ (n : ℕ)
    → n ≤ 63
    → (sel : List ℕ) × (sparse_pattern {W = W} {B = B} (2 ^ n / 8 + 2) n
        ≡ ok (some (uniform_subset n sel)))
      × Ordered (λ a b. a < b) sel
      × ((z : ℕ) → (member z sel ≡ true) ↔ ((z < 2 ^ n) × (z % 8 ≡ z / 8 % 2)))
unfolding sparse_pattern checked_state_count
sparse_pattern-Selects n most =
    let accepted : ltb 63 n ≡ false = ground arith in
    let small = pow-le n 63 most in
    let (sel, out, ordered, members) =
      sparse_from-Selects (2 ^ n / 8 + 2) (2 ^ n) 0 small (omega arith) (omega arith) in
    rw (accepted, out)
      (
        sel,
        refl,
        ordered,
        λ z. (
          λ m. let (from, below, pattern) = (members z).0 m in (below, pattern),
          λ (below, pattern). (members z).1 (omega arith, below, pattern),
        ),
      )
