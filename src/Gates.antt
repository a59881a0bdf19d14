-- ===== src/Gates.antt =====
-- gates/quantum_gate.cpp: square complex matrices in row-major order.
pub mod Named
use tmfqsfullstate.Prelude.{
  ℕ, ◌+◌, ◌*◌, List, ◌==◌, not, map, leb, if◌then◌else◌, get_or, set, replicate, range,
}
use tmfqsfullstate.Core.Action.{Result, ok, err, invalid_argument, out_of_range}
use tmfqsfullstate.Core.Amplitude.{
  Double, Amplitude, no_amplitude, amplitude_multiply, amplitude_add,
}

pub record QuantumGate (W : Type 0) : Type 0 where
  pub matrix : List (Amplitude W)
  pub dimension : ℕ

module _ {W : Type 0} ⦃d : Double W⦄ where
  -- QuantumGate(dimension)
  unfoldable pub zero_gate : ℕ → QuantumGate W
  zero_gate dimension = record {
    matrix = replicate (dimension * dimension) no_amplitude;
    dimension = dimension;
  }

  -- `gate[i][j]` where the row exists
  unfoldable pub entry : QuantumGate W → ℕ → ℕ → Amplitude W
  entry g i j = get_or g.matrix (i * g.dimension + j) no_amplitude

  -- operator[] with its check, and then column `j`
  unfoldable pub checked_entry : QuantumGate W → ℕ → ℕ → Result (Amplitude W)
  unfolding entry
  checked_entry g i j = if leb g.dimension i then err out_of_range else ok (entry g i j)

  unfoldable pub set_entry : QuantumGate W → ℕ → ℕ → Amplitude W → QuantumGate W
  set_entry g i j a = record g { matrix = set g.matrix (i * g.dimension + j) a }

  -- `g[i][j].real = x` and `g[i][j].imag = x`
  unfoldable pub set_real : QuantumGate W → ℕ → ℕ → W → QuantumGate W
  unfolding entry set_entry
  set_real g i j x = set_entry g i j (record { real = x; imag = (entry g i j).imag })

  unfoldable pub set_imag : QuantumGate W → ℕ → ℕ → W → QuantumGate W
  unfolding entry set_entry
  set_imag g i j x = set_entry g i j (record { real = (entry g i j).real; imag = x })

  unfoldable pub scale_gate : QuantumGate W → Amplitude W → QuantumGate W
  unfolding zero_gate entry set_entry range
  scale_gate g x =
      range g.dimension 0
        (λ i. range g.dimension 0 (λ j r. set_entry r i j (amplitude_multiply (entry g i j) x)))
        (zero_gate g.dimension)

  -- one step of the innermost loop of the matrix product
  unfoldable pub add_product :
      QuantumGate W → QuantumGate W → ℕ → ℕ → ℕ → QuantumGate W → QuantumGate W
  unfolding entry set_entry
  add_product left right i k j r =
      set_entry r i j
        (amplitude_add (entry r i j) (amplitude_multiply (entry left i k) (entry right k j)))

  unfoldable pub multiply_gates : QuantumGate W → QuantumGate W → Result (QuantumGate W)
  unfolding zero_gate add_product range
  multiply_gates left right =
      if not (right.dimension == left.dimension)
      then err invalid_argument
      else ok (
          range left.dimension 0
            (λ i. range left.dimension 0 (λ k. range left.dimension 0 (add_product left right i k)))
            (zero_gate left.dimension))
