-- ===== src/Core/Amplitude.antt =====
-- core/types.h and core/math.cpp: complex amplitudes over an abstract `double`.
use tmfqsfullstate.Prelude.{ℕ, Bool, ◌&&◌}

-- All that the code does with a `double`. A literal such as 2.0 and a `static_cast<double>` of an
-- unsigned number are `of_nat`; `eq`, `lt` and `le` are the comparisons of the language.
pub record Double (W : Type 0) : Type 0 where
  pub of_nat : ℕ → W
  pub add : W → W → W
  pub sub : W → W → W
  pub mul : W → W → W
  pub div : W → W → W
  pub neg : W → W
  pub sqrt : W → W
  pub cos : W → W
  pub sin : W → W
  pub atan2 : W → W → W
  pub exp : W → W
  pub abs : W → W
  pub floor : W → ℕ
  pub eq : W → W → Bool
  pub lt : W → W → Bool
  pub le : W → W → Bool

pub record Amplitude (W : Type 0) : Type 0 where
  pub real : W
  pub imag : W

module _ {W : Type 0} ⦃d : Double W⦄ where
  infixl 65 ◌⊕◌ ◌⊖◌
  infixl 70 ◌⊗◌ ◌⊘◌
  infix 50 ◌≐◌
  abbrev pub ◌⊕◌ : W → W → W
  a ⊕ b = d.add a b

  abbrev pub ◌⊖◌ : W → W → W
  a ⊖ b = d.sub a b

  abbrev pub ◌⊗◌ : W → W → W
  a ⊗ b = d.mul a b

  abbrev pub ◌⊘◌ : W → W → W
  a ⊘ b = d.div a b

  abbrev pub ◌≐◌ : W → W → Bool
  a ≐ b = d.eq a b

  abbrev pub nought : W
  nought = d.of_nat 0

  abbrev pub one : W
  one = d.of_nat 1

  abbrev pub two : W
  two = d.of_nat 2

  -- 1.0 / std::sqrt(2.0)
  abbrev pub inv_sqrt2 : W
  inv_sqrt2 = one ⊘ d.sqrt two

  abbrev pub no_amplitude : Amplitude W
  no_amplitude = record { real = nought; imag = nought }

  unfoldable pub amplitude_multiply : Amplitude W → Amplitude W → Amplitude W
  amplitude_multiply a b = record {
    real = a.real ⊗ b.real ⊖ a.imag ⊗ b.imag;
    imag = a.real ⊗ b.imag ⊕ a.imag ⊗ b.real;
  }

  unfoldable pub amplitude_add : Amplitude W → Amplitude W → Amplitude W
  amplitude_add a b = record { real = a.real ⊕ b.real; imag = a.imag ⊕ b.imag }

  unfoldable pub complex_exp : Amplitude W → Amplitude W
  complex_exp exponent =
      let scale = d.exp exponent.real in
      record { real = scale ⊗ d.cos exponent.imag; imag = scale ⊗ d.sin exponent.imag }

  -- `a.real == 0.0 && a.imag == 0.0`
  abbrev pub is_zero : Amplitude W → Bool
  is_zero a = (a.real ≐ nought) && (a.imag ≐ nought)
