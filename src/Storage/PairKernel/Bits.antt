-- ===== src/Storage/PairKernel/Bits.antt =====
-- `w & (w - 1)` is 0 only at a power of two.
use Prim.Native.Nat.{bit_and, bit_and-bitwise, digits}
use native.Mathlib.Nat.{pow-suc, pow-le-pow_right}
use native.Mathlib.Decide.{dec_lt}
use tmfqsfullstate.Prelude.{
  ℕ, zero, suc, ◌+◌, ◌-◌, ◌*◌, ◌/◌, ◌%◌, ◌^◌, ◌≤◌, ◌<◌, min, ◌≡◌, refl, ap, sym, ◌∙◌, arith,
}

pub pow_add : (a b : ℕ) → 2 ^ (a + b) ≡ 2 ^ a * 2 ^ b
pow_add a zero = ap (λ x. 2 ^ x) {x = a + zero} {y = a} (omega arith) ∙ omega arith
pow_add a (suc b) =
    ap (λ x. 2 ^ x) {x = a + suc b} {y = suc (a + b)} (omega arith)
    ∙ pow-suc 2 (a + b)
    ∙ ap (λ x. x * 2) (pow_add a b)
    ∙ rw pow-suc (omega arith)

pub pow_pos : (a : ℕ) → 0 < 2 ^ a
pow_pos zero = omega arith
pow_pos (suc a) = rw pow-suc (omega (arith, pow_pos a))

-- The conjunction of two numbers, digit by digit, with `fuel` digits to go.
conj : ℕ → ℕ → ℕ → ℕ
conj fuel a b = digits (λ d. 0) min fuel a b

conj_self : (fuel a : ℕ) → a ≤ fuel → conj fuel a a ≡ a
unfolding conj
conj_self zero a h = omega arith
conj_self (suc n) zero h = refl
conj_self (suc n) (suc a) h = omega (arith, conj_self n (suc a / 2) (omega arith))

conj-power : (fuel w : ℕ) → 0 < w → w ≤ fuel → conj fuel w (w - 1) ≡ 0 → (k : ℕ) × (w ≡ 2 ^ k)
unfolding conj
conj-power zero w pos h e = absurd (omega arith)
conj-power (suc n) zero pos h e = absurd (omega arith)
conj-power (suc n) (suc a) pos h e = elim (dec_lt (suc a % 2) 1) [
  | yes even ↦
      let half : (suc a - 1) / 2 ≡ suc a / 2 - 1 = omega arith in
      let low : conj n (suc a / 2) (suc a / 2 - 1) ≡ 0 =
        ap (conj n (suc a / 2)) (sym half) ∙ omega arith in
      let (k, p) = conj-power n (suc a / 2) (omega arith) (omega arith) low in
      (suc k, rw pow-suc (omega arith))
  | no odd ↦
      let half : (suc a - 1) / 2 ≡ suc a / 2 = omega arith in
      let low : conj n (suc a / 2) (suc a / 2) ≡ 0 =
        ap (conj n (suc a / 2)) (sym half) ∙ omega arith in
      (0, omega (arith, conj_self n (suc a / 2) (omega arith)))
]

pub power_of_bit_and : (w : ℕ) → 0 < w → bit_and w (w - 1) ≡ 0 → (k : ℕ) × (w ≡ 2 ^ k)
unfolding conj
power_of_bit_and w pos e = conj-power w w pos (omega arith) (sym (bit_and-bitwise w (w - 1)) ∙ e)

pub pow_split : (a b : ℕ) → a ≤ b → 2 ^ b ≡ 2 ^ (b - a) * 2 ^ a
pow_split a b h = ap (λ x. 2 ^ x) {x = b} {y = b - a + a} (omega arith) ∙ pow_add (b - a) a

-- the two halves of each block of a mask
pub pow_blocks : (m b : ℕ) → m < b → 2 ^ b ≡ 2 ^ (b - suc m) * (2 ^ m * 2)
pow_blocks m b h = pow_split (suc m) b h ∙ ap (λ x. 2 ^ (b - suc m) * x) (pow-suc 2 m)

pub lt_of_pow-lt : (a b : ℕ) → 2 ^ a < 2 ^ b → a < b
lt_of_pow-lt a b h = elim (dec_lt a b) [
  | yes p ↦ p
  | no p ↦
      absurd (omega (arith, pow-le-pow_right {n = 2} (omega arith) {i = b} {j = a} (omega arith)))
]

pub pow-le : (a b : ℕ) → a ≤ b → 2 ^ a ≤ 2 ^ b
pow-le a b h = pow-le-pow_right {n = 2} (omega arith) h

pub le_of_pow-le : (a b : ℕ) → 2 ^ a ≤ 2 ^ b → a ≤ b
le_of_pow-le a b h = elim (dec_lt b a) [
  | yes p ↦ absurd (omega (arith, pow-le (suc b) a p, pow-suc 2 b, pow_pos b))
  | no p ↦ omega arith
]
