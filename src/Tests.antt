-- ===== src/Tests.antt =====
-- Runs on concrete values: integers in the place of doubles.
pub mod Dense
pub mod Circuits
pub mod Compressed
pub mod Codecs
pub mod Common
pub mod States
use Prim.Native.Nat.{ℕ, ◌/◌}
use tmfqsfullstate.Prelude.{◌≡◌, refl, arith, List, [], ◌∷◌, if◌then◌else◌}
use tmfqsfullstate.Prelude.Int.{
  ℤ, pos, negsuc, pos_part, ◌+ℤ◌, ◌-ℤ◌, ◌*ℤ◌, neg_ℤ, ltb_ℤ, leb_ℤ, eqb_ℤ,
}
use tmfqsfullstate.Core.Amplitude.{Double}
use tmfqsfullstate.Register.Valid.{Signs}
use tmfqsfullstate.Storage.Dense.{DenseStateBackend}
use tmfqsfullstate.Storage.Dense.Access.{sized}
use tmfqsfullstate.Storage.Dense.Cells.{IsWellFormed}

-- sqrt, cos and exp give 1 and sin gives 0, so that 1 / sqrt 2 is 1.
instance pub integers : Double ℤ
integers = record {
  of_nat = pos;
  add = λ a b. a +ℤ b;
  sub = λ a b. a -ℤ b;
  mul = λ a b. a *ℤ b;
  div = λ a b. pos (pos_part a / pos_part b);
  neg = neg_ℤ;
  sqrt = λ a. pos 1;
  cos = λ a. pos 1;
  sin = λ a. pos 0;
  atan2 = λ a b. pos 0;
  exp = λ a. pos 1;
  abs = λ a. if ltb_ℤ a (pos 0) then neg_ℤ a else a;
  floor = pos_part;
  eq = eqb_ℤ;
  lt = ltb_ℤ;
  le = leb_ℤ;
}

pub integers-Signs : Signs ℤ
unfolding integers
integers-Signs = record { neg_neg = λ x. ground arith; plus = refl; minus = refl }

pub eqb_ℤ_comm : (a b : ℤ) → integers.eq a b ≡ integers.eq b a
unfolding integers
eqb_ℤ_comm a b = ground arith

-- the amplitudes 1, 2, 3, 4 of two qubits
abbrev pub two_qubits : DenseStateBackend ℤ
two_qubits = sized 2 (pos 1 ∷ pos 0 ∷ pos 2 ∷ pos 0 ∷ pos 3 ∷ pos 0 ∷ pos 4 ∷ pos 0 ∷ [])

pub two_qubits-IsWellFormed : IsWellFormed two_qubits
two_qubits-IsWellFormed = record { few = omega arith; counted = refl; full = refl }
