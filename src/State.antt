-- ===== src/State.antt =====
-- state/quantum_state.h and state/quantum_state.cpp: a quantum state before and after a run.
pub mod Validation
pub mod Access
pub mod Build
pub mod Valid
pub mod Loads
pub mod Keeps
pub mod Sparse
pub mod Dense
pub mod Measures
use tmfqsfullstate.Prelude.{ℕ, List, Option}
use tmfqsfullstate.Core.Amplitude.{Amplitude}
use tmfqsfullstate.Register.{QuantumRegister}

pub data NormalizationPolicy : Type 0 where
  validate normalize allow_unnormalized : NormalizationPolicy

pub record StateValidation (W : Type 0) : Type 0 where
  pub probability_tolerance : W
  pub normalization : NormalizationPolicy

pub data StateKind : Type 0 where
  basis basis_amplitude uniform_subset amplitudes register : StateKind

-- QuantumState::Impl
pub record QuantumState (W B : Type 0) : Type 0 where
  pub qubits : ℕ
  pub kind : StateKind
  pub basis_state : ℕ
  pub basis_amplitude : Amplitude W
  pub basis_states : List ℕ
  pub amplitudes : List W
  pub reg : Option (QuantumRegister W B)
