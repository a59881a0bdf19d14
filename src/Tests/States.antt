-- ===== src/Tests/States.antt =====
-- Quantum states over integers: loads, reads, measurements and runs in a row.
use tmfqsfullstate.Prelude.{
  ℕ, ◌%◌, ◌/◌, ◌^◌, ◌<◌, ◌*◌, ◌+◌, ◌≡◌, ◌↔◌, refl, true, some, arith, List, [], ◌∷◌, length, ◌==◌,
  if◌then◌else◌,
}
use tmfqsfullstate.Prelude.Int.{ℤ, pos}
use tmfqsfullstate.Core.Action.{ok, err, invalid_argument, and_then, ◌>>◌}
use tmfqsfullstate.Core.Amplitude.{Amplitude}
use tmfqsfullstate.Storage.Selected.Laws.{member, Ordered}
use tmfqsfullstate.Storage.Dense.{DenseStateBackend, sample_measurement}
use tmfqsfullstate.Storage.Dense.Access.{sized}
use tmfqsfullstate.Storage.Dense.Backend.{
  dense_state_backend, IsDense, dense_state_backend-Contract,
}
use tmfqsfullstate.Register.{QuantumRegister}
use tmfqsfullstate.Register.Access
use tmfqsfullstate.Register.Valid.{IsReady}
use tmfqsfullstate.Simulator.Dense.{new_backend}
use tmfqsfullstate.Simulator.States.{simulate_all, simulate_all-IsState}
use tmfqsfullstate.State.{NormalizationPolicy, StateKind, StateValidation, QuantumState}
use tmfqsfullstate.State.Access.{
  materialize, amplitude, amplitudes, measure, load_amplitudes, set_amplitude,
}
use tmfqsfullstate.State.Build.{default_state, uniform_subset, sparse_pattern}
use tmfqsfullstate.State.Valid.{IsState, materialize-IsReady}
use tmfqsfullstate.State.Loads.{loading, load_amplitudes-amplitudes}
use tmfqsfullstate.State.Keeps.{set_amplitude-IsState}
use tmfqsfullstate.State.Sparse.{sparse_pattern-Selects}
use tmfqsfullstate.State.Dense.{amplitude-materialize}
use tmfqsfullstate.State.Measures.{measure-materialize}
use tmfqsfullstate.Tests.{integers, integers-Signs}
use tmfqsfullstate.Tests.Circuits.{bell, bell-IsCircuit}

abbrev DenseState : Type 0
DenseState = QuantumState ℤ (DenseStateBackend ℤ)

-- the basis state 3 of two qubits
abbrev third : DenseState
third = record default_state { qubits = 2; basis_state = 3 }

third-IsState : IsState IsDense 2 third
third-IsState = record { few = omega arith; size = refl; form = (omega arith, refl) }

-- the states 0 and 3
abbrev two_states : DenseState
two_states = uniform_subset 2 (0 ∷ 3 ∷ [])

two_states-IsState : IsState IsDense 2 two_states
unfolding uniform_subset
two_states-IsState = record {
  few = omega arith;
  size = refl;
  form = (omega arith, (omega arith, (omega arith, tt)));
}

abbrev values : List ℤ
values = pos 0 ∷ pos 0 ∷ pos 1 ∷ pos 0 ∷ pos 0 ∷ pos 0 ∷ pos 0 ∷ pos 0 ∷ []

abbrev loaded_values : DenseState
loaded_values = record default_state {
  qubits = 2;
  kind = StateKind.amplitudes;
  amplitudes = values;
}

loaded_values-IsState : IsState IsDense 2 loaded_values
loaded_values-IsState = record { few = omega arith; size = refl; form = refl }

-- exactly a mass of 1
abbrev strict : StateValidation ℤ
strict = record { probability_tolerance = pos 0; normalization = NormalizationPolicy.validate }

load_amplitudes-amplitudes_example :
    (load_amplitudes values strict >> amplitudes (ok new_backend)) third ≡ (
      if length values == 2 ^ 2 * 2
      then loading strict values third
      else (err invalid_argument, third))
load_amplitudes-amplitudes_example =
    load_amplitudes-amplitudes (ok new_backend) IsDense strict values third-IsState

abbrev unit : Amplitude ℤ
unit = record { real = pos 1; imag = pos 0 }

set_amplitude-IsState_example :
    IsState IsDense 2 (set_amplitude (ok new_backend) 1 unit strict two_states).1
set_amplitude-IsState_example =
    set_amplitude-IsState IsDense dense_state_backend-Contract 2 (ok new_backend) 1 unit strict
      two_states-IsState

materialize-IsReady_example :
    (reg : QuantumRegister ℤ (DenseStateBackend ℤ)) × (materialize (ok new_backend) two_states
      ≡ ok reg)
    × IsReady IsDense 2 reg
materialize-IsReady_example =
    materialize-IsReady IsDense dense_state_backend-Contract new_backend two_states-IsState

simulate_all-IsState_example :
    (last : DenseState) × (simulate_all (ok new_backend) (bell ∷ bell ∷ []) two_states ≡ ok last)
    × IsState IsDense 2 last
simulate_all-IsState_example =
    simulate_all-IsState IsDense dense_state_backend-Contract integers-Signs new_backend
      (bell ∷ bell ∷ []) ((_, bell-IsCircuit), ((_, bell-IsCircuit), tt)) two_states
      two_states-IsState

sparse_pattern-Selects_example :
    (sel : List ℕ) × (sparse_pattern {W = ℤ} {B = DenseStateBackend ℤ} (2 ^ 5 / 8 + 2) 5
      ≡ ok (some (uniform_subset 5 sel)))
    × Ordered (λ a b. a < b) sel
    × ((z : ℕ) → (member z sel ≡ true) ↔ ((z < 2 ^ 5) × (z % 8 ≡ z / 8 % 2)))
sparse_pattern-Selects_example = sparse_pattern-Selects 5 (omega arith)

amplitude-materialize_example :
    (amplitude (ok new_backend) 3 third).0
    ≡ and_then (materialize (ok new_backend) third) (λ reg. (Access.amplitude 3 reg).0)
amplitude-materialize_example = amplitude-materialize 3 new_backend third-IsState (omega arith)

measure-materialize_example :
    (measure (ok new_backend) (pos 0) loaded_values).0
    ≡ and_then (materialize (ok new_backend) loaded_values) (λ reg. (Access.measure (pos 0) reg).0)
unfolding integers
measure-materialize_example =
    measure-materialize (pos 0) new_backend loaded_values-IsState refl refl

-- A sample of 0 finds state 0, though its amplitude is zero.
measured_zero : (sample_measurement (pos 0) (sized 2 values)).0 ≡ ok 0
unfolding sample_measurement integers
measured_zero = refl
