-- ===== src/Tests/Circuits.antt =====
-- Circuits, and runs on the dense backend.
use tmfqsfullstate.Prelude.{
  ℕ, ◌+◌, ◌*◌, ◌≡◌, refl, arith, [], ◌∷◌, ◌++◌, length, false, suc, some, none, inl,
}
use tmfqsfullstate.Prelude.Int.{ℤ, pos}
use tmfqsfullstate.Core.Action.{ok}
use tmfqsfullstate.Storage.Backend.{Returns}
use tmfqsfullstate.Storage.Dense.{DenseStateBackend}
use tmfqsfullstate.Storage.Dense.Backend.{
  dense_state_backend, IsDense, dense_state_backend-Contract,
}
use tmfqsfullstate.Storage.Selected.{sorted_unique}
use tmfqsfullstate.Circuit.{
  Circuit, GroverCircuitOptions, hadamard, controlled_not, grover_iteration_count, make_qft,
  make_grover, h, x, cx, gate, append, pauli_x, matrix_gate,
}
use tmfqsfullstate.Gates.Named
use tmfqsfullstate.Circuit.Contents.{hadamards, rounds, search_round}
use tmfqsfullstate.Circuit.Valid.{IsCircuit}
use tmfqsfullstate.Circuit.Qft.{make_qft-IsCircuit}
use tmfqsfullstate.Circuit.Grover.{make_grover-IsCircuit}
use tmfqsfullstate.Register.{QuantumRegister, identity_scale, no_bias}
use tmfqsfullstate.Register.Access.{make_basis}
use tmfqsfullstate.Register.Valid.{IsReady}
use tmfqsfullstate.Simulator.{run, run_register}
use tmfqsfullstate.Simulator.Runs.{run_register-Keeps}
use tmfqsfullstate.Simulator.Dense.{
  new_backend, IsReadyDense, run-basis, run-make_qft, run-make_grover,
}
use tmfqsfullstate.Tests.{integers, integers-Signs, two_qubits, two_qubits-IsWellFormed}

make_qft-IsCircuit_example : (count : ℕ) × (count * 2 ≡ 14) × IsCircuit 3 count (make_qft (pos 3) 3)
make_qft-IsCircuit_example = make_qft-IsCircuit (pos 3) 3

abbrev options : GroverCircuitOptions
options = record { marked_states = 2 ∷ 1 ∷ 2 ∷ []; materialized_diffusion = false }

make_grover-IsCircuit_example :
    (k : ℕ) × (c : Circuit ℤ) × (grover_iteration_count
        (pos 3)
        4
        (length (sorted_unique (2 ∷ 1 ∷ 2 ∷ [])))
      ≡ ok k)
    × (make_grover (pos 3) 2 options ≡ (ok tt, c))
    × (c.operations
        ≡ hadamards 0 2 ++ rounds k (search_round (sorted_unique (2 ∷ 1 ∷ 2 ∷ [])) false))
    × IsCircuit 2 (2 + k * suc (length (sorted_unique (2 ∷ 1 ∷ 2 ∷ [])))) c
make_grover-IsCircuit_example =
    make_grover-IsCircuit (pos 3) 2 1 options (omega arith) refl
      (omega arith, (omega arith, (omega arith, tt)))

abbrev pub bell : Circuit ℤ
bell = record { qubits = 2; operations = hadamard 0 ∷ controlled_not 0 1 ∷ [] }

pub bell-IsCircuit : IsCircuit 2 2 bell
bell-IsCircuit = record {
  size = refl;
  valid = (omega arith, ((omega arith, omega arith, omega arith), tt));
  counted = refl;
}

bell_built : cx 0 1 (h 0 (record { qubits = 2; operations = [] })) ≡ bell
unfolding h cx append
bell_built = refl

-- a bit flip by its own operation, then by its matrix
flips_built :
    gate {W = ℤ} Named.pauli_x (1 ∷ []) (x 0 (record { qubits = 2; operations = [] }))
    ≡ record { qubits = 2; operations = pauli_x 0 ∷ matrix_gate Named.pauli_x (1 ∷ []) ∷ [] }
unfolding x gate append
flips_built = refl

abbrev register : QuantumRegister ℤ (DenseStateBackend ℤ)
register = record {
  num_qubits = 2;
  num_states = 4;
  backend = some two_qubits;
  cached_logical_amplitude_sum = none;
  affine_scale = identity_scale;
  affine_bias = no_bias;
  affine_overlay_active = false;
}

register-IsReady : IsReady (IsDense {W = ℤ}) 2 register
register-IsReady = record {
  few = omega arith;
  size = refl;
  states = refl;
  held = two_qubits;
  holds = refl;
  ready = (two_qubits-IsWellFormed, refl);
  unit = inl refl;
}

run_register-Keeps_example : Returns (IsReady (IsDense {W = ℤ}) 2) (run_register bell register)
run_register-Keeps_example =
    run_register-Keeps IsDense 2 dense_state_backend-Contract integers-Signs bell bell-IsCircuit
      register register-IsReady

run-basis_example :
    (reg : QuantumRegister ℤ (DenseStateBackend ℤ)) × (run bell 2 (make_basis 2 0 (ok new_backend))
      ≡ ok reg)
    × IsReadyDense 2 reg
run-basis_example = run-basis integers-Signs 2 0 bell (omega arith) (omega arith) bell-IsCircuit

run-make_qft_example :
    (reg : QuantumRegister ℤ (DenseStateBackend ℤ)) × (run
        (make_qft (pos 3) 3)
        3
        (make_basis 3 5 (ok new_backend))
      ≡ ok reg)
    × IsReadyDense 3 reg
run-make_qft_example = run-make_qft integers-Signs (pos 3) 3 5 (omega arith) (omega arith)

run-make_grover_example :
    (c : Circuit ℤ) × (reg : QuantumRegister ℤ (DenseStateBackend ℤ)) × (make_grover
        (pos 3)
        2
        options
      ≡ (ok tt, c))
    × (run c 2 (make_basis 2 0 (ok new_backend)) ≡ ok reg)
    × IsReadyDense 2 reg
run-make_grover_example =
    run-make_grover integers-Signs (pos 3) 2 0 1 options (omega arith) (omega arith) refl
      (omega arith, (omega arith, (omega arith, tt)))
