-- ===== src/Core/Validation.antt =====
-- core/validation.h and storage/common/backend_validation.h.
pub mod Targets
use tmfqsfullstate.Prelude.{
  ℕ, ◌-◌, ◌^◌, ◌%◌, Bool, true, false, not, List, [], ◌∷◌, ltb, leb, ◌==◌, if◌then◌else◌, length,
  get_or, set, replicate,
}
use tmfqsfullstate.Core.Action.{
  Result, ok, err, invalid_argument, out_of_range, logic_error, throw_if, and_then,
}
use tmfqsfullstate.Core.StateSpace.{
  narrow, u32_mod, max_supported_qubits_for_state_index, checked_state_count,
}

-- `stateCount` is an `unsigned int` parameter: a wider argument is narrowed by the call.
unfoldable pub validate_state_index : ℕ → ℕ → Result (Unit {0})
validate_state_index index state_count = throw_if (leb (narrow state_count) index) out_of_range

unfoldable pub validate_qubit_index : ℕ → ℕ → Result (Unit {0})
validate_qubit_index qubit num_qubits = throw_if (leb num_qubits qubit) out_of_range

unfoldable pub validate_distinct_qubits : ℕ → ℕ → Result (Unit {0})
validate_distinct_qubits q0 q1 = throw_if (q0 == q1) invalid_argument

-- the loop over the targets, with the vector `seen`
unfoldable pub check_targets : ℕ → List ℕ → List Bool → Result (Unit {0})
unfolding validate_qubit_index
check_targets num_qubits [] seen = ok tt
check_targets num_qubits (qubit ∷ qubits) seen =
    let rest = check_targets num_qubits qubits (set seen qubit true) in
    and_then (validate_qubit_index qubit num_qubits)
      (λ _. if get_or seen qubit false then err invalid_argument else rest)

unfoldable pub validate_gate_targets : List ℕ → ℕ → ℕ → Result (Unit {0})
unfolding check_targets checked_state_count
validate_gate_targets qubits num_qubits gate_dimension =
    if ltb max_supported_qubits_for_state_index (length qubits)
    then err invalid_argument
    else if ltb num_qubits (length qubits)
    then err invalid_argument
    else and_then (checked_state_count (narrow (length qubits))) (λ states.
      if not (gate_dimension == states)
      then err invalid_argument
      else check_targets num_qubits qubits (replicate num_qubits false))

unfoldable pub ensure_backend_initialized : Bool → Result (Unit {0})
ensure_backend_initialized initialized = throw_if (not initialized) logic_error

unfoldable pub validate_backend_two_qubits : ℕ → ℕ → ℕ → Result (Unit {0})
unfolding validate_qubit_index validate_distinct_qubits
validate_backend_two_qubits q0 q1 num_qubits =
    and_then (validate_qubit_index q0 num_qubits)
      (λ _. and_then (validate_qubit_index q1 num_qubits) (λ _. validate_distinct_qubits q0 q1))

-- 1u << (numQubits - qubit - 1u)
unfoldable pub qubit_mask_from_msb_index : ℕ → ℕ → ℕ
qubit_mask_from_msb_index qubit num_qubits = 2 ^ (num_qubits - qubit - 1) % u32_mod
