-- ===== src/Core/StateSpace.antt =====
-- core/state_space.h. A `StateIndex` and a `size_t` have 64 bits, an `unsigned int` has 32.
use tmfqsfullstate.Prelude.{ℕ, ◌*◌, ◌%◌, ◌^◌, ◌-◌, ltb, if◌then◌else◌}
use tmfqsfullstate.Core.Action.{Result, ok, err, invalid_argument, and_then}

abbrev pub u32_mod : ℕ
u32_mod = 2 ^ 32

abbrev pub u64_mod : ℕ
u64_mod = 2 ^ 64

-- the conversion of a `StateIndex` to `unsigned int`
abbrev pub narrow : ℕ → ℕ
narrow x = x % u32_mod

abbrev pub max_supported_qubits_for_state_index : ℕ
max_supported_qubits_for_state_index = 64 - 1

unfoldable pub checked_state_count : ℕ → Result ℕ
checked_state_count num_qubits =
    if ltb max_supported_qubits_for_state_index num_qubits
    then err invalid_argument
    else ok (2 ^ num_qubits)

unfoldable pub checked_amplitude_element_count : ℕ → Result ℕ
unfolding checked_state_count
checked_amplitude_element_count num_qubits =
    and_then (checked_state_count num_qubits) (λ states. ok (states * 2 % u64_mod))
