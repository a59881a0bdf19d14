-- ===== src/Tests/Common.antt =====
-- Validation, chunk layouts, pair kernels and sorted states.
use tmfqsfullstate.Prelude.{
  ℕ, ◌+◌, ◌*◌, ◌^◌, ◌≤◌, ◌<◌, ◌≡◌, ◌↔◌, ◌≢◌, ◌⊎◌, true, false, refl, arith, List, [], ◌∷◌,
}
use tmfqsfullstate.Core.Action.{ok}
use tmfqsfullstate.Core.Validation.{validate_gate_targets, qubit_mask_from_msb_index}
use tmfqsfullstate.Core.Validation.Targets.{AreTargets, validate_gate_targets_iff}
use tmfqsfullstate.Storage.ChunkLayout.{
  ChunkLayout, make_chunk_layout, chunk_elem_count, chunk_state_begin, state_ref,
}
use tmfqsfullstate.Storage.ChunkLayout.Bounds.{state_ref_in_chunk}
use tmfqsfullstate.Storage.PairKernel.{select_mode, run_fallback}
use tmfqsfullstate.Storage.PairKernel.Chunked.{at_states}
use tmfqsfullstate.Storage.PairKernel.Modes.{run_mode, run_mode-run_fallback}
use tmfqsfullstate.Config.{StorageStrategyKind, auto}
use tmfqsfullstate.Storage.Registry.{resolve, is_available}
use tmfqsfullstate.Storage.Registry.Laws.{IsResolved, resolve-is_available}
use tmfqsfullstate.Storage.Selected.{sorted_unique}
use tmfqsfullstate.Storage.Selected.Laws.{Ordered, member, sorted_unique-Ordered}

validate_gate_targets_iff_example :
    (validate_gate_targets (2 ∷ 0 ∷ []) 3 4 ≡ ok tt)
    ↔ ((2 ≤ 63) × (2 ≤ 3) × (let four : ℕ = 4 in four ≡ 2 ^ 2) × AreTargets 3 (2 ∷ 0 ∷ []))
validate_gate_targets_iff_example = validate_gate_targets_iff (2 ∷ 0 ∷ []) 3 4

abbrev layout : ChunkLayout
layout = record {
  total_states = 8;
  total_elems = 16;
  states_per_chunk = 2;
  elems_per_chunk = 4;
  chunk_count = 4;
}

made : make_chunk_layout (2 ^ 3) 2 ≡ ok layout
unfolding make_chunk_layout
made = refl

state_ref_in_chunk_example :
    (elems first : ℕ) × (chunk_elem_count layout (state_ref layout 5).chunk_index ≡ ok elems)
    × (chunk_state_begin layout (state_ref layout 5).chunk_index ≡ ok first)
    × ((state_ref layout 5).elem_offset + 1 < elems)
    × (first * 2 + (state_ref layout 5).elem_offset ≡ 10)
state_ref_in_chunk_example = state_ref_in_chunk (2 ^ 3) 2 5 (omega arith) made (omega arith)

-- a callback that writes down the states it is given
abbrev visit : ℕ → ℕ → ℕ → ℕ → ℕ → ℕ → List ℕ → List ℕ
visit chunk0 local0 chunk1 local1 state0 state1 seen = state1 ∷ state0 ∷ seen

run_mode-run_fallback_example :
    run_mode
      (select_mode layout (qubit_mask_from_msb_index 0 3))
      layout
      (qubit_mask_from_msb_index 0 3)
      visit
      []
    ≡ run_fallback 8 (qubit_mask_from_msb_index 0 3) (at_states layout visit) []
run_mode-run_fallback_example =
    run_mode-run_fallback 3 0 2 visit [] (omega arith) (omega arith) (omega arith) made

sorted_unique-Ordered_example :
    Ordered (λ a b. a < b) (sorted_unique (3 ∷ 1 ∷ 3 ∷ []))
    × (member 3 (sorted_unique (3 ∷ 1 ∷ 3 ∷ [])) ≡ member 3 (3 ∷ 1 ∷ 3 ∷ []))
sorted_unique-Ordered_example = sorted_unique-Ordered 3 (3 ∷ 1 ∷ 3 ∷ [])

resolve-is_available_example :
    (k : StorageStrategyKind) × (resolve false true 30 1000 auto ≡ ok k)
    × (k ≢ auto)
    × ((k ≡ auto) ⊎ (is_available false true k ≡ true))
    × IsResolved false true 30 1000 auto k
resolve-is_available_example = resolve-is_available false true 30 1000 auto (omega arith)
