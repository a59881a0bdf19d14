-- ===== src/Storage/GateBlock.antt =====
-- storage/gate_block_apply.h and storage/common/gate_apply_engine.h: a gate matrix applied block by
-- block, through callbacks that load and store one amplitude. The workspace buffers, which each
-- block overwrites, are local values here.
pub mod Keeps
use Prim.Native.Nat.{bit_and, bit_or}
use tmfqsfullstate.Prelude.{
  ℕ, zero, suc, ◌+◌, ◌-◌, ◌*◌, ◌/◌, ◌%◌, ◌^◌, Bool, true, false, not, ◌&&◌, List, [], ◌∷◌, ◌++◌,
  map, ◌==◌, if◌then◌else◌, length, get_or, set, replicate, range,
}
use tmfqsfullstate.Core.Action.{Result, ok, Action, ◌>>=◌, ◌>>◌, pure, lift, for_each, and_then}
use tmfqsfullstate.Core.Amplitude.{Double, Amplitude, ◌⊕◌, ◌⊖◌, ◌⊗◌, no_amplitude, is_zero}
use tmfqsfullstate.Core.StateSpace.{u32_mod, narrow, checked_state_count}
use tmfqsfullstate.Core.Validation.{validate_gate_targets}
use tmfqsfullstate.Gates.{QuantumGate, entry}

-- 0, 1, ..., n - 1, counted from `i`
unfoldable pub counted : ℕ → ℕ → List ℕ
counted zero i = []
counted (suc n) i = i ∷ counted n (suc i)

pub record GateBlockLayout : Type 0 where
  pub num_qubits : ℕ
  pub active_qubits : ℕ
  pub num_blocks : ℕ
  pub block_size : ℕ
  pub target_positions : List ℕ
  pub target_masks : List ℕ
  pub non_target_positions : List ℕ
  pub block_offsets : List ℕ

-- (x >> k) & 1u
abbrev pub bit_at : ℕ → ℕ → ℕ
bit_at x k = x / 2 ^ k % 2

-- the loop of `composeBaseStateFromBlock` from index `idx` on
unfoldable pub compose_from : ℕ → ℕ → List ℕ → ℕ → ℕ
compose_from block idx [] base_state = base_state
compose_from block idx (position ∷ positions) base_state =
    compose_from block (suc idx) positions
      (bit_or base_state (bit_at block idx * 2 ^ position % u32_mod))

unfoldable pub compose_base_state_from_block : ℕ → List ℕ → ℕ
unfolding compose_from
compose_base_state_from_block block positions = compose_from block 0 positions 0

-- the vector `isTargetBit`
unfoldable pub mark_targets : List ℕ → List Bool → List Bool
mark_targets [] marks = marks
mark_targets (position ∷ positions) marks = mark_targets positions (set marks position true)

unfoldable pub unmarked : ℕ → List Bool → List ℕ
unmarked bit [] = []
unmarked bit (true ∷ marks) = unmarked (suc bit) marks
unmarked bit (false ∷ marks) = bit ∷ unmarked (suc bit) marks

-- the offset of block-local index `idx`: `bit` counts from 0
unfoldable pub block_offset : ℕ → ℕ → ℕ → List ℕ → ℕ → ℕ
block_offset active idx bit [] offset = offset
block_offset active idx bit (mask ∷ masks) offset =
    block_offset active idx (suc bit) masks
      (if bit_at idx (active - bit - 1) == 0 then offset else bit_or offset mask)

unfoldable pub make_gate_block_layout : List ℕ → ℕ → Result GateBlockLayout
unfolding checked_state_count counted mark_targets unmarked block_offset
make_gate_block_layout qubits num_qubits =
    let active = narrow (length qubits) in
    and_then (checked_state_count ((num_qubits + u32_mod - active) % u32_mod)) (λ blocks.
      and_then (checked_state_count active) (λ size.
        let positions = map (λ qubit. num_qubits - qubit - 1) qubits in
        let masks = map (λ position. 2 ^ position % u32_mod) positions in
        ok (record {
          num_qubits = num_qubits;
          active_qubits = active;
          num_blocks = narrow blocks;
          block_size = narrow size;
          target_positions = positions;
          target_masks = masks;
          non_target_positions = unmarked 0 (mark_targets positions (replicate num_qubits false));
          block_offsets = map (λ idx. block_offset active idx 0 masks 0) (counted (narrow size) 0);
        })))

module _ {W : Type 0} ⦃d : Double W⦄ where
  -- newAmp += g * a
  unfoldable pub accumulate : Amplitude W → Amplitude W → Amplitude W → Amplitude W
  accumulate new_amp g a = record {
    real = new_amp.real ⊕ (g.real ⊗ a.real ⊖ g.imag ⊗ a.imag);
    imag = new_amp.imag ⊕ (g.real ⊗ a.imag ⊕ g.imag ⊗ a.real);
  }

  -- one row of the block product, from column `col` on
  unfoldable pub row_product :
      QuantumGate W → ℕ → ℕ → List (Amplitude W) → Amplitude W → Amplitude W
  unfolding accumulate entry
  row_product gate row col [] new_amp = new_amp
  row_product gate row col (a ∷ amps) new_amp =
      row_product gate row (suc col) amps (accumulate new_amp (entry gate row col) a)

  unfoldable pub all_zero : List (Amplitude W) → Bool
  all_zero [] = true
  all_zero (a ∷ amps) = is_zero a && all_zero amps

  module _ {S : Type 0} (load : ℕ → Action S (Amplitude W))
      (store : ℕ → Amplitude W → Action S (Unit {0})) where
    unfoldable pub load_all : List ℕ → Action S (List (Amplitude W))
    load_all [] s = (ok [], s)
    load_all (state ∷ states) s =
        (load state >>= λ a. load_all states >>= λ amps. pure (a ∷ amps)) s

    unfoldable pub store_rows :
        QuantumGate W → List (Amplitude W) → ℕ → List ℕ → Action S (Unit {0})
    unfolding row_product
    store_rows gate amps row [] s = (ok tt, s)
    store_rows gate amps row (state ∷ states) s =
        (store state (row_product gate row 0 amps no_amplitude)
            >> store_rows gate amps (suc row) states)
          s

    -- one block of the general case, and of the case of two qubits: its loops have constant bounds
    unfoldable pub apply_block : QuantumGate W → List ℕ → Action S (Unit {0})
    unfolding load_all store_rows all_zero
    apply_block gate states =
        load_all states >>= λ amps. if all_zero amps then pure tt else store_rows gate amps 0 states

    -- the case of one qubit, written out in the source
    unfoldable pub apply_single : QuantumGate W → ℕ → ℕ → Action S (Unit {0})
    unfolding entry
    apply_single gate state0 state1 = load state0 >>= λ a0. load state1 >>= λ a1.
        if is_zero a0 && is_zero a1
        then pure tt
        else let g00 = entry gate 0 0 in
          let g01 = entry gate 0 1 in
          let g10 = entry gate 1 0 in
          let g11 = entry gate 1 1 in
          store state0 (record {
            real =
                g00.real ⊗ a0.real ⊖ g00.imag ⊗ a0.imag ⊕ g01.real ⊗ a1.real ⊖ g01.imag ⊗ a1.imag;
            imag =
                g00.real ⊗ a0.imag ⊕ g00.imag ⊗ a0.real ⊕ g01.real ⊗ a1.imag ⊕ g01.imag ⊗ a1.real;
          })
          >> store state1 (record {
            real =
                g10.real ⊗ a0.real ⊖ g10.imag ⊗ a0.imag ⊕ g11.real ⊗ a1.real ⊖ g11.imag ⊗ a1.imag;
            imag =
                g10.real ⊗ a0.imag ⊕ g10.imag ⊗ a0.real ⊕ g11.real ⊗ a1.imag ⊕ g11.imag ⊗ a1.real;
          })

    unfoldable pub apply_gate_by_blocks : QuantumGate W → GateBlockLayout → Action S (Unit {0})
    unfolding counted compose_base_state_from_block apply_single apply_block for_each
    apply_gate_by_blocks gate layout =
        let base = λ (block : ℕ). compose_base_state_from_block block layout.non_target_positions in
        let mask0 = get_or layout.target_masks 0 0 in
        let mask1 = get_or layout.target_masks 1 0 in
        if layout.active_qubits == 1
        then for_each (counted layout.num_blocks 0)
            (λ block. apply_single gate (base block) (bit_or (base block) mask0))
        else if layout.active_qubits == 2
        then for_each (counted layout.num_blocks 0) (λ block. apply_block gate (
            base block
            ∷ bit_or (base block) mask1
            ∷ bit_or (base block) mask0
            ∷ bit_or (bit_or (base block) mask0) mask1
            ∷ []))
        else for_each (counted layout.num_blocks 0)
            (λ block. apply_block gate (map (bit_or (base block)) layout.block_offsets))

    -- GateApplyEngine::apply
    unfoldable pub apply : QuantumGate W → List ℕ → ℕ → Action S (Unit {0})
    unfolding validate_gate_targets make_gate_block_layout apply_gate_by_blocks
    apply gate qubits num_qubits =
        lift (validate_gate_targets qubits num_qubits gate.dimension)
        >> (lift (make_gate_block_layout qubits num_qubits) >>= λ layout.
            apply_gate_by_blocks gate layout)
