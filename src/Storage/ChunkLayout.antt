-- ===== src/Storage/ChunkLayout.antt =====
-- storage/common/chunk_layout.h: a state vector cut into chunks of equal width. All numbers are
-- `size_t`; a product or a sum is taken modulo 2^64. Division by a width that has wrapped to 0,
-- which C++ leaves undefined, is 0.
pub mod Bounds
pub mod Chunks
use tmfqsfullstate.Prelude.{ℕ, ◌+◌, ◌-◌, ◌*◌, ◌/◌, ◌%◌, ◌^◌, min, ltb, leb, ◌==◌, if◌then◌else◌}
use tmfqsfullstate.Core.Action.{Result, ok, err, invalid_argument, out_of_range, and_then}
use tmfqsfullstate.Core.StateSpace.{u64_mod}

pub record ChunkRef : Type 0 where
  pub chunk_index : ℕ
  -- in doubles, from the start of the chunk to the real part
  pub elem_offset : ℕ

pub record ChunkLayout : Type 0 where
  pub total_states : ℕ
  pub total_elems : ℕ
  pub states_per_chunk : ℕ
  pub elems_per_chunk : ℕ
  pub chunk_count : ℕ

unfoldable pub make_chunk_layout : ℕ → ℕ → Result ChunkLayout
make_chunk_layout total_states states_per_chunk =
    let total_elems = total_states * 2 % u64_mod in
    let elems_per_chunk = states_per_chunk * 2 % u64_mod in
    if states_per_chunk == 0
    then err invalid_argument
    else ok (record {
      total_states = total_states;
      total_elems = total_elems;
      states_per_chunk = states_per_chunk;
      elems_per_chunk = elems_per_chunk;
      chunk_count =
          if total_elems == 0
          then 0
          else (total_elems + elems_per_chunk + u64_mod - 1) % u64_mod / elems_per_chunk;
    })

-- The result of `chunkElemCount` where its check passes.
unfoldable pub chunk_elems : ChunkLayout → ℕ → ℕ
chunk_elems l chunk_index =
    let chunk_begin = chunk_index * l.elems_per_chunk % u64_mod in
    min l.elems_per_chunk ((l.total_elems + u64_mod - chunk_begin) % u64_mod)

unfoldable pub chunk_elem_count : ChunkLayout → ℕ → Result ℕ
unfolding chunk_elems
chunk_elem_count l chunk_index =
    if leb l.chunk_count chunk_index then err out_of_range else ok (chunk_elems l chunk_index)

-- The result of `chunkStateBegin` where its check passes.
unfoldable pub chunk_begin_state : ChunkLayout → ℕ → ℕ
chunk_begin_state l chunk_index = chunk_index * l.states_per_chunk % u64_mod

unfoldable pub chunk_state_begin : ChunkLayout → ℕ → Result ℕ
unfolding chunk_begin_state
chunk_state_begin l chunk_index =
    if leb l.chunk_count chunk_index then err out_of_range else ok (chunk_begin_state l chunk_index)

unfoldable pub state_ref : ChunkLayout → ℕ → ChunkRef
state_ref l index = record {
  chunk_index = index / l.states_per_chunk;
  elem_offset = index % l.states_per_chunk * 2 % u64_mod;
}
