-- ===== src/Storage/PairKernel.antt =====
-- storage/common/pair_kernel_executor.h: the traversals of the pairs (state0, state1) that one
-- target mask induces. The state `S` is what the callback mutates. Each loop has its bound as fuel,
-- which is enough where the stride is positive; a stride of 0, which would loop for ever, ends here
-- after that many rounds.
pub mod Pairs
pub mod Chunked
pub mod Modes
pub mod Effect
pub mod Bits
use Prim.Native.Nat.{bit_and}
use tmfqsfullstate.Prelude.{
  ℕ, ◌+◌, ◌-◌, ◌*◌, ◌/◌, ◌%◌, ◌^◌, min, Bool, not, ◌&&◌, ◌||◌, ltb, leb, ◌==◌, if◌then◌else◌, loop,
}
use tmfqsfullstate.Core.StateSpace.{u32_mod, u64_mod}
use tmfqsfullstate.Storage.ChunkLayout.{ChunkLayout, chunk_elems, chunk_begin_state}

pub data PairKernelMode : Type 0 where
  fallback intra_chunk inter_chunk : PairKernelMode

unfoldable pub select_mode : ChunkLayout → ℕ → PairKernelMode
select_mode layout target_mask =
    let width = layout.states_per_chunk in
    if (width == 0) || not (bit_and width (width - 1) == 0)
    then fallback
    else if ltb target_mask width
    then intra_chunk
    else if target_mask % width == 0
    then inter_chunk
    else fallback

module _ {S : Type 0} where
  -- `numStates` and `targetMask` are `unsigned int`.
  unfoldable pub run_fallback : ℕ → ℕ → (ℕ → ℕ → S → S) → S → S
  unfolding loop
  run_fallback num_states target_mask pair_fn =
      let stride = target_mask * 2 % u32_mod in
      loop num_states 0 stride (λ base. ltb base num_states)
        (λ base.
          loop target_mask 0 1 (λ offset. ltb offset target_mask)
            (λ offset. pair_fn (base + offset) (base + offset + target_mask)))

  -- one chunk of `runIntraChunk`, with the `break` in the test of the inner loop
  unfoldable pub intra_chunk_pairs : ℕ → ℕ → (ℕ → ℕ → S → S) → S → S
  unfolding loop
  intra_chunk_pairs states_in_chunk local_mask pair_fn =
      let stride = local_mask * 2 % u64_mod in
      loop states_in_chunk 0 stride (λ base. ltb base states_in_chunk)
        (λ base.
          loop local_mask 0 1
            (λ offset.
              ltb offset local_mask && not (leb states_in_chunk (base + offset + local_mask)))
            (λ offset. pair_fn (base + offset) (base + offset + local_mask)))

  -- the callback takes the chunk, the two local states and the two states
  unfoldable pub run_intra_chunk : ChunkLayout → ℕ → (ℕ → ℕ → ℕ → ℕ → ℕ → S → S) → S → S
  unfolding loop intra_chunk_pairs
  run_intra_chunk layout target_mask pair_fn =
      loop layout.chunk_count 0 1 (λ chunk. ltb chunk layout.chunk_count)
        (λ chunk.
          let base_state = chunk_begin_state layout chunk in
          intra_chunk_pairs (chunk_elems layout chunk / 2) target_mask (λ local0 local1.
            pair_fn chunk local0 local1 (base_state + local0) (base_state + local1)))

  -- the callback takes the two chunks, the local state and the two states
  unfoldable pub run_inter_chunk : ChunkLayout → ℕ → (ℕ → ℕ → ℕ → ℕ → ℕ → S → S) → S → S
  unfolding loop
  run_inter_chunk layout target_mask pair_fn =
      let chunk_delta = target_mask / layout.states_per_chunk in
      let chunk_stride = chunk_delta * 2 % u64_mod in
      loop layout.chunk_count 0 chunk_stride (λ group. ltb group layout.chunk_count)
        (λ group.
          loop chunk_delta 0 1
            (λ offset.
              ltb offset chunk_delta && not (leb layout.chunk_count (group + offset + chunk_delta)))
            (λ offset.
              let chunk0 = group + offset in
              let chunk1 = chunk0 + chunk_delta in
              let states = min (chunk_elems layout chunk0 / 2) (chunk_elems layout chunk1 / 2) in
              loop states 0 1 (λ local. ltb local states)
                (λ local.
                  pair_fn chunk0 chunk1 local (chunk_begin_state layout chunk0 + local)
                    (chunk_begin_state layout chunk1 + local))))
