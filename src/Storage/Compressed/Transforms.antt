-- ===== src/Storage/Compressed/Transforms.antt =====
-- storage/common/compressed_state_backend.h: the operations that rewrite one amplitude, or all of
-- them chunk by chunk.
use tmfqsfullstate.Prelude.{ℕ, zero, suc, length}
use tmfqsfullstate.Core.Action.{ok, continue, ◌>>=◌, ◌>>◌}
use tmfqsfullstate.Core.Amplitude.{Double, Amplitude, ◌⊕◌, ◌⊘◌, nought}
use tmfqsfullstate.Storage.ChunkCache.{slot_at, write_buffer, mark_dirty}
use tmfqsfullstate.Storage.Codec.{CodecPolicy}
use tmfqsfullstate.Storage.Dense.{fold_pairs, map_pairs, invert_about, affine}
use tmfqsfullstate.Storage.Compressed.{
  Compressed, validate_state, acquire_chunk, update_cell, on_slots, mutate,
}

module _ {W : Type 0} ⦃d : Double W⦄ (p : CodecPolicy W) where
  unfoldable pub phase_flip_basis_state : ℕ → Compressed W (Unit {0})
  unfolding mutate validate_state update_cell
  phase_flip_basis_state state = mutate p (
      validate_state state
      >> update_cell p (λ a. record { real = d.neg a.real; imag = d.neg a.imag }) state)

  -- Each of `n` chunks from `c` on is acquired, rewritten and marked.
  unfoldable pub transform_chunks : (Amplitude W → Amplitude W) → ℕ → ℕ → Compressed W (Unit {0})
  unfolding acquire_chunk on_slots map_pairs write_buffer mark_dirty
  transform_chunks f zero c b = (ok tt, b)
  transform_chunks f (suc n) c b =
      continue
        ((acquire_chunk p c >>= λ k.
            on_slots
              (λ cache. mark_dirty k (write_buffer k (map_pairs f (slot_at cache k).buffer) cache)))
          b)
        (λ _. transform_chunks f n (suc c))

  unfoldable pub transform_all : (Amplitude W → Amplitude W) → Compressed W (Unit {0})
  unfolding transform_chunks
  transform_all f b = transform_chunks f (length b.cached.store) 0 b

  -- `sumReal` and `sumImag`
  unfoldable pub sum_chunks : ℕ → ℕ → Amplitude W → Compressed W (Amplitude W)
  unfolding acquire_chunk fold_pairs
  sum_chunks zero c sum b = (ok sum, b)
  sum_chunks (suc n) c sum b = continue (acquire_chunk p c b) (λ k b.
      sum_chunks n (suc c)
        (record {
          real = fold_pairs (λ acc a. acc ⊕ a.real) sum.real (slot_at b.cached.cache k).buffer;
          imag = fold_pairs (λ acc a. acc ⊕ a.imag) sum.imag (slot_at b.cached.cache k).buffer;
        })
        b)

  unfoldable pub inversion_about : Amplitude W → Compressed W (Unit {0})
  unfolding mutate transform_all invert_about
  inversion_about mean = mutate p (transform_all (invert_about mean))

  unfoldable pub inversion_about_mean : Compressed W (Unit {0})
  unfolding mutate sum_chunks transform_all invert_about
  inversion_about_mean = mutate p (
      (λ b. sum_chunks (length b.cached.store) 0 (record { real = nought; imag = nought }) b)
      >>= λ sum b.
          transform_all
            (invert_about (record {
              real = sum.real ⊘ d.of_nat b.num_states;
              imag = sum.imag ⊘ d.of_nat b.num_states;
            }))
            b)

  unfoldable pub apply_affine_transform : Amplitude W → Amplitude W → Compressed W (Unit {0})
  unfolding mutate transform_all affine
  apply_affine_transform scale bias = mutate p (transform_all (affine scale bias))
