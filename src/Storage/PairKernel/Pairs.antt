-- ===== src/Storage/PairKernel/Pairs.antt =====
-- The pairs of a mask, visited in one order by every traversal.
use mathlib.Core.Path.{ap₂}
use tmfqsfullstate.Prelude.{
  ℕ, suc, ◌+◌, ◌*◌, ◌%◌, ◌^◌, ◌≤◌, ◌<◌, ◌≡◌, ap, ◌∙◌, Bool, true, false, arith, mul_lt, le_mul, ltb,
  lt→ltb, loop, range, range-congr, range-range, loop-eq-range,
}
use tmfqsfullstate.Storage.PairKernel.{run_fallback, intra_chunk_pairs}

module _ {S : Type 0} where
  -- The pairs of `blocks` blocks of two halves of `mask` states each, in order.
  unfoldable pub each_pair : ℕ → ℕ → (ℕ → ℕ → S → S) → S → S
  each_pair blocks mask f =
      range blocks 0 (λ b. range mask 0 (λ o. f (b * (mask * 2) + o) (b * (mask * 2) + o + mask)))

  -- a counted loop with a stride, over `blocks` strides
  pub loop_blocks :
      (blocks stride limit : ℕ) (body : ℕ → S → S) (s : S)
      → 0 < stride
      → limit ≡ blocks * stride
      → loop limit 0 stride (λ base. ltb base limit) body s
        ≡ range blocks 0 (λ b. body (b * stride)) s
  loop_blocks blocks stride limit body s pos e =
      loop-eq-range blocks limit 0 stride (λ base. ltb base limit) body s
        (omega (arith, le_mul blocks stride pos))
        (λ k q. lt→ltb _ _ (omega (arith, mul_lt k blocks stride q pos))) (ground arith)
      ∙ range-congr blocks 0 0 (λ k. body (0 + k * stride)) (λ b. body (b * stride)) s
          (λ k t q.
            ap (λ x. body x t) {x = 0 + (0 + k) * stride} {y = (0 + k) * stride} (omega arith))

  pub loop_units :
      (n : ℕ) (go : ℕ → Bool) (body : ℕ → S → S) (s : S)
      → ((k : ℕ) → k < n → go k ≡ true)
      → go n ≡ false
      → loop n 0 1 go body s ≡ range n 0 body s
  loop_units n go body s t e =
      loop-eq-range n n 0 1 go body s (omega arith) (λ k q. ap go (omega arith) ∙ t k q)
        (ap go {x = 0 + n * 1} {y = n} (omega arith) ∙ e)
      ∙ range-congr n 0 0 (λ k. body (0 + k * 1)) body s
          (λ k u q. ap (λ x. body x u) {x = 0 + (0 + k) * 1} {y = 0 + k} (omega arith))

  pub run_fallback-each_pair :
      (blocks mask states : ℕ) (f : ℕ → ℕ → S → S) (s : S)
      → 0 < mask
      → mask * 2 < 2 ^ 32
      → states ≡ blocks * (mask * 2)
      → run_fallback states mask f s ≡ each_pair blocks mask f s
  unfolding run_fallback each_pair
  run_fallback-each_pair blocks mask states f s pos small e =
      let stride : mask * 2 % 2 ^ 32 ≡ mask * 2 = omega arith in
      rw stride (
        loop_blocks blocks (mask * 2) states _ s (omega arith) e
        ∙ range-congr blocks 0 0 _ _ s (λ b t q.
          loop_units mask (λ offset. ltb offset mask) _ t (λ k. lt→ltb k mask) (ground arith)))

  -- The same of one chunk of which `blocks` blocks are stored: the `break` is never taken.
  pub intra_chunk_pairs-each_pair :
      (blocks mask states : ℕ) (f : ℕ → ℕ → S → S) (s : S)
      → 0 < mask
      → mask * 2 < 2 ^ 64
      → states ≡ blocks * (mask * 2)
      → intra_chunk_pairs states mask f s ≡ each_pair blocks mask f s
  unfolding intra_chunk_pairs each_pair
  intra_chunk_pairs-each_pair blocks mask states f s pos small e =
      let stride : mask * 2 % 2 ^ 64 ≡ mask * 2 = omega arith in
      rw stride (
        loop_blocks blocks (mask * 2) states _ s (omega arith) e
        ∙ range-congr blocks 0 0 _ _ s (λ b t q.
          let inside : suc b * (mask * 2) ≤ blocks * (mask * 2) = grind arith in
          loop_units mask _ _ t (λ k below. ground arith) (ground arith)))

  -- Traversals agree whose callbacks agree on the pairs.
  pub each_pair-congr :
      (blocks mask : ℕ) (f g : ℕ → ℕ → S → S) (s : S)
      → ((a : ℕ) (t : S) → a + mask < blocks * (mask * 2) → f a (a + mask) t ≡ g a (a + mask) t)
      → each_pair blocks mask f s ≡ each_pair blocks mask g s
  unfolding each_pair
  each_pair-congr blocks mask f g s h = range-congr blocks 0 0 _ _ s λ b t q.
      range-congr mask 0 0 _ _ t λ o u r.
        let inside : suc (0 + b) * (mask * 2) ≤ blocks * (mask * 2) = grind arith in
        h ((0 + b) * (mask * 2) + (0 + o)) u (omega arith)

  -- `n` groups of `per` blocks each are `n * per` blocks.
  pub each_pair_groups :
      (n per mask : ℕ) (f : ℕ → ℕ → S → S) (s : S)
      → range n 0
          (λ c.
            each_pair per mask (λ a b. f (c * (per * (mask * 2)) + a) (c * (per * (mask * 2)) + b)))
          s
        ≡ each_pair (n * per) mask f s
  unfolding each_pair
  each_pair_groups n per mask f s =
      let block : ℕ → S → S =
        λ b. range mask 0 (λ o. f (b * (mask * 2) + o) (b * (mask * 2) + o + mask)) in
      range-congr n 0 0 _ (λ c. range per 0 (λ b. block (c * per + b))) s
        (λ c t q. range-congr per 0 0 _ _ t λ b u r. range-congr mask 0 0 _ _ u λ o v w.
          let e : c * (per * (mask * 2)) + b * (mask * 2) ≡ (c * per + b) * (mask * 2) =
            grind arith in
          ap₂ (λ x y. f x y v) {x = (0 + c) * (per * (mask * 2)) + ((0 + b) * (mask * 2) + (0 + o))}
            {y = ((0 + c) * per + (0 + b)) * (mask * 2) + (0 + o)} (omega arith) (omega arith))
      ∙ range-range n per 0 block s
      ∙ ap (λ x. range (n * per) x block s) {x = 0 * per} {y = 0} (omega arith)
