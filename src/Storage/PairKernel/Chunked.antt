-- ===== src/Storage/PairKernel/Chunked.antt =====
-- The two traversals by chunks visit the pairs of `runFallback`, in its order.
use mathlib.Core.Path.{ap₂}
use native.Mathlib.Nat.{mul-div_left}
use tmfqsfullstate.Prelude.{
  ℕ, suc, ◌+◌, ◌*◌, ◌/◌, ◌%◌, ◌^◌, ◌≤◌, ◌<◌, min, ◌≡◌, refl, ap, sym, ◌∙◌, not, ◌&&◌, leb, arith,
  le_mul, mul_le, ltb, lt→ltb, loop, range, range-congr, range-range,
}
use tmfqsfullstate.Storage.ChunkLayout.{ChunkLayout, chunk_elems, chunk_begin_state}
use tmfqsfullstate.Storage.PairKernel.{
  run_fallback, run_intra_chunk, run_inter_chunk, intra_chunk_pairs,
}
use tmfqsfullstate.Storage.PairKernel.Pairs.{
  each_pair, loop_blocks, loop_units, run_fallback-each_pair, intra_chunk_pairs-each_pair,
  each_pair-congr, each_pair_groups,
}

-- All chunks hold `held` states, and follow one another. There may be one chunk, wider than the
-- register.
pub record IsEven (l : ChunkLayout) (held : ℕ) : Type 0 where
  pub fits : held ≤ l.states_per_chunk
  pub wide : held * 2 ≤ 2 ^ 63
  pub elems : (c : ℕ) → c < l.chunk_count → chunk_elems l c ≡ held * 2
  pub begins : (c : ℕ) → c < l.chunk_count → chunk_begin_state l c ≡ c * held
  pub indexed : (c a : ℕ) → c < l.chunk_count → a < held → (c * held + a) / l.states_per_chunk ≡ c
  pub offset : (c a : ℕ) → c < l.chunk_count → a < held → (c * held + a) % l.states_per_chunk ≡ a
  pub total : l.total_states ≡ l.chunk_count * held

-- A callback that takes chunk and place of both states, and the states.
abbrev pub Callback : Type 0 → Type 0
Callback S = ℕ → ℕ → ℕ → ℕ → ℕ → ℕ → S → S

abbrev pub at_states : {S : Type 0} → ChunkLayout → Callback S → ℕ → ℕ → S → S
at_states l f a b =
    f (a / l.states_per_chunk) (a % l.states_per_chunk) (b / l.states_per_chunk)
      (b % l.states_per_chunk) a b

module _ {S : Type 0} where
  pub run_intra_chunk-run_fallback :
      (l : ChunkLayout) (per mask : ℕ) (f : Callback S) (s : S)
      → 0 < mask
      → mask * 2 < 2 ^ 32
      → IsEven l (per * (mask * 2))
      → run_intra_chunk l mask (λ c local0 local1 a b. f c local0 c local1 a b) s
        ≡ run_fallback l.total_states mask (at_states l f) s
  unfolding run_intra_chunk
  run_intra_chunk-run_fallback l per mask f s pos small e =
      loop_units l.chunk_count _ _ s (λ k. lt→ltb k l.chunk_count) (ground arith)
      ∙ range-congr l.chunk_count 0 0 _
          (λ c.
            each_pair per mask
              (λ a b. at_states l f (c * (per * (mask * 2)) + a) (c * (per * (mask * 2)) + b)))
          s (λ c t q. chunk (0 + c) t (omega arith))
      ∙ each_pair_groups l.chunk_count per mask (at_states l f) s
      ∙ sym (
          run_fallback-each_pair (l.chunk_count * per) mask l.total_states (at_states l f) s pos
            small (e.total ∙ grind arith))
    where
      chunk :
          (c : ℕ) (t : S)
          → c < l.chunk_count
          → intra_chunk_pairs
              (chunk_elems l c / 2)
              mask
              (λ a b. f c a c b (chunk_begin_state l c + a) (chunk_begin_state l c + b))
              t
            ≡ each_pair per mask
                (λ a b. at_states l f (c * (per * (mask * 2)) + a) (c * (per * (mask * 2)) + b))
                t
      chunk c t q =
          let got : ℕ → ℕ → S → S =
            λ a b. f c a c b (chunk_begin_state l c + a) (chunk_begin_state l c + b) in
          let wanted : ℕ → ℕ → S → S =
            λ a b. at_states l f (c * (per * (mask * 2)) + a) (c * (per * (mask * 2)) + b) in
          intra_chunk_pairs-each_pair per mask (chunk_elems l c / 2) got t pos (omega arith)
            (omega (arith, e.elems c q))
          ∙ each_pair-congr per mask got wanted t (λ a u inside.
            rw
              (
                e.begins c q,
                e.indexed c a q (omega arith),
                e.indexed c (a + mask) q inside,
                e.offset c a q (omega arith),
                e.offset c (a + mask) q inside,
              )
              refl)

  pair_at :
      (l : ChunkLayout) (f : Callback S)
      → IsEven l l.states_per_chunk
      → (c0 c1 k : ℕ) (v : S) → c0 < l.chunk_count
      → c1 < l.chunk_count
      → k < l.states_per_chunk
      → f c0 k c1 k (chunk_begin_state l c0 + k) (chunk_begin_state l c1 + k) v
        ≡ at_states l f (c0 * l.states_per_chunk + k) (c1 * l.states_per_chunk + k) v
  pair_at l f e c0 c1 k v in0 in1 inside =
      rw
        (
          e.begins c0 in0,
          e.begins c1 in1,
          e.indexed c0 k in0 inside,
          e.indexed c1 k in1 inside,
          e.offset c0 k in0 inside,
          e.offset c1 k in1 inside,
        )
        refl

  -- one round of the outer loop of `runInterChunk`
  inter_group :
      (l : ChunkLayout) (delta b : ℕ) (f : Callback S) (t : S)
      → IsEven l l.states_per_chunk
      → b * (delta * 2) + delta * 2 ≤ l.chunk_count
      → loop delta 0 1
          (λ offset. ltb offset delta && not (leb l.chunk_count (b * (delta * 2) + offset + delta)))
          (λ offset.
            let c0 = b * (delta * 2) + offset in
            let c1 = c0 + delta in
            let states = min (chunk_elems l c0 / 2) (chunk_elems l c1 / 2) in
            loop states 0 1
              (λ local. ltb local states)
              (λ local.
                f c0 local c1 local
                  (chunk_begin_state l c0 + local)
                  (chunk_begin_state l c1 + local)))
          t
        ≡ range
            (delta * l.states_per_chunk)
            0
            (λ q.
              at_states l f
                (b * (delta * l.states_per_chunk * 2) + q)
                (b * (delta * l.states_per_chunk * 2) + q + delta * l.states_per_chunk))
            t
  inter_group l delta b f t e inside =
      let w = l.states_per_chunk in
      let pair : ℕ → S → S =
        λ q. at_states l f (b * (delta * w * 2) + q) (b * (delta * w * 2) + q + delta * w) in
      loop_units delta _ _ t (λ o r. ground arith) (ground arith)
      ∙ range-congr delta 0 0 _ (λ o. range w 0 (λ k. pair (o * w + k))) t
          (λ o u r. chunks (0 + o) u (omega arith))
      ∙ range-range delta w 0 pair t
      ∙ ap (λ x. range (delta * w) x pair t) {x = 0 * w} {y = 0} (omega arith)
    where
      chunks :
          (o : ℕ) (u : S)
          → o < delta
          → loop
              (min
                (chunk_elems l (b * (delta * 2) + o) / 2)
                (chunk_elems l (b * (delta * 2) + o + delta) / 2))
              0
              1
              (λ local. ltb local (
                min
                  (chunk_elems l (b * (delta * 2) + o) / 2)
                  (chunk_elems l (b * (delta * 2) + o + delta) / 2)))
              (λ local.
                f
                  (b * (delta * 2) + o)
                  local
                  (b * (delta * 2) + o + delta)
                  local
                  (chunk_begin_state l (b * (delta * 2) + o) + local)
                  (chunk_begin_state l (b * (delta * 2) + o + delta) + local))
              u
            ≡ range l.states_per_chunk 0
                (λ k.
                  at_states l f
                    (b * (delta * l.states_per_chunk * 2) + (o * l.states_per_chunk + k))
                    (b * (delta * l.states_per_chunk * 2)
                      + (o * l.states_per_chunk + k)
                      + delta * l.states_per_chunk))
                u
      chunks o u r =
          let w = l.states_per_chunk in
          let c0 = b * (delta * 2) + o in
          let c1 = c0 + delta in
          let in0 : c0 < l.chunk_count = omega arith in
          let in1 : c1 < l.chunk_count = omega arith in
          let n : min (chunk_elems l c0 / 2) (chunk_elems l c1 / 2) ≡ w =
            omega (arith, e.elems c0 in0, e.elems c1 in1) in
          rw n (
            loop_units w (λ k. ltb k w) _ u (λ k. lt→ltb k w) (ground arith)
            ∙ range-congr w 0 0 _ _ u (λ k v q.
              pair_at l f e c0 c1 (0 + k) v in0 in1 (omega arith)
              ∙ ap₂ (λ x y. at_states l f x y v) {x = c0 * w + (0 + k)}
                  {y = b * (delta * w * 2) + (o * w + (0 + k))} (omega arith) (omega arith)))

  pub run_inter_chunk-run_fallback :
      (l : ChunkLayout) (groups delta : ℕ) (f : Callback S) (s : S)
      → 0 < l.states_per_chunk
      → 0 < delta
      → delta * l.states_per_chunk * 2 < 2 ^ 32
      → l.chunk_count ≡ groups * (delta * 2)
      → IsEven l l.states_per_chunk
      → run_inter_chunk l
          (delta * l.states_per_chunk)
          (λ c0 c1 local a b. f c0 local c1 local a b)
          s
        ≡ run_fallback l.total_states (delta * l.states_per_chunk) (at_states l f) s
  unfolding run_inter_chunk each_pair
  run_inter_chunk-run_fallback l groups delta f s wpos pos small count e =
      let w = l.states_per_chunk in
      let mask = delta * w in
      let d : delta * w / w ≡ delta = mul-div_left delta wpos in
      let stride : delta * 2 % 2 ^ 64 ≡ delta * 2 = omega (arith, le_mul delta w wpos) in
      rw (d, stride)
        (loop_blocks groups (delta * 2) l.chunk_count _ s (omega arith) count
          ∙ range-congr groups 0 0 _
              (λ b.
                range mask 0 (λ q. at_states l f (b * (mask * 2) + q) (b * (mask * 2) + q + mask)))
              s
              (λ b t r.
                inter_group l delta (0 + b) f t e
                  (omega (arith, mul_le (suc (0 + b)) groups (delta * 2) (omega arith))))
          ∙ sym (
              run_fallback-each_pair groups mask l.total_states (at_states l f) s
                (omega (arith, le_mul delta w wpos)) (omega arith)
                (e.total ∙ ap (λ x. x * w) count ∙ omega arith)))
