-- ===== src/Storage/ChunkLayout/Chunks.antt =====
-- The vector of all amplitudes, `[re0, im0, re1, ...]`, cut into the chunks of a layout.
use native.Mathlib.Decide.{ℕ_discrete, dec_lt}
use native.Mathlib.Nat.{div-add-mod', mod-lt}
use tmfqsfullstate.Prelude.{
  take-all, drop-all, drop-drop, [], ℕ, suc, ◌+◌, ◌-◌, ◌*◌, ◌/◌, ◌%◌, ◌≤◌, ◌<◌, ◌≡◌, ◌≢◌, ap, sym,
  ◌∙◌, List, arith, length, get_or, set, take, drop, true, false, ◌==◌, if◌then◌else◌, mul_le,
  length-take, length-drop, get_or-take, get_or-drop, take-set_inside, take-set_beyond,
  drop-set_before, drop-set_after,
}
use tmfqsfullstate.Storage.ChunkLayout.{ChunkLayout, chunk_elems}
use tmfqsfullstate.Storage.ChunkLayout.Bounds.{IsExact, chunk_elems_lem, chunk_index-lt}

-- The doubles of a chunk.
abbrev pub chunk_of : {A : Type 0} → ChunkLayout → List A → ℕ → List A
chunk_of l v c = take (chunk_elems l c) (drop (c * (l.states_per_chunk * 2)) v)

module _ {l : ChunkLayout} (x : IsExact l) (c : ℕ) (inside : c < l.chunk_count) where
  pub chunk_elems-bounds :
      (0 < chunk_elems l c)
      × (chunk_elems l c ≤ l.states_per_chunk * 2)
      × (c * (l.states_per_chunk * 2) + chunk_elems l c ≤ l.total_states * 2)
  chunk_elems-bounds =
      let e = chunk_elems_lem x c inside in
      let t = x.tight c inside in
      let p : c * (l.states_per_chunk * 2) ≡ c * l.states_per_chunk * 2 = grind arith in
      (omega (arith, x.width_pos), omega arith, omega arith)

module _ {A : Type 0} {l : ChunkLayout} (x : IsExact l) (c : ℕ) (inside : c < l.chunk_count) where
  pub length-chunk_of :
      (v : List A) → length v ≡ l.total_states * 2 → length (chunk_of l v c) ≡ chunk_elems l c
  length-chunk_of v full =
      let b = chunk_elems-bounds x c inside in
      length-take (chunk_elems l c) (drop (c * (l.states_per_chunk * 2)) v)
        (rw (length-drop (c * (l.states_per_chunk * 2)) v) (omega arith))

  get_or-chunk_of :
      (v : List A) (i : ℕ) (d : A)
      → i < chunk_elems l c
      → get_or (chunk_of l v c) i d ≡ get_or v (c * (l.states_per_chunk * 2) + i) d
  get_or-chunk_of v i d h =
      get_or-take (chunk_elems l c) i (drop (c * (l.states_per_chunk * 2)) v) d h
      ∙ get_or-drop (c * (l.states_per_chunk * 2)) i v d

  chunk_of-set_inside :
      (v : List A) (i : ℕ) (a : A)
      → i < chunk_elems l c
      → chunk_of l (set v (c * (l.states_per_chunk * 2) + i) a) c ≡ set (chunk_of l v c) i a
  chunk_of-set_inside v i a h =
      ap (take (chunk_elems l c)) (drop-set_after (c * (l.states_per_chunk * 2)) i v a)
      ∙ take-set_inside (chunk_elems l c) i (drop (c * (l.states_per_chunk * 2)) v) a h

  chunk_of-set_after :
      (v : List A) (i : ℕ) (a : A)
      → chunk_elems l c ≤ i
      → chunk_of l (set v (c * (l.states_per_chunk * 2) + i) a) c ≡ chunk_of l v c
  chunk_of-set_after v i a h =
      ap (take (chunk_elems l c)) (drop-set_after (c * (l.states_per_chunk * 2)) i v a)
      ∙ take-set_beyond (chunk_elems l c) i (drop (c * (l.states_per_chunk * 2)) v) a h

  chunk_of-set_before :
      (v : List A) (i : ℕ) (a : A)
      → i < c * (l.states_per_chunk * 2)
      → chunk_of l (set v i a) c ≡ chunk_of l v c
  chunk_of-set_before v i a h =
      ap (take (chunk_elems l c)) (drop-set_before (c * (l.states_per_chunk * 2)) i v a h)

  -- A write outside of the chunk.
  chunk_of-set_outside :
      (v : List A) (s i : ℕ) (a : A)
      → i / 2 ≡ s
      → s / l.states_per_chunk ≢ c
      → chunk_of l (set v i a) c ≡ chunk_of l v c
  chunk_of-set_outside v s i a e ne =
      let w = l.states_per_chunk in
      let whole = div-add-mod' s w in
      let r = mod-lt s x.width_pos in
      let b = chunk_elems-bounds x c inside in
      let p : c * (w * 2) ≡ c * w * 2 = grind arith in
      elim (dec_lt (s / w) c) [
        | yes lt ↦ chunk_of-set_before v i a (omega (arith, mul_le (suc (s / w)) c w lt))
        | no ge ↦
            let gap = mul_le (suc c) (s / w) w (omega arith) in
            let k : i ≡ c * (w * 2) + (i - c * (w * 2)) = omega arith in
            ap (λ j. chunk_of l (set v j a) c) k
            ∙ chunk_of-set_after v (i - c * (w * 2)) a (omega arith)
      ]

module _ {l : ChunkLayout} (x : IsExact l) (s : ℕ) (below : s < l.total_states) where
  -- The place of a state in its chunk.
  pub place :
      (s / l.states_per_chunk < l.chunk_count)
      × (s / l.states_per_chunk * (l.states_per_chunk * 2) + s % l.states_per_chunk * 2 ≡ s * 2)
      × (s % l.states_per_chunk * 2 + 1 < chunk_elems l (s / l.states_per_chunk))
  place =
      let w = l.states_per_chunk in
      let c = s / w in
      let inside = chunk_index-lt x s below in
      let whole = div-add-mod' s w in
      let r = mod-lt s x.width_pos in
      let e = chunk_elems_lem x c inside in
      let p : c * (w * 2) ≡ c * w * 2 = grind arith in (inside, omega arith, omega arith)

module _ {A : Type 0} {l : ChunkLayout} (x : IsExact l) (s : ℕ) (below : s < l.total_states) where
  pub chunk_of-reads :
      (v : List A) (d : A)
      → (get_or (chunk_of l v (s / l.states_per_chunk)) (s % l.states_per_chunk * 2) d
          ≡ get_or v (s * 2) d)
        × (get_or (chunk_of l v (s / l.states_per_chunk)) (s % l.states_per_chunk * 2 + 1) d
            ≡ get_or v (s * 2 + 1) d)
  chunk_of-reads v d =
      let (inside, at, off) = place x s below in
      let c = s / l.states_per_chunk in
      (
        get_or-chunk_of x c inside v (s % l.states_per_chunk * 2) d (omega arith)
            ∙ ap (λ i. get_or v i d) at,
        get_or-chunk_of x c inside v (s % l.states_per_chunk * 2 + 1) d off
            ∙ ap (λ i. get_or v i d) (omega arith),
      )

  pub chunk_of-writes :
      (v : List A) (a b : A) (c : ℕ)
      → c < l.chunk_count
      → chunk_of l (set (set v (s * 2) a) (s * 2 + 1) b) c ≡ (
          if c == s / l.states_per_chunk
          then set
              (set (chunk_of l v c) (s % l.states_per_chunk * 2) a)
              (s % l.states_per_chunk * 2 + 1)
              b
          else chunk_of l v c)
  chunk_of-writes v a b c inside =
      let (_, at, off) = place x s below in
      let w = l.states_per_chunk in
      elim (ℕ_discrete c (s / w)) [
        | yes e ↦
            let low : s * 2 ≡ c * (w * 2) + s % w * 2 =
              sym (ap (λ k. k * (w * 2) + s % w * 2) e ∙ at) in
            let high : s * 2 + 1 ≡ c * (w * 2) + (s % w * 2 + 1) = omega arith in
            let size : chunk_elems l c ≡ chunk_elems l (s / w) = ap (chunk_elems l) e in
            let test : (c == s / w) ≡ true = ground arith in
            rw test (
              ap (λ i. chunk_of l (set (set v (s * 2) a) i b) c) high
              ∙ chunk_of-set_inside x c inside (set v (s * 2) a) (s % w * 2 + 1) b (omega arith)
              ∙ ap (λ u. set u (s % w * 2 + 1) b)
                  (ap (λ i. chunk_of l (set v i a) c) low
                    ∙ chunk_of-set_inside x c inside v (s % w * 2) a (omega arith)))
        | no ne ↦
            let test : (c == s / w) ≡ false = ground arith in
            rw test (
              chunk_of-set_outside x c inside (set v (s * 2) a) s (s * 2 + 1) b (omega arith)
                (λ e. ne (sym e))
              ∙ chunk_of-set_outside x c inside v s (s * 2) a (omega arith) (λ e. ne (sym e)))
      ]

module _ {A : Type 0} {l : ChunkLayout} (x : IsExact l) (c : ℕ) (inside : c < l.chunk_count)
    (v : List A) (full : length v ≡ l.total_states * 2) where
  -- A chunk is as wide as the layout says, or all that is left.
  pub chunk_of-whole :
      chunk_of l v c ≡ take (l.states_per_chunk * 2) (drop (c * (l.states_per_chunk * 2)) v)
  chunk_of-whole =
      let w = l.states_per_chunk in
      let rest = drop (c * (w * 2)) v in
      let e = chunk_elems_lem x c inside in
      let t = x.tight c inside in
      let left = length-drop (c * (w * 2)) v in
      let p : c * (w * 2) ≡ c * w * 2 = grind arith in
      elim (ℕ_discrete (chunk_elems l c) (w * 2)) [
        | yes q ↦ ap (λ k. take k rest) q
        | no ne ↦
            take-all (chunk_elems l c) rest (omega arith)
            ∙ sym (take-all (w * 2) rest (omega arith))
      ]

  pub drop-next :
      drop (l.states_per_chunk * 2) (drop (c * (l.states_per_chunk * 2)) v)
      ≡ drop (suc c * (l.states_per_chunk * 2)) v
  drop-next =
      drop-drop (l.states_per_chunk * 2) (c * (l.states_per_chunk * 2)) v
      ∙ ap (λ k. drop k v) (grind arith)

-- Behind the last chunk nothing is left.
pub drop-chunks :
    {A : Type 0} {l : ChunkLayout} (x : IsExact l) (v : List A)
    → length v ≡ l.total_states * 2
    → drop (l.chunk_count * (l.states_per_chunk * 2)) v ≡ []
drop-chunks {l} x v full =
    let p : l.chunk_count * (l.states_per_chunk * 2) ≡ l.chunk_count * l.states_per_chunk * 2 =
      grind arith in
    drop-all (l.chunk_count * (l.states_per_chunk * 2)) v (omega (arith, x.covered))
