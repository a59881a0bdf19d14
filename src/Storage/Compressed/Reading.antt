-- ===== src/Storage/Compressed/Reading.antt =====
-- The operations that read the chunks in order answer as the dense backend does on the whole vector.
use mathlib.Core.List.{append-nil, append_assoc}
use tmfqsfullstate.Core.StateSpace.{checked_state_count, checked_amplitude_element_count}
use tmfqsfullstate.Storage.PairKernel.Bits.{pow-le}
use tmfqsfullstate.Prelude.{
  ◌++◌, set-length, take-append-drop, length-append, length-drop, ℕ, zero, suc, ◌+◌, ◌*◌, ◌%◌, ◌^◌,
  ◌≤◌, ◌<◌, ◌≡◌, refl, ap, sym, ◌∙◌, true, false, List, [], ◌∷◌, arith, length, ltb, ◌==◌, inl, inr,
  take, drop, take-all, length-drop, replicate, length-replicate,
}
use tmfqsfullstate.Core.Action.{Result, ok}
use tmfqsfullstate.Core.Amplitude.{Double, Amplitude, ◌⊕◌, nought}
use tmfqsfullstate.Storage.ChunkCache.Write.{find_buffer-Represents}
use tmfqsfullstate.Storage.ChunkLayout.{chunk_elems, ChunkLayout}
use tmfqsfullstate.Storage.ChunkLayout.Bounds.{IsExact}
use tmfqsfullstate.Storage.ChunkLayout.Chunks.{
  chunk_of, length-chunk_of, chunk_of-whole, drop-next, drop-chunks,
}
use tmfqsfullstate.Storage.Codec.{CodecPolicy}
use tmfqsfullstate.Storage.Dense
use tmfqsfullstate.Storage.Dense.{fold_pairs, sample_from, norm_sq}
use tmfqsfullstate.Storage.Dense.Access.{sized, sized-IsWellFormed}
use tmfqsfullstate.Storage.Dense.Kernels.Gates.{ensure_initialized-IsWellFormed}
use tmfqsfullstate.Storage.Compressed.{ChunkStorage, CompressedStateBackend, load_chunk, chunk_at}
use tmfqsfullstate.Storage.Compressed.Access
use tmfqsfullstate.Storage.Compressed.Access.{
  copy_into, copy_chunk, chunk_data, read_chunk, fold_chunks, visit_chunks, sample_values,
  sample_chunks, Sampling, going, found,
}
use tmfqsfullstate.Storage.Compressed.Holds.{Holds}
use tmfqsfullstate.Storage.Compressed.Steps.{ensure_initialized-Holds}
use tmfqsfullstate.Storage.Compressed.Refines.{Refines}

nil_of_length : {A : Type 0} (xs : List A) → length xs ≡ 0 → xs ≡ []
nil_of_length [] h = refl
nil_of_length (x ∷ xs) h = absurd (omega arith)

-- The loop over the chunks without the decompression.
gather : {W V : Type 0} → (ℕ → List W) → (ℕ → List W → V → V) → ℕ → ℕ → V → V
gather chunk visit zero c acc = acc
gather chunk visit (suc n) c acc = gather chunk visit n (suc c) (visit c (chunk c) acc)

module _ {W : Type 0} ⦃d : Double W⦄ {p : CodecPolicy W} {n : ℕ} {v : List W}
    {b : CompressedStateBackend W} (h : Holds p n v b) where
  -- The data of a chunk is its part of the vector, cached or not.
  chunk_data-Holds :
      (c : ℕ)
      → c < b.layout.chunk_count
      → (chunk_data p b c ≡ ok (chunk_of b.layout v c))
        × (take (chunk_at b.cached.store c).elem_count (chunk_of b.layout v c)
            ≡ chunk_of b.layout v c)
  unfolding chunk_data read_chunk load_chunk
  chunk_data-Holds c inside =
      let count = h.holds.good.counts c inside in
      let whole =
        take-all (chunk_at b.cached.store c).elem_count (chunk_of b.layout v c)
          (omega (arith, length-chunk_of h.exact c inside v (omega (arith, h.full, h.total)))) in
      elim (find_buffer-Represents c h.holds inside) [
        | inl (missing, loads) ↦
            let same : (chunk_elems b.layout c == chunk_elems b.layout c) ≡ true = ground arith in
            let read = ap (λ (r : Result (List W) × List ChunkStorage). r.0) (loads []) in
            (rw (missing, read_chunk, count) (rw (count, same) at read), whole)
        | inr hit ↦ (rw hit refl, whole)
      ]

  fold_chunks-Holds :
      {V : Type 0} (visit : ℕ → List W → V → V) (m c : ℕ) (acc : V)
      → c + m ≤ b.layout.chunk_count
      → fold_chunks p b visit m c acc ≡ ok (gather (chunk_of b.layout v) visit m c acc)
  unfolding fold_chunks gather
  fold_chunks-Holds visit zero c acc inside = refl
  fold_chunks-Holds visit (suc m) c acc inside =
      let (read, whole) = chunk_data-Holds c (omega arith) in
      rw (read, whole)
        (fold_chunks-Holds visit m (suc c) (visit c (chunk_of b.layout v c) acc) (omega arith))

  visit_chunks-Holds :
      {V : Type 0} (visit : ℕ → List W → V → V) (acc : V)
      → visit_chunks p visit acc b
        ≡ (ok (gather (chunk_of b.layout v) visit b.layout.chunk_count 0 acc), b)
  unfolding visit_chunks
  visit_chunks-Holds visit acc =
      let count = h.holds.good.all_chunks in
      rw (ensure_initialized-Holds h, count)
        (ap (λ r. (r, b)) (fold_chunks-Holds visit b.layout.chunk_count 0 acc (omega arith)))

module _ {W A : Type 0} ⦃d : Double W⦄ (f : A → Amplitude W → A) where
  fold_pairs-nil : (acc : A) → fold_pairs f acc [] ≡ acc
  unfolding fold_pairs
  fold_pairs-nil acc = refl

  fold_pairs-drop :
      (k : ℕ) (acc : A) (v : List W)
      → fold_pairs f (fold_pairs f acc (take (k * 2) v)) (drop (k * 2) v) ≡ fold_pairs f acc v
  unfolding fold_pairs
  fold_pairs-drop zero acc v = refl
  fold_pairs-drop (suc k) acc [] = let e : suc k * 2 ≡ suc (suc (k * 2)) = omega arith in rw e refl
  fold_pairs-drop (suc k) acc (x ∷ []) =
      let e : suc k * 2 ≡ suc (suc (k * 2)) = omega arith in rw e refl
  fold_pairs-drop (suc k) acc (x ∷ y ∷ v) =
      let e : suc k * 2 ≡ suc (suc (k * 2)) = omega arith in
      rw e (fold_pairs-drop k (f acc (record { real = x; imag = y })) v)

  -- The chunks from `c` on are folded as what is left of the vector.
  gather-fold_pairs :
      {l : ChunkLayout}
      → IsExact l
      → (v : List W) (m c : ℕ) (acc : A) → length v ≡ l.total_states * 2
      → c + m ≡ l.chunk_count
      → gather (chunk_of l v) (λ c values acc. fold_pairs f acc values) m c acc
        ≡ fold_pairs f acc (drop (c * (l.states_per_chunk * 2)) v)
  unfolding gather
  gather-fold_pairs {l} x v zero c acc full e =
      let last : c ≡ l.chunk_count = omega arith in
      rw (last, drop-chunks x v full) (sym (fold_pairs-nil acc))
  gather-fold_pairs {l} x v (suc m) c acc full e =
      let w = l.states_per_chunk in
      let rest = drop (c * (w * 2)) v in
      gather-fold_pairs x v m (suc c) (fold_pairs f acc (chunk_of l v c)) full (omega arith)
      ∙ ap (λ u. fold_pairs f (fold_pairs f acc u) (drop (suc c * (w * 2)) v))
          (chunk_of-whole x c (omega arith) v full)
      ∙ ap (fold_pairs f (fold_pairs f acc (take (w * 2) rest)))
          (sym (drop-next x c (omega arith) v full))
      ∙ fold_pairs-drop w acc rest

module _ {W : Type 0} ⦃d : Double W⦄ {p : CodecPolicy W} {n : ℕ} {v : List W}
    {b : CompressedStateBackend W} (h : Holds p n v b) where
  -- On a compressed backend that holds a vector, cached or compressed, totalProbability adds up the
  -- same terms in the same order as the dense backend.
  pub total_probability-Refines :
      Refines p n v b Dense.total_probability (Access.total_probability p)
  unfolding Access.total_probability Dense.total_probability
  total_probability-Refines =
      let full : length v ≡ b.layout.total_states * 2 = omega (arith, h.full, h.total) in
      let start : drop (0 * (b.layout.states_per_chunk * 2)) v ≡ v =
        ap (λ k. drop k v) {x = 0 * (b.layout.states_per_chunk * 2)} {y = 0} (omega arith) in
      let total = λ (sum : W) (a : Amplitude W). sum ⊕ norm_sq a in
      (
        fold_pairs total nought v,
        v,
        b.cached,
        rw (ensure_initialized-IsWellFormed (sized n v) (sized-IsWellFormed n v h.few h.full)) refl,
        visit_chunks-Holds h (λ c values sum. fold_pairs total sum values) nought
            ∙ ap (λ r. (ok r, b))
                (gather-fold_pairs total h.exact v b.layout.chunk_count 0 nought full (omega arith)
                  ∙ ap (fold_pairs total nought) start),
        h,
      )

module _ {W : Type 0} ⦃d : Double W⦄ where
  -- What is copied replaces the elements from the place on.
  copy_into-append :
      (p : CodecPolicy W) (values pre rest : List W)
      → length values ≤ length rest
      → copy_into p values (length pre) (pre ++ rest) ≡ (pre ++ values) ++ drop (length values) rest
  unfolding copy_into
  copy_into-append p [] pre rest h = rw append-nil refl
  copy_into-append p (x ∷ values) pre [] h = absurd (omega arith)
  copy_into-append p (x ∷ values) pre (r ∷ rest) h =
      let shift = λ (u : List W). append_assoc pre (x ∷ []) u in
      let at : suc (length pre) ≡ length (pre ++ x ∷ []) =
        omega (arith, length-append pre (x ∷ [])) in
      rw (set-length pre rest r x) (
        ap (λ u. copy_into p values (suc (length pre)) u) (sym (shift rest))
        ∙ ap (λ k. copy_into p values k ((pre ++ x ∷ []) ++ rest)) at
        ∙ copy_into-append p values (pre ++ x ∷ []) rest (omega arith)
        ∙ ap (λ u. u ++ drop (length values) rest) (shift values))

  gather-copy_chunk :
      (p : CodecPolicy W) {l : ChunkLayout}
      → IsExact l
      → (v : List W) (m c : ℕ) (pre rest : List W) → length v ≡ l.total_states * 2
      → c + m ≡ l.chunk_count
      → length rest ≡ length (drop (c * (l.states_per_chunk * 2)) v)
      → (gather (chunk_of l v) (copy_chunk p) m c (length pre, pre ++ rest)).1
        ≡ pre ++ drop (c * (l.states_per_chunk * 2)) v
  unfolding gather copy_chunk
  gather-copy_chunk p {l} x v zero c pre rest full e long =
      let last : c ≡ l.chunk_count = omega arith in
      let done : drop (c * (l.states_per_chunk * 2)) v ≡ [] = rw last (drop-chunks x v full) in
      ap (λ u. pre ++ u) (nil_of_length rest (long ∙ ap length done) ∙ sym done)
  gather-copy_chunk p {l} x v (suc m) c pre rest full e long =
      let w = l.states_per_chunk in
      let inside : c < l.chunk_count = omega arith in
      let left = drop (c * (w * 2)) v in
      let part = chunk_of l v c in
      let parts : part ++ drop (suc c * (w * 2)) v ≡ left =
        ap (λ u. u ++ drop (suc c * (w * 2)) v) (chunk_of-whole x c inside v full)
        ∙ ap (λ u. take (w * 2) left ++ u) (sym (drop-next x c inside v full))
        ∙ take-append-drop (w * 2) left in
      let sizes = length-append part (drop (suc c * (w * 2)) v) in
      let total = ap length parts in
      let at : length pre + length part ≡ length (pre ++ part) = sym (length-append pre part) in
      let copied = copy_into-append p part pre rest (omega arith) in
      ap (λ (s : ℕ × List W). (gather (chunk_of l v) (copy_chunk p) m (suc c) s).1)
        {x = (length pre + length part, copy_into p part (length pre) (pre ++ rest))}
        {y = (length (pre ++ part), (pre ++ part) ++ drop (length part) rest)}
        (λ i. (at i, copied i))
      ∙ gather-copy_chunk p x v m (suc c) (pre ++ part) (drop (length part) rest) full (omega arith)
          (omega (arith, length-drop (length part) rest))
      ∙ append_assoc pre part (drop (suc c * (w * 2)) v)
      ∙ ap (λ u. pre ++ u) parts

element_count : (n : ℕ) → n < 32 → checked_amplitude_element_count n ≡ ok (2 ^ n * 2)
unfolding checked_amplitude_element_count checked_state_count
element_count n few =
    let states = pow-le n 31 (omega arith) in
    let accepted : ltb 63 n ≡ false = ground arith in
    let elems : 2 ^ n * 2 % 2 ^ 64 ≡ 2 ^ n * 2 = omega arith in rw (accepted, elems) refl

module _ {W : Type 0} ⦃d : Double W⦄ {p : CodecPolicy W} {n : ℕ} {v : List W}
    {b : CompressedStateBackend W} (h : Holds p n v b) where
  -- On a compressed backend that holds a vector, cached or compressed, exportAmplitudes gives the
  -- vector, as the dense backend does.
  pub export_amplitudes-Refines :
      Refines p n v b Dense.export_amplitudes (Access.export_amplitudes p)
  unfolding Access.export_amplitudes Dense.export_amplitudes
  export_amplitudes-Refines =
      let full : length v ≡ b.layout.total_states * 2 = omega (arith, h.full, h.total) in
      let size = ap checked_amplitude_element_count h.qubits ∙ element_count n h.few in
      let count = h.holds.good.all_chunks in
      let start : drop (0 * (b.layout.states_per_chunk * 2)) v ≡ v =
        ap (λ k. drop k v) {x = 0 * (b.layout.states_per_chunk * 2)} {y = 0} (omega arith) in
      let blank = replicate (2 ^ n * 2) nought in
      let copied =
        gather-copy_chunk p h.exact v b.layout.chunk_count 0 [] blank full (omega arith)
          (length-replicate (2 ^ n * 2) nought ∙ sym h.full ∙ ap length (sym start)) in
      (
        v,
        v,
        b.cached,
        rw (ensure_initialized-IsWellFormed (sized n v) (sized-IsWellFormed n v h.few h.full)) refl,
        rw
            (
              ensure_initialized-Holds h,
              size,
              count,
              fold_chunks-Holds h (copy_chunk p) b.layout.chunk_count 0 (0, blank) (omega arith),
            )
            (ap (λ out. (ok out, b)) (copied ∙ start)),
        h,
      )
