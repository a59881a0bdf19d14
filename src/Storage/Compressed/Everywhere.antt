-- ===== src/Storage/Compressed/Everywhere.antt =====
-- The operations that rewrite every amplitude refine those of the dense backend.
use tmfqsfullstate.Prelude.{
  ℕ, zero, suc, ◌+◌, ◌*◌, ◌/◌, ◌≤◌, ◌<◌, ◌≡◌, refl, ap, sym, ◌∙◌, true, ◌&&◌, List, [], ◌∷◌, arith,
  leb, ltb, if◌then◌else◌, take, drop,
}
use tmfqsfullstate.Core.Action.{ok}
use tmfqsfullstate.Core.Amplitude.{Double, Amplitude}
use tmfqsfullstate.Storage.ChunkCache.{Cached, mark_dirty, write_buffer, on_cache}
use tmfqsfullstate.Storage.ChunkCache.Represents.{Represents, Represents-congr}
use tmfqsfullstate.Storage.ChunkCache.Acquire.{acquire-Represents}
use tmfqsfullstate.Storage.ChunkCache.Write.{update, written-Represents}
use tmfqsfullstate.Storage.ChunkLayout.{chunk_elems, ChunkLayout}
use tmfqsfullstate.Storage.ChunkLayout.Bounds.{IsExact, chunk_elems_lem}
use tmfqsfullstate.Storage.ChunkLayout.Chunks.{chunk_of}
use tmfqsfullstate.Storage.Codec.{CodecPolicy, IsLossless}
use tmfqsfullstate.Storage.Dense
use tmfqsfullstate.Storage.Dense.{map_pairs, invert_about, affine}
use tmfqsfullstate.Storage.Dense.Backend.{length-map_pairs}
use tmfqsfullstate.Storage.Dense.Access.{sized, sized-IsWellFormed}
use tmfqsfullstate.Storage.Dense.Kernels.Gates.{ensure_initialized-IsWellFormed}
use tmfqsfullstate.Storage.Compressed.{
  ChunkStorage, CompressedStateBackend, chunk_store, acquire_chunk, on_cached, on_slots, mutate,
}
use tmfqsfullstate.Storage.Compressed.Transforms
use tmfqsfullstate.Storage.Compressed.Transforms.{transform_chunks, transform_all}
use tmfqsfullstate.Storage.Compressed.Holds.{Holds, IsChunkSize, IsCounted, chunk_store-IsStore}
use tmfqsfullstate.Storage.Compressed.Steps.{mutate-Holds, held}
use tmfqsfullstate.Storage.Compressed.Refines.{Refines}

module _ {W : Type 0} ⦃d : Double W⦄ (f : Amplitude W → Amplitude W) where
  map_pairs-take :
      (n : ℕ) (v : List W) → take (n * 2) (map_pairs f v) ≡ map_pairs f (take (n * 2) v)
  unfolding map_pairs
  map_pairs-take zero v = refl
  map_pairs-take (suc n) [] = let e : suc n * 2 ≡ suc (suc (n * 2)) = omega arith in rw e (refl)
  map_pairs-take (suc n) (x ∷ []) =
      let e : suc n * 2 ≡ suc (suc (n * 2)) = omega arith in rw e (refl)
  map_pairs-take (suc n) (x ∷ y ∷ v) =
      let e : suc n * 2 ≡ suc (suc (n * 2)) = omega arith in
      rw e (
        ap
          (λ u.
            (f (record { real = x; imag = y })).real ∷ (f (record { real = x; imag = y })).imag ∷ u)
          (map_pairs-take n v))

  map_pairs-drop :
      (n : ℕ) (v : List W) → drop (n * 2) (map_pairs f v) ≡ map_pairs f (drop (n * 2) v)
  unfolding map_pairs
  map_pairs-drop zero v = refl
  map_pairs-drop (suc n) [] = let e : suc n * 2 ≡ suc (suc (n * 2)) = omega arith in rw e (refl)
  map_pairs-drop (suc n) (x ∷ []) =
      let e : suc n * 2 ≡ suc (suc (n * 2)) = omega arith in rw e (refl)
  map_pairs-drop (suc n) (x ∷ y ∷ v) =
      let e : suc n * 2 ≡ suc (suc (n * 2)) = omega arith in rw e (map_pairs-drop n v)

  chunk_of-map_pairs :
      {l : ChunkLayout}
      → IsExact l
      → (v : List W) (c : ℕ) → c < l.chunk_count
      → chunk_of l (map_pairs f v) c ≡ map_pairs f (chunk_of l v c)
  chunk_of-map_pairs {l} x v c h =
      let w = l.states_per_chunk in
      let half = chunk_elems l c / 2 in
      let size : chunk_elems l c ≡ half * 2 = omega (arith, chunk_elems_lem x c h) in
      let base : c * (w * 2) ≡ c * w * 2 = grind arith in
      rw (size, base)
        (ap (take (half * 2)) (map_pairs-drop (c * w) v) ∙ map_pairs-take half (drop (c * w * 2) v))

  module _ {p : CodecPolicy W} where
    -- The chunks of `n` chunks from `c` on are rewritten.
    transform_chunks-Represents :
        (n c : ℕ) (g : ℕ → List W) (b : CompressedStateBackend W)
        → IsExact b.layout
        → IsLossless p b.config (IsChunkSize b.layout.states_per_chunk)
        → c + n ≤ b.layout.chunk_count
        → Represents
            (chunk_store p b.config)
            b.layout.chunk_count
            (chunk_elems b.layout)
            (IsCounted b.layout)
            g
            b.cached
        → (x' : Cached W (List ChunkStorage)) × (transform_chunks p f n c b
            ≡ (ok tt, record b { cached = x' }))
          × Represents
              (chunk_store p b.config)
              b.layout.chunk_count
              (chunk_elems b.layout)
              (IsCounted b.layout)
              (λ j. if leb c j && ltb j (c + n) then map_pairs f (g j) else g j)
              x'
    unfolding transform_chunks acquire_chunk on_slots on_cached on_cache
    transform_chunks-Represents zero c g b x lossless inside r =
        (b.cached, refl, Represents-congr (λ j q. ground arith) r)
    transform_chunks-Represents (suc n) c g b x lossless inside r =
        let below : c < b.layout.chunk_count = omega arith in
        let (k, x', step, r', a) =
          acquire-Represents (chunk_store-IsStore p x lossless) r c below in
        let buffer = r'.cached c k (r'.chunk_of c k a.placed) in
        let w =
          written-Represents r' c k a.placed (map_pairs f (g c))
            (length-map_pairs f (g c) ∙ r.sized c below) in
        let b' = record b {
          cached = record {
            cache = mark_dirty k (write_buffer k (map_pairs f (g c)) x'.cache);
            store = x'.store;
          };
        } in
        let (x'', rest, r'') =
          transform_chunks-Represents n (suc c) (update g c (map_pairs f (g c))) b' x lossless
            (omega arith) w in
        (x'', rw (step, buffer) rest, Represents-congr (λ j q. ground arith) r'')

  module _ {p : CodecPolicy W} {n : ℕ} {v : List W} {b : CompressedStateBackend W}
      (h : Holds p n v b)
      (lossless : IsLossless p b.config (IsChunkSize b.layout.states_per_chunk)) where
    pub transform_all-Holds :
        (x' : Cached W (List ChunkStorage)) × (transform_all p f b
          ≡ (ok tt, record b { cached = x' }))
        × Holds p n (map_pairs f v) (record b { cached = x' })
    unfolding transform_all
    transform_all-Holds =
        let count = h.holds.good.all_chunks in
        let (x', step, r) =
          transform_chunks-Represents b.layout.chunk_count 0 (chunk_of b.layout v) b h.exact
            lossless (omega arith) h.holds in
        (
          x',
          ap (λ m. transform_chunks p f m 0 b) count ∙ step,
          held h x' (length-map_pairs f v ∙ h.full) (
              Represents-congr
                (λ j q.
                  let inside : ltb j (0 + b.layout.chunk_count) ≡ true = ground arith in
                  let first : leb 0 j ≡ true = ground arith in
                  rw (first, inside) (sym (chunk_of-map_pairs h.exact v j q)))
                r),
        )

    everywhere :
        (x' : Cached W (List ChunkStorage)) × (mutate p (transform_all p f) b
          ≡ (ok tt, record b { cached = x' }))
        × Holds p n (map_pairs f v) (record b { cached = x' })
    everywhere =
        let (x', step, h') = transform_all-Holds in
        mutate-Holds h lossless (transform_all p f) _ x' step h'

module _ {W : Type 0} ⦃d : Double W⦄ {p : CodecPolicy W} {n : ℕ} {v : List W}
    {b : CompressedStateBackend W} (h : Holds p n v b)
    (lossless : IsLossless p b.config (IsChunkSize b.layout.states_per_chunk)) where
  -- On a compressed backend with a lossless codec that holds a vector, the affine transform of every
  -- amplitude, chunk by chunk through the cache, has the effect of the dense backend's.
  pub apply_affine_transform-Refines :
      (scale bias : Amplitude W)
      → Refines p n v b
          (Dense.apply_affine_transform scale bias)
          (Transforms.apply_affine_transform p scale bias)
  unfolding Transforms.apply_affine_transform Dense.apply_affine_transform
  apply_affine_transform-Refines scale bias =
      let (x', step, h') = everywhere (affine scale bias) h lossless in
      (
        tt,
        map_pairs (affine scale bias) v,
        x',
        rw (ensure_initialized-IsWellFormed (sized n v) (sized-IsWellFormed n v h.few h.full)) refl,
        step,
        h',
      )

  pub inversion_about-Refines :
      (mean : Amplitude W)
      → Refines p n v b (Dense.inversion_about mean) (Transforms.inversion_about p mean)
  unfolding Transforms.inversion_about Dense.inversion_about
  inversion_about-Refines mean =
      let (x', step, h') = everywhere (invert_about mean) h lossless in
      (
        tt,
        map_pairs (invert_about mean) v,
        x',
        rw (ensure_initialized-IsWellFormed (sized n v) (sized-IsWellFormed n v h.few h.full)) refl,
        step,
        h',
      )
