-- ===== src/Storage/Compressed/Refines.antt =====
-- The compressed backend with a lossless codec does what the dense backend does.
use tmfqsfullstate.Prelude.{
  ℕ, ◌*◌, ◌/◌, ◌%◌, ◌^◌, ◌<◌, ◌≡◌, refl, ◌∙◌, false, List, arith, leb, inl, inr,
}
use tmfqsfullstate.Core.Action.{ok, Action, ◌>>◌}
use tmfqsfullstate.Core.Amplitude.{Double, Amplitude, nought}
use native.Mathlib.Nat.{mod-lt}
use tmfqsfullstate.Storage.ChunkLayout.{state_ref}
use tmfqsfullstate.Storage.ChunkLayout.Chunks.{chunk_of-reads, place}
use tmfqsfullstate.Storage.ChunkCache.Write.{find_buffer-Represents}
use tmfqsfullstate.Storage.ChunkCache.{Cached}
use tmfqsfullstate.Storage.Codec.{CodecPolicy, IsLossless}
use tmfqsfullstate.Storage.Dense
use tmfqsfullstate.Storage.Dense.{DenseStateBackend, read_pair, write_pair}
use tmfqsfullstate.Storage.Dense.Cells.{IsWellFormed}
use tmfqsfullstate.Storage.Dense.Access.{
  sized, sized-IsWellFormed, validate_state-IsWellFormed, amplitude-IsWellFormed,
}
use tmfqsfullstate.Storage.Dense.Kernels.Gates.{ensure_initialized-IsWellFormed}
use tmfqsfullstate.Storage.Compressed.{
  ChunkStorage, CompressedStateBackend, Compressed, validate_state, update_cell, mutate,
  write_amplitude_mutable,
}
use tmfqsfullstate.Storage.Compressed.Access
use tmfqsfullstate.Storage.Compressed.Transforms
use tmfqsfullstate.Storage.Compressed.Holds.{Holds, IsChunkSize}
use tmfqsfullstate.Storage.Compressed.Steps.{
  ensure_initialized-Holds, validate_state-Holds, update_cell-Holds, acquire_chunk-Holds,
  read_cell-Represents, mutate-Holds, held,
}

module _ {W : Type 0} ⦃d : Double W⦄ where
  -- From a vector `v` of `n` qubits, the dense operation returns, and the compressed one returns the
  -- same and holds the vector that the dense one leaves; it changes only the cache and the chunks.
  abbrev pub Refines :
      {A : Type 0}
      → CodecPolicy W
      → ℕ
      → List W
      → CompressedStateBackend W
      → Action (DenseStateBackend W) A
      → Compressed W A
      → Type 0
  Refines {A} p n v b dense_operation operation =
      (a : A) × (v' : List W) × (x' : Cached W (List ChunkStorage)) × (dense_operation (sized n v)
        ≡ (ok a, sized n v'))
      × (operation b ≡ (ok a, record b { cached = x' }))
      × Holds p n v' (record b { cached = x' })

  module _ {p : CodecPolicy W} {n : ℕ} {v : List W} {b : CompressedStateBackend W}
      (h : Holds p n v b)
      (lossless : IsLossless p b.config (IsChunkSize b.layout.states_per_chunk)) where
    dense : IsWellFormed (sized n v)
    dense = sized-IsWellFormed n v h.few h.full

    rewritten :
        (f : Amplitude W → Amplitude W) (s : ℕ)
        → s < 2 ^ n
        → (x' : Cached W (List ChunkStorage)) × (mutate p (validate_state s >> update_cell p f s) b
            ≡ (ok tt, record b { cached = x' }))
          × Holds p n (write_pair v s (f (read_pair v s))) (record b { cached = x' })
    rewritten f s lt =
        let (x', step, h') = update_cell-Holds h lossless f s lt in
        mutate-Holds h lossless (validate_state s >> update_cell p f s) _ x'
          (rw (validate_state-Holds h s lt) step) h'

    -- On a compressed backend with a lossless codec that holds a vector, whatever is cached or not yet
    -- written back, setAmplitude at a state of the register has the effect of the dense backend's.
    pub set_amplitude-Refines :
        (s : ℕ) (a : Amplitude W)
        → s < 2 ^ n
        → Refines p n v b (Dense.set_amplitude s a) (Access.set_amplitude p s a)
    unfolding Access.set_amplitude Dense.set_amplitude write_amplitude_mutable
    set_amplitude-Refines s a lt =
        let inside : leb (2 ^ n) s ≡ false = ground arith in
        let (x', step, h') = rewritten (λ _. a) s lt in
        (
          tt,
          write_pair v s a,
          x',
          rw
              (
                ensure_initialized-IsWellFormed (sized n v) dense,
                validate_state-IsWellFormed (sized n v) s dense,
                inside,
              )
              refl,
          step,
          h',
        )

    -- On a compressed backend with a lossless codec that holds a vector, whatever is cached or not yet
    -- written back, phaseFlipBasisState at a state of the register has the effect of the dense backend's.
    pub phase_flip_basis_state-Refines :
        (s : ℕ)
        → s < 2 ^ n
        → Refines p n v b (Dense.phase_flip_basis_state s) (Transforms.phase_flip_basis_state p s)
    unfolding Transforms.phase_flip_basis_state Dense.phase_flip_basis_state
    phase_flip_basis_state-Refines s lt =
        let inside : leb (2 ^ n) s ≡ false = ground arith in
        let (x', step, h') =
          rewritten (λ a. record { real = d.neg a.real; imag = d.neg a.imag }) s lt in
        (
          tt,
          _,
          x',
          rw
              (
                ensure_initialized-IsWellFormed (sized n v) dense,
                validate_state-IsWellFormed (sized n v) s dense,
                inside,
              )
              refl,
          step,
          h',
        )

    find_amplitude-Holds :
        (s : ℕ)
        → s < 2 ^ n
        → (x' : Cached W (List ChunkStorage)) × (Access.find_amplitude p s b
            ≡ (ok (read_pair v s), record b { cached = x' }))
          × Holds p n v (record b { cached = x' })
    unfolding Access.find_amplitude Access.find_in state_ref read_pair
    find_amplitude-Holds s lt =
        let w = b.layout.states_per_chunk in
        let below : s < b.layout.total_states = omega (arith, h.total) in
        let (inside, at, off) = place h.exact s below in
        let small : s % w * 2 % 2 ^ 64 ≡ s % w * 2 =
          omega (arith, h.exact.small, mod-lt s h.exact.width_pos) in
        let (low, high) = chunk_of-reads h.exact s below v nought in
        elim (find_buffer-Represents (s / w) h.holds inside) [
          | inl (missing, loads) ↦
              let (k, x', step, r, a) = acquire_chunk-Holds h lossless (s / w) inside in
              let reads = read_cell-Represents h s lt k x' r a.placed in
              (x', rw (small, missing, step, reads) refl, held h x' h.full r)
          | inr hit ↦
              (b.cached, rw (small, hit) (λ i. (ok (record { real = low i; imag = high i }), b)), h)
        ]

    -- On a compressed backend with a lossless codec that holds a vector, amplitude at a state of the
    -- register answers as the dense backend does, and the backend holds the same vector whether the
    -- chunk was cached or is now acquired.
    pub amplitude-Refines :
        (s : ℕ) → s < 2 ^ n → Refines p n v b (Dense.amplitude s) (Access.amplitude p s)
    unfolding Access.amplitude
    amplitude-Refines s lt =
        let inside : leb (2 ^ n) s ≡ false = ground arith in
        let (x', step, h') = find_amplitude-Holds s lt in
        (
          read_pair v s,
          v,
          x',
          amplitude-IsWellFormed (sized n v) s dense ∙ rw inside refl,
          rw (ensure_initialized-Holds h, validate_state-Holds h s lt) step,
          h',
        )
