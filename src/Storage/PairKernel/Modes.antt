-- ===== src/Storage/PairKernel/Modes.antt =====
-- Whatever the chunk width, the mode that `selectMode` picks visits the pairs of `runFallback`.
use Prim.Native.Nat.{bit_and}
use native.Mathlib.Decide.{dec_lt, ℕ_discrete}
use native.Mathlib.Nat.{mul-add-div_right, div-eq_of_lt, div-add-mod'}
use tmfqsfullstate.Prelude.{
  ℕ, suc, ◌+◌, ◌-◌, ◌*◌, ◌/◌, ◌%◌, ◌^◌, ◌≤◌, ◌<◌, ◌≡◌, ◌⊎◌, inl, inr, refl, ap, sym, subst, ◌∙◌,
  arith, mul_le,
}
use tmfqsfullstate.Core.Action.{ok}
use tmfqsfullstate.Core.Validation.{qubit_mask_from_msb_index}
use tmfqsfullstate.Storage.ChunkLayout.{ChunkLayout, make_chunk_layout}
use tmfqsfullstate.Storage.ChunkLayout.Bounds.{
  IsExact, make_chunk_layout-IsExact, chunk_elems_lem, chunk_begin_state_lem,
}
use tmfqsfullstate.Storage.PairKernel.{
  PairKernelMode, fallback, intra_chunk, inter_chunk, select_mode, run_fallback, run_intra_chunk,
  run_inter_chunk,
}
use tmfqsfullstate.Storage.PairKernel.Bits.{
  pow_pos, pow_split, pow_blocks, pow-le, lt_of_pow-lt, le_of_pow-le, power_of_bit_and,
}
use tmfqsfullstate.Storage.PairKernel.Chunked.{
  IsEven, Callback, at_states, run_intra_chunk-run_fallback, run_inter_chunk-run_fallback,
}

module _ {l : ChunkLayout} (count held : ℕ) (x : IsExact l) where
  module _ (total : l.total_states ≡ count * held) (pos : 0 < held)
      (fits : held ≤ l.states_per_chunk) (full : (held ≡ l.states_per_chunk) ⊎ (count ≡ 1)) where
    count_full : held ≡ l.states_per_chunk → l.chunk_count ≡ count
    count_full e =
        let t : l.total_states ≡ count * l.states_per_chunk = total ∙ ap (λ k. count * k) e in
        let upper : ¬ (count < l.chunk_count) = λ h. absurd (omega (arith, x.tight count h)) in
        let lower : ¬ (l.chunk_count < count) = λ h.
          absurd
            (omega (arith, mul_le (suc l.chunk_count) count l.states_per_chunk h, x.covered)) in
        omega (arith, x.width_pos)

    count_one : count ≡ 1 → l.chunk_count ≡ count
    count_one e =
        let t : l.total_states ≡ held = total ∙ ap (λ k. k * held) e ∙ omega arith in
        let upper : ¬ (1 < l.chunk_count) = λ h. absurd (omega (arith, x.tight 1 h)) in
        let some_chunk : 0 < l.chunk_count = elim (dec_lt 0 l.chunk_count) [
          | yes p ↦ p
          | no p ↦
              let none_ : l.chunk_count ≡ 0 = omega arith in
              let covered : l.total_states ≤ 0 * l.states_per_chunk =
                subst (λ k. l.total_states ≤ k * l.states_per_chunk) none_ x.covered in
              absurd (omega arith)
        ] in
        omega arith

    count-eq : l.chunk_count ≡ count
    count-eq = elim full [ inl e ↦ count_full e | inr e ↦ count_one e ]

    aligned : (c : ℕ) → c < l.chunk_count → c * held ≡ c * l.states_per_chunk
    aligned c h = elim full [
      | inl e ↦ ap (λ k. c * k) e
      | inr e ↦
          let c0 : c ≡ 0 = omega (arith, count-eq) in
          ap (λ k. k * held) c0 ∙ omega arith ∙ ap (λ k. k * l.states_per_chunk) (sym c0)
    ]

    rest_of : (c : ℕ) → c < l.chunk_count → held ≤ l.total_states - c * l.states_per_chunk
    rest_of c h =
        let below : suc c * held ≤ count * held =
          mul_le (suc c) count held (omega (arith, count-eq)) in
        omega (arith, aligned c h)

    only :
        (c : ℕ)
        → c < l.chunk_count
        → (held ≡ l.states_per_chunk) ⊎ (l.total_states - c * l.states_per_chunk ≡ held)
    only c h = elim full [
      | inl e ↦ inl e
      | inr e ↦
          let t : l.total_states ≡ held = total ∙ ap (λ k. k * held) e ∙ omega arith in
          let c0 : c ≡ 0 = omega (arith, count-eq) in
          inr (ap (λ k. l.total_states - k * l.states_per_chunk) c0 ∙ omega arith)
    ]

    index_at : (c a : ℕ) → c < l.chunk_count → a < held → (c * held + a) / l.states_per_chunk ≡ c
    index_at c a h k = rw (aligned c h) (
        mul-add-div_right x.width_pos c a
        ∙ omega (arith, div-eq_of_lt {n = a} {m = l.states_per_chunk} (omega arith)))

    pub IsEven-chunks : (l.chunk_count ≡ count) × IsEven l held
    IsEven-chunks = (
      count-eq,
      record {
        fits = fits;
        wide = omega (arith, x.small);
        elems = λ c h. chunk_elems_lem x c h ∙ omega (arith, rest_of c h, only c h);
        begins = λ c h. chunk_begin_state_lem x c h ∙ sym (aligned c h);
        indexed = index_at;
        offset = λ c a h k.
            let n = c * held + a in
            let parts = div-add-mod' n l.states_per_chunk in
            let q : n / l.states_per_chunk * l.states_per_chunk ≡ c * l.states_per_chunk =
              ap (λ k. k * l.states_per_chunk) (index_at c a h k) in
            omega (arith, aligned c h);
        total = total ∙ ap (λ k. k * held) (sym count-eq);
      },
    )

-- The traversal of a mode, as `runPairKernel` calls it.
abbrev pub run_mode : {S : Type 0} → PairKernelMode → ChunkLayout → ℕ → Callback S → S → S
run_mode fallback l mask f = run_fallback l.total_states mask (at_states l f)
run_mode intra_chunk l mask f =
    run_intra_chunk l mask (λ chunk local0 local1 a b. f chunk local0 chunk local1 a b)
run_mode inter_chunk l mask f =
    run_inter_chunk l mask (λ chunk0 chunk1 local a b. f chunk0 local chunk1 local a b)

IsPower : ℕ → Type 0
IsPower w = (k : ℕ) × (w ≡ 2 ^ k)

select_mode-cases :
    (l : ChunkLayout) (mask : ℕ)
    → (select_mode l mask ≡ fallback)
      ⊎ ((select_mode l mask ≡ intra_chunk)
          × IsPower l.states_per_chunk
          × (mask < l.states_per_chunk))
      ⊎ ((select_mode l mask ≡ inter_chunk)
          × IsPower l.states_per_chunk
          × (l.states_per_chunk ≤ mask)
          × (mask % l.states_per_chunk ≡ 0))
unfolding select_mode IsPower
select_mode-cases l mask =
    let w = l.states_per_chunk in
    elim (dec_lt 0 w) [
      | yes pos ↦ elim (ℕ_discrete (bit_and w (w - 1)) 0) [
        | yes e ↦
            let (k, p) = power_of_bit_and w pos e in
            elim (dec_lt mask w) [
              | yes lt ↦ inr (inl (ground arith, (k, p), lt))
              | no ge ↦ elim (ℕ_discrete (mask % w) 0) [
                | yes z ↦ inr (inr (ground arith, (k, p), omega arith, z))
                | no nz ↦ inl (ground arith)
              ]
            ]
        | no ne ↦ inl (ground arith)
      ]
      | no p ↦ inl (ground arith)
    ]

pub mask_lem : (n q : ℕ) → n < 32 → q < n → qubit_mask_from_msb_index q n ≡ 2 ^ (n - suc q)
unfolding qubit_mask_from_msb_index
mask_lem n q small below =
    let e : 2 ^ (n - q - 1) ≡ 2 ^ (n - suc q) = ap (λ x. 2 ^ x) (omega arith) in
    let bound : 2 ^ (n - suc q) ≤ 2 ^ 31 = pow-le (n - suc q) 31 (omega arith) in rw e (omega arith)

module _ {S : Type 0} {l : ChunkLayout} (n m k : ℕ) (x : IsExact l) (total : l.total_states ≡ 2 ^ n)
    (power : l.states_per_chunk ≡ 2 ^ k) (small : n < 32) (inside : m < n) (f : Callback S)
    (s : S) where
  blocks-fit : 2 ^ m * 2 < 2 ^ 32
  blocks-fit = omega (arith, pow-le m 30 (omega arith))

  intra_by_blocks :
      (b : ℕ)
      → m < b
      → IsEven l (2 ^ b)
      → run_mode intra_chunk l (2 ^ m) f s ≡ run_fallback (2 ^ n) (2 ^ m) (at_states l f) s
  intra_by_blocks b h e =
      run_intra_chunk-run_fallback l (2 ^ (b - suc m)) (2 ^ m) f s (pow_pos m) blocks-fit
        (subst (IsEven l) (pow_blocks m b h) e)
      ∙ ap (λ t. run_fallback t (2 ^ m) (at_states l f) s) total

  intra_power :
      m < k → run_mode intra_chunk l (2 ^ m) f s ≡ run_fallback (2 ^ n) (2 ^ m) (at_states l f) s
  intra_power h = elim (dec_lt n k) [
    | yes short ↦
        intra_by_blocks n inside
          (IsEven-chunks 1 (2 ^ n) x (total ∙ omega arith) (pow_pos n)
            (omega (arith, pow-le n k (omega arith))) (inr refl)).1
    | no long ↦
        intra_by_blocks k h
          (IsEven-chunks (2 ^ (n - k)) (2 ^ k) x (total ∙ pow_split k n (omega arith)) (pow_pos k)
            (omega arith) (inl (sym power))).1
  ]

  inter_power :
      k ≤ m → run_mode inter_chunk l (2 ^ m) f s ≡ run_fallback (2 ^ n) (2 ^ m) (at_states l f) s
  inter_power h =
      let w = l.states_per_chunk in
      let delta = 2 ^ (m - k) in
      let mask : 2 ^ m ≡ delta * w = pow_split k m h ∙ ap (λ t. delta * t) (sym power) in
      let (count, even) =
        IsEven-chunks (2 ^ (n - k)) w x
          (total ∙ pow_split k n (omega arith) ∙ ap (λ t. 2 ^ (n - k) * t) (sym power)) x.width_pos
          (omega arith) (inl refl) in
      let groups : 2 ^ (n - k) ≡ 2 ^ (n - k - suc (m - k)) * (delta * 2) =
        pow_blocks (m - k) (n - k) (omega arith) in
      rw mask (
        run_inter_chunk-run_fallback l (2 ^ (n - k - suc (m - k))) delta f s x.width_pos
          (pow_pos (m - k)) (omega (arith, blocks-fit)) (count ∙ groups) even
        ∙ ap (λ t. run_fallback t (delta * w) (at_states l f) s) total)

-- On a register of up to 31 qubits, for each chunk width up to 2^61 and each target qubit, the
-- traversal that `selectMode` picks has the same effect as `runFallback` for every callback: it
-- visits the same pairs in the same order, and gives for each state the chunk and the place that
-- `stateRef` computes.
pub run_mode-run_fallback :
    {S : Type 0} (num_qubits qubit width : ℕ) (f : Callback S) (s : S) {l : ChunkLayout}
    → num_qubits < 32
    → qubit < num_qubits
    → width ≤ 2 ^ 61
    → make_chunk_layout (2 ^ num_qubits) width ≡ ok l
    → let mask = qubit_mask_from_msb_index qubit num_qubits in
      run_mode (select_mode l mask) l mask f s
      ≡ run_fallback (2 ^ num_qubits) mask (at_states l f) s
unfolding IsPower
run_mode-run_fallback n q width f s {l} small below narrow made =
    let states = pow-le n 31 (omega arith) in
    let (x, total, wide) = make_chunk_layout-IsExact (2 ^ n) width (omega arith) made in
    let m = n - suc q in
    rw (mask_lem n q small below) (elim (select_mode-cases l (2 ^ m)) [
      | inl e ↦ rw (e, total) refl
      | inr (inl (e, p, lt)) ↦
          let (k, power) = p in
          rw e (
            intra_power n m k x total power small (omega arith) f s
              (lt_of_pow-lt m k (omega arith)))
      | inr (inr (e, p, le, z)) ↦
          let (k, power) = p in
          rw e (
            inter_power n m k x total power small (omega arith) f s
              (le_of_pow-le k m (omega arith)))
    ])
