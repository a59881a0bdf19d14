-- ===== src/Storage/Dense/Kernels/Pointwise.antt =====
-- The pair kernels of DenseStateBackend, state by state.
use tmfqsfullstate.Prelude.{
  ℕ, suc, ◌+◌, ◌-◌, ◌*◌, ◌/◌, ◌%◌, ◌^◌, ◌≤◌, ◌<◌, ◌≡◌, ◌≢◌, ap, sym, ◌∙◌, subst, List, arith,
  length, ◌==◌, if◌then◌else◌, mul_le,
}
use native.Mathlib.Decide.{ℕ_discrete, dec_lt}
use native.Mathlib.Nat.{mod-add-div', mod-lt}
use mathlib.Core.Logic.{◌⊎◌, inl, inr}
use tmfqsfullstate.Core.Amplitude.{Double, Amplitude}
use tmfqsfullstate.Core.Validation.{qubit_mask_from_msb_index}
use tmfqsfullstate.Storage.PairKernel.{run_fallback}
use tmfqsfullstate.Storage.PairKernel.Bits.{pow_blocks, pow_pos, pow-le}
use tmfqsfullstate.Storage.PairKernel.Modes.{mask_lem}
use tmfqsfullstate.Storage.PairKernel.Pairs.{each_pair, run_fallback-each_pair}
use tmfqsfullstate.Storage.PairKernel.Effect.{PairUpdate, first_of, second_of, each_pair-reads}
use tmfqsfullstate.Storage.Dense.{read_pair, apply_pair}
use tmfqsfullstate.Storage.Dense.Cells.{length-apply_pair, apply_pair-reads}

-- The cell of a state, from the old cells of its pair: the states whose bit `mask` is clear are first.
abbrev pub paired : {A : Type 0} → (ℕ → ℕ → A → A → PairUpdate A) → ℕ → (ℕ → A) → ℕ → A
paired f mask old s =
    if s / mask % 2 == 0
    then first_of (f s (s + mask) (old s) (old (s + mask))) (old s)
    else second_of (f (s - mask) s (old (s - mask)) (old s)) (old s)

-- A state is the offset `p` of a block `c`, in its first or its second half.
pub record Place (mask blocks s : ℕ) : Type 0 where
  pub c : ℕ
  pub p : ℕ
  pub c_lt : c < blocks
  pub p_lt : p < mask
  pub half :
      ((s ≡ c * (mask * 2) + p) × (s / mask % 2 ≡ 0))
      ⊎ ((s ≡ c * (mask * 2) + p + mask) × (s / mask % 2 ≢ 0))

pub place : (mask blocks s : ℕ) → 0 < mask → s < blocks * (mask * 2) → Place mask blocks s
place mask blocks s pos lt = record {
  c = c;
  p = s % mask;
  c_lt = elim (dec_lt c blocks) [
    | yes q ↦ q
    | no q ↦ absurd (omega (arith, mul_le blocks c (mask * 2) (omega arith), split, below))
  ];
  p_lt = mod-lt s pos;
  half = elim (ℕ_discrete (s / mask % 2) 0) [
    | yes e ↦ inl (omega (arith, split, whole (c * 2) (omega arith), double), e)
    | no ne ↦ inr (omega (arith, split, whole (c * 2 + 1) (omega arith), odd, double), ne)
  ];
}
  where
    c : ℕ
    c = s / mask / 2

    split : s % mask + s / mask * mask ≡ s
    split = mod-add-div' s mask

    whole : (h : ℕ) → s / mask ≡ h → s / mask * mask ≡ h * mask
    whole h e = ap (λ x. x * mask) e

    double : c * 2 * mask ≡ c * (mask * 2)
    double = grind arith

    odd : (c * 2 + 1) * mask ≡ c * 2 * mask + mask
    odd = grind arith

    below : c * (mask * 2) ≤ s / mask * mask
    below = omega (arith, mul_le (c * 2) (s / mask) mask (omega arith), double)

pub paired-first :
    {A : Type 0} (f : ℕ → ℕ → A → A → PairUpdate A) (mask : ℕ) (old : ℕ → A) (a : ℕ)
    → a / mask % 2 ≡ 0
    → paired f mask old a ≡ first_of (f a (a + mask) (old a) (old (a + mask))) (old a)
paired-first f mask old a h = ground (arith, h)

pub paired-second :
    {A : Type 0} (f : ℕ → ℕ → A → A → PairUpdate A) (mask : ℕ) (old : ℕ → A) (a : ℕ)
    → (a + mask) / mask % 2 ≢ 0
    → paired f mask old (a + mask)
      ≡ second_of (f a (a + mask) (old a) (old (a + mask))) (old (a + mask))
paired-second f mask old a h =
    let back : a + mask - mask ≡ a = omega arith in
    ground (
      arith,
      h,
      ap (λ x. second_of (f x (a + mask) (old x) (old (a + mask))) (old (a + mask))) back,
    )

module _ {W : Type 0} ⦃d : Double W⦄
    (f : ℕ → ℕ → Amplitude W → Amplitude W → PairUpdate (Amplitude W)) where
  -- One callback over all pairs of one target qubit.
  pub run_fallback-paired :
      (n q s : ℕ) (v : List W)
      → n < 32
      → q < n
      → length v ≡ 2 ^ n * 2
      → let mask = qubit_mask_from_msb_index q n in
        let w = run_fallback (2 ^ n) mask (apply_pair f) v in
        (length w ≡ 2 ^ n * 2) × (s < 2 ^ n → read_pair w s ≡ paired f mask (read_pair v) s)
  run_fallback-paired n q s v few lt full =
      let (kept, cells) = reads in
      rw
        (
          mask_lem n q few lt,
          run_fallback-each_pair blocks mask (2 ^ n) (apply_pair f) v (pow_pos m) small states,
        )
        (kept, λ below. cell below (place mask blocks s (pow_pos m) (omega (arith, states))))
    where
      m : ℕ
      m = n - suc q

      mask : ℕ
      mask = 2 ^ m

      blocks : ℕ
      blocks = 2 ^ (n - suc m)

      states : 2 ^ n ≡ blocks * (mask * 2)
      states = pow_blocks m n (omega arith)

      small : mask * 2 < 2 ^ 32
      small = omega (arith, pow-le m 30 (omega arith))

      reads :
          let w = each_pair blocks mask (apply_pair f) v in
          (length w ≡ 2 ^ n * 2)
          × ((c p : ℕ)
              → c < blocks
              → p < mask
              → let a = c * (mask * 2) + p in
                (read_pair w a
                  ≡ first_of
                      (f a (a + mask) (read_pair v a) (read_pair v (a + mask)))
                      (read_pair v a))
                × (read_pair w (a + mask)
                    ≡ second_of
                        (f a (a + mask) (read_pair v a) (read_pair v (a + mask)))
                        (read_pair v (a + mask))))
      reads =
          each_pair-reads read_pair (λ w. length w ≡ 2 ^ n * 2) f (apply_pair f) (2 ^ n)
            (λ a b w ha hb e. length-apply_pair f a b w ∙ e)
            (λ a b c w ha hb ne e. apply_pair-reads f (2 ^ n) a b c w ha hb ne e) blocks mask
            (omega (arith, states)) v full

      cell :
          s < 2 ^ n
          → Place mask blocks s
          → read_pair (each_pair blocks mask (apply_pair f) v) s ≡ paired f mask (read_pair v) s
      cell below x =
          let (kept, cells) = reads in
          let (first, second) = cells x.c x.p x.c_lt x.p_lt in
          elim x.half [
            | inl (e, even) ↦
                at (λ x. x / mask % 2 ≡ 0) e even
                  (λ h. first ∙ sym (paired-first f mask (read_pair v) (x.c * (mask * 2) + x.p) h))
            | inr (e, odd) ↦
                at (λ x. x / mask % 2 ≢ 0) e odd
                  (λ h.
                    second ∙ sym (paired-second f mask (read_pair v) (x.c * (mask * 2) + x.p) h))
          ]
        where
          at :
              (P : ℕ → Type 0) {a : ℕ}
              → s ≡ a
              → P s
              → (P a
                  → read_pair (each_pair blocks mask (apply_pair f) v) a
                    ≡ paired f mask (read_pair v) a)
              → read_pair (each_pair blocks mask (apply_pair f) v) s ≡ paired f mask (read_pair v) s
          at P e h k =
              subst
                (λ x.
                  P x
                  → read_pair (each_pair blocks mask (apply_pair f) v) x
                    ≡ paired f mask (read_pair v) x)
                (sym e) k h
