-- ===== src/Storage/Dense/Cells.antt =====
-- The vector of DenseStateBackend as one cell per state: what a read finds after a write.
use tmfqsfullstate.Prelude.{
  ℕ, ◌+◌, ◌*◌, ◌^◌, ◌<◌, ◌≡◌, ◌≢◌, refl, ap, sym, ◌∙◌, List, arith, length, get_or, set, length-set,
  get_or-set_self, get_or-set_ne, eq_of_get_or, ◌==◌, if◌then◌else◌, ◌/◌, ◌%◌,
}
use native.Mathlib.Decide.{ℕ_discrete}
use tmfqsfullstate.Core.Amplitude.{Double, Amplitude, nought}
use tmfqsfullstate.Storage.PairKernel.Effect.{
  PairUpdate, none_changed, second_changed, both_changed, first_of, second_of,
}
use tmfqsfullstate.Storage.Dense.{DenseStateBackend, read_pair, write_pair, perform, apply_pair}

-- The backend after any successful initialisation of fewer than 32 qubits.
pub record IsWellFormed {W : Type 0} (b : DenseStateBackend W) : Type 0 where
  pub few : b.num_qubits < 32
  pub counted : b.num_states ≡ 2 ^ b.num_qubits
  pub full : length b.amplitudes ≡ 2 ^ b.num_qubits * 2

module _ {W : Type 0} ⦃d : Double W⦄ where
  pub length-write_pair :
      (v : List W) (s : ℕ) (a : Amplitude W) → length (write_pair v s a) ≡ length v
  unfolding write_pair
  length-write_pair v s a =
      length-set (set v (s * 2) a.real) (s * 2 + 1) a.imag ∙ length-set v (s * 2) a.real

  pub read_pair-write_pair_self :
      (v : List W) (s : ℕ) (a : Amplitude W)
      → s * 2 + 1 < length v
      → read_pair (write_pair v s a) s ≡ a
  unfolding read_pair write_pair
  read_pair-write_pair_self v s a h =
      let v' = set v (s * 2) a.real in
      let low : get_or (set v' (s * 2 + 1) a.imag) (s * 2) nought ≡ a.real =
        get_or-set_ne v' (s * 2 + 1) (s * 2) a.imag nought (omega arith)
        ∙ get_or-set_self v (s * 2) a.real nought (omega arith) in
      let high : get_or (set v' (s * 2 + 1) a.imag) (s * 2 + 1) nought ≡ a.imag =
        get_or-set_self v' (s * 2 + 1) a.imag nought (rw (length-set v (s * 2) a.real) h) in
      λ i. record { real = low i; imag = high i }

  pub read_pair-write_pair_ne :
      (v : List W) (s t : ℕ) (a : Amplitude W)
      → s ≢ t
      → read_pair (write_pair v s a) t ≡ read_pair v t
  unfolding read_pair write_pair
  read_pair-write_pair_ne v s t a ne =
      let v' = set v (s * 2) a.real in
      let keep : (i : ℕ)
          → s * 2 ≢ i
          → s * 2 + 1 ≢ i
          → get_or (set v' (s * 2 + 1) a.imag) i nought ≡ get_or v i nought =
        λ i p q.
          get_or-set_ne v' (s * 2 + 1) i a.imag nought q
          ∙ get_or-set_ne v (s * 2) i a.real nought p in
      let low = keep (t * 2) (omega arith) (omega arith) in
      let high = keep (t * 2 + 1) (omega arith) (omega arith) in
      λ i. record { real = low i; imag = high i }

  -- Vectors of `states` cells are equal where all cells are.
  pub eq_of_read_pair :
      (states : ℕ) (v w : List W)
      → length v ≡ states * 2
      → length w ≡ states * 2
      → ((s : ℕ) → s < states → read_pair v s ≡ read_pair w s)
      → v ≡ w
  unfolding read_pair
  eq_of_read_pair states v w hv hw h =
      eq_of_get_or nought v w (omega arith) (λ i lt. at i (omega arith))
    where
      at : (i : ℕ) → i < states * 2 → get_or v i nought ≡ get_or w i nought
      at i lt =
          let cell = h (i / 2) (omega arith) in
          elim (ℕ_discrete (i % 2) 0) [
            | yes e ↦
                let k : i / 2 * 2 ≡ i = omega arith in
                ap (λ j. get_or v j nought) (sym k)
                ∙ ap (λ (a : Amplitude W). a.real) cell
                ∙ ap (λ j. get_or w j nought) k
            | no e ↦
                let k : i / 2 * 2 + 1 ≡ i = omega arith in
                ap (λ j. get_or v j nought) (sym k)
                ∙ ap (λ (a : Amplitude W). a.imag) cell
                ∙ ap (λ j. get_or w j nought) k
          ]

  length-perform :
      (u : PairUpdate (Amplitude W)) (a b : ℕ) (v : List W) → length (perform u a b v) ≡ length v
  unfolding perform
  length-perform none_changed a b v = refl
  length-perform (second_changed y) a b v = length-write_pair v b y
  length-perform (both_changed x y) a b v =
      length-write_pair (write_pair v a x) b y ∙ length-write_pair v a x

  perform-reads :
      (total a b c : ℕ) (v : List W) (u : PairUpdate (Amplitude W))
      → a < total
      → b < total
      → a ≢ b
      → length v ≡ total * 2
      → read_pair (perform u a b v) c ≡ (
          if c == a
          then first_of u (read_pair v a)
          else if c == b
          then second_of u (read_pair v b)
          else read_pair v c)
  unfolding perform
  perform-reads total a b c v none_changed ha hb ne full = ground arith
  perform-reads total a b c v (second_changed y) ha hb ne full =
      ground (arith, read_pair-write_pair_self v b y (omega arith), read_pair-write_pair_ne v b c y)
  perform-reads total a b c v (both_changed x y) ha hb ne full =
      let w = write_pair v a x in
      ground (
        arith,
        read_pair-write_pair_self w b y (rw (length-write_pair v a x) (omega arith)),
        read_pair-write_pair_ne w b c y,
        read_pair-write_pair_self v a x (omega arith),
        read_pair-write_pair_ne v a c x,
      )

  module _ (f : ℕ → ℕ → Amplitude W → Amplitude W → PairUpdate (Amplitude W)) where
    pub length-apply_pair : (a b : ℕ) (v : List W) → length (apply_pair f a b v) ≡ length v
    unfolding apply_pair
    length-apply_pair a b v = length-perform (f a b (read_pair v a) (read_pair v b)) a b v

    pub apply_pair-reads :
        (total a b c : ℕ) (v : List W)
        → a < total
        → b < total
        → a ≢ b
        → length v ≡ total * 2
        → read_pair (apply_pair f a b v) c ≡ (
            if c == a
            then first_of (f a b (read_pair v a) (read_pair v b)) (read_pair v a)
            else if c == b
            then second_of (f a b (read_pair v a) (read_pair v b)) (read_pair v b)
            else read_pair v c)
    unfolding apply_pair
    apply_pair-reads total a b c v ha hb ne full =
        perform-reads total a b c v (f a b (read_pair v a) (read_pair v b)) ha hb ne full
