-- ===== src/Storage/PairKernel/Effect.antt =====
-- What a traversal of all pairs does, for any storage of amplitudes that a callback can read and
-- write: each pair is updated once, from its values before the traversal.
use mathlib.Core.Path.{ap₂}
use native.Mathlib.Decide.{dec_lt, ℕ_discrete}
use tmfqsfullstate.Prelude.{
  ℕ, suc, ◌+◌, ◌*◌, ◌≤◌, ◌<◌, ◌≡◌, ◌≢◌, ap, subst, Bool, ◌&&◌, ◌||◌, arith, ltb, ◌==◌,
  if◌then◌else◌, mul_le, range, range_ind,
}
use tmfqsfullstate.Storage.PairKernel.Pairs.{each_pair}

-- What a pair callback does to its two amplitudes: the `PairMutation` with the values written.
pub data PairUpdate (A : Type 0) : Type 0 where
  none_changed : PairUpdate A
  second_changed : A → PairUpdate A
  both_changed : A → A → PairUpdate A

module _ {A : Type 0} where
  abbrev pub first_of : PairUpdate A → A → A
  first_of none_changed a = a
  first_of (second_changed y) a = a
  first_of (both_changed x y) a = x

  abbrev pub second_of : PairUpdate A → A → A
  second_of none_changed a = a
  second_of (second_changed y) a = y
  second_of (both_changed x y) a = y

-- Two pairs share no state.
apart :
    (mask b o c p : ℕ)
    → o < mask
    → p < mask
    → (b ≡ c → o ≢ p)
    → (c * (mask * 2) + p ≢ b * (mask * 2) + o)
      × (c * (mask * 2) + p ≢ b * (mask * 2) + o + mask)
      × (c * (mask * 2) + p + mask ≢ b * (mask * 2) + o)
      × (c * (mask * 2) + p + mask ≢ b * (mask * 2) + o + mask)
apart mask b o c p ho hp ne = elim (dec_lt b c) [
  | yes h ↦ omega (arith, mul_le (suc b) c (mask * 2) h)
  | no h ↦ elim (dec_lt c b) [
    | yes k ↦ omega (arith, mul_le (suc c) b (mask * 2) k)
    | no k ↦ let e : b ≡ c = omega arith in omega (arith, ne e, ap (λ x. x * (mask * 2)) e)
  ]
]

module _ {S A : Type 0} (read : S → ℕ → A) (Ok : S → Type 0) (update : ℕ → ℕ → A → A → PairUpdate A)
    (body : ℕ → ℕ → S → S) (total : ℕ)
    (keeps : (a b : ℕ) (s : S) → a < total → b < total → Ok s → Ok (body a b s))
    (writes : (a b c : ℕ) (s : S)
      → a < total
      → b < total
      → a ≢ b
      → Ok s
      → read (body a b s) c ≡ (
          if c == a
          then first_of (update a b (read s a) (read s b)) (read s a)
          else if c == b
          then second_of (update a b (read s a) (read s b)) (read s b)
          else read s c)) where
  -- The pairs below offset `o` of block `b` are done.
  abbrev done : ℕ → ℕ → ℕ → ℕ → Bool
  done b o c p = ltb c b || (c == b && ltb p o)

  module _ (blocks mask : ℕ) (covers : blocks * (mask * 2) ≤ total) (s : S) where
    abbrev low : ℕ → ℕ → ℕ
    low c p = c * (mask * 2) + p

    abbrev old : ℕ → ℕ → PairUpdate A
    old c p = update (low c p) (low c p + mask) (read s (low c p)) (read s (low c p + mask))

    record Cell (b o : ℕ) (t : S) (c p : ℕ) : Type 0 where
      first :
          read t (low c p)
          ≡ (if done b o c p then first_of (old c p) (read s (low c p)) else read s (low c p))
      second : read t (low c p + mask) ≡ (
          if done b o c p
          then second_of (old c p) (read s (low c p + mask))
          else read s (low c p + mask))

    record Progress (b o : ℕ) (t : S) : Type 0 where
      fine : Ok t
      cells : (c p : ℕ) → c < blocks → p < mask → Cell b o t c p

    inside : (c p : ℕ) → c < blocks → p < mask → low c p + mask < total
    inside c p hc hp = omega (arith, mul_le (suc c) blocks (mask * 2) hc)

    step :
        (b o : ℕ) (t : S)
        → b < blocks
        → o < mask
        → Progress b o t
        → Progress b (suc o) (body (low b o) (low b o + mask) t)
    step b o t hb ho q = record {
      fine = keeps a z t (omega (arith, edge)) edge q.fine;
      cells = λ c p hc hp. elim (ℕ_discrete b c) [
        | yes e ↦ elim (ℕ_discrete o p) [
          | yes f ↦
              subst (λ c'. Cell b (suc o) after c' p) e (subst (Cell b (suc o) after b) f here)
          | no nf ↦ elsewhere c p hc hp (λ _. nf)
        ]
        | no ne ↦ elsewhere c p hc hp (λ e. absurd (ne e))
      ];
    }
      where
        a : ℕ
        a = low b o

        z : ℕ
        z = a + mask

        edge : z < total
        edge = inside b o hb ho

        after : S
        after = body a z t

        cell : Cell b o t b o
        cell = q.cells b o hb ho

        write :
            (c : ℕ)
            → read after c ≡ (
                if c == a
                then first_of (update a z (read t a) (read t z)) (read t a)
                else if c == z
                then second_of (update a z (read t a) (read t z)) (read t z)
                else read t c)
        write c = writes a z c t (omega (arith, edge)) edge (omega arith) q.fine

        here : Cell b (suc o) after b o
        here =
            let first' : read t a ≡ read s a = ground (arith, cell.first) in
            let second' : read t z ≡ read s z = ground (arith, cell.second) in
            let same : update a z (read t a) (read t z) ≡ old b o =
              ap₂ (update a z) first' second' in
            record {
              first = ground (arith, write a, first', same);
              second = ground (arith, write z, second', same);
            }

        elsewhere : (c p : ℕ) → c < blocks → p < mask → (b ≡ c → o ≢ p) → Cell b (suc o) after c p
        elsewhere c p hc hp ne =
            let other = q.cells c p hc hp in
            let sep = apart mask b o c p ho hp ne in
            record {
              first = ground (arith, write (low c p), other.first, sep, ne);
              second = ground (arith, write (low c p + mask), other.second, sep, ne);
            }

    next_block : (b : ℕ) (t : S) → Progress b mask t → Progress (suc b) 0 t
    next_block b t q = record {
      fine = q.fine;
      cells = λ c p hc hp.
          let cell = q.cells c p hc hp in
          let same : done b mask c p ≡ done (suc b) 0 c p = ground arith in
          record { first = rw (← same) cell.first; second = rw (← same) cell.second };
    }

    block :
        (b : ℕ) (t : S)
        → b < blocks
        → Progress b 0 t
        → Progress (suc b) 0 (range mask 0 (λ o. body (low b o) (low b o + mask)) t)
    block b t hb q = next_block b (range mask 0 (λ o. body (low b o) (low b o + mask)) t) (
        range_ind (Progress b) mask 0 mask (λ o. body (low b o) (low b o + mask)) t (omega arith)
          (λ o u lo hi r. step b o u hb hi r) q)

    start : Ok s → Progress 0 0 s
    start h = record {
      fine = h;
      cells = λ c p hc hp. record { first = ground arith; second = ground arith };
    }

    all_done : Ok s → Progress blocks 0 (each_pair blocks mask body s)
    unfolding each_pair
    all_done h =
        range_ind (λ b. Progress b 0) blocks 0 blocks _ s (omega arith)
          (λ b t lo hi q. block b t hi q) (start h)

    pub each_pair-reads :
        Ok s
        → Ok (each_pair blocks mask body s)
          × ((c p : ℕ)
              → c < blocks
              → p < mask
              → (read (each_pair blocks mask body s) (low c p)
                  ≡ first_of (old c p) (read s (low c p)))
                × (read (each_pair blocks mask body s) (low c p + mask)
                    ≡ second_of (old c p) (read s (low c p + mask))))
    each_pair-reads h =
        let q = all_done h in
        (
          q.fine,
          λ c p hc hp.
              let cell = q.cells c p hc hp in
              (ground (arith, cell.first), ground (arith, cell.second)),
        )
