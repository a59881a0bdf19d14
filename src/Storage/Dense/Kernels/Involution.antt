-- ===== src/Storage/Dense/Kernels/Involution.antt =====
-- The swapping gates of DenseStateBackend, run twice.
use native.Mathlib.Nat.{add-div_right, div-eq-sub-div, mod-add-div'}
use mathlib.Core.Logic.{inl, inr}
use tmfqsfullstate.Prelude.{
  ℕ, suc, ◌+◌, ◌-◌, ◌*◌, ◌/◌, ◌%◌, ◌^◌, ◌≤◌, ◌<◌, ◌≡◌, ◌≢◌, ap, sym, ◌∙◌, subst, arith, mul_le,
}
use native.Mathlib.Decide.{ℕ_discrete}
use tmfqsfullstate.Core.Action.{ok, ◌>>◌, >>-ok}
use tmfqsfullstate.Core.Amplitude.{Double, Amplitude}
use tmfqsfullstate.Core.Validation.{qubit_mask_from_msb_index}
use tmfqsfullstate.Storage.PairKernel.Bits.{pow_pos, pow_blocks}
use tmfqsfullstate.Storage.PairKernel.Modes.{mask_lem}
use tmfqsfullstate.Storage.PairKernel.Effect.{PairUpdate, first_of, second_of}
use tmfqsfullstate.Storage.Dense.{DenseStateBackend, read_pair}
use tmfqsfullstate.Storage.Dense.Kernels.{
  pauli_x_pair, controlled_not_pair, same_amplitude, apply_pauli_x, apply_controlled_not,
}
use tmfqsfullstate.Storage.Dense.Cells.{IsWellFormed, eq_of_read_pair}
use tmfqsfullstate.Storage.Dense.Kernels.Pointwise.{paired, place, paired-first, paired-second}
use tmfqsfullstate.Storage.Dense.Kernels.Gates.{
  HasRun, run_pair_kernel-HasRun, validate_single_qubit_operation-IsWellFormed,
  validate_two_qubit_operation-IsWellFormed,
}

-- A callback that undoes what it did to a pair.
abbrev UndoesItself : {A : Type 0} → (ℕ → ℕ → A → A → PairUpdate A) → Type 0
UndoesItself {A} f =
    (s t : ℕ) (a b : A)
    → let x = first_of (f s t a b) a in
      let y = second_of (f s t a b) b in
      (first_of (f s t x y) x ≡ a) × (second_of (f s t x y) y ≡ b)

-- the partner of a state whose bit is clear, and of one whose bit is set
upper :
    (mask blocks s : ℕ)
    → 0 < mask
    → s < blocks * (mask * 2)
    → s / mask % 2 ≡ 0
    → (s + mask < blocks * (mask * 2)) × ((s + mask) / mask % 2 ≢ 0)
upper mask blocks s pos lt even =
    let x = place mask blocks s pos lt in
    let next = add-div_right s pos in
    elim x.half [
      | inl (e, z) ↦ (
        let room = mul_le (suc x.c) blocks (mask * 2) x.c_lt in
            let lt' = x.p_lt in omega (arith, room, e, lt'),
        omega (arith, next, even),
      )
      | inr (e, z) ↦ absurd (z even)
    ]

lower : (mask s : ℕ) → 0 < mask → s / mask % 2 ≢ 0 → (mask ≤ s) × ((s - mask) / mask % 2 ≡ 0)
lower mask s pos odd =
    let whole = mod-add-div' s mask in
    let enough : mask ≤ s = omega (arith, whole, mul_le 1 (s / mask) mask (omega arith)) in
    let next = div-eq-sub-div pos enough in (enough, omega (arith, next, odd))

-- twice the callback on the cell of a state
paired-paired :
    {A : Type 0} (f : ℕ → ℕ → A → A → PairUpdate A)
    → UndoesItself f
    → (mask blocks : ℕ) (old mid : ℕ → A) → 0 < mask
    → ((s : ℕ) → s < blocks * (mask * 2) → mid s ≡ paired f mask old s)
    → (s : ℕ) → s < blocks * (mask * 2)
    → paired f mask mid s ≡ old s
paired-paired {A} f undo mask blocks old mid pos e s lt = elim (ℕ_discrete (s / mask % 2) 0) [
  | yes even ↦
      let (room, odd) = upper mask blocks s pos lt even in
      let (low, high) = pair s lt even room odd in low
  | no odd ↦
      let (enough, even) = lower mask s pos odd in
      let back : s - mask + mask ≡ s = omega (arith, enough) in
      let (room, odd') = upper mask blocks (s - mask) pos (omega (arith, lt)) even in
      let (low, high) = pair (s - mask) (omega (arith, lt)) even room odd' in
      subst (λ x. paired f mask mid x ≡ old x) back high
]
  where
    pair :
        (t : ℕ)
        → t < blocks * (mask * 2)
        → t / mask % 2 ≡ 0
        → t + mask < blocks * (mask * 2)
        → (t + mask) / mask % 2 ≢ 0
        → (paired f mask mid t ≡ old t) × (paired f mask mid (t + mask) ≡ old (t + mask))
    pair t h even room odd =
        let low = e t h ∙ paired-first f mask old t even in
        let high = e (t + mask) room ∙ paired-second f mask old t odd in
        let (first, second) = undo t (t + mask) (old t) (old (t + mask)) in
        (
          rw (paired-first f mask mid t even, low, high) first,
          rw (paired-second f mask mid t odd, low, high) second,
        )

module _ {W : Type 0} ⦃d : Double W⦄ where
  twice :
      (f : ℕ → ℕ → Amplitude W → Amplitude W → PairUpdate (Amplitude W))
      → UndoesItself f
      → (q : ℕ) (b b' b'' : DenseStateBackend W) → IsWellFormed b
      → q < b.num_qubits
      → HasRun f q b b'
      → HasRun f q b' b''
      → b'' ≡ b
  twice f undo q b b' b'' w h r r' =
      let same = r'.same_qubits ∙ r.same_qubits in
      let states = r'.fine.counted ∙ ap (λ n. 2 ^ n) same ∙ sym w.counted in
      let amps =
        eq_of_read_pair (2 ^ b.num_qubits) b''.amplitudes b.amplitudes
          (r'.fine.full ∙ ap (λ n. 2 ^ n * 2) same) w.full cell in
      λ i. record { num_qubits = same i; num_states = states i; amplitudes = amps i }
    where
      n : ℕ
      n = b.num_qubits

      m : ℕ
      m = n - suc q

      mask : ℕ
      mask = qubit_mask_from_msb_index q n

      cell : (s : ℕ) → s < 2 ^ n → read_pair b''.amplitudes s ≡ read_pair b.amplitudes s
      cell s lt =
          let states : 2 ^ n ≡ 2 ^ (n - suc m) * (mask * 2) =
            rw (mask_lem n q w.few h) (pow_blocks m n (omega arith)) in
          let pos : 0 < mask = rw (mask_lem n q w.few h) (pow_pos m) in
          rw (r'.cells s (rw r.same_qubits lt), r.same_qubits)
            (paired-paired f undo mask (2 ^ (n - suc m)) (read_pair b.amplitudes)
              (read_pair b'.amplitudes) pos (λ t k. r.cells t (omega (arith, states))) s
              (omega (arith, states)))

  apply_pauli_x-HasRun :
      (q : ℕ) (b : DenseStateBackend W)
      → IsWellFormed b
      → q < b.num_qubits
      → (b' : DenseStateBackend W) × (apply_pauli_x q b ≡ (ok tt, b')) × HasRun pauli_x_pair q b b'
  unfolding apply_pauli_x
  apply_pauli_x-HasRun q b w h =
      let (b', e, r) = run_pair_kernel-HasRun pauli_x_pair q b w h in
      (b', rw (validate_single_qubit_operation-IsWellFormed b q w h) e, r)

  apply_controlled_not-HasRun :
      (control target : ℕ) (b : DenseStateBackend W)
      → IsWellFormed b
      → control < b.num_qubits
      → target < b.num_qubits
      → control ≢ target
      → (b' : DenseStateBackend W) × (apply_controlled_not control target b ≡ (ok tt, b'))
        × HasRun (controlled_not_pair (qubit_mask_from_msb_index control b.num_qubits)) target b b'
  unfolding apply_controlled_not
  apply_controlled_not-HasRun control target b w hc ht ne =
      let f = controlled_not_pair (qubit_mask_from_msb_index control b.num_qubits) in
      let (b', e, r) = run_pair_kernel-HasRun f target b w ht in
      (b', rw (validate_two_qubit_operation-IsWellFormed b control target w hc ht ne) e, r)

  -- the two comparisons are those of a language where `x == y` and `y == x` agree
  module _ (symmetric : (x y : W) → d.eq x y ≡ d.eq y x) where
    same_amplitude_comm : (x y : Amplitude W) → same_amplitude x y ≡ same_amplitude y x
    same_amplitude_comm x y = ground (arith, symmetric x.real y.real, symmetric x.imag y.imag)

    pauli_x_pair-UndoesItself : UndoesItself (pauli_x_pair {W = W})
    unfolding pauli_x_pair
    pauli_x_pair-UndoesItself s t x y =
        let comm = same_amplitude_comm x y in (ground (arith, comm), ground (arith, comm))

    controlled_not_pair-UndoesItself : (mask : ℕ) → UndoesItself (controlled_not_pair {W = W} mask)
    unfolding controlled_not_pair
    controlled_not_pair-UndoesItself mask s t x y =
        let comm = same_amplitude_comm x y in (ground (arith, comm), ground (arith, comm))

    -- Where the comparison of doubles is symmetric, applyPauliX twice on a well-formed backend and a
    -- qubit below its size returns and leaves the backend exactly as it was.
    pub apply_pauli_x-involutive :
        (q : ℕ) (b : DenseStateBackend W)
        → IsWellFormed b
        → q < b.num_qubits
        → (apply_pauli_x q >> apply_pauli_x q) b ≡ (ok tt, b)
    apply_pauli_x-involutive q b w h =
        let (b', e, r) = apply_pauli_x-HasRun q b w h in
        let (b'', e', r') = apply_pauli_x-HasRun q b' r.fine (rw r.same_qubits h) in
        >>-ok (apply_pauli_x q) (apply_pauli_x q) b e
        ∙ e'
        ∙ ap (λ x. (ok tt, x)) (twice pauli_x_pair pauli_x_pair-UndoesItself q b b' b'' w h r r')

    -- Where the comparison of doubles is symmetric, applyControlledNot twice on a well-formed backend
    -- and two different qubits below its size returns and leaves the backend exactly as it was.
    pub apply_controlled_not-involutive :
        (control target : ℕ) (b : DenseStateBackend W)
        → IsWellFormed b
        → control < b.num_qubits
        → target < b.num_qubits
        → control ≢ target
        → (apply_controlled_not control target >> apply_controlled_not control target) b
          ≡ (ok tt, b)
    apply_controlled_not-involutive control target b w hc ht ne =
        let f = λ (n : ℕ). controlled_not_pair (qubit_mask_from_msb_index control n) in
        let (b', e, r) = apply_controlled_not-HasRun control target b w hc ht ne in
        let (b'', e', r') =
          apply_controlled_not-HasRun control target b' r.fine (rw r.same_qubits hc)
            (rw r.same_qubits ht) ne in
        let r'' : HasRun (f b.num_qubits) target b' b'' =
          subst (λ n. HasRun (f n) target b' b'') r.same_qubits r' in
        >>-ok (apply_controlled_not control target) (apply_controlled_not control target) b e
        ∙ e'
        ∙ ap (λ x. (ok tt, x))
            (twice (f b.num_qubits)
              (controlled_not_pair-UndoesItself (qubit_mask_from_msb_index control b.num_qubits))
              target b b' b'' w ht r r'')
