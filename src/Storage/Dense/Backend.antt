-- ===== src/Storage/Dense/Backend.antt =====
-- DenseStateBackend as an IStateBackend, and the contract that it keeps. Its batches are the empty
-- default methods of the interface.
use tmfqsfullstate.Prelude.{
  ℕ, ◌^◌, ◌<◌, ◌≡◌, refl, ap, sym, ◌∙◌, subst, List, [], ◌∷◌, arith, length, leb, true, false, suc,
  ◌*◌, ◌==◌, All, replicate, length-replicate,
}
use tmfqsfullstate.Core.Action.{
  Result, ok, throw_if, out_of_range, Action, ◌>>◌, pure, lift, for_each, modify, invalid_argument,
}
use tmfqsfullstate.Core.Amplitude.{Double, Amplitude, ◌⊘◌, nought, one}
use tmfqsfullstate.Storage.Backend.{
  IStateBackend, Contract, Returns, returned, Keeps, returned_then, for_each-Keeps,
}
use tmfqsfullstate.Storage.PairKernel.Bits.{pow_pos}
use tmfqsfullstate.Storage.GateBlock.Keeps.{apply-Keeps}
use tmfqsfullstate.Storage.Selected.{sorted_unique}
use tmfqsfullstate.Storage.Selected.Laws.{member, sorted_unique-Ordered}
use tmfqsfullstate.Storage.Dense
use tmfqsfullstate.Storage.Dense.{
  DenseStateBackend, read_pair, write_pair, ensure_initialized, map_pairs, invert_about, affine,
  write_selected,
}
use tmfqsfullstate.Storage.Dense.Kernels
use tmfqsfullstate.Storage.Dense.Cells.{IsWellFormed, length-write_pair}
use tmfqsfullstate.Storage.Dense.Access.{
  amplitude-IsWellFormed, init_basis-amplitudes, init_zero-sized, load_amplitudes-sized, sized,
  sized-IsWellFormed, validate_state-IsWellFormed,
}
use tmfqsfullstate.Storage.Dense.Kernels.Gates.{
  ensure_initialized-IsWellFormed, apply_hadamard-amplitudes, apply_pauli_x-amplitudes,
  apply_controlled_not-amplitudes, apply_controlled_phase_shift-amplitudes,
}

some_selected : (xs : List ℕ) → 0 < length xs → (length (sorted_unique xs) == 0) ≡ false
some_selected [] h = absurd (omega arith)
some_selected (x ∷ xs) h =
    let (ordered, same) = sorted_unique-Ordered x (x ∷ xs) in
    let self : member x (x ∷ xs) ≡ true = ground arith in
    not_empty (sorted_unique (x ∷ xs)) (same ∙ self)
  where
    not_empty : (ys : List ℕ) → member x ys ≡ true → (length ys == 0) ≡ false
    not_empty [] m = absurd (ground (arith, m))
    not_empty (y ∷ ys) m = ground arith

module _ {W : Type 0} ⦃d : Double W⦄ where
  instance unfoldable pub dense_state_backend : IStateBackend W (DenseStateBackend W)
  dense_state_backend = record {
    init_zero = Dense.init_zero;
    init_basis = Dense.init_basis;
    init_uniform_superposition = Dense.init_uniform_superposition;
    load_amplitudes = Dense.load_amplitudes;
    export_amplitudes = Dense.export_amplitudes;
    for_each_amplitude_chunk = Dense.for_each_amplitude_chunk;
    amplitude = Dense.amplitude;
    set_amplitude = Dense.set_amplitude;
    probability = Dense.probability;
    total_probability = Dense.total_probability;
    sample_measurement = Dense.sample_measurement;
    phase_flip_basis_state = Dense.phase_flip_basis_state;
    inversion_about = Dense.inversion_about;
    inversion_about_mean = Dense.inversion_about_mean;
    apply_affine_transform = Dense.apply_affine_transform;
    apply_hadamard = Kernels.apply_hadamard;
    apply_pauli_x = Kernels.apply_pauli_x;
    apply_controlled_phase_shift = Kernels.apply_controlled_phase_shift;
    apply_controlled_not = Kernels.apply_controlled_not;
    apply_gate = Kernels.apply_gate;
    begin_operation_batch = pure tt;
    end_operation_batch = pure tt;
  }

  abbrev pub IsDense : ℕ → DenseStateBackend W → Type 0
  IsDense n b = IsWellFormed b × (b.num_qubits ≡ n)

  kept :
      (n : ℕ) {b' : DenseStateBackend W} {r : Result (Unit {0}) × DenseStateBackend W}
      → r ≡ (ok tt, b')
      → IsWellFormed b'
      → b'.num_qubits ≡ n
      → Returns (IsDense n) r
  kept n e w h = subst (Returns (IsDense n)) (sym e) (returned tt (w, h))

  pub length-map_pairs :
      (f : Amplitude W → Amplitude W) (v : List W) → length (map_pairs f v) ≡ length v
  unfolding map_pairs
  length-map_pairs f [] = refl
  length-map_pairs f (x ∷ []) = refl
  length-map_pairs f (x ∷ y ∷ v) = ap (λ n. suc (suc n)) (length-map_pairs f v)

  ensured :
      {A : Type 0} (n : ℕ) (k : Action (DenseStateBackend W) A)
      → Keeps (IsDense n) k
      → Keeps (IsDense n) (ensure_initialized >> k)
  ensured n k keep =
      returned_then ensure_initialized k
        (λ b p. let (w, h) = p in rw (ensure_initialized-IsWellFormed b w) (returned tt (w, h)))
        keep

  mapped :
      (n : ℕ) (f : Amplitude W → Amplitude W)
      → Keeps
          (IsDense n)
          (ensure_initialized >> modify (λ b. record b { amplitudes = map_pairs f b.amplitudes }))
  mapped n f = ensured n _ (λ b p.
      let (w, h) = p in
      returned tt (
        record {
          few = w.few;
          counted = w.counted;
          full = length-map_pairs f b.amplitudes ∙ w.full;
        },
        h,
      ))

  within :
      (n s : ℕ)
      → s < 2 ^ n
      → (b : DenseStateBackend W) → IsDense n b
      → leb (2 ^ b.num_qubits) s ≡ false
  within n s lt b (w, h) = let same = ap (λ m. 2 ^ m) h in ground (arith, same)

  written :
      (n s : ℕ)
      → s < 2 ^ n
      → (f : DenseStateBackend W → Amplitude W)
      → Keeps (IsDense n) (
          ensure_initialized
          >> Dense.validate_state s
          >> modify (λ b. record b { amplitudes = write_pair b.amplitudes s (f b) }))
  written n s lt f =
      returned_then _ _
        (ensured n (Dense.validate_state s) (λ b (w, h).
          rw (validate_state-IsWellFormed b s w, within n s lt b (w, h)) (returned tt (w, h))))
        (λ b (w, h). returned tt (
          record {
            few = w.few;
            counted = w.counted;
            full = length-write_pair b.amplitudes s (f b) ∙ w.full;
          },
          h,
        ))

  length-write_selected :
      (a : W) (states : List ℕ) (v : List W) → length (write_selected a states v) ≡ length v
  unfolding write_selected
  length-write_selected a [] v = refl
  length-write_selected a (s ∷ states) v =
      length-write_selected a states _ ∙ length-write_pair v s _

  init_uniform-Ready :
      (n : ℕ) (states : List ℕ) (b : DenseStateBackend W)
      → n < 32
      → 0 < length states
      → All (λ s. s < 2 ^ n) states
      → Returns (IsDense n) (Dense.init_uniform_superposition n states b)
  unfolding Dense.init_uniform_superposition
  init_uniform-Ready n states b few nonempty inside = rw (init_zero-sized n b few) (
      returned_then (checked >> some_states) spread
        (returned_then checked some_states
          (for_each-Keeps (λ s. s < 2 ^ n) Dense.validate_state
            (λ s lt b (w, h).
              rw (validate_state-IsWellFormed b s w, within n s lt b (w, h)) (returned tt (w, h)))
            states inside)
          (λ b p. rw (some_selected states nonempty) (returned tt p)))
        (λ b (w, h). returned tt (
          record {
            few = w.few;
            counted = w.counted;
            full =
                length-write_selected real_amplitude (sorted_unique states) b.amplitudes ∙ w.full;
          },
          h,
        ))
        (sized n (replicate (2 ^ n * 2) nought))
        (sized-IsWellFormed n _ few (length-replicate (2 ^ n * 2) nought), refl))
    where
      real_amplitude : W
      real_amplitude = one ⊘ d.sqrt (d.of_nat (length (sorted_unique states)))

      checked : Action (DenseStateBackend W) (Unit {0})
      checked = for_each states Dense.validate_state

      some_states : Action (DenseStateBackend W) (Unit {0})
      some_states = lift (throw_if (length (sorted_unique states) == 0) invalid_argument)

      spread : Action (DenseStateBackend W) (Unit {0})
      spread = modify (λ b. record b {
        amplitudes = write_selected real_amplitude (sorted_unique states) b.amplitudes;
      })

  load-Ready :
      (n : ℕ) (v : List W) (b : DenseStateBackend W)
      → n < 32
      → length v ≡ 2 ^ n * 2
      → Returns (IsDense n) (Dense.load_amplitudes n v b)
  load-Ready n v b few full =
      kept n (load_amplitudes-sized n v b few full) (sized-IsWellFormed n v few full) refl

  -- What the register relies on: on a well-formed dense backend every operation with valid arguments
  -- returns and leaves it well-formed with as many qubits, and initBasis makes it so.
  pub dense_state_backend-Contract : Contract dense_state_backend IsDense
  unfolding Dense.inversion_about Dense.apply_affine_transform Dense.set_amplitude
      Dense.phase_flip_basis_state Dense.for_each_amplitude_chunk Kernels.apply_gate
      Dense.init_basis dense_state_backend
  dense_state_backend-Contract = record {
    init_basis_ready = λ n s a b few lt.
        let (v, e, w, cell) = init_basis-amplitudes n s s a b few in
        let inside : leb (2 ^ n) s ≡ false = ground arith in
        kept n (e ∙ ap (λ out. (throw_if out out_of_range, sized n v)) inside) w refl;
    init_uniform_ready = init_uniform-Ready;
    load_ready = load-Ready;
    visits = λ visitor acc n. ensured n _ (λ b p. returned _ p);
    reads = λ n s lt b (w, h).
        rw (amplitude-IsWellFormed b s w, within n s lt b (w, h)) (returned _ (w, h));
    writes = λ n s a lt. written n s lt (λ b. a);
    flips = λ n s lt. written n s lt _;
    inverts = λ n mean. mapped n (invert_about mean);
    transforms = λ n scale bias. mapped n (affine scale bias);
    hadamards = λ n q lt b (w, h).
        let (b', e, w', same, cells) =
          apply_hadamard-amplitudes q 0 b w (rw h lt) (pow_pos b.num_qubits) in
        kept n e w' (same ∙ h);
    negates = λ n q lt b (w, h).
        let (b', e, w', same, cells) =
          apply_pauli_x-amplitudes q 0 b w (rw h lt) (pow_pos b.num_qubits) in
        kept n e w' (same ∙ h);
    shifts = λ n c t theta hc ht ne b (w, h).
        let (b', e, w', same, cells) =
          apply_controlled_phase_shift-amplitudes c t 0 theta b w (rw h hc) (rw h ht) ne
            (pow_pos b.num_qubits) in
        kept n e w' (same ∙ h);
    controls = λ n c t hc ht ne b (w, h).
        let (b', e, w', same, cells) =
          apply_controlled_not-amplitudes c t 0 b w (rw h hc) (rw h ht) ne (pow_pos b.num_qubits) in
        kept n e w' (same ∙ h);
    applies = λ n g qs most dim ts. ensured n _ (λ b (w, h).
        apply-Keeps (IsDense n) _ _ (λ s b p. returned (read_pair b.amplitudes s) p)
          (λ s a b (w, h). returned tt (
            record {
              few = w.few;
              counted = w.counted;
              full = length-write_pair b.amplitudes s a ∙ w.full;
            },
            h,
          ))
          g qs b.num_qubits w.few (rw h most) dim (rw h ts) b (w, h));
    opens = λ n b p. returned tt p;
    closes = λ n b p. returned tt p;
  }
