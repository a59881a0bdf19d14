-- ===== src/Storage/GateBlock/Keeps.antt =====
-- A gate applied by blocks through callbacks that return: it returns too.
use tmfqsfullstate.Prelude.{
  ℕ, suc, get_or, map, ◌+◌, ◌-◌, ◌^◌, ◌%◌, ◌≤◌, ◌<◌, ◌≡◌, refl, List, [], ◌∷◌, arith, length,
  Bool-cases, ◌==◌, ◌&&◌,
}
use Prim.Native.Nat.{bit_or}
use mathlib.Core.Path.{ap₂}
use mathlib.Core.Logic.{inl, inr}
use tmfqsfullstate.Core.Action.{ok, Action, ◌>>=◌, ◌>>◌, lift, for_each, and_then-ok}
use tmfqsfullstate.Core.Amplitude.{Double, Amplitude, is_zero}
use tmfqsfullstate.Core.StateSpace.{checked_state_count}
use tmfqsfullstate.Core.Validation.{validate_gate_targets}
use tmfqsfullstate.Core.Validation.Targets.{AreTargets, validate_gate_targets_iff}
use tmfqsfullstate.Gates.{QuantumGate}
use tmfqsfullstate.Storage.Backend.{returned, Keeps, returned_after, returned_then, if-Keeps}
use tmfqsfullstate.Storage.GateBlock.{
  GateBlockLayout, counted, compose_base_state_from_block, load_all, store_rows, apply_block,
  apply_single, apply_gate_by_blocks, apply, all_zero, make_gate_block_layout,
}

for_each-Keeps :
    {S A : Type 0} {P : S → Type 0} (body : A → Action S (Unit {0}))
    → ((a : A) → Keeps P (body a))
    → (xs : List A) → Keeps P (for_each xs body)
unfolding for_each
for_each-Keeps body keep [] s p = returned tt p
for_each-Keeps body keep (x ∷ xs) s p =
    returned_then (body x) (for_each xs body) (keep x) (for_each-Keeps body keep xs) s p

checked_state_count-ok : (n : ℕ) → n ≤ 63 → checked_state_count n ≡ ok (2 ^ n)
unfolding checked_state_count
checked_state_count-ok n h = ground arith

make_gate_block_layout-ok :
    (qs : List ℕ) (n : ℕ)
    → n < 32
    → length qs ≤ n
    → (l : GateBlockLayout) × (make_gate_block_layout qs n ≡ ok l)
unfolding make_gate_block_layout
make_gate_block_layout-ok qs n few most =
    and_then-ok _
      (checked_state_count-ok ((n + 2 ^ 32 - length qs % 2 ^ 32) % 2 ^ 32) (omega arith))
      (and_then-ok _ (checked_state_count-ok (length qs % 2 ^ 32) (omega arith)) (_, refl))

module _ {W S : Type 0} ⦃d : Double W⦄ (P : S → Type 0) (load : ℕ → Action S (Amplitude W))
    (store : ℕ → Amplitude W → Action S (Unit {0})) (loads : (s : ℕ) → Keeps P (load s))
    (stores : (s : ℕ) (a : Amplitude W) → Keeps P (store s a)) where
  load_all-Keeps : (states : List ℕ) → Keeps P (load_all load store states)
  unfolding load_all
  load_all-Keeps [] s p = returned [] p
  load_all-Keeps (x ∷ xs) s p =
      returned_after (load x) _ (loads x)
        (λ a.
          returned_after (load_all load store xs) _ (load_all-Keeps xs) (λ amps s p. returned _ p))
        s p

  store_rows-Keeps :
      (g : QuantumGate W) (amps : List (Amplitude W)) (row : ℕ) (states : List ℕ)
      → Keeps P (store_rows load store g amps row states)
  unfolding store_rows
  store_rows-Keeps g amps row [] s p = returned tt p
  store_rows-Keeps g amps row (x ∷ xs) s p =
      returned_then (store x _) _ (stores x _) (store_rows-Keeps g amps (suc row) xs) s p

  apply_block-Keeps :
      (g : QuantumGate W) (states : List ℕ) → Keeps P (apply_block load store g states)
  unfolding apply_block
  apply_block-Keeps g states =
      returned_after (load_all load store states) _ (load_all-Keeps states) (λ amps s p.
        elim (Bool-cases (all_zero amps)) [
          | inl e ↦ rw e (returned tt p)
          | inr e ↦ rw e (store_rows-Keeps g amps 0 states s p)
        ])

  apply_single-Keeps : (g : QuantumGate W) (s0 s1 : ℕ) → Keeps P (apply_single load store g s0 s1)
  unfolding apply_single
  apply_single-Keeps g s0 s1 = returned_after (load s0) _ (loads s0) (λ a0.
      returned_after (load s1) _ (loads s1) (λ a1 s p.
        elim (Bool-cases (is_zero a0 && is_zero a1)) [
          | inl e ↦ rw e (returned tt p)
          | inr e ↦ rw e (returned_then (store s0 _) (store s1 _) (stores s0 _) (stores s1 _) s p)
        ]))

  apply_gate_by_blocks-Keeps :
      (g : QuantumGate W) (l : GateBlockLayout) → Keeps P (apply_gate_by_blocks load store g l)
  unfolding apply_gate_by_blocks
  apply_gate_by_blocks-Keeps g l =
      if-Keeps (l.active_qubits == 1)
        (for_each-Keeps {A = ℕ} _
          (λ block. apply_single-Keeps g (base block) (bit_or (base block) mask0))
          (counted l.num_blocks 0))
        (if-Keeps (l.active_qubits == 2)
          (for_each-Keeps {A = ℕ} _
            (λ block. apply_block-Keeps g (
              base block
              ∷ bit_or (base block) mask1
              ∷ bit_or (base block) mask0
              ∷ bit_or (bit_or (base block) mask0) mask1
              ∷ []))
            (counted l.num_blocks 0))
          (for_each-Keeps {A = ℕ} _
            (λ block. apply_block-Keeps g (map (bit_or (base block)) l.block_offsets))
            (counted l.num_blocks 0)))
    where
      base : ℕ → ℕ
      base block = compose_base_state_from_block block l.non_target_positions

      mask0 : ℕ
      mask0 = get_or l.target_masks 0 0

      mask1 : ℕ
      mask1 = get_or l.target_masks 1 0

  apply-by_blocks :
      (g : QuantumGate W) (qs : List ℕ) (n : ℕ) (l : GateBlockLayout) (s : S)
      → validate_gate_targets qs n g.dimension ≡ ok tt
      → make_gate_block_layout qs n ≡ ok l
      → apply load store g qs n s ≡ apply_gate_by_blocks load store g l s
  unfolding apply
  apply-by_blocks g qs n l s valid made =
      ap₂ (λ v m. (lift v >> (lift m >>= λ l. apply_gate_by_blocks load store g l)) s) valid made

  -- Fewer than 32 qubits, and targets that validation accepts.
  pub apply-Keeps :
      (g : QuantumGate W) (qs : List ℕ) (n : ℕ)
      → n < 32
      → length qs ≤ n
      → g.dimension ≡ 2 ^ length qs
      → AreTargets n qs
      → Keeps P (apply load store g qs n)
  apply-Keeps g qs n few most dim ts s p =
      let (accepts, accepted) = validate_gate_targets_iff qs n g.dimension in
      let valid = accepted (omega arith, most, dim, ts) in
      let (l, made) = make_gate_block_layout-ok qs n few most in
      rw (apply-by_blocks g qs n l s valid made) (apply_gate_by_blocks-Keeps g l s p)
