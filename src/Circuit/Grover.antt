-- ===== src/Circuit/Grover.antt =====
-- The circuit of Grover's search.
use tmfqsfullstate.Prelude.{
  ℕ, zero, suc, ◌+◌, ◌*◌, ◌^◌, ◌≤◌, ◌<◌, ◌≡◌, refl, sym, ◌∙◌, Bool, true, false, List, [], ◌∷◌,
  ◌++◌, ap, arith, length, All, leb, ltb, ◌==◌,
}
use tmfqsfullstate.Core.Action.{ok, >>-ok, modify, for_each}
use tmfqsfullstate.Core.Amplitude.{Double, ◌⊗◌, ◌⊘◌}
use tmfqsfullstate.Core.StateSpace.{checked_state_count}
use tmfqsfullstate.Storage.Selected.{sorted_unique}
use tmfqsfullstate.Storage.Selected.Laws.{All-member, member-All, member, sorted_unique-Ordered}
use tmfqsfullstate.Circuit.{
  Circuit, GroverCircuitOptions, phase_flip_basis_state, inversion_about_mean, phase_flip,
  invert_about_mean, h_all, append, grover_iteration_count, grover_iteration, grover_iterations,
  append_grover, make_grover,
}
use tmfqsfullstate.Circuit.Contents.{
  flips, followed, hadamards, rounds, search_round, h_all-followed, grover_iterations-followed,
}
use tmfqsfullstate.Circuit.Valid.{IsCircuit, append-IsCircuit, h_all-IsCircuit, recount}

module _ {W : Type 0} where
  flips-IsCircuit :
      (n count : ℕ) (marked : List ℕ) (c : Circuit W)
      → All (λ s. s < 2 ^ n) marked
      → IsCircuit n count c
      → (c' : Circuit W) × (flips (2 ^ n) marked c ≡ (ok tt, c'))
        × IsCircuit n (count + length marked) c'
  unfolding for_each phase_flip
  flips-IsCircuit n count [] c h q = (c, refl, recount (omega arith) q)
  flips-IsCircuit n count (s ∷ marked) c (lt, h) q =
      let inside : leb (2 ^ n) s ≡ false = ground arith in
      let (c', e, r) =
        flips-IsCircuit n (suc count) marked (append (phase_flip_basis_state s) c) h
          (append-IsCircuit n count (phase_flip_basis_state s) c lt q) in
      (c', rw inside e, recount (omega arith) r)

  grover_iteration-IsCircuit :
      (n count : ℕ) (marked : List ℕ) (m : Bool) (c : Circuit W)
      → All (λ s. s < 2 ^ n) marked
      → IsCircuit n count c
      → (c' : Circuit W) × (grover_iteration (2 ^ n) marked m c ≡ (ok tt, c'))
        × IsCircuit n (suc (count + length marked)) c'
  unfolding grover_iteration invert_about_mean
  grover_iteration-IsCircuit n count marked m c h q =
      let (c', e, r) = flips-IsCircuit n count marked c h q in
      (
        append (inversion_about_mean m) c',
        >>-ok (flips (2 ^ n) marked) (modify (append (inversion_about_mean m))) c e,
        append-IsCircuit n (count + length marked) (inversion_about_mean m) c' tt r,
      )

  grover_iterations-IsCircuit :
      (k n count : ℕ) (marked : List ℕ) (m : Bool) (c : Circuit W)
      → All (λ s. s < 2 ^ n) marked
      → IsCircuit n count c
      → (c' : Circuit W) × (grover_iterations k (2 ^ n) marked m c ≡ (ok tt, c'))
        × IsCircuit n (count + k * suc (length marked)) c'
  unfolding grover_iterations
  grover_iterations-IsCircuit zero n count marked m c h q = (c, refl, recount (grind arith) q)
  grover_iterations-IsCircuit (suc k) n count marked m c h q =
      let (c', e, r) = grover_iteration-IsCircuit n count marked m c h q in
      let (c'', e', r') =
        grover_iterations-IsCircuit k n (suc (count + length marked)) marked m c' h r in
      (
        c'',
        >>-ok (grover_iteration (2 ^ n) marked m) (grover_iterations k (2 ^ n) marked m) c e ∙ e',
        recount (grind arith) r',
      )

nonempty : (z : ℕ) (xs : List ℕ) → member z xs ≡ true → (length xs == 0) ≡ false
nonempty z [] m = absurd (ground (arith, m))
nonempty z (x ∷ xs) m = ground arith

module _ {W : Type 0} ⦃d : Double W⦄ (pi : W) where
  -- For up to 63 qubits and a list of marked states that has one and all of which are below the number
  -- of states, makeGrover returns a circuit of valid operations. They are, in this order, a Hadamard on
  -- each qubit from 0 on, and then for each iteration that groverIterationCount gives a flip of each
  -- state of the marked list, sorted and without repetitions, and an inversion about the mean,
  -- materialized as the options say.
  pub make_grover-IsCircuit :
      (n z : ℕ) (options : GroverCircuitOptions)
      → n ≤ 63
      → member z options.marked_states ≡ true
      → All (λ s. s < 2 ^ n) options.marked_states
      → let different = length (sorted_unique options.marked_states) in
        (k : ℕ) × (c : Circuit W) × (grover_iteration_count pi (2 ^ n) different ≡ ok k)
        × (make_grover pi n options ≡ (ok tt, c))
        × (c.operations
            ≡ hadamards 0 n
              ++ rounds k (
                  search_round
                    (sorted_unique options.marked_states)
                    options.materialized_diffusion))
        × IsCircuit n (n + k * suc different) c
  unfolding make_grover append_grover grover_iteration_count checked_state_count
  make_grover-IsCircuit n z options small m inside =
      let marked = sorted_unique options.marked_states in
      let members : (s : ℕ) → member s marked ≡ member s options.marked_states =
        λ s. let (ordered, same) = sorted_unique-Ordered s options.marked_states in same in
      let some_marked = nonempty z options.marked_states m in
      let some_different = nonempty z marked (members z ∙ m) in
      let below : All (λ s. s < 2 ^ n) marked =
        All-member (λ s. s < 2 ^ n) marked
          (λ s q.
            member-All (λ s. s < 2 ^ n) options.marked_states s inside (sym (members s) ∙ q)) in
      let empty : Circuit W = record { qubits = n; operations = [] } in
      let start : IsCircuit n n (h_all empty) =
        recount (omega arith)
          (h_all-IsCircuit n 0 empty (record { size = refl; valid = tt; counted = refl })) in
      let accepted : ltb 63 n ≡ false = ground arith in
      let k = d.floor ((pi ⊘ d.of_nat 4) ⊗ d.sqrt (d.of_nat (2 ^ n) ⊘ d.of_nat (length marked))) in
      let (c, e, r) =
        grover_iterations-IsCircuit k n n marked options.materialized_diffusion (h_all empty) below
          start in
      let followed_by = rounds k (search_round marked options.materialized_diffusion) in
      let built : c ≡ followed (h_all empty) followed_by =
        ap (λ out. out.1)
          (sym e
            ∙ grover_iterations-followed k n marked options.materialized_diffusion (h_all empty)
                below) in
      let contents =
        ap (λ circuit. circuit.operations) built
        ∙ ap (λ circuit. circuit.operations ++ followed_by) (h_all-followed empty) in
      (
        k,
        c,
        rw some_different refl,
        rw (some_marked, start.size, accepted, some_different) e,
        contents,
        r,
      )
