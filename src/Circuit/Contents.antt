-- ===== src/Circuit/Contents.antt =====
-- The operations of the circuit of Grover's search, in their order.
use mathlib.Core.List.{append_assoc, append-nil}
use tmfqsfullstate.Prelude.{
  ℕ, zero, suc, ◌^◌, ◌<◌, ◌≡◌, sym, ap, ◌∙◌, Bool, false, List, [], ◌∷◌, ◌++◌, map, arith, All, leb,
  range,
}
use tmfqsfullstate.Core.Action.{
  ok, invalid_argument, Action, ◌>>◌, >>-ok, lift, modify, for_each, throw_if,
}
use tmfqsfullstate.Circuit.{
  Operation, Circuit, hadamard, phase_flip_basis_state, inversion_about_mean, phase_flip,
  invert_about_mean, h, h_all, append, grover_iteration, grover_iterations,
}

module _ {W : Type 0} where
  -- a Hadamard on each of `count` qubits from `first` on
  abbrev pub hadamards : ℕ → ℕ → List (Operation W)
  hadamards first zero = []
  hadamards first (suc count) = hadamard first ∷ hadamards (suc first) count

  -- a flip for each marked state, then an inversion
  abbrev pub search_round : List ℕ → Bool → List (Operation W)
  search_round marked materialized =
      map phase_flip_basis_state marked ++ inversion_about_mean materialized ∷ []

  abbrev pub rounds : ℕ → List (Operation W) → List (Operation W)
  rounds zero ops = []
  rounds (suc k) ops = ops ++ rounds k ops

  -- the circuit with these operations after its own
  abbrev pub followed : Circuit W → List (Operation W) → Circuit W
  followed c ops = record c { operations = c.operations ++ ops }

  unfollowed : (c : Circuit W) → c ≡ followed c []
  unfollowed c = ap (λ ops. record c { operations = ops }) (sym (append-nil c.operations))

  followed-followed :
      (c : Circuit W) (xs ys : List (Operation W))
      → followed (followed c xs) ys ≡ followed c (xs ++ ys)
  followed-followed c xs ys =
      ap (λ ops. record c { operations = ops }) (append_assoc c.operations xs ys)

  range-hadamards :
      (count first : ℕ) (c : Circuit W) → range count first h c ≡ followed c (hadamards first count)
  unfolding range h append
  range-hadamards zero first c = unfollowed c
  range-hadamards (suc count) first c =
      range-hadamards count (suc first) (append (hadamard first) c)
      ∙ followed-followed c (hadamard first ∷ []) (hadamards (suc first) count)

  pub h_all-followed : (c : Circuit W) → h_all c ≡ followed c (hadamards 0 c.qubits)
  unfolding h_all
  h_all-followed c = range-hadamards c.qubits 0 c

  abbrev pub flips : ℕ → List ℕ → Action (Circuit W) (Unit {0})
  flips states marked =
      for_each marked
        (λ index. lift (throw_if (leb states index) invalid_argument) >> modify (phase_flip index))

  flips-followed :
      (n : ℕ) (marked : List ℕ) (c : Circuit W)
      → All (λ s. s < 2 ^ n) marked
      → flips (2 ^ n) marked c ≡ (ok tt, followed c (map phase_flip_basis_state marked))
  unfolding for_each phase_flip append
  flips-followed n [] c h = ap (λ c. (ok tt, c)) (unfollowed c)
  flips-followed n (s ∷ marked) c (lt, h) =
      let inside : leb (2 ^ n) s ≡ false = ground arith in
      rw inside (
        flips-followed n marked (append (phase_flip_basis_state s) c) h
        ∙ ap (λ c. (ok tt, c))
            (followed-followed c (phase_flip_basis_state s ∷ [])
              (map phase_flip_basis_state marked)))

  grover_iteration-followed :
      (n : ℕ) (marked : List ℕ) (m : Bool) (c : Circuit W)
      → All (λ s. s < 2 ^ n) marked
      → grover_iteration (2 ^ n) marked m c ≡ (ok tt, followed c (search_round marked m))
  unfolding grover_iteration invert_about_mean append
  grover_iteration-followed n marked m c h =
      >>-ok (flips (2 ^ n) marked) (modify (append (inversion_about_mean m))) c
        (flips-followed n marked c h)
      ∙ ap (λ c. (ok tt, c))
          (followed-followed c (map phase_flip_basis_state marked) (inversion_about_mean m ∷ []))

  pub grover_iterations-followed :
      (k n : ℕ) (marked : List ℕ) (m : Bool) (c : Circuit W)
      → All (λ s. s < 2 ^ n) marked
      → grover_iterations k (2 ^ n) marked m c
        ≡ (ok tt, followed c (rounds k (search_round marked m)))
  unfolding grover_iterations
  grover_iterations-followed zero n marked m c h = ap (λ c. (ok tt, c)) (unfollowed c)
  grover_iterations-followed (suc k) n marked m c h =
      >>-ok (grover_iteration (2 ^ n) marked m) (grover_iterations k (2 ^ n) marked m) c
        (grover_iteration-followed n marked m c h)
      ∙ grover_iterations-followed k n marked m (followed c (search_round marked m)) h
      ∙ ap (λ c. (ok tt, c))
          (followed-followed c (search_round marked m) (rounds k (search_round marked m)))
