-- ===== src/Simulator/States.antt =====
-- Simulator::run from one quantum state to the next.
use tmfqsfullstate.Prelude.{ℕ, ◌≡◌, refl, ap, ◌∙◌, ◌==◌, true, arith, List, [], ◌∷◌, All}
use tmfqsfullstate.Core.Action.{Result, ok, and_then}
use tmfqsfullstate.Core.Amplitude.{Double}
use tmfqsfullstate.Storage.Backend.{IStateBackend, Contract, Returns, returned}
use tmfqsfullstate.Circuit.{Circuit}
use tmfqsfullstate.Circuit.Valid.{IsCircuit}
use tmfqsfullstate.Register.{QuantumRegister}
use tmfqsfullstate.Register.Access.{register_of}
use tmfqsfullstate.Register.Valid.{Signs, IsReady}
use tmfqsfullstate.State.{QuantumState}
use tmfqsfullstate.State.Build.{from_register}
use tmfqsfullstate.State.Valid.{IsState, materialize-IsReady}
use tmfqsfullstate.Simulator.{run, run_register, simulate}
use tmfqsfullstate.Simulator.Runs.{run_register-Keeps}

module _ {W B : Type 0} ⦃d : Double W⦄ ⦃i : IStateBackend W B⦄ where
  -- one run after the other, each from the state that the one before it returns
  unfoldable pub simulate_all :
      Result B → List (Circuit W) → QuantumState W B → Result (QuantumState W B)
  unfolding simulate
  simulate_all created [] st = ok st
  simulate_all created (c ∷ cs) st = and_then (simulate created c st) (simulate_all created cs)

abbrev Simulates :
    {W B : Type 0} ⦃d : Double W⦄ ⦃i : IStateBackend W B⦄
    → (ℕ → B → Type 0)
    → ℕ
    → Result (QuantumState W B)
    → Type 0
Simulates {W} {B} Ready n r = (st : QuantumState W B) × (r ≡ ok st) × IsState Ready n st

module _ {W B : Type 0} ⦃d : Double W⦄ ⦃i : IStateBackend W B⦄ (Ready : ℕ → B → Type 0)
    (contract : Contract i Ready) (signs : Signs W) {n : ℕ} (created : B) where
  from_register-IsState :
      (reg : QuantumRegister W B) → IsReady Ready n reg → IsState Ready n (from_register reg)
  unfolding from_register
  from_register-IsState reg p = record { few = p.few; size = p.size; form = (reg, refl, p) }

  simulate-IsState :
      (c : Circuit W) {count : ℕ}
      → IsCircuit n count c
      → (st : QuantumState W B) → IsState Ready n st
      → Simulates Ready n (simulate (ok created) c st)
  unfolding simulate run
  simulate-IsState c q st h =
      let (start, made, p) = materialize-IsReady Ready contract created h in
      let same : (c.qubits == st.qubits) ≡ true =
        let size = h.size in ground (arith, q.size, size) in
      rw (same, made)
        (go (run_register c start) (run_register-Keeps Ready n contract signs c q start p))
    where
      go :
          (x : Result (Unit {0}) × QuantumRegister W B)
          → Returns (IsReady Ready n) x
          → Simulates Ready n (and_then (register_of x) (λ reg. ok (from_register reg)))
      go x (returned a {s = reg} p) = (from_register reg, refl, from_register-IsState reg p)

  -- Over any backend that keeps its contract and for fewer than 32 qubits, a sequence of runs of circuits of valid operations, the first
  -- from a state of any kind whose members are in range and each other one from the state that the run before it
  -- returned, returns at every step, and the last state is again one to run from.
  pub simulate_all-IsState :
      (cs : List (Circuit W))
      → All (λ c. (count : ℕ) × IsCircuit n count c) cs
      → (st : QuantumState W B) → IsState Ready n st
      → (last : QuantumState W B) × (simulate_all (ok created) cs st ≡ ok last)
        × IsState Ready n last
  unfolding simulate_all
  simulate_all-IsState [] valid st h = (st, refl, h)
  simulate_all-IsState (c ∷ cs) ((count, q), valid) st h =
      let (next, ran, h') = simulate-IsState c q st h in
      let (last, rest, h'') = simulate_all-IsState cs valid next h' in
      (last, ap (λ r. and_then r (simulate_all (ok created) cs)) ran ∙ rest, h'')
