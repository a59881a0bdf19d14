-- ===== src/Register/Starts.antt =====
-- The constructors, over a backend that keeps its contract.
use mathlib.Core.Logic.{inl}
use tmfqsfullstate.Prelude.{
  ℕ, ◌^◌, ◌<◌, ◌≡◌, refl, arith, none, some, ltb, false, List, length, ◌*◌,
}
use tmfqsfullstate.Core.Action.{Result, ok, Action, and_then}
use tmfqsfullstate.Core.Amplitude.{Double, Amplitude}
use tmfqsfullstate.Core.StateSpace.{checked_state_count}
use tmfqsfullstate.Storage.Backend.{IStateBackend, Contract, Returns, returned}
use tmfqsfullstate.Register.{QuantumRegister, on_backend, identity_scale, no_bias}
use tmfqsfullstate.Register.Access.{
  make_basis, make_basis_amplitude, make_loaded, initialize_backend, register_of,
}
use tmfqsfullstate.Register.Valid.{IsReady}

module _ {W B : Type 0} ⦃d : Double W⦄ ⦃i : IStateBackend W B⦄ (Ready : ℕ → B → Type 0)
    (contract : Contract i Ready) (n : ℕ) (created : B) (few : n < 32) where
  initial : B → QuantumRegister W B
  initial b = record {
    num_qubits = n;
    num_states = 2 ^ n;
    backend = some b;
    cached_logical_amplitude_sum = none;
    affine_scale = identity_scale;
    affine_bias = no_bias;
    affine_overlay_active = false;
  }

  initialize_backend-ok : initialize_backend n (ok created) ≡ ok (initial created)
  unfolding initialize_backend checked_state_count initial
  initialize_backend-ok = let accepted : ltb 63 n ≡ false = ground arith in rw accepted refl

  -- the register after its backend has been initialised
  abbrev pub Starts : Result (QuantumRegister W B) → Type 0
  Starts made = (reg : QuantumRegister W B) × (made ≡ ok reg) × IsReady Ready n reg

  started :
      (m : Action B (Unit {0}))
      → Returns (Ready n) (m created)
      → Starts
          (and_then (initialize_backend n (ok created)) (λ reg. register_of (on_backend m reg)))
  unfolding on_backend initial
  started m ready = rw initialize_backend-ok (go (m created) ready)
    where
      go :
          (x : Result (Unit {0}) × B)
          → Returns (Ready n) x
          → Starts (register_of (x.0, record (initial created) { backend = some x.1 }))
      go x (returned a {s = b} p) = (
        initial b,
        refl,
        record {
          few = few;
          size = refl;
          states = refl;
          held = b;
          holds = refl;
          ready = p;
          unit = inl refl;
        },
      )

  pub make_basis_amplitude-IsReady :
      (s : ℕ) (a : Amplitude W) → s < 2 ^ n → Starts (make_basis_amplitude n s a (ok created))
  unfolding make_basis_amplitude initialize_backend checked_state_count
  make_basis_amplitude-IsReady s a lt =
      let accepted : ltb 63 n ≡ false = ground arith in
      let h = started (i.init_basis n s a) (contract.init_basis_ready n s a created few lt) in
      rw accepted (rw accepted at h)

  pub make_basis-IsReady : (s : ℕ) → s < 2 ^ n → Starts (make_basis n s (ok created))
  unfolding make_basis
  make_basis-IsReady s lt = make_basis_amplitude-IsReady s _ lt

  pub make_loaded-IsReady :
      (v : List W) → length v ≡ 2 ^ n * 2 → Starts (make_loaded n v (ok created))
  unfolding make_loaded initialize_backend checked_state_count
  make_loaded-IsReady v full =
      let accepted : ltb 63 n ≡ false = ground arith in
      let h = started (i.load_amplitudes n v) (contract.load_ready n v created few full) in
      rw accepted (rw accepted at h)
