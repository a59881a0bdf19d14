-- ===== src/Storage/Backend.antt =====
-- storage/i_state_backend.h: what a storage backend offers, as actions on its state `B`, and the
-- contract that a register relies on.
use tmfqsfullstate.Prelude.{
  ℕ, Bool, true, false, if◌then◌else◌, ◌^◌, ◌*◌, ◌≤◌, ◌<◌, ◌≡◌, ◌≢◌, List, [], ◌∷◌, length, All,
}
use tmfqsfullstate.Core.Action.{Action, Result, ok, ◌>>=◌, ◌>>◌, continue, for_each}
use tmfqsfullstate.Core.Amplitude.{Amplitude}
use tmfqsfullstate.Core.Validation.Targets.{AreTargets}
use tmfqsfullstate.Gates.{QuantumGate}

-- A visitor of chunks takes the first state, the amplitudes and what it has gathered so far.
pub record IStateBackend (W B : Type 0) : Type 1 where
  pub init_zero : ℕ → Action B (Unit {0})
  pub init_basis : ℕ → ℕ → Amplitude W → Action B (Unit {0})
  pub init_uniform_superposition : ℕ → List ℕ → Action B (Unit {0})
  pub load_amplitudes : ℕ → List W → Action B (Unit {0})
  pub export_amplitudes : Action B (List W)
  pub for_each_amplitude_chunk : {V : Type 0} → (ℕ → List W → V → V) → V → Action B V
  pub amplitude : ℕ → Action B (Amplitude W)
  pub set_amplitude : ℕ → Amplitude W → Action B (Unit {0})
  pub probability : ℕ → Action B W
  pub total_probability : Action B W
  pub sample_measurement : W → Action B ℕ
  pub phase_flip_basis_state : ℕ → Action B (Unit {0})
  pub inversion_about : Amplitude W → Action B (Unit {0})
  pub inversion_about_mean : Action B (Unit {0})
  pub apply_affine_transform : Amplitude W → Amplitude W → Action B (Unit {0})
  pub apply_hadamard : ℕ → Action B (Unit {0})
  pub apply_pauli_x : ℕ → Action B (Unit {0})
  pub apply_controlled_phase_shift : ℕ → ℕ → W → Action B (Unit {0})
  pub apply_controlled_not : ℕ → ℕ → Action B (Unit {0})
  pub apply_gate : QuantumGate W → List ℕ → Action B (Unit {0})
  pub begin_operation_batch : Action B (Unit {0})
  pub end_operation_batch : Action B (Unit {0})

-- The action returns, and leaves a state that satisfies the predicate.
pub data Returns {S A : Type 0} (P : S → Type 0) : Result A × S → Type 0 where
  returned : (a : A) {s : S} → P s → Returns P (ok a, s)

abbrev pub Keeps : {S A : Type 0} → (S → Type 0) → Action S A → Type 0
Keeps {S} P m = (s : S) → P s → Returns P (m s)

pub returned_after :
    {S A C : Type 0} {P : S → Type 0} (m : Action S A) (f : A → Action S C)
    → Keeps P m
    → ((a : A) → Keeps P (f a))
    → Keeps P (m >>= f)
returned_after {S} {A} {P} m f keep next s p = go (m s) (keep s p)
  where
    go : (r : Result A × S) → Returns P r → Returns P (continue r f)
    go r (returned a q) = next a _ q

pub returned_then :
    {S C : Type 0} {P : S → Type 0} (m : Action S (Unit {0})) (k : Action S C)
    → Keeps P m
    → Keeps P k
    → Keeps P (m >> k)
returned_then {S} {P} m k keep next s p = go (m s) (keep s p)
  where
    go : (r : Result (Unit {0}) × S) → Returns P r → Returns P (continue r (λ _. k))
    go r (returned a q) = next _ q

pub for_each-Keeps :
    {S A : Type 0} {P : S → Type 0} (valid : A → Type 0) (body : A → Action S (Unit {0}))
    → ((x : A) → valid x → Keeps P (body x))
    → (xs : List A) → All valid xs
    → Keeps P (for_each xs body)
unfolding for_each
for_each-Keeps valid body keep [] h s p = returned tt p
for_each-Keeps valid body keep (x ∷ xs) (h, hs) s p =
    returned_then (body x) (for_each xs body) (keep x h) (for_each-Keeps valid body keep xs hs) s p

pub if-Keeps :
    {S A : Type 0} {P : S → Type 0} (test : Bool) {m k : Action S A}
    → Keeps P m
    → Keeps P k
    → Keeps P (if test then m else k)
if-Keeps true h h' = h
if-Keeps false h h' = h'

-- The operations on a backend that is ready for `n` qubits: with valid arguments each one returns and
-- leaves the backend ready for them.
pub record Contract {W B : Type 0} (i : IStateBackend W B) (Ready : ℕ → B → Type 0) : Type 1 where
  pub init_basis_ready :
      (n s : ℕ) (a : Amplitude W) (b : B)
      → n < 32
      → s < 2 ^ n
      → Returns (Ready n) (i.init_basis n s a b)
  pub init_uniform_ready :
      (n : ℕ) (states : List ℕ) (b : B)
      → n < 32
      → 0 < length states
      → All (λ s. s < 2 ^ n) states
      → Returns (Ready n) (i.init_uniform_superposition n states b)
  pub load_ready :
      (n : ℕ) (v : List W) (b : B)
      → n < 32
      → length v ≡ 2 ^ n * 2
      → Returns (Ready n) (i.load_amplitudes n v b)
  pub visits :
      {V : Type 0} (visitor : ℕ → List W → V → V) (acc : V) (n : ℕ)
      → Keeps (Ready n) (i.for_each_amplitude_chunk visitor acc)
  pub reads : (n s : ℕ) → s < 2 ^ n → Keeps (Ready n) (i.amplitude s)
  pub writes : (n s : ℕ) (a : Amplitude W) → s < 2 ^ n → Keeps (Ready n) (i.set_amplitude s a)
  pub flips : (n s : ℕ) → s < 2 ^ n → Keeps (Ready n) (i.phase_flip_basis_state s)
  pub inverts : (n : ℕ) (mean : Amplitude W) → Keeps (Ready n) (i.inversion_about mean)
  pub transforms :
      (n : ℕ) (scale bias : Amplitude W) → Keeps (Ready n) (i.apply_affine_transform scale bias)
  pub hadamards : (n q : ℕ) → q < n → Keeps (Ready n) (i.apply_hadamard q)
  pub negates : (n q : ℕ) → q < n → Keeps (Ready n) (i.apply_pauli_x q)
  pub shifts :
      (n c t : ℕ) (theta : W)
      → c < n
      → t < n
      → c ≢ t
      → Keeps (Ready n) (i.apply_controlled_phase_shift c t theta)
  pub controls : (n c t : ℕ) → c < n → t < n → c ≢ t → Keeps (Ready n) (i.apply_controlled_not c t)
  pub applies :
      (n : ℕ) (g : QuantumGate W) (qs : List ℕ)
      → length qs ≤ n
      → g.dimension ≡ 2 ^ length qs
      → AreTargets n qs
      → Keeps (Ready n) (i.apply_gate g qs)
  pub opens : (n : ℕ) → Keeps (Ready n) i.begin_operation_batch
  pub closes : (n : ℕ) → Keeps (Ready n) i.end_operation_batch
