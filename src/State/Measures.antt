-- ===== src/State/Measures.antt =====
-- QuantumState::measure on a vector of amplitudes, against the dense register.
use tmfqsfullstate.Prelude.{
  ℕ, zero, suc, ◌+◌, ◌%◌, ◌^◌, ◌*◌, ◌<◌, ◌≡◌, refl, ap, sym, ◌∙◌, false, ◌||◌, List, [], ◌∷◌, arith,
  length, ltb, get_or, drop,
}
use tmfqsfullstate.Core.Action.{Result, ok, and_then}
use tmfqsfullstate.Core.Amplitude.{Double, nought, one}
use tmfqsfullstate.Core.StateSpace.{checked_state_count}
use tmfqsfullstate.Storage.PairKernel.Bits.{pow-le}
use tmfqsfullstate.Storage.Dense.{
  DenseStateBackend, norm_sq, read_pair, sample_from, sample_measurement,
}
use tmfqsfullstate.Storage.Dense.Cells.{IsWellFormed}
use tmfqsfullstate.Storage.Dense.Access.{sized, sized-IsWellFormed, load_amplitudes-sized}
use tmfqsfullstate.Storage.Dense.Kernels.Gates.{ensure_initialized-IsWellFormed}
use tmfqsfullstate.Storage.Dense.Backend.{dense_state_backend, IsDense}
use tmfqsfullstate.Register.{QuantumRegister, require_initialized, on_backend}
use tmfqsfullstate.Register.Access
use tmfqsfullstate.Register.Access.{make_loaded, initialize_backend, register_of}
use tmfqsfullstate.State.{QuantumState, StateKind}
use tmfqsfullstate.State.Access.{materialize, measure, measure_from, amplitude_at}
use tmfqsfullstate.State.Valid.{IsState}

module _ {W : Type 0} ⦃d : Double W⦄ where
  drop-two :
      (v : List W) (k : ℕ)
      → k + 1 < length v
      → drop k v ≡ get_or v k nought ∷ get_or v (suc k) nought ∷ drop (suc (suc k)) v
  drop-two [] k h = absurd (omega arith)
  drop-two (x ∷ []) k h = absurd (omega arith)
  drop-two (x ∷ y ∷ v) zero h = refl
  drop-two (x ∷ y ∷ v) (suc k) h = drop-two (y ∷ v) k (omega arith)

  -- the loop over the indices is the loop over the rest of the vector
  measure_from-sample_from :
      (rnd : W) (v : List W) (count state : ℕ) (acc : W)
      → length v ≡ (state + count) * 2
      → state + count < 2 ^ 32
      → measure_from rnd v count state acc ≡ sample_from rnd count state acc (drop (state * 2) v)
  unfolding measure_from amplitude_at sample_from norm_sq read_pair
  measure_from-sample_from rnd v zero state acc full few = refl
  measure_from-sample_from rnd v (suc count) state acc full few =
      let elem : state * 2 % 2 ^ 64 ≡ state * 2 = omega (arith, few) in
      let rest = measure_from-sample_from rnd v count (suc state) in
      let odd : state * 2 + 1 ≡ suc (state * 2) = omega arith in
      let next : suc state * 2 ≡ suc (suc (state * 2)) = omega arith in
      rw
        (
          elem,
          odd,
          drop-two v (state * 2) (omega (arith, full)),
          rest _ (omega (arith, full)) (omega (arith, few)),
          next,
        )
        refl

  sampled :
      (rnd : W) (b : DenseStateBackend W)
      → IsWellFormed b
      → (d.lt rnd nought || d.le one rnd) ≡ false
      → sample_measurement rnd b ≡ (sample_from rnd b.num_states 0 nought b.amplitudes, b)
  unfolding sample_measurement
  sampled rnd b w sample = rw (ensure_initialized-IsWellFormed b w, sample) refl

  measured-loaded :
      (rnd : W) (created : DenseStateBackend W) (n : ℕ) (v : List W)
      → n < 32
      → length v ≡ 2 ^ n * 2
      → (d.lt rnd nought || d.le one rnd) ≡ false
      → and_then (make_loaded n v (ok created)) (λ reg. (Access.measure rnd reg).0)
        ≡ sample_from rnd (2 ^ n) 0 nought v
  unfolding make_loaded initialize_backend checked_state_count on_backend dense_state_backend
      Access.measure require_initialized
  measured-loaded rnd created n v few full sample =
      let accepted : ltb 63 n ≡ false = ground arith in
      let answer = sampled rnd (sized n v) (sized-IsWellFormed n v few full) sample in
      rw (accepted, load_amplitudes-sized n v created few full) (ap (λ x. x.0) answer)

  -- For a state of fewer than 32 qubits that is a vector of amplitudes, and a sample that is at least 0
  -- and below 1 in the code's comparisons, `measure` answers, an exception included, what the dense
  -- register that the state is materialized into answers.
  pub measure-materialize :
      {n : ℕ} (rnd : W) (created : DenseStateBackend W) {st : QuantumState W (DenseStateBackend W)}
      → IsState IsDense n st
      → st.kind ≡ StateKind.amplitudes
      → (d.lt rnd nought || d.le one rnd) ≡ false
      → (measure (ok created) rnd st).0
        ≡ and_then (materialize (ok created) st) (λ reg. (Access.measure rnd reg).0)
  unfolding measure checked_state_count
  measure-materialize {n} rnd created {st} h e sample =
      let few = h.few in
      let small = pow-le n 31 (omega (arith, few)) in
      let full : length st.amplitudes ≡ 2 ^ n * 2 = rw e at h.form in
      let accepted : ltb 63 n ≡ false = ground (arith, few) in
      let here : (measure (ok created) rnd st).0 ≡ sample_from rnd (2 ^ n) 0 nought st.amplitudes =
        simp (e, h.size, accepted, measure)
          (measure_from-sample_from rnd st.amplitudes (2 ^ n) 0 nought (omega (arith, full))
            (omega (arith, small))) in
      let there : materialize (ok created) st ≡ make_loaded n st.amplitudes (ok created) =
        made st e h.size in
      here ∙ sym (ap answer there ∙ answered n st.amplitudes few full)
    where
      answer : Result (QuantumRegister W (DenseStateBackend W)) → Result ℕ
      answer made = and_then made (λ reg. (Access.measure rnd reg).0)

      made :
          {n : ℕ} (st : QuantumState W (DenseStateBackend W))
          → st.kind ≡ StateKind.amplitudes
          → st.qubits ≡ n
          → materialize (ok created) st ≡ make_loaded n st.amplitudes (ok created)
      made st e size = simp (e, size, materialize) refl

      answered :
          (n : ℕ) (v : List W)
          → n < 32
          → length v ≡ 2 ^ n * 2
          → answer (make_loaded n v (ok created)) ≡ sample_from rnd (2 ^ n) 0 nought v
      answered n v few full = measured-loaded rnd created n v few full sample
