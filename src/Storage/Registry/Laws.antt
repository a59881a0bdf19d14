-- ===== src/Storage/Registry/Laws.antt =====
-- What the registry selects.
use mathlib.Core.Logic.{◌⊎◌, inl, inr}
use tmfqsfullstate.Prelude.{
  ℕ, ◌+◌, ◌-◌, ◌≤◌, ◌<◌, ◌≡◌, ◌≢◌, refl, ap, sym, ◌∙◌, if◌then◌else◌, Bool, true, false, ltb, arith,
  Bool-cases, ◌*◌, ◌%◌, ◌^◌,
}
use tmfqsfullstate.Core.Action.{ok, and_then}
use tmfqsfullstate.Core.StateSpace.{checked_state_count, checked_amplitude_element_count}
use tmfqsfullstate.Storage.PairKernel.Bits.{pow-le, pow_add}
use tmfqsfullstate.Config.{StorageStrategyKind, dense, blosc, zfp, auto}
use tmfqsfullstate.Storage.Registry.{is_available, resolve, resolve_auto}

-- The automatic choice, from whether the state vector is small and which libraries there are.
abbrev picked : Bool → Bool → Bool → StorageStrategyKind
picked true b z = dense
picked false true z = blosc
picked false false true = zfp
picked false false false = dense

picked-is_available :
    (small b z : Bool) → (picked small b z ≢ auto) × (is_available b z (picked small b z) ≡ true)
unfolding is_available
picked-is_available true b z = (λ e. ground (arith, e), refl)
picked-is_available false true z = (λ e. ground (arith, e), refl)
picked-is_available false false true = (λ e. ground (arith, e), refl)
picked-is_available false false false = (λ e. ground (arith, e), refl)

checked_amplitude_element_count-ok :
    (n : ℕ) → n ≤ 63 → checked_amplitude_element_count n ≡ ok (2 ^ n * 2 % 2 ^ 64)
unfolding checked_amplitude_element_count checked_state_count
checked_amplitude_element_count-ok n h =
    let accepted : ltb 63 n ≡ false = ground arith in rw accepted refl

resolve_auto-picked :
    (b z : Bool) (n threshold : ℕ)
    → n ≤ 63
    → resolve_auto b z n threshold
      ≡ ok (picked (ltb (2 ^ n * 2 % 2 ^ 64 * 8 % 2 ^ 64) threshold) b z)
unfolding resolve_auto
resolve_auto-picked b z n threshold h =
    ap
      (λ r. and_then r (λ elems.
        if ltb (elems * 8 % 2 ^ 64) threshold
        then ok dense
        else if b
        then ok blosc
        else if z
        then ok zfp
        else ok dense))
      (checked_amplitude_element_count-ok n h)
    ∙ cases (ltb (2 ^ n * 2 % 2 ^ 64 * 8 % 2 ^ 64) threshold) b z
  where
    cases :
        (small b z : Bool)
        → (if small then ok dense else if b then ok blosc else if z then ok zfp else ok dense)
          ≡ ok (picked small b z)
    cases true b z = refl
    cases false true z = refl
    cases false false true = refl
    cases false false false = refl

-- The bytes of the vector of 2^n amplitudes, as a `size_t` holds them: from 60 qubits on they wrap to 0.
abbrev pub vector_bytes : ℕ → ℕ
vector_bytes n = if ltb n 60 then 2 ^ n * 16 else 0

-- What a configured strategy is resolved to: any but the automatic one to itself, and the automatic one to
-- the dense backend below the threshold, and else to the first of Blosc and Zfp that the build has, or
-- to the dense backend where it has none of them.
pub data IsResolved (b z : Bool) (n threshold : ℕ)
    : StorageStrategyKind → StorageStrategyKind → Type 0 where
  configured : {kind : StorageStrategyKind} → kind ≢ auto → IsResolved b z n threshold kind kind
  below : vector_bytes n < threshold → IsResolved b z n threshold auto dense
  with_blosc : threshold ≤ vector_bytes n → b ≡ true → IsResolved b z n threshold auto blosc
  with_zfp : threshold ≤ vector_bytes n → b ≡ false → z ≡ true → IsResolved b z n threshold auto zfp
  with_none :
      threshold ≤ vector_bytes n → b ≡ false → z ≡ false → IsResolved b z n threshold auto dense

vector_bytes-wrap : (n : ℕ) → n ≤ 63 → 2 ^ n * 2 % 2 ^ 64 * 8 % 2 ^ 64 ≡ vector_bytes n
vector_bytes-wrap n h = elim (Bool-cases (ltb n 60)) [
  | inl e ↦
      let few : n < 60 = ground (arith, e) in
      let small = pow-le n 59 (omega arith) in rw e (omega (arith, small))
  | inr e ↦
      let many : 60 ≤ n = ground (arith, e) in
      let split : 2 ^ n ≡ 2 ^ 60 * 2 ^ (n - 60) =
        ap (λ k. 2 ^ k) {x = n} {y = 60 + (n - 60)} (omega arith) ∙ pow_add 60 (n - 60) in
      rw e (omega (arith, split))
]

picked-IsResolved :
    (small b z : Bool) {n threshold : ℕ}
    → ltb (vector_bytes n) threshold ≡ small
    → IsResolved b z n threshold auto (picked small b z)
picked-IsResolved true b z e = below (ground (arith, e))
picked-IsResolved false true z e = with_blosc (ground (arith, e)) refl
picked-IsResolved false false true e = with_zfp (ground (arith, e)) refl refl
picked-IsResolved false false false e = with_none (ground (arith, e)) refl refl

module _ (blosc_available zfp_available : Bool) where
  -- For up to 63 qubits, resolve returns a strategy that is not the automatic one; it is the configured
  -- one, or one that is available in the build. A configured strategy other than the automatic one is
  -- returned as it is. The automatic one becomes Dense where the estimated bytes of the vector, which are
  -- 16 * 2^n below 60 qubits and wrap to 0 from there on, are below the threshold; otherwise it becomes
  -- Blosc where that is available, else Zfp where that is, else Dense.
  pub resolve-is_available :
      (n threshold : ℕ) (kind : StorageStrategyKind)
      → n ≤ 63
      → (k : StorageStrategyKind) × (resolve blosc_available zfp_available n threshold kind ≡ ok k)
        × (k ≢ auto)
        × ((k ≡ kind) ⊎ (is_available blosc_available zfp_available k ≡ true))
        × IsResolved blosc_available zfp_available n threshold kind k
  unfolding resolve
  resolve-is_available n threshold dense h =
      let other : dense ≢ auto = λ e. ground (arith, e) in
      (dense, refl, other, inl refl, configured other)
  resolve-is_available n threshold blosc h =
      let other : blosc ≢ auto = λ e. ground (arith, e) in
      (blosc, refl, other, inl refl, configured other)
  resolve-is_available n threshold zfp h =
      let other : zfp ≢ auto = λ e. ground (arith, e) in
      (zfp, refl, other, inl refl, configured other)
  resolve-is_available n threshold auto h =
      let small = ltb (2 ^ n * 2 % 2 ^ 64 * 8 % 2 ^ 64) threshold in
      let (concrete, there) = picked-is_available small blosc_available zfp_available in
      (
        picked small blosc_available zfp_available,
        resolve_auto-picked blosc_available zfp_available n threshold h,
        concrete,
        inr there,
        picked-IsResolved small blosc_available zfp_available
            (ap (λ bytes. ltb bytes threshold) (sym (vector_bytes-wrap n h))),
      )
