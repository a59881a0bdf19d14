-- ===== src/Core/Validation/Targets.antt =====
-- What `validateGateTargets` accepts.
use tmfqsfullstate.Prelude.{
  ℕ, ◌≤◌, ◌<◌, ◌^◌, ◌%◌, ◌≡◌, ◌≢◌, ◌↔◌, refl, ap, sym, ◌∙◌, Bool, true, false, List, [], ◌∷◌, arith,
  length, get_or, set, replicate, length-set, length-replicate, get_or-set_self, get_or-set_ne,
  get_or-replicate,
}
use tmfqsfullstate.Core.Action.{ok}
use tmfqsfullstate.Core.Validation.{check_targets, validate_gate_targets}

-- Every index is below the bound and differs from the later ones.
abbrev pub Fresh : ℕ → List ℕ → Type 0
Fresh q [] = Unit
Fresh q (r ∷ rs) = (q ≢ r) × Fresh q rs

abbrev pub AreTargets : ℕ → List ℕ → Type 0
AreTargets n [] = Unit
AreTargets n (q ∷ qs) = (q < n) × Fresh q qs × AreTargets n qs

abbrev Unseen : List ℕ → List Bool → Type 0
Unseen [] seen = Unit
Unseen (q ∷ qs) seen = (get_or seen q false ≡ false) × Unseen qs seen

Unseen-set :
    (q : ℕ) (qs : List ℕ) (seen : List Bool)
    → Fresh q qs
    → Unseen qs seen
    → Unseen qs (set seen q true)
Unseen-set q [] seen f u = tt
Unseen-set q (r ∷ rs) seen (f, fs) (u, us) =
    (get_or-set_ne seen q r true false f ∙ u, Unseen-set q rs seen fs us)

Unseen-unset :
    (q : ℕ) (qs : List ℕ) (seen : List Bool)
    → q < length seen
    → Unseen qs (set seen q true)
    → Fresh q qs × Unseen qs seen
Unseen-unset q [] seen h u = (tt, tt)
Unseen-unset q (r ∷ rs) seen h (u, us) =
    let (fs, vs) = Unseen-unset q rs seen h us in
    let apart : q ≢ r =
      λ e. ground (arith, get_or-set_self seen q true false h, ap (get_or (set seen q true)) e) in
    ((apart, fs), (sym (get_or-set_ne seen q r true false apart) ∙ u, vs))

check_targets-ok :
    (n : ℕ) (qs : List ℕ) (seen : List Bool)
    → length seen ≡ n
    → AreTargets n qs × Unseen qs seen
    → check_targets n qs seen ≡ ok tt
unfolding check_targets
check_targets-ok n [] seen e h = refl
check_targets-ok n (q ∷ qs) seen e ((lt, fresh, ts), (u, us)) = ground (
  arith,
  check_targets-ok n qs (set seen q true) (length-set seen q true ∙ e)
      (ts, Unseen-set q qs seen fresh us),
)

check_targets_sound :
    (n : ℕ) (qs : List ℕ) (seen : List Bool)
    → length seen ≡ n
    → check_targets n qs seen ≡ ok tt
    → AreTargets n qs × Unseen qs seen
unfolding check_targets
check_targets_sound n [] seen e h = (tt, tt)
check_targets_sound n (q ∷ qs) seen e h =
    let lt : q < n = ground arith in
    let u : get_or seen q false ≡ false = ground arith in
    let rest : check_targets n qs (set seen q true) ≡ ok tt = ground arith in
    let (ts, vs) = check_targets_sound n qs (set seen q true) (length-set seen q true ∙ e) rest in
    let (fresh, us) = Unseen-unset q qs seen (omega arith) vs in ((lt, fresh, ts), (u, us))

Unseen-replicate : (n : ℕ) (qs : List ℕ) → Unseen qs (replicate n false)
Unseen-replicate n [] = tt
Unseen-replicate n (q ∷ qs) = (get_or-replicate n q false, Unseen-replicate n qs)

-- `validateGateTargets` accepts a list of targets exactly when there are at most 63 of them, no more
-- than the register has, the gate has dimension two to their number, each is below the number of
-- qubits, and no two are equal.
pub validate_gate_targets_iff :
    (qubits : List ℕ) (num_qubits gate_dimension : ℕ)
    → (validate_gate_targets qubits num_qubits gate_dimension ≡ ok tt) ↔ (
        (length qubits ≤ 63)
        × (length qubits ≤ num_qubits)
        × (gate_dimension ≡ 2 ^ length qubits)
        × AreTargets num_qubits qubits)
unfolding validate_gate_targets
validate_gate_targets_iff qubits n dim = (accepted, accepts)
  where
    accepted :
        validate_gate_targets qubits n dim ≡ ok tt
        → (length qubits ≤ 63)
          × (length qubits ≤ n)
          × (dim ≡ 2 ^ length qubits)
          × AreTargets n qubits
    accepted h =
        let small : length qubits ≤ 63 = ground arith in
        let e : length qubits % 2 ^ 32 ≡ length qubits = omega arith in
        let loop : check_targets n qubits (replicate n false) ≡ ok tt = ground arith in
        (
          small,
          ground arith,
          ground (arith, ap (λ x. 2 ^ x) e),
          (check_targets_sound n qubits (replicate n false) (length-replicate n false) loop).0,
        )

    accepts :
        (length qubits ≤ 63) × (length qubits ≤ n) × (dim ≡ 2 ^ length qubits) × AreTargets n qubits
        → validate_gate_targets qubits n dim ≡ ok tt
    accepts (small, fits, d, ts) =
        let e : length qubits % 2 ^ 32 ≡ length qubits = omega arith in
        ground (
          arith,
          ap (λ x. 2 ^ x) e,
          check_targets-ok n qubits (replicate n false) (length-replicate n false)
              (ts, Unseen-replicate n qubits),
        )
