-- ===== src/Core/Action.antt =====
-- Exceptions and mutable objects. A C++ exception is its class; the message is left out. A method of
-- an object of type `S` is an `Action S A`: it returns or throws, and in both cases leaves a state,
-- so that what was written before a throw stays written.
use tmfqsfullstate.Prelude.{
  ◌⊎◌, inl, inr, Bool, true, false, List, [], ◌∷◌, ◌≡◌, refl, ap, ◌∙◌, if◌then◌else◌,
}

pub data Error : Type 0 where
  invalid_argument out_of_range logic_error runtime_error overflow_error : Error

pub data Result (A : Type 0) : Type 0 where
  ok : A → Result A
  err : Error → Result A

-- `if(test) throw e;`
abbrev pub throw_if : Bool → Error → Result (Unit {0})
throw_if true e = err e
throw_if false e = ok tt

abbrev pub and_then : {A B : Type 0} → Result A → (A → Result B) → Result B
and_then (ok a) f = f a
and_then (err e) f = err e

abbrev pub Action : Type 0 → Type 0 → Type 0
Action S A = S → Result A × S

abbrev pub continue : {S A B : Type 0} → Result A × S → (A → Action S B) → Result B × S
continue (ok a, s) f = f a s
continue (err e, s) f = (err e, s)

infixl 5 ◌>>=◌ ◌>>◌
abbrev pub ◌>>=◌ : {S A B : Type 0} → Action S A → (A → Action S B) → Action S B
◌>>=◌ m f s = continue (m s) f

abbrev pub ◌>>◌ : {S B : Type 0} → Action S (Unit {0}) → Action S B → Action S B
◌>>◌ m k s = continue (m s) (λ _. k)

abbrev pub pure : {S A : Type 0} → A → Action S A
pure a s = (ok a, s)

-- A check or a computation that reads no object.
abbrev pub lift : {S A : Type 0} → Result A → Action S A
lift r s = (r, s)

abbrev pub current : {S : Type 0} → Action S S
current s = (ok s, s)

abbrev pub put : {S : Type 0} → S → Action S (Unit {0})
put s' s = (ok tt, s')

abbrev pub modify : {S : Type 0} → (S → S) → Action S (Unit {0})
modify f s = (ok tt, f s)

-- for(x : xs) body(x): the first exception ends the loop
unfoldable pub for_each : {S A : Type 0} → List A → (A → Action S (Unit {0})) → Action S (Unit {0})
for_each [] body s = (ok tt, s)
for_each (x ∷ xs) body s = continue (body x s) (λ _. for_each xs body)

-- To split on a result and keep the equation.
pub Result-cases :
    {A : Type 0} (r : Result A) → ((a : A) × (r ≡ ok a)) ⊎ ((e : Error) × (r ≡ err e))
Result-cases (ok a) = inl (a, refl)
Result-cases (err e) = inr (e, refl)

-- What follows a step that returned.
pub >>-ok :
    {S B : Type 0} (m : Action S (Unit {0})) (k : Action S B) (s : S) {s' : S}
    → m s ≡ (ok tt, s')
    → (m >> k) s ≡ k s'
>>-ok m k s e = ap (λ r. continue r (λ _. k)) e

-- What follows a guard.
pub continue-throw_if :
    {S A : Type 0} (test : Bool) (e : Error) (s : S) (k : Unit {0} → Action S A)
    → continue (throw_if test e, s) k ≡ (if test then (err e, s) else k tt s)
continue-throw_if true e s k = refl
continue-throw_if false e s k = refl

pub and_then-ok :
    {A B : Type 0} (f : A → Result B) {r : Result A} {a : A}
    → r ≡ ok a
    → (b : B) × (f a ≡ ok b)
    → (b : B) × (and_then r f ≡ ok b)
and_then-ok f e (b, h) = (b, ap (λ x. and_then x f) e ∙ h)
