-- ===== src/Storage/Selected/Laws.antt =====
-- The sorted list of states without repetitions: its order and its members.
use mathlib.Core.Logic.{inl, inr}
use tmfqsfullstate.Prelude.{
  ℕ, ◌≤◌, ◌<◌, ◌≡◌, refl, ap, subst, ◌∙◌, Bool, true, false, ◌||◌, List, [], ◌∷◌, arith, All, leb,
  ◌==◌, Bool-cases,
}
use tmfqsfullstate.Storage.Selected.{insert_sorted, sort, unique_after, unique, sorted_unique}

abbrev pub member : ℕ → List ℕ → Bool
member z [] = false
member z (x ∷ xs) = (z == x) || member z xs

-- Each element is related to all later ones.
abbrev pub Ordered : (ℕ → ℕ → Type 0) → List ℕ → Type 0
Ordered R [] = Unit
Ordered R (x ∷ xs) = All (R x) xs × Ordered R xs

pub All-member : (P : ℕ → Type 0) (xs : List ℕ) → ((z : ℕ) → member z xs ≡ true → P z) → All P xs
All-member P [] h = tt
All-member P (x ∷ xs) h = (h x (ground arith), All-member P xs (λ z m. h z (ground (arith, m))))

pub member-All : (P : ℕ → Type 0) (xs : List ℕ) (z : ℕ) → All P xs → member z xs ≡ true → P z
member-All P [] z h m = absurd (ground (arith, m))
member-All P (x ∷ xs) z (p, h) m = elim (Bool-cases (z == x)) [
  | inl e ↦ subst P (ground (arith, e)) p
  | inr e ↦ member-All P xs z h (ground (arith, m, e))
]

member-insert_sorted :
    (x z : ℕ) (xs : List ℕ) → member z (insert_sorted x xs) ≡ (z == x) || member z xs
unfolding insert_sorted
member-insert_sorted x z [] = refl
member-insert_sorted x z (y ∷ ys) =
    let rest = member-insert_sorted x z ys in
    elim (Bool-cases (leb x y)) [ inl e ↦ rw e refl | inr e ↦ rw (e, rest) (ground arith) ]

member-sort : (z : ℕ) (xs : List ℕ) → member z (sort xs) ≡ member z xs
unfolding sort
member-sort z [] = refl
member-sort z (x ∷ xs) =
    member-insert_sorted x z (sort xs) ∙ ap (λ b. (z == x) || b) (member-sort z xs)

unique_after-same :
    (x y : ℕ) (ys : List ℕ) → (x == y) ≡ true → unique_after x (y ∷ ys) ≡ unique_after x ys
unfolding unique_after
unique_after-same x y ys e = ground (arith, e)

unique_after-next :
    (x y : ℕ) (ys : List ℕ) → (x == y) ≡ false → unique_after x (y ∷ ys) ≡ y ∷ unique_after y ys
unfolding unique_after
unique_after-next x y ys e = ground (arith, e)

member-unique_after :
    (x z : ℕ) (ys : List ℕ) → (z == x) || member z (unique_after x ys) ≡ (z == x) || member z ys
unfolding unique_after
member-unique_after x z [] = refl
member-unique_after x z (y ∷ ys) = elim (Bool-cases (x == y)) [
  | inl e ↦
      let rest = member-unique_after x z ys in
      let same : x ≡ y = ground (arith, e) in
      rw (unique_after-same x y ys e, rest, ← same) (ground arith)
  | inr e ↦ let rest = member-unique_after y z ys in rw (unique_after-next x y ys e, rest) refl
]

insert_sorted-Ordered :
    (x : ℕ) (xs : List ℕ) → Ordered (λ a b. a ≤ b) xs → Ordered (λ a b. a ≤ b) (insert_sorted x xs)
unfolding insert_sorted
insert_sorted-Ordered x [] h = (tt, tt)
insert_sorted-Ordered x (y ∷ ys) (lo, h) = elim (Bool-cases (leb x y)) [
  | inl e ↦
      let below : x ≤ y = ground (arith, e) in
      rw e (
        (
          below,
          All-member (λ b. x ≤ b) ys
              (λ z m. let q : y ≤ z = member-All (λ b. y ≤ b) ys z lo m in omega (arith, below, q)),
        ),
        (lo, h),
      )
  | inr e ↦
      let above : y ≤ x = ground (arith, e) in
      rw e (
        All-member (λ b. y ≤ b) (insert_sorted x ys)
            (λ z m. elim (Bool-cases (z == x)) [
              | inl f ↦ let same : z ≡ x = ground (arith, f) in omega arith
              | inr f ↦
                  member-All (λ b. y ≤ b) ys z lo
                    (ground (arith, f, m, member-insert_sorted x z ys))
            ]),
        insert_sorted-Ordered x ys h,
      )
]

sort-Ordered : (xs : List ℕ) → Ordered (λ a b. a ≤ b) (sort xs)
unfolding sort
sort-Ordered [] = tt
sort-Ordered (x ∷ xs) = insert_sorted-Ordered x (sort xs) (sort-Ordered xs)

unique_after-Ordered :
    (x : ℕ) (ys : List ℕ)
    → Ordered (λ a b. a ≤ b) (x ∷ ys)
    → Ordered (λ a b. a < b) (x ∷ unique_after x ys)
unfolding unique_after
unique_after-Ordered x [] h = h
unique_after-Ordered x (y ∷ ys) ((le, lo), (lo', h)) = elim (Bool-cases (x == y)) [
  | inl e ↦ rw (unique_after-same x y ys e) (unique_after-Ordered x ys (lo, h))
  | inr e ↦
      let (above, ordered) = unique_after-Ordered y ys (lo', h) in
      let less : x < y = ground (arith, e, le) in
      rw (unique_after-next x y ys e) (
        (
          less,
          All-member (λ b. x < b) (unique_after y ys)
              (λ z m.
                let q : y < z = member-All (λ b. y < b) (unique_after y ys) z above m in
                omega (arith, less, q)),
        ),
        (above, ordered),
      )
]

unique_lem :
    (ys : List ℕ)
    → Ordered (λ a b. a ≤ b) ys
    → Ordered (λ a b. a < b) (unique ys) × ((z : ℕ) → member z (unique ys) ≡ member z ys)
unfolding unique
unique_lem [] h = (tt, λ z. refl)
unique_lem (y ∷ ys) h = (unique_after-Ordered y ys h, λ z. member-unique_after y z ys)

-- The list that sorting, unique and erase leave is strictly increasing, and a state `z` is in it exactly
-- when it is in the given list.
pub sorted_unique-Ordered :
    (z : ℕ) (xs : List ℕ)
    → Ordered (λ a b. a < b) (sorted_unique xs) × (member z (sorted_unique xs) ≡ member z xs)
unfolding sorted_unique
sorted_unique-Ordered z xs =
    let (ordered, members) = unique_lem (sort xs) (sort-Ordered xs) in
    (ordered, members z ∙ member-sort z xs)
