-- ===== src/Storage/Selected.antt =====
-- The lists of basis states that are sorted and freed of duplicates before use
-- (initUniformSuperposition of both backends, and appendGrover).
pub mod Laws
use tmfqsfullstate.Prelude.{ℕ, List, [], ◌∷◌, leb, ◌==◌, true, false, if◌then◌else◌}

unfoldable pub insert_sorted : ℕ → List ℕ → List ℕ
insert_sorted x [] = x ∷ []
insert_sorted x (y ∷ ys) = if leb x y then x ∷ y ∷ ys else y ∷ insert_sorted x ys

-- std::sort
unfoldable pub sort : List ℕ → List ℕ
unfolding insert_sorted
sort [] = []
sort (x ∷ xs) = insert_sorted x (sort xs)

-- std::unique with the erase: of equal neighbours the first stays
unfoldable pub unique_after : ℕ → List ℕ → List ℕ
unique_after x [] = []
unique_after x (y ∷ ys) = elim (x == y) [ true ↦ unique_after x ys | false ↦ y ∷ unique_after y ys ]

unfoldable pub unique : List ℕ → List ℕ
unfolding unique_after
unique [] = []
unique (x ∷ xs) = x ∷ unique_after x xs

unfoldable pub sorted_unique : List ℕ → List ℕ
unfolding sort unique
sorted_unique xs = unique (sort xs)
