-- ===== src/Common/Sort.antt =====
-- Sorting by a Boolean order. Insertion before equal items keeps the sort stable, as Rust's
-- `sort_by` is; `sort_unstable` under an order that only equal items tie gives the same list.
use mathlib.Core.Path.{◌≡◌, refl, ap, ◌∙◌}
use mathlib.Core.Logic.{◌⊎◌, inl, inr}
use mathlib.Core.Bool.{Bool, true, false}
use mathlib.Core.List.{List, [], ◌∷◌}
use sidequests.Common.Tests.{if◌then◌else◌, Bool-cases}
use sidequests.Common.Lists.{All}

module _ {ℓ} {A : Type ℓ} where
  unfoldable pub insert : (A → A → Bool) → A → List A → List A
  insert le x [] = x ∷ []
  insert le x (y ∷ ys) = let rest = insert le x ys in if le x y then x ∷ y ∷ ys else y ∷ rest

  unfoldable pub sort : (A → A → Bool) → List A → List A
  unfolding insert
  sort le [] = []
  sort le (x ∷ xs) = insert le x (sort le xs)

-- Every earlier item is related to every later one.
abbrev pub AllPairs {ℓ} : {A : Type ℓ} → (A → A → Type 0) → List A → Type 0
AllPairs R [] = Unit
AllPairs R (x ∷ xs) = All (R x) xs × AllPairs R xs

-- Some item has the property.
abbrev pub Any {ℓ} : {A : Type ℓ} → (A → Type 0) → List A → Type 0
Any P [] = ⊥
Any P (x ∷ xs) = P x ⊎ Any P xs

-- Every item is in order with its right neighbour.
abbrev pub IsSorted {ℓ} : {A : Type ℓ} → (A → A → Bool) → List A → Type 0
IsSorted le [] = Unit
IsSorted le (x ∷ []) = Unit
IsSorted le (x ∷ (y ∷ ys)) = (le x y ≡ true) × IsSorted le (y ∷ ys)

-- The second of three alternatives moves to the front.
⊎_left_comm : {P Q R : Type 0} → P ⊎ (Q ⊎ R) → Q ⊎ (P ⊎ R)
⊎_left_comm (inl p) = inr (inl p)
⊎_left_comm (inr (inl q)) = inl q
⊎_left_comm (inr (inr r)) = inr (inr r)

⊎_map_right : {P Q R : Type 0} → (Q → R) → P ⊎ Q → P ⊎ R
⊎_map_right f (inl p) = inl p
⊎_map_right f (inr q) = inr (f q)

module _ {ℓ} {A : Type ℓ} (le : A → A → Bool) (P : A → Type 0) where
  pub All-insert : (x : A) (xs : List A) → All P (insert le x xs) → P x × All P xs
  unfolding insert
  All-insert x [] h = h
  All-insert x (y ∷ ys) h = elim (Bool-cases (le x y)) [
    | inl before ↦ rw before at h
    | inr behind ↦
        let h' : All P (y ∷ insert le x ys) = rw behind at h in
        let (p, q) = All-insert x ys h'.1 in (p, (h'.0, q))
  ]

  pub insert-All : (x : A) (xs : List A) → P x → All P xs → All P (insert le x xs)
  unfolding insert
  insert-All x [] p h = (p, tt)
  insert-All x (y ∷ ys) p h = elim (Bool-cases (le x y)) [
    | inl before ↦ rw before (p, h)
    | inr behind ↦ rw behind (h.0, insert-All x ys p h.1)
  ]

  pub All-sort : (xs : List A) → All P (sort le xs) → All P xs
  unfolding sort
  All-sort [] h = h
  All-sort (x ∷ xs) h = let (p, q) = All-insert x (sort le xs) h in (p, All-sort xs q)

  pub sort-All : (xs : List A) → All P xs → All P (sort le xs)
  unfolding sort
  sort-All [] h = h
  sort-All (x ∷ xs) h = insert-All x (sort le xs) h.0 (sort-All xs h.1)

  Any-insert : (x : A) (xs : List A) → Any P (insert le x xs) → P x ⊎ Any P xs
  unfolding insert
  Any-insert x [] h = h
  Any-insert x (y ∷ ys) h = elim (Bool-cases (le x y)) [
    | inl before ↦ rw before at h
    | inr behind ↦
        let h' : Any P (y ∷ insert le x ys) = rw behind at h in
        ⊎_left_comm (⊎_map_right (Any-insert x ys) h')
  ]

  pub Any-sort : (xs : List A) → Any P (sort le xs) → Any P xs
  unfolding sort
  Any-sort [] h = h
  Any-sort (x ∷ xs) h = ⊎_map_right (Any-sort xs) (Any-insert x (sort le xs) h)

module _ {ℓ} {A : Type ℓ} (le : A → A → Bool) (R : A → A → Type 0)
    (symm : (a b : A) → R a b → R b a) where
  All-symm : (x : A) (xs : List A) → All (λ y. R y x) xs → All (R x) xs
  All-symm x [] h = tt
  All-symm x (y ∷ ys) h = (symm y x h.0, All-symm x ys h.1)

  AllPairs-insert :
      (x : A) (xs : List A) → AllPairs R (insert le x xs) → All (R x) xs × AllPairs R xs
  unfolding insert
  AllPairs-insert x [] h = h
  AllPairs-insert x (y ∷ ys) h = elim (Bool-cases (le x y)) [
    | inl before ↦ rw before at h
    | inr behind ↦
        let h' : AllPairs R (y ∷ insert le x ys) = rw behind at h in
        let (later, rest) = AllPairs-insert x ys h'.1 in
        let (first, others) = All-insert le (R y) x ys h'.0 in
        ((symm y x first, later), (others, rest))
  ]

  -- A symmetric relation between all pairs does not depend on the order.
  pub AllPairs-sort : (xs : List A) → AllPairs R (sort le xs) → AllPairs R xs
  unfolding sort
  AllPairs-sort [] h = h
  AllPairs-sort (x ∷ xs) h =
      let (others, rest) = AllPairs-insert x (sort le xs) h in
      (All-sort le (R x) xs others, AllPairs-sort xs rest)

-- A sorted list is left as it is.
pub sort-IsSorted {ℓ} :
    {A : Type ℓ} (le : A → A → Bool) (xs : List A) → IsSorted le xs → sort le xs ≡ xs
unfolding sort
sort-IsSorted le [] h = refl
sort-IsSorted le (x ∷ []) h = refl
sort-IsSorted le (x ∷ (y ∷ ys)) h =
    let ih : sort le (y ∷ ys) ≡ y ∷ ys = sort-IsSorted le (y ∷ ys) h.1 in
    ap (insert le x) ih ∙ rw h.0

module _ {ℓ} {A : Type ℓ} (le : A → A → Bool)
    (total : (a b : A) → le a b ≡ false → le b a ≡ true) where
  insert-IsSorted : (x : A) (xs : List A) → IsSorted le xs → IsSorted le (insert le x xs)
  unfolding insert
  insert-IsSorted x [] h = tt
  insert-IsSorted x (y ∷ []) h = elim (Bool-cases (le x y)) [
    | inl before ↦ rw before (before, tt)
    | inr behind ↦ rw behind (total x y behind, tt)
  ]
  insert-IsSorted x (y ∷ (z ∷ zs)) h = elim (Bool-cases (le x y)) [
    | inl before ↦ rw before (before, h)
    | inr behind ↦
        rw behind
          (between (total x y behind) (insert-IsSorted x (z ∷ zs) h.1) (Bool-cases (le x z)))
  ]
    where
      between :
          le y x ≡ true
          → IsSorted le (insert le x (z ∷ zs))
          → (le x z ≡ true) ⊎ (le x z ≡ false)
          → IsSorted le (y ∷ insert le x (z ∷ zs))
      between first rest (inl before) = rw before (first, rw before at rest)
      between first rest (inr after) = rw after (h.0, rw after at rest)

  pub sort_sorts : (xs : List A) → IsSorted le (sort le xs)
  unfolding sort
  sort_sorts [] = tt
  sort_sorts (x ∷ xs) = insert-IsSorted x (sort le xs) (sort_sorts xs)
