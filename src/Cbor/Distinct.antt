-- ===== src/Cbor/Distinct.antt =====
-- Sorting by a key that is a byte string and comparing neighbours finds every repetition.
use sidequests.Common.{ℕ, ◌≡◌, refl, List, [], ◌∷◌, All, true, false, not, Bool, arith}
use sidequests.Common.Sort.{AllPairs, IsSorted, sort, AllPairs-sort, sort_sorts}
use sidequests.Wire.{bytes_eq}
use sidequests.Cbor.{bytes_lt}
use sidequests.Cbor.Order.{bytes_lt_asymm, bytes_lt-ne}

-- Two byte strings that neither order puts first are equal.
bytes_lt_connex :
    (xs ys : List ℕ) → bytes_lt ys xs ≡ false → bytes_eq xs ys ≡ false → bytes_lt xs ys ≡ true
unfolding bytes_lt bytes_eq
bytes_lt_connex [] [] h k = cc
bytes_lt_connex [] (y ∷ ys) h k = refl
bytes_lt_connex (x ∷ xs) [] h k = cc
bytes_lt_connex (x ∷ xs) (y ∷ ys) h k = ground (arith, bytes_lt_connex xs ys)

pub bytes_lt_trans :
    (xs ys zs : List ℕ) → bytes_lt xs ys ≡ true → bytes_lt ys zs ≡ true → bytes_lt xs zs ≡ true
unfolding bytes_lt
bytes_lt_trans xs [] zs h k = ground arith
bytes_lt_trans xs (y ∷ ys) [] h k = cc
bytes_lt_trans [] (y ∷ ys) (z ∷ zs) h k = refl
bytes_lt_trans (x ∷ xs) (y ∷ ys) (z ∷ zs) h k = ground (arith, bytes_lt_trans xs ys zs)

bytes_eq-false_sym : (xs ys : List ℕ) → bytes_eq xs ys ≡ false → bytes_eq ys xs ≡ false
unfolding bytes_eq
bytes_eq-false_sym [] [] h = h
bytes_eq-false_sym [] (y ∷ ys) h = refl
bytes_eq-false_sym (x ∷ xs) [] h = refl
bytes_eq-false_sym (x ∷ xs) (y ∷ ys) h = ground (arith, bytes_eq-false_sym xs ys)

module _ {ℓ} {A : Type ℓ} (key : A → List ℕ) where
  abbrev pub key_order : A → A → Bool
  key_order a b = not (bytes_lt (key b) (key a))

  abbrev pub Differ : A → A → Type 0
  Differ a b = bytes_eq (key a) (key b) ≡ false

  abbrev pub NeighboursDiffer : List A → Type 0
  NeighboursDiffer [] = Unit
  NeighboursDiffer (a ∷ []) = Unit
  NeighboursDiffer (a ∷ (b ∷ s)) = Differ a b × NeighboursDiffer (b ∷ s)

  key_order_total : (a b : A) → key_order a b ≡ false → key_order b a ≡ true
  key_order_total a b h =
      let behind : bytes_lt (key b) (key a) ≡ true = ground arith in
      rw (bytes_lt_asymm (key b) (key a) behind) refl

  weaken :
      (a b : A) (t : List A)
      → All (λ c. bytes_lt (key b) (key c) ≡ true) t
      → bytes_lt (key a) (key b) ≡ true
      → All (λ c. bytes_lt (key a) (key c) ≡ true) t
  weaken a b [] k less = tt
  weaken a b (c ∷ t) (k, ks) less =
      (bytes_lt_trans (key a) (key b) (key c) less k, weaken a b t ks less)

  -- The first key comes strictly before every other.
  ahead_of_all :
      (a : A) (s : List A)
      → IsSorted key_order (a ∷ s)
      → NeighboursDiffer (a ∷ s)
      → All (λ b. bytes_lt (key a) (key b) ≡ true) s
  ahead_of_all a [] h e = tt
  ahead_of_all a (b ∷ s) (h, hs) (e, es) =
      let less : bytes_lt (key a) (key b) ≡ true =
        bytes_lt_connex (key a) (key b) (ground arith) e in
      (less, weaken a b s (ahead_of_all b s hs es) less)

  lt→differ : (a : A) (s : List A) → All (λ b. bytes_lt (key a) (key b) ≡ true) s → All (Differ a) s
  lt→differ a [] h = tt
  lt→differ a (b ∷ s) (h, hs) = (bytes_lt-ne (key a) (key b) h, lt→differ a s hs)

  sorted-distinct : (s : List A) → IsSorted key_order s → NeighboursDiffer s → AllPairs Differ s
  sorted-distinct [] h e = tt
  sorted-distinct (a ∷ []) h e = (tt, tt)
  sorted-distinct (a ∷ (b ∷ s)) h e =
      (lt→differ a (b ∷ s) (ahead_of_all a (b ∷ s) h e), sorted-distinct (b ∷ s) h.1 e.1)

  pub distinct_of_sort : (s : List A) → NeighboursDiffer (sort key_order s) → AllPairs Differ s
  distinct_of_sort s e =
      AllPairs-sort key_order Differ (λ a b. bytes_eq-false_sym (key a) (key b)) s
        (sorted-distinct (sort key_order s) (sort_sorts key_order key_order_total s) e)
