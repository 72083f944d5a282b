-- ===== src/Chunk/Leaves.antt =====
-- The chaining values of a plaintext's chunks, and their reduction to the value of its subtree.
use sidequests.Common.{
  ℕ, zero, suc, ◌+◌, ◌*◌, ◌≤◌, ◌≡◌, refl, sym, ap, List, [], ◌∷◌, length, take, drop, drop-drop,
  arith,
}
use sidequests.Chunk.Tree.{ChainingValue, Blake3}

take-take {ℓ} : {A : Type ℓ} (a b : ℕ) (xs : List A) → a ≤ b → take a (take b xs) ≡ take a xs
take-take zero b xs h = refl
take-take (suc a) zero xs h = absurd (omega arith)
take-take (suc a) (suc b) [] h = refl
take-take (suc a) (suc b) (x ∷ xs) h = rw (take-take a b xs (omega arith))

drop-take {ℓ} : {A : Type ℓ} (a b : ℕ) (xs : List A) → drop a (take (a + b) xs) ≡ take b (drop a xs)
drop-take zero b xs = rw Prim.Native.Nat.add.zero
drop-take (suc a) zero [] = rw Prim.Native.Nat.add.suc
drop-take (suc a) (suc b) [] = rw Prim.Native.Nat.add.suc
drop-take (suc a) b (x ∷ xs) = rw Prim.Native.Nat.add.suc (drop-take a b xs)

pub take_all {ℓ} : {A : Type ℓ} (n : ℕ) (xs : List A) → length xs ≤ n → take n xs ≡ xs
take_all zero [] h = refl
take_all zero (x ∷ xs) h = absurd (omega arith)
take_all (suc n) [] h = refl
take_all (suc n) (x ∷ xs) h = rw (take_all n xs (omega arith))

module _ (blake3 : Blake3) (chunk_size : ℕ) where
  -- The values of the first `n` chunks of a text that stands at `off`.
  unfoldable pub leaves : ℕ → ℕ → List ℕ → List ChainingValue
  leaves off zero text = []
  leaves off (suc n) text =
      blake3.subtree off (take chunk_size text) ∷ leaves (off + chunk_size) n (drop chunk_size text)

  pub leaves-suc :
      (off n : ℕ) (text : List ℕ)
      → leaves off (suc n) text
        ≡ blake3.subtree off (take chunk_size text)
          ∷ leaves (off + chunk_size) n (drop chunk_size text)
  unfolding leaves
  leaves-suc off n text = refl

  pub leaves-zero : (off : ℕ) (text : List ℕ) → leaves off zero text ≡ []
  unfolding leaves
  leaves-zero off text = refl

  pub length-leaves : (off n : ℕ) (text : List ℕ) → length (leaves off n text) ≡ n
  unfolding leaves
  length-leaves off zero text = refl
  length-leaves off (suc n) text =
      ap suc (length-leaves (off + chunk_size) n (drop chunk_size text))

  pub take-leaves :
      (m r off : ℕ) (text : List ℕ)
      → take m (leaves off (m + r) text) ≡ leaves off m (take (m * chunk_size) text)
  unfolding leaves
  take-leaves zero r off text = refl
  take-leaves (suc m) r off text =
      let product : suc m * chunk_size ≡ chunk_size + m * chunk_size = omega arith in
      rw (Prim.Native.Nat.add.suc, product, drop-take, take-leaves m r)
        (ap
          (λ (t : List ℕ).
            blake3.subtree off t
            ∷ leaves (off + chunk_size) m (take (m * chunk_size) (drop chunk_size text)))
          (sym (take-take chunk_size (chunk_size + m * chunk_size) text (omega arith))))

  pub drop-leaves :
      (m r off : ℕ) (text : List ℕ)
      → drop m (leaves off (m + r) text)
        ≡ leaves (off + m * chunk_size) r (drop (m * chunk_size) text)
  unfolding leaves
  drop-leaves zero r off text =
      let none_dropped : zero * chunk_size ≡ 0 = omega arith in
      let same : off + 0 ≡ off = omega arith in
      rw (Prim.Native.Nat.add.zero, none_dropped, same) refl
  drop-leaves (suc m) r off text =
      let product : suc m * chunk_size ≡ chunk_size + m * chunk_size = omega arith in
      let sum : off + (chunk_size + m * chunk_size) ≡ off + chunk_size + m * chunk_size =
        omega arith in
      rw (Prim.Native.Nat.add.suc, product, sum, ← drop-drop chunk_size (m * chunk_size) text)
        (drop-leaves m r (off + chunk_size) (drop chunk_size text))
