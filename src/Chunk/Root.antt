-- ===== src/Chunk/Root.antt =====
-- The reduction of a plaintext's chunk index is the BLAKE3 hash of the plaintext.
use sidequests.Common.{
  ℕ, zero, suc, ◌+◌, ◌-◌, ◌*◌, ◌≤◌, ◌<◌, ◌≡◌, refl, sym, ap, ◌∙◌, List, length, take, drop,
  length-take, length-drop, arith, some, ltb, false, min,
}
use native.Mathlib.Nat.{mul-le-mul_right}
use sidequests.Common.Bits.{pow2}
use sidequests.Chunk.Tree.{
  ChainingValue, Blake3, left_len, split_canonical, merge_parts, merge_non_root, root_from_cvs,
}
use sidequests.Chunk.Split.{left_len-bounds, pow2_mono, pow2-add, pow2-lt_inv, pow2-pos}
use sidequests.Chunk.Leaves.{leaves, length-leaves, take-leaves, drop-leaves, take_all}

-- `off` is a multiple of 2 ^ k.
abbrev pub Aligned : ℕ → ℕ → Type 0
Aligned off k = (q : ℕ) × (off ≡ q * pow2 k)

-- What the crate's documentation says of its tree: a subtree of more than 2 ^ k and at most
-- 2 ^ (k + 1) bytes, at least a KiB, that stands at a multiple of 2 ^ (k + 1), is the merge of its
-- first 2 ^ k bytes and the rest; and the hash of that many bytes is their root merge.
pub record IsBlake3 (blake3 : Blake3) : Type 0 where
  pub subtree_split :
      (k off : ℕ) (text : List ℕ)
      → 10 ≤ k
      → Aligned off (suc k)
      → pow2 k < length text
      → length text ≤ pow2 k * 2
      → blake3.subtree off text
        ≡ blake3.merge_subtrees_non_root
            (blake3.subtree off (take (pow2 k) text))
            (blake3.subtree (off + pow2 k) (drop (pow2 k) text))
  pub hash_split :
      (k : ℕ) (text : List ℕ)
      → 10 ≤ k
      → pow2 k < length text
      → length text ≤ pow2 k * 2
      → blake3.hash text
        ≡ blake3.merge_subtrees_root
            (blake3.subtree 0 (take (pow2 k) text))
            (blake3.subtree (pow2 k) (drop (pow2 k) text))

Aligned-mono : (off a b : ℕ) → a ≤ b → Aligned off b → Aligned off a
Aligned-mono off a b h (q, e) =
    let split : b ≡ a + (b - a) = omega arith in
    let product : pow2 b ≡ pow2 a * pow2 (b - a) = ap pow2 split ∙ pow2-add a (b - a) in
    (q * pow2 (b - a), rw (e, product) (omega arith))

Aligned-next : (off k : ℕ) → Aligned off k → Aligned (off + pow2 k) k
Aligned-next off k (q, e) = (suc q, rw e (omega arith))

-- A text that takes `n + 1` chunks of 2 ^ j bytes.
pub record Spans (j n : ℕ) (text : List ℕ) : Type 0 where
  pub more : n * pow2 j < length text
  pub most : length text ≤ suc n * pow2 j

-- Where the canonical split cuts `n + 1` chunks: behind 2 ^ b of them, of which `m + 1` is the
-- number, before the other `r + 1`.
record Cut (j n : ℕ) (text : List ℕ) : Type 0 where
  b : ℕ
  m : ℕ
  r : ℕ
  left_is : left_len (suc n) ≡ pow2 b
  left_suc : pow2 b ≡ suc m
  whole : suc n ≡ pow2 b + suc r
  right_less : r < pow2 b
  longer : pow2 (b + j) < length text
  not_twice : length text ≤ pow2 (b + j) * 2
  left : Spans j m (take (pow2 (b + j)) text)
  right : Spans j r (drop (pow2 (b + j)) text)

-- The sizes of the two parts, in bytes; `size` is the size of a chunk.
parts :
    (size n m r : ℕ) (text : List ℕ)
    → 0 < size
    → n ≡ suc m + r
    → r ≤ m
    → n * size < length text
    → length text ≤ suc n * size
    → (suc m * size < length text)
      × (length text ≤ suc m * size * 2)
      × (r * size < length text - suc m * size)
      × (length text - suc m * size ≤ suc r * size)
      × (min (suc m * size) (length text) ≡ suc m * size)
parts size n m r text pos whole less more most =
    let times : n * size ≡ suc m * size + r * size = ap (λ (t : ℕ). t * size) whole ∙ omega arith in
    let smaller : r * size ≤ m * size = mul-le-mul_right size less in
    let left : suc m * size ≡ m * size + size = omega arith in
    let all : suc n * size ≡ n * size + size = omega arith in
    let rest : suc r * size ≡ r * size + size = omega arith in
    (omega arith, omega arith, omega arith, omega arith, omega arith)

cut : (j n : ℕ) (text : List ℕ) → 1 ≤ n → suc n ≤ pow2 64 → Spans j n text → Cut j n text
cut j n text two below spans =
    let (b, left_is, less, twice) = left_len-bounds (suc n) (omega arith) below in
    let pos = pow2-pos b in
    let m = pow2 b - 1 in
    let r = n - pow2 b in
    let left_suc : pow2 b ≡ suc m = omega arith in
    let bytes : pow2 (b + j) ≡ suc m * pow2 j =
      pow2-add b j ∙ ap (λ (t : ℕ). t * pow2 j) left_suc in
    let (longer, not_twice, right_more, right_most, whole_left) =
      parts (pow2 j) n m r text (pow2-pos j) (omega arith) (omega arith) spans.more spans.most in
    let left_len_is : length (take (pow2 (b + j)) text) ≡ suc m * pow2 j =
      rw (length-take, bytes) whole_left in
    let right_len_is : length (drop (pow2 (b + j)) text) ≡ length text - suc m * pow2 j =
      rw (length-drop, bytes) refl in
    let chunk_pos = pow2-pos j in
    record {
      b = b;
      m = m;
      r = r;
      left_is = left_is;
      left_suc = left_suc;
      whole = omega arith;
      right_less = omega arith;
      longer = rw bytes longer;
      not_twice = rw bytes not_twice;
      left = record { more = rw left_len_is (omega arith); most = rw left_len_is (omega arith) };
      right = record { more = rw right_len_is right_more; most = rw right_len_is right_most };
    }

split-leaves :
    (blake3 : Blake3) (j n off : ℕ) (text : List ℕ) (c : Cut j n text)
    → 1 ≤ n
    → split_canonical (leaves blake3 (pow2 j) off (suc n) text)
      ≡ some (
        leaves blake3 (pow2 j) off (suc c.m) (take (pow2 (c.b + j)) text),
        leaves blake3 (pow2 j) (off + pow2 (c.b + j)) (suc c.r) (drop (pow2 (c.b + j)) text),
      )
unfolding split_canonical
split-leaves blake3 j n off text c two =
    let bytes : pow2 (c.b + j) ≡ suc c.m * pow2 j =
      pow2-add c.b j ∙ ap (λ (t : ℕ). t * pow2 j) c.left_suc in
    let whole : suc n ≡ suc c.m + suc c.r = omega (arith, c.whole, c.left_suc) in
    let left : left_len (suc n) ≡ suc c.m = c.left_is ∙ c.left_suc in
    let big : ltb (suc c.m + suc c.r) 2 ≡ false = ground arith in
    rw (length-leaves blake3 (pow2 j) off (suc n) text, left)
      (rw
        (
          whole,
          take-leaves blake3 (pow2 j) (suc c.m) (suc c.r) off text,
          drop-leaves blake3 (pow2 j) (suc c.m) (suc c.r) off text,
          bytes,
        )
        (rw big refl))

-- One chunk is its own subtree.
one_leaf :
    (blake3 : Blake3) (j off : ℕ) (text : List ℕ)
    → Spans j 0 text
    → some (blake3.subtree off (take (pow2 j) text)) ≡ some (blake3.subtree off text)
one_leaf blake3 j off text spans =
    ap (λ (t : List ℕ). some (blake3.subtree off t))
      (take_all (pow2 j) text (omega (arith, spans.most)))

merge_non_root-split :
    (blake3 : Blake3) (k : ℕ) (cvs left right : List ChainingValue) {l r : ChainingValue}
    → split_canonical cvs ≡ some (left, right)
    → merge_non_root blake3 k left ≡ some l
    → merge_non_root blake3 k right ≡ some r
    → merge_non_root blake3 (suc k) cvs ≡ some (blake3.merge_subtrees_non_root l r)
unfolding merge_non_root merge_parts
merge_non_root-split blake3 k cvs left right e f g = rw (e, f, g) refl

root_from_cvs-split :
    (blake3 : Blake3) (cvs left right : List ChainingValue) {l r : ChainingValue}
    → split_canonical cvs ≡ some (left, right)
    → merge_non_root blake3 64 left ≡ some l
    → merge_non_root blake3 64 right ≡ some r
    → root_from_cvs blake3 cvs ≡ some (blake3.merge_subtrees_root l r)
unfolding root_from_cvs merge_parts
root_from_cvs-split blake3 cvs left right e f g = rw (e, f, g) refl

module _ (blake3 : Blake3) (is : IsBlake3 blake3) (j : ℕ) (kib : 10 ≤ j) where
  merge_non_root-leaves :
      (k height n off : ℕ) (text : List ℕ)
      → height ≤ k
      → k ≤ 64
      → n < pow2 height
      → Aligned off (height + j)
      → Spans j n text
      → merge_non_root blake3 k (leaves blake3 (pow2 j) off (suc n) text)
        ≡ some (blake3.subtree off text)
  unfolding merge_non_root merge_parts leaves split_canonical
  merge_non_root-leaves zero height zero off text h small below aligned spans =
      one_leaf blake3 j off text spans
  merge_non_root-leaves zero height (suc n) off text h small below aligned spans =
      let flat : height ≡ 0 = omega arith in absurd (omega (arith, ap pow2 flat))
  merge_non_root-leaves (suc k) height zero off text h small below aligned spans =
      one_leaf blake3 j off text spans
  merge_non_root-leaves (suc k) height (suc n) off text h small below aligned spans =
      let fits : pow2 height ≤ pow2 64 = pow2_mono height 64 (omega arith) in
      let c = cut j (suc n) text (omega arith) (omega arith) spans in
      let lower : c.b < height = pow2-lt_inv c.b height (omega (arith, c.whole)) in
      let left_aligned : Aligned off (c.b + j) =
        Aligned-mono off (c.b + j) (height + j) (omega arith) aligned in
      let left =
        merge_non_root-leaves k c.b c.m off (take (pow2 (c.b + j)) text) (omega arith) (omega arith)
          (omega (arith, c.left_suc)) left_aligned c.left in
      let right =
        merge_non_root-leaves k c.b c.r (off + pow2 (c.b + j)) (drop (pow2 (c.b + j)) text)
          (omega arith) (omega arith) c.right_less (Aligned-next off (c.b + j) left_aligned)
          c.right in
      let tree =
        is.subtree_split (c.b + j) off text (omega arith)
          (Aligned-mono off (suc (c.b + j)) (height + j) (omega arith) aligned) c.longer
          c.not_twice in
      merge_non_root-split blake3 k (leaves blake3 (pow2 j) off (suc (suc n)) text) _ _
        (split-leaves blake3 j (suc n) off text c (omega arith)) left right
      ∙ ap some (sym tree)

  -- The values of a plaintext's chunks reduce to its hash.
  pub root_from_cvs-leaves :
      (n : ℕ) (text : List ℕ)
      → 1 ≤ n
      → suc n ≤ pow2 64
      → Spans j n text
      → root_from_cvs blake3 (leaves blake3 (pow2 j) 0 (suc n) text) ≡ some (blake3.hash text)
  root_from_cvs-leaves n text two below spans =
      let c = cut j n text two below spans in
      let lower : c.b < 64 = pow2-lt_inv c.b 64 (omega (arith, c.whole)) in
      let left =
        merge_non_root-leaves 64 c.b c.m 0 (take (pow2 (c.b + j)) text) (omega arith) (omega arith)
          (omega (arith, c.left_suc)) (0, omega arith) c.left in
      let right =
        merge_non_root-leaves 64 c.b c.r (pow2 (c.b + j)) (drop (pow2 (c.b + j)) text) (omega arith)
          (omega arith) c.right_less (1, omega arith) c.right in
      let at_zero : 0 + pow2 (c.b + j) ≡ pow2 (c.b + j) = omega arith in
      let halves = rw at_zero at (split-leaves blake3 j n 0 text c two) in
      root_from_cvs-split blake3 (leaves blake3 (pow2 j) 0 (suc n) text) _ _ halves left right
      ∙ ap some (sym (is.hash_split (c.b + j) text (omega arith) c.longer c.not_twice))
