-- ===== src/Chunk/Delivery.antt =====
-- `verify_stream` accepts exactly the readers that deliver the payload of the length and the root.
use sidequests.Common.{
  ℕ, ◌+◌, ◌<◌, ◌≡◌, ◌≢◌, ◌↔◌, refl, sym, subst, List, [], ◌∷◌, ◌++◌, append_assoc, append-nil,
  length, length-append, true, false, Bool-cases, Option-cases, some, inl, inr, ltb, ◌==◌, ==→eq,
  ==-false_of_ne, arith,
}
use sidequests.Error.{ok, err}
use sidequests.Wire.{slice, length-slice, bytes_eq→eq, bytes_eq_refl}
use sidequests.Format.{checked_add, u64_mod}
use sidequests.Chunk.Stream.{Call, finish, stream_loop, take_read, verify_stream}

-- The bytes that calls of a reader deliver, up to the first that returns 0.
pub data Delivers : List Call → List ℕ → Type 0 where
  exhausted : Delivers [] []
  ended : (buf : List ℕ) (calls : List Call) → Delivers (ok (0, buf) ∷ calls) []
  more :
      (n : ℕ) (buf got bytes : List ℕ) (calls : List Call)
      → n ≢ 0
      → slice buf 0 n ≡ some got
      → Delivers calls bytes
      → Delivers (ok (n, buf) ∷ calls) (got ++ bytes)

module _ (hash : List ℕ → List ℕ) (root : List ℕ) (expected_len : ℕ) where
  finish-eq-ok :
      (total : ℕ) (seen : List ℕ) (r : ℕ)
      → finish hash root expected_len total seen ≡ ok r
      → (total ≡ expected_len) × (r ≡ expected_len) × (hash seen ≡ root)
  unfolding finish
  finish-eq-ok total seen r e =
      let len : total ≡ expected_len = ground arith in
      (len, ground arith, bytes_eq→eq (hash seen) root (ground arith))

  stream_loop-Delivers :
      (total : ℕ) (seen : List ℕ) (calls : List Call) (r : ℕ)
      → total ≡ length seen
      → stream_loop hash root expected_len total seen calls ≡ ok r
      → (bytes : List ℕ) × Delivers calls bytes
        × (length seen + length bytes ≡ expected_len)
        × (r ≡ expected_len)
        × (hash (seen ++ bytes) ≡ root)
  unfolding stream_loop take_read
  stream_loop-Delivers total seen [] r len e =
      let (a, b, c) = finish-eq-ok total seen r e in
      ([], exhausted, omega arith, b, rw append-nil c)
  stream_loop-Delivers total seen (err x ∷ calls) r len e = cc
  stream_loop-Delivers total seen (ok (n, buf) ∷ calls) r len e = elim (Bool-cases (n == 0)) [
    | inl last ↦
        let (a, b, c) = finish-eq-ok total seen r (ground arith) in
        (
          [],
          subst (λ m. Delivers (ok (m, buf) ∷ calls) []) (sym (==→eq n 0 last)) (ended buf calls),
          omega arith,
          b,
          rw append-nil c,
        )
    | inr going ↦ elim (Option-cases (slice buf 0 n)) [
      | inl missing ↦ absurd (ground arith)
      | inr (got, found) ↦
          let size = length-slice buf 0 n found in
          let joined = length-append seen got in
          let later : stream_loop hash root expected_len (total + n) (seen ++ got) calls ≡ ok r =
            ground arith in
          let (bytes, delivers, sum, b, c) =
            stream_loop-Delivers (total + n) (seen ++ got) calls r (omega arith) later in
          let whole = length-append got bytes in
          (
            got ++ bytes,
            more n buf got bytes calls (ground arith) found delivers,
            omega arith,
            b,
            rw append_assoc at c,
          )
    ]
  ]

  finish-ok :
      (total : ℕ) (seen : List ℕ)
      → total ≡ expected_len
      → hash seen ≡ root
      → finish hash root expected_len total seen ≡ ok expected_len
  unfolding finish
  finish-ok total seen len e =
      let reached : (expected_len == expected_len) ≡ true = ground arith in
      rw (len, reached, e, bytes_eq_refl root) refl

  stream_loop-ok :
      (total : ℕ) (seen : List ℕ) (calls : List Call) (bytes : List ℕ)
      → total ≡ length seen
      → expected_len < u64_mod
      → Delivers calls bytes
      → length seen + length bytes ≡ expected_len
      → hash (seen ++ bytes) ≡ root
      → stream_loop hash root expected_len total seen calls ≡ ok expected_len
  unfolding stream_loop take_read finish
  stream_loop-ok total seen calls bytes len small exhausted sum e =
      let len' : total ≡ expected_len = omega arith in
      finish-ok total seen len' (rw append-nil at e)
  stream_loop-ok total seen calls bytes len small (ended buf rest) sum e =
      let len' : total ≡ expected_len = omega arith in
      finish-ok total seen len' (rw append-nil at e)
  stream_loop-ok total seen calls bytes len small (more n buf got bytes' rest ne found d) sum e =
      let size = length-slice buf 0 n found in
      let joined = length-append seen got in
      let whole = length-append got bytes' in
      let going : (n == 0) ≡ false = ==-false_of_ne n 0 ne in
      let fits : total + n < u64_mod = omega arith in
      let short : ltb expected_len (total + n) ≡ false = ground arith in
      let added : checked_add total n ≡ some (total + n) = ground arith in
      let later =
        stream_loop-ok (total + n) (seen ++ got) rest bytes' (omega arith) small d (omega arith)
          (rw append_assoc e) in
      rw (going, found, added, short) later

verify_stream-Delivers :
    (hash : List ℕ → List ℕ) (calls : List Call) (root : List ℕ) (expected_len buf_len r : ℕ)
    → verify_stream hash calls root expected_len buf_len ≡ ok r
    → (bytes : List ℕ) × Delivers calls bytes
      × (length bytes ≡ expected_len)
      × (r ≡ expected_len)
      × (hash bytes ≡ root)
unfolding verify_stream
verify_stream-Delivers hash calls root expected_len buf_len r e =
    let (bytes, d, sum, b, c) =
      stream_loop-Delivers hash root expected_len 0 [] calls r refl (ground arith) in
    (bytes, d, omega arith, b, c)

Delivers-verify_stream :
    (hash : List ℕ → List ℕ) (calls : List Call) (bytes : List ℕ) (buf_len : ℕ)
    → buf_len ≢ 0
    → Delivers calls bytes
    → length bytes < u64_mod
    → verify_stream hash calls (hash bytes) (length bytes) buf_len ≡ ok (length bytes)
unfolding verify_stream
Delivers-verify_stream hash calls bytes buf_len ne d small =
    let sized : (buf_len == 0) ≡ false = ==-false_of_ne buf_len 0 ne in
    rw sized (
      stream_loop-ok hash (hash bytes) (length bytes) 0 [] calls bytes refl small d (omega arith)
        refl)

-- The calls of a reader through a non-empty buffer are accepted, for a length below 2 ^ 64, exactly when
-- they deliver bytes of that length whose hash is the root.
pub verify_stream-iff-Delivers :
    (hash : List ℕ → List ℕ) (calls : List Call) (root : List ℕ) (expected_len buf_len : ℕ)
    → buf_len ≢ 0
    → expected_len < u64_mod
    → ((r : ℕ) × (verify_stream hash calls root expected_len buf_len ≡ ok r)) ↔ (
        (bytes : List ℕ) × Delivers calls bytes
        × (length bytes ≡ expected_len)
        × (hash bytes ≡ root))
verify_stream-iff-Delivers hash calls root expected_len buf_len ne small =
    (delivered, (λ (bytes, d, len, is). (expected_len, accepted bytes d len is)))
  where
    delivered :
        (r : ℕ) × (verify_stream hash calls root expected_len buf_len ≡ ok r)
        → (bytes : List ℕ) × Delivers calls bytes
          × (length bytes ≡ expected_len)
          × (hash bytes ≡ root)
    delivered (r, e) =
        let (bytes, d, len, _, is) =
          verify_stream-Delivers hash calls root expected_len buf_len r e in
        (bytes, d, len, is)

    accepted :
        (bytes : List ℕ)
        → Delivers calls bytes
        → length bytes ≡ expected_len
        → hash bytes ≡ root
        → verify_stream hash calls root expected_len buf_len ≡ ok expected_len
    accepted bytes d len is =
        rw (← is, ← len) (Delivers-verify_stream hash calls bytes buf_len ne d (omega arith))
