-- ===== src/Crypto/Stream/RoundTrip.antt =====
-- A sealed section opens to its plaintext.
use sidequests.Common.{
  ℕ, zero, suc, ◌+◌, ◌-◌, ◌*◌, ◌/◌, ◌%◌, ◌≤◌, ◌<◌, ◌≡◌, refl, sym, ap, ◌∙◌, List, [], ◌∷◌, ◌++◌,
  length, take, drop, length-take, length-drop, drop-drop, take-append-drop, min, true, ltb, ◌==◌,
  Bool-cases, inl, inr, eq→==, empty_of_length, arith,
}
use sidequests.Outcome.{ok, Outcome-cases}
use sidequests.Chunk.{div_ceil}
use sidequests.Crypto.Roles.{Aead}
use sidequests.Crypto.Stream.{
  session, check_key, nonce_prefix, validate_chunk_size, stream_chunk_count, seal_frames,
  cut_chunks, seal_chunked_frames, seal_chunked, open_chunked_frames, join_frames, open_chunked,
}
use sidequests.Crypto.Stream.Frames.{IsAead, open_frames-seal_frames}
use native.Mathlib.Nat.{suc-mul, div-add-mod, mod-lt}

-- What sealing frames has written is opened to the frames.
pub open_chunked_frames-seal_chunked_frames :
    (a : Aead) (key : List ℕ) (section_id suite_id len_plain : ℕ) (frames : List (List ℕ))
    (out : List ℕ)
    → IsAead a
    → length frames ≤ 0xffff_ffff
    → seal_chunked_frames a key section_id suite_id len_plain frames ≡ ok out
    → open_chunked_frames a key section_id suite_id len_plain out ≡ ok frames
unfolding seal_chunked_frames open_chunked_frames
open_chunked_frames-seal_chunked_frames a key section_id suite_id len_plain frames out is few e =
    elim (Outcome-cases (check_key a key)) [
      | inr (x, bad) ↦ absurd (ground arith)
      | inl (u, fits) ↦ elim (Outcome-cases (nonce_prefix section_id a.nonce_len)) [
        | inr (x, bad) ↦ absurd (ground arith)
        | inl (prefix, made) ↦
            let s = session a key section_id suite_id len_plain prefix in
            let sealed : seal_frames s 0 frames ≡ ok out = rw (fits, made) at e in
            rw (fits, made)
              (open_frames-seal_frames s out (length out) 0 0 frames out is sealed refl
                (omega arith) (omega arith) (omega arith))
      ]
    ]

-- The chunk from `start` on.
cut_chunks-split :
    (size i n : ℕ) (plain : List ℕ) (frames : List (List ℕ))
    → cut_chunks size i (suc n) plain ≡ ok frames
    → (rest : List (List ℕ)) × (i * size ≤ length plain)
      × (cut_chunks size (suc i) n plain ≡ ok rest)
      × (frames
          ≡ take (min (i * size + size) (length plain) - i * size) (drop (i * size) plain) ∷ rest)
unfolding cut_chunks
cut_chunks-split size i n plain frames e = elim (Outcome-cases (cut_chunks size (suc i) n plain)) [
  | inr (x, bad) ↦ absurd (ground arith)
  | inl (rest, later) ↦ (rest, ground arith, later, ground arith)
]

length-cut_chunks :
    (size i n : ℕ) (plain : List ℕ) (frames : List (List ℕ))
    → cut_chunks size i n plain ≡ ok frames
    → length frames ≡ n
length-cut_chunks size i zero plain frames e =
    let empty : [] ≡ frames = unfold cut_chunks in ground arith in rw (← empty) refl
length-cut_chunks size i (suc n) plain frames e =
    let (rest, start, later, frames_are) = cut_chunks-split size i n plain frames e in
    rw frames_are (ap suc (length-cut_chunks size (suc i) n plain rest later))

drop_all : (n : ℕ) (xs : List ℕ) → length xs ≤ n → drop n xs ≡ []
drop_all n xs h = empty_of_length (drop n xs) (omega (arith, length-drop n xs))

all_cut :
    (start size next : ℕ) (plain : List ℕ)
    → start + size ≡ next
    → ltb (length plain) next ≡ true
    → length (drop start plain) ≤ min (start + size) (length plain) - start
all_cut start size next plain e h =
    let left = length-drop start plain in
    let short : length plain < next = ground arith in omega arith

drop-zero_mul : (size : ℕ) (xs : List ℕ) → drop (0 * size) xs ≡ xs
drop-zero_mul size xs = let none_cut : 0 * size ≡ 0 = omega arith in rw none_cut refl

-- What one chunk and the rest of the text join to.
chunk-rest :
    (start size next : ℕ) (plain : List ℕ)
    → start ≤ length plain
    → start + size ≡ next
    → take (min (start + size) (length plain) - start) (drop start plain) ++ drop next plain
      ≡ drop start plain
chunk-rest start size next plain h next_is =
    let n = min (start + size) (length plain) - start in
    let cut = take-append-drop n (drop start plain) in
    elim (Bool-cases (ltb (length plain) next)) [
      | inl beyond ↦
          let whole : drop n (drop start plain) ≡ [] =
            drop_all n (drop start plain) (all_cut start size next plain next_is beyond) in
          let nothing = drop_all next plain (ground arith) in rw nothing (rw whole at cut)
      | inr within ↦
          let full : start + n ≡ next = ground arith in
          let same : drop n (drop start plain) ≡ drop next plain =
            drop-drop start n plain ∙ ap (λ m. drop m plain) full in
          rw same at cut
    ]

length-chunk :
    (start size : ℕ) (plain : List ℕ)
    → start ≤ length plain
    → length (take (min (start + size) (length plain) - start) (drop start plain))
      ≡ min (length plain - start) size
length-chunk start size plain h =
    let n = min (start + size) (length plain) - start in
    omega (arith, length-take n (drop start plain), length-drop start plain)

join_frames-step :
    (size len i : ℕ) (frame later : List ℕ) (rest : List (List ℕ))
    → length frame ≡ min (len - i * size) size
    → join_frames size len (suc i) rest ≡ ok later
    → join_frames size len i (frame ∷ rest) ≡ ok (frame ++ later)
unfolding join_frames
join_frames-step size len i frame later rest h e =
    rw (eq→== (length frame) (min (len - i * size) size) h, e) refl

-- The chunks of a text join to the text.
join_frames-cut_chunks :
    (size i n : ℕ) (plain : List ℕ) (frames : List (List ℕ))
    → cut_chunks size i n plain ≡ ok frames
    → length plain ≤ i * size + n * size
    → join_frames size (length plain) i frames ≡ ok (drop (i * size) plain)
join_frames-cut_chunks size i zero plain frames e covered =
    let empty : [] ≡ frames = unfold cut_chunks in ground arith in
    let nothing = drop_all (i * size) plain (omega arith) in
    rw (← empty, nothing) (unfold join_frames in refl)
join_frames-cut_chunks size i (suc n) plain frames e covered =
    let (rest, start, later, frames_are) = cut_chunks-split size i n plain frames e in
    let next : i * size + size ≡ suc i * size = sym (suc-mul i size) in
    let more : suc n * size ≡ n * size + size = suc-mul n size in
    let joined = join_frames-cut_chunks size (suc i) n plain rest later (omega arith) in
    let whole = chunk-rest (i * size) size (suc i * size) plain start next in
    rw (frames_are) (
      join_frames-step size (length plain) i _ _ rest (length-chunk (i * size) size plain start)
        joined
      ∙ ap ok whole)

-- The chunks that are counted cover the text.
div_ceil-covers : (a b : ℕ) → 0 < b → a ≤ div_ceil a b * b
unfolding div_ceil
div_ceil-covers a b h =
    let whole : b * (a / b) + a % b ≡ a = div-add-mod a b in
    let small : a % b < b = mod-lt a h in
    elim (Bool-cases (ltb 0 (a % b))) [
      | inl part ↦ rw part (omega (arith, suc-mul (a / b) b))
      | inr none_left ↦ rw none_left (ground arith)
    ]

stream_chunk_count-covers : (len size : ℕ) → 0 < size → len ≤ stream_chunk_count len size * size
unfolding stream_chunk_count
stream_chunk_count-covers len size h = elim (Bool-cases (len == 0)) [
  | inl empty ↦ rw empty (ground arith)
  | inr some_bytes ↦ rw some_bytes (div_ceil-covers len size h)
]

validate_chunk_size-pos : (size : ℕ) → validate_chunk_size size ≡ ok tt → 0 < size
unfolding validate_chunk_size
validate_chunk_size-pos size e = ground arith

-- With an AEAD that opens what it has sealed, a section of fewer than 2 ^ 32 chunks that was sealed
-- opens to its plaintext.
pub open_chunked-seal_chunked :
    (a : Aead) (key : List ℕ) (section_id suite_id size : ℕ) (plain out : List ℕ)
    → IsAead a
    → stream_chunk_count (length plain) size ≤ 0xffff_ffff
    → seal_chunked a key section_id suite_id size plain ≡ ok out
    → open_chunked a key section_id suite_id size (length plain) out ≡ ok plain
unfolding seal_chunked open_chunked
open_chunked-seal_chunked a key section_id suite_id size plain out is few e =
    elim (Outcome-cases (validate_chunk_size size)) [
      | inr (x, bad) ↦ absurd (ground arith)
      | inl (u, valid) ↦
          let n = stream_chunk_count (length plain) size in
          elim (Outcome-cases (cut_chunks size 0 n plain)) [
            | inr (x, bad) ↦ absurd (ground arith)
            | inl (frames, cut) ↦
                let count = length-cut_chunks size 0 n plain frames cut in
                let sealed : seal_chunked_frames a key section_id suite_id (length plain) frames
                    ≡ ok out =
                  rw (valid, cut) at e in
                let opened =
                  open_chunked_frames-seal_chunked_frames a key section_id suite_id (length plain)
                    frames out is (omega arith) sealed in
                let covered =
                  stream_chunk_count-covers (length plain) size
                    (validate_chunk_size-pos size valid) in
                let joined = join_frames-cut_chunks size 0 n plain frames cut (omega arith) in
                let same : (length frames == n) ≡ true = eq→== (length frames) n count in
                rw (valid, opened, same) (joined ∙ ap ok (drop-zero_mul size plain))
          ]
    ]
