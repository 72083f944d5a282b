-- ===== src/Crypto/Stream/Cut.antt =====
-- A sealed body that is cut behind a chunk that is not the last does not open.
use sidequests.Common.{
  ℕ, zero, suc, ◌+◌, ◌≤◌, ◌<◌, ◌≡◌, ◌≢◌, refl, sym, ap, ◌∙◌, List, [], ◌∷◌, ◌++◌, append_assoc,
  length, length-append, drop, Bool, true, false, leb, ◌==◌, inl, inr, lt→ltb, eq→==, arith,
}
use sidequests.Outcome.{ok, err, ◌>>=◌, ◌>>◌, fail_if, Outcome-cases}
use sidequests.Wire.{to_be, field_injective, drop_then}
use sidequests.Crypto.Errors.{SuiteError}
use sidequests.Crypto.Roles.{Aead, Checked}
use sidequests.Crypto.Stream.{
  Session, session, check_key, nonce_prefix, seal_chunked_frames, open_chunked_frames, aead_error,
  chunk_nonce, chunk_aad, seal_frame, seal_frames, open_frame, open_frames,
}
use sidequests.Crypto.Stream.Frames.{
  IsAead, IsSealed, seal_frame-IsSealed, open_frame-reads, seal_frames-split, seal_frame-nonempty,
}
use sidequests.Crypto.Stream.Fuel.{open_frames-err}

-- The chunks of `frames`, none of them final.
unfoldable pub seal_front : Session → (i : ℕ) → List (List ℕ) → Checked (List ℕ)
seal_front s i [] = ok []
seal_front s i (frame ∷ rest) = do
  out ← seal_frame s i false frame
  later ← seal_front s (suc i) rest
  ok (out ++ later)

-- What an AEAD promises against tampering, as far as it is used here: a ciphertext opens under no other
-- nonce than the one it was sealed under.
pub record IsBinding (a : Aead) : Type 0 where
  pub binds :
      (key nonce nonce' aad aad' plain sealed other : List ℕ)
      → a.seal key nonce aad plain ≡ ok sealed
      → a.open_sealed key nonce' aad' sealed ≡ ok other
      → nonce ≡ nonce'

final-differs : (prefix : List ℕ) (i : ℕ) → chunk_nonce prefix i false ≢ chunk_nonce prefix i true
unfolding chunk_nonce
final-differs prefix i e =
    let (_, back) = field_injective prefix prefix _ _ refl refl e in
    let (_, flag) = field_injective (to_be 4 i) (to_be 4 i) _ _ refl refl back in
    flags-differ 0 1 flag (omega arith)
  where
    flags-differ : (x y : ℕ) → x ∷ [] ≡ y ∷ [] → x ≢ y → ⊥
    flags-differ x y h differ = differ (cc)

bind_err :
    {A B : Type 0} (r : Checked A) (f : A → Checked B) (x : SuiteError)
    → r ≡ err x
    → (r >>= f) ≡ err x
bind_err r f x e = rw e refl

-- A chunk that was not the last and stands at the end of the body is refused.
open_frame-refused :
    (s : Session) (i off : ℕ) (frame out post body : List ℕ)
    → IsAead s.aead
    → IsBinding s.aead
    → IsSealed s i false frame out
    → drop off body ≡ out ++ post
    → off + length out ≡ length body
    → (x : SuiteError) × (open_frame s body off i ≡ err x)
open_frame-refused s i off frame out post body is binding h at_off fits =
    let reads = open_frame-reads s i off false frame out post body is h at_off (omega arith) in
    let last : (off + length out == length body) ≡ true =
      eq→== (off + length out) (length body) fits in
    let reads' = rw last at reads in
    elim (Outcome-cases (
      s.aead.open_sealed s.content_key (chunk_nonce s.prefix i true)
        (chunk_aad s.section_id i s.len_plain s.suite_id) h.sealed)) [
          | inr (x, refused) ↦ (x, reads' ∙ bind_err _ _ x refused)
          | inl (other, opened) ↦ absurd (
              final-differs s.prefix i (binding.binds _ _ _ _ _ frame h.sealed other h.made opened))
        ]

seal_front-split :
    (s : Session) (i : ℕ) (frame : List ℕ) (rest : List (List ℕ)) (out : List ℕ)
    → seal_front s i (frame ∷ rest) ≡ ok out
    → (first : List ℕ) × (later : List ℕ) × (seal_frame s i false frame ≡ ok first)
      × (seal_front s (suc i) rest ≡ ok later)
      × (out ≡ first ++ later)
unfolding seal_front
seal_front-split s i frame rest out e = elim (Outcome-cases (seal_frame s i false frame)) [
  | inr (x, bad) ↦ absurd (ground arith)
  | inl (first, made) ↦ elim (Outcome-cases (seal_front s (suc i) rest)) [
    | inr (x, bad) ↦ absurd (ground arith)
    | inl (later, made') ↦ (first, later, made, made', ground arith)
  ]
]

open_frames-next_err :
    (s : Session) (body : List ℕ) (fuel off off' i : ℕ) (opened : List ℕ) (x : SuiteError)
    → off < length body
    → open_frame s body off i ≡ ok (opened, off')
    → open_frames s body fuel off' (suc i) ≡ err x
    → open_frames s body (suc fuel) off i ≡ err x
unfolding open_frames
open_frames-next_err s body fuel off off' i opened x h e later =
    rw (lt→ltb off (length body) h, e, later) refl

open_frame-next :
    (s : Session) (body : List ℕ) (off off' i : ℕ) (frame out post opened : List ℕ)
    → IsAead s.aead
    → IsSealed s i false frame out
    → drop off body ≡ out ++ post
    → off + length out ≤ length body
    → open_frame s body off i ≡ ok (opened, off')
    → off' ≡ off + length out
open_frame-next s body off off' i frame out post opened is h at_off fits e =
    let reads = open_frame-reads s i off false frame out post body is h at_off fits in
    second_of
      (s.aead.open_sealed s.content_key (chunk_nonce s.prefix i (off + length out == length body))
        (chunk_aad s.section_id i s.len_plain s.suite_id) h.sealed)
      (leb 0xffff_ffff i) (sym reads ∙ e)
  where
    second_of :
        (r : Checked (List ℕ)) (late : Bool)
        → ◌≡◌ {A = Checked (List ℕ × ℕ)}
            (do
              o ← r
              fail_if late (aead_error "section has too many chunks")
              ok (o, off + length out))
            (ok (opened, off'))
        → off' ≡ off + length out
    second_of (err x) late e = absurd (cc)
    second_of (ok o) true e = absurd (cc)
    second_of (ok o) false e = cc

-- A body of chunks of which none was sealed as the last is refused.
seal_front-refused :
    (s : Session) (body : List ℕ) (fuel off i : ℕ) (frame : List ℕ) (rest : List (List ℕ))
    (out : List ℕ)
    → IsAead s.aead
    → IsBinding s.aead
    → seal_front s i (frame ∷ rest) ≡ ok out
    → drop off body ≡ out
    → off + length out ≡ length body
    → length out ≤ fuel
    → (x : SuiteError) × (open_frames s body fuel off i ≡ err x)
seal_front-refused s body zero off i frame rest out is binding e at_off fits enough =
    let (first, later, made, made', out_is) = seal_front-split s i frame rest out e in
    let some_bytes = seal_frame-nonempty s i false frame first made in
    let long : length out ≡ length first + length later = rw out_is (length-append first later) in
    absurd (omega arith)
seal_front-refused s body (suc fuel) off i frame [] out is binding e at_off fits enough =
    let (first, later, made, made', out_is) = seal_front-split s i frame [] out e in
    let some_bytes = seal_frame-nonempty s i false frame first made in
    let long : length out ≡ length first + length later = rw out_is (length-append first later) in
    let none_left : [] ≡ later = unfold seal_front in ground arith in
    let ends : length later ≡ 0 = rw (← none_left) refl in
    let (x, bad) =
      open_frame-refused s i off frame first later body is binding
        (seal_frame-IsSealed s i false frame first made) (at_off ∙ out_is) (omega arith) in
    (x, open_frames-err s body fuel off i x (omega arith) bad)
seal_front-refused s body (suc fuel) off i frame (next ∷ rest) out is binding e at_off fits enough =
    let (first, later, made, made', out_is) = seal_front-split s i frame (next ∷ rest) out e in
    let some_bytes = seal_frame-nonempty s i false frame first made in
    let long : length out ≡ length first + length later = rw out_is (length-append first later) in
    let h = seal_frame-IsSealed s i false frame first made in
    let here : drop off body ≡ first ++ later = at_off ∙ out_is in
    elim (Outcome-cases (open_frame s body off i)) [
      | inr (x, bad) ↦ (x, open_frames-err s body fuel off i x (omega arith) bad)
      | inl ((opened, off'), read) ↦
          let moved =
            open_frame-next s body off off' i frame first later opened is h here (omega arith)
              read in
          let behind : drop off' body ≡ later =
            rw moved (drop_then body off (length first) first later here refl) in
          let (x, bad) =
            seal_front-refused s body fuel off' (suc i) next rest later is binding made' behind
              (omega arith) (omega arith) in
          (x, open_frames-next_err s body fuel off off' i opened x (omega arith) read bad)
    ]

-- The chunks in front of the last are sealed as such.
seal_frames-front :
    (s : Session) (i : ℕ) (front : List (List ℕ)) (y : List ℕ) (ys : List (List ℕ)) (out : List ℕ)
    → seal_frames s i (front ++ (y ∷ ys)) ≡ ok out
    → (first : List ℕ) × (later : List ℕ) × (seal_front s i front ≡ ok first)
      × (out ≡ first ++ later)
seal_frames-front s i [] y ys out e = ([], out, unfold seal_front in refl, refl)
seal_frames-front s i (x ∷ xs) y ys out e =
    let (first, later, made, made', out_is) = seal_frames-split s i x (xs ++ (y ∷ ys)) out e in
    let (first', later', front', later_is) = seal_frames-front s (suc i) xs y ys later made' in
    let not_last = more_behind xs y ys in
    (
      first ++ first',
      later',
      joined s i x xs first first' (rw not_last at made) front',
      out_is ∙ (ap (λ (t : List ℕ). first ++ t) later_is ∙ sym (append_assoc first first' later')),
    )
  where
    more_behind :
        (xs : List (List ℕ)) (y : List ℕ) (ys : List (List ℕ))
        → (length (xs ++ (y ∷ ys)) == 0) ≡ false
    more_behind xs y ys = let long = length-append xs (y ∷ ys) in ground arith

    joined :
        (s : Session) (i : ℕ) (x : List ℕ) (xs : List (List ℕ)) (first later : List ℕ)
        → seal_frame s i false x ≡ ok first
        → seal_front s (suc i) xs ≡ ok later
        → seal_front s i (x ∷ xs) ≡ ok (first ++ later)
    joined s i x xs first later e f = unfold seal_front in rw (e, f) refl

-- Where an AEAD opens what it has sealed, and under no other nonce, a sealed section that is cut behind
-- a chunk that is not the last is refused: truncation is noticed.
pub open_chunked_frames-cut :
    (a : Aead) (key : List ℕ) (section_id suite_id len_plain : ℕ) (prefix : List ℕ) (x : List ℕ)
    (xs : List (List ℕ)) (y : List ℕ) (ys : List (List ℕ)) (out : List ℕ)
    → IsAead a
    → IsBinding a
    → nonce_prefix section_id a.nonce_len ≡ ok prefix
    → seal_chunked_frames a key section_id suite_id len_plain ((x ∷ xs) ++ (y ∷ ys)) ≡ ok out
    → (first : List ℕ) × (later : List ℕ) × (seal_front
          (session a key section_id suite_id len_plain prefix)
          0
          (x ∷ xs)
        ≡ ok first)
      × (out ≡ first ++ later)
      × ((bad : SuiteError) × (open_chunked_frames a key section_id suite_id len_plain first
            ≡ err bad))
unfolding seal_chunked_frames open_chunked_frames
open_chunked_frames-cut a key section_id suite_id len_plain prefix x xs y ys out is binding made e =
    elim (Outcome-cases (check_key a key)) [
      | inr (bad, wrong) ↦ absurd (ground arith)
      | inl (u, fits) ↦
          let s = session a key section_id suite_id len_plain prefix in
          let sealed : seal_frames s 0 ((x ∷ xs) ++ (y ∷ ys)) ≡ ok out = rw (fits, made) at e in
          let (first, later, front, out_is) = seal_frames-front s 0 (x ∷ xs) y ys out sealed in
          let (bad, refused) =
            seal_front-refused s first (length first) 0 0 x xs first is binding front refl
              (omega arith) (omega arith) in
          (first, later, front, out_is, (bad, rw (fits, made) refused))
    ]
