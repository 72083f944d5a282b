-- ===== src/Crypto/Stream/Frames.antt =====
-- Sealed frames are opened again.
use sidequests.Common.{
  ℕ, zero, suc, ◌+◌, ◌≤◌, ◌<◌, ◌≡◌, refl, ap, ◌∙◌, List, [], ◌∷◌, ◌++◌, append_assoc, length,
  length-append, drop, Bool, false, ltb, leb, ◌==◌, inl, inr, ltb-false_of_le, leb-false_of_lt,
  lt→ltb, arith,
}
use sidequests.Outcome.{ok, ◌>>=◌, ◌>>◌, fail_if, Outcome-cases}
use sidequests.Wire.{u32_at, to_le, length-to_le, slice-of_drop, uint_at-of_drop, drop_then}
use sidequests.Crypto.Roles.{Aead}
use sidequests.Crypto.Stream.{
  Session, aead_error, chunk_nonce, chunk_aad, seal_frame, seal_frames, open_frame, open_frames,
}

-- What an AEAD promises of honest use: what was sealed opens again under the same key, nonce and
-- associated data, and carries its tag.
pub record IsAead (a : Aead) : Type 0 where
  pub opens :
      (key nonce aad plain sealed : List ℕ)
      → a.seal key nonce aad plain ≡ ok sealed
      → a.open_sealed key nonce aad sealed ≡ ok plain
  pub tagged :
      (key nonce aad plain sealed : List ℕ)
      → a.seal key nonce aad plain ≡ ok sealed
      → a.tag_len ≤ length sealed

pub record IsSealed (s : Session) (i : ℕ) (final_chunk : Bool) (frame out : List ℕ) : Type 0 where
  pub sealed : List ℕ
  pub made :
      s.aead.seal s.content_key
        (chunk_nonce s.prefix i final_chunk)
        (chunk_aad s.section_id i s.len_plain s.suite_id)
        frame
      ≡ ok sealed
  pub small : length sealed ≤ 0xffff_ffff
  pub out_is : out ≡ to_le 4 (length sealed) ++ sealed

pub seal_frame-IsSealed :
    (s : Session) (i : ℕ) (final_chunk : Bool) (frame out : List ℕ)
    → seal_frame s i final_chunk frame ≡ ok out
    → IsSealed s i final_chunk frame out
unfolding seal_frame
seal_frame-IsSealed s i final_chunk frame out e =
    elim (Outcome-cases (
      s.aead.seal s.content_key (chunk_nonce s.prefix i final_chunk)
        (chunk_aad s.section_id i s.len_plain s.suite_id) frame)) [
          | inr (x, bad) ↦ absurd (ground arith)
          | inl (sealed, made) ↦ record {
            sealed = sealed;
            made = made;
            small = ground arith;
            out_is = ground arith;
          }
        ]

-- One round of reading, at the place where a sealed frame stands, opens its ciphertext as the last
-- chunk if the body ends there.
pub open_frame-reads :
    (s : Session) (i off : ℕ) (final_chunk : Bool) (frame out post body : List ℕ)
    → IsAead s.aead
    → (h : IsSealed s i final_chunk frame out) → drop off body ≡ out ++ post
    → off + length out ≤ length body
    → open_frame s body off i ≡ (do
      opened ←
          s.aead.open_sealed s.content_key
            (chunk_nonce s.prefix i (off + length out == length body))
            (chunk_aad s.section_id i s.len_plain s.suite_id)
            h.sealed
      fail_if (leb 0xffff_ffff i) (aead_error "section has too many chunks")
      ok (opened, off + length out))
unfolding open_frame u32_at
open_frame-reads s i off final_chunk frame out post body is h at_off fits =
    let n = length h.sealed in
    let len_out : length out ≡ 4 + n =
      rw h.out_is (omega (arith, length-append (to_le 4 n) h.sealed, length-to_le 4 n)) in
    let head : drop off body ≡ to_le 4 n ++ (h.sealed ++ post) =
      at_off ∙ (ap (λ (x : List ℕ). x ++ post) h.out_is ∙ append_assoc (to_le 4 n) h.sealed post) in
    let len_read =
      uint_at-of_drop body off 4 (h.sealed ++ post) (omega arith) head (omega (arith, h.small)) in
    let behind = drop_then body off 4 (to_le 4 n) (h.sealed ++ post) head (length-to_le 4 n) in
    let chunk_read = slice-of_drop body (off + 4) n h.sealed post (omega arith) behind refl in
    let tag_there : ltb n s.aead.tag_len ≡ false =
      ltb-false_of_le n s.aead.tag_len (is.tagged _ _ _ frame h.sealed h.made) in
    let end_is : off + 4 + n ≡ off + length out = omega arith in
    rw (len_read, tag_there, chunk_read, end_is) refl

open_frame-IsSealed :
    (s : Session) (i off : ℕ) (final_chunk : Bool) (frame out post body : List ℕ)
    → IsAead s.aead
    → IsSealed s i final_chunk frame out
    → drop off body ≡ out ++ post
    → off + length out ≤ length body
    → i < 0xffff_ffff
    → (off + length out == length body) ≡ final_chunk
    → open_frame s body off i ≡ ok (frame, off + length out)
open_frame-IsSealed s i off final_chunk frame out post body is h at_off fits small last =
    let reads = open_frame-reads s i off final_chunk frame out post body is h at_off fits in
    let opened = is.opens _ _ _ frame h.sealed h.made in
    let room : leb 0xffff_ffff i ≡ false = leb-false_of_lt 0xffff_ffff i small in
    reads ∙ rw (last, opened, room) refl

pub seal_frames-split :
    (s : Session) (i : ℕ) (frame : List ℕ) (rest : List (List ℕ)) (out : List ℕ)
    → seal_frames s i (frame ∷ rest) ≡ ok out
    → (first : List ℕ) × (later : List ℕ) × (seal_frame s i (length rest == 0) frame ≡ ok first)
      × (seal_frames s (suc i) rest ≡ ok later)
      × (out ≡ first ++ later)
unfolding seal_frames
seal_frames-split s i frame rest out e =
    elim (Outcome-cases (seal_frame s i (length rest == 0) frame)) [
      | inr (x, bad) ↦ absurd (ground arith)
      | inl (first, made) ↦ elim (Outcome-cases (seal_frames s (suc i) rest)) [
        | inr (x, bad) ↦ absurd (ground arith)
        | inl (later, made') ↦ (first, later, made, made', ground arith)
      ]
    ]

pub seal_frame-nonempty :
    (s : Session) (i : ℕ) (final_chunk : Bool) (frame out : List ℕ)
    → seal_frame s i final_chunk frame ≡ ok out
    → 4 ≤ length out
seal_frame-nonempty s i final_chunk frame out e =
    let h = seal_frame-IsSealed s i final_chunk frame out e in
    let n = length h.sealed in
    rw h.out_is (omega (arith, length-append (to_le 4 n) h.sealed, length-to_le 4 n))

-- Nothing follows the last frame, and something follows every other.
later-empty :
    (s : Session) (i : ℕ) (rest : List (List ℕ)) (later : List ℕ)
    → seal_frames s i rest ≡ ok later
    → (length later == 0) ≡ (length rest == 0)
later-empty s i [] later e =
    let empty : [] ≡ later = unfold seal_frames in ground arith in rw (← empty) refl
later-empty s i (frame ∷ rest) later e =
    let (first, others, made, made', later_is) = seal_frames-split s i frame rest later e in
    let some_bytes = seal_frame-nonempty s i (length rest == 0) frame first made in
    let long : length later ≡ length first + length others =
      rw later_is (length-append first others) in
    ground arith

open_frames-done :
    (s : Session) (body : List ℕ) (fuel off i : ℕ)
    → length body ≤ off
    → open_frames s body fuel off i ≡ ok []
unfolding open_frames
open_frames-done s body zero off i h = refl
open_frames-done s body (suc fuel) off i h = rw (ltb-false_of_le off (length body) h) refl

pub open_frames-step :
    (s : Session) (body : List ℕ) (fuel off off' i : ℕ) (frame : List ℕ) (rest : List (List ℕ))
    → off < length body
    → open_frame s body off i ≡ ok (frame, off')
    → open_frames s body fuel off' (suc i) ≡ ok rest
    → open_frames s body (suc fuel) off i ≡ ok (frame ∷ rest)
unfolding open_frames
open_frames-step s body fuel off off' i frame rest h e f =
    rw (lt→ltb off (length body) h, e, f) refl

end_or_not : (a n len : ℕ) → a + n ≡ len → (a == len) ≡ (n == 0)
end_or_not a n len h = ground arith

at_end :
    (off : ℕ) (out body : List ℕ) → [] ≡ out → off + length out ≡ length body → length body ≤ off
at_end off out body empty fits = let none_left : length out ≡ 0 = rw (← empty) refl in omega arith

-- What was sealed, at the end of a body, is opened from there.
pub open_frames-seal_frames :
    (s : Session) (body : List ℕ) (fuel off i : ℕ) (frames : List (List ℕ)) (out : List ℕ)
    → IsAead s.aead
    → seal_frames s i frames ≡ ok out
    → drop off body ≡ out
    → off + length out ≡ length body
    → i + length frames ≤ 0xffff_ffff
    → length out ≤ fuel
    → open_frames s body fuel off i ≡ ok frames
open_frames-seal_frames s body fuel off i [] out is e at_off fits room enough =
    let empty : [] ≡ out = unfold seal_frames in ground arith in
    open_frames-done s body fuel off i (at_end off out body empty fits)
open_frames-seal_frames s body zero off i (frame ∷ rest) out is e at_off fits room enough =
    let (first, later, made, made', out_is) = seal_frames-split s i frame rest out e in
    let some_bytes = seal_frame-nonempty s i (length rest == 0) frame first made in
    let long : length out ≡ length first + length later = rw out_is (length-append first later) in
    absurd (omega arith)
open_frames-seal_frames s body (suc fuel) off i (frame ∷ rest) out is e at_off fits room enough =
    let (first, later, made, made', out_is) = seal_frames-split s i frame rest out e in
    let some_bytes = seal_frame-nonempty s i (length rest == 0) frame first made in
    let long : length out ≡ length first + length later = rw out_is (length-append first later) in
    let here : drop off body ≡ first ++ later = at_off ∙ out_is in
    let no_more = later-empty s (suc i) rest later made' in
    let last : (off + length first == length body) ≡ (length rest == 0) =
      end_or_not (off + length first) (length later) (length body) (omega arith) ∙ no_more in
    let round =
      open_frame-IsSealed s i off (length rest == 0) frame first later body is
        (seal_frame-IsSealed s i (length rest == 0) frame first made) here (omega arith)
        (omega arith) last in
    let next : drop (off + length first) body ≡ later =
      drop_then body off (length first) first later here refl in
    open_frames-step s body fuel off (off + length first) i frame rest (omega arith) round (
      open_frames-seal_frames s body fuel (off + length first) (suc i) rest later is made' next
        (omega arith) (omega arith) (omega arith))
