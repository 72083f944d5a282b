-- ===== src/Crypto/Stream/Fuel.antt =====
-- The reading loop ends by its own test: more fuel than the body has bytes left changes nothing.
use sidequests.Common.{
  ℕ, zero, suc, ◌+◌, ◌≤◌, ◌<◌, ◌≡◌, refl, sym, ◌∙◌, List, [], length, Bool-cases, ltb,
  ltb-false_of_le, inl, inr, Option-cases, arith,
}
use sidequests.Outcome.{ok, err, Outcome-cases}
use sidequests.Wire.{slice, u32_at}
use sidequests.Crypto.Errors.{SuiteError}
use sidequests.Crypto.Stream.{Session, open_frame, open_frames}

-- A round moves on by a length prefix at least.
pub open_frame-advances :
    (s : Session) (body : List ℕ) (off off' i : ℕ) (opened : List ℕ)
    → open_frame s body off i ≡ ok (opened, off')
    → off + 4 ≤ off'
unfolding open_frame
open_frame-advances s body off off' i opened e = elim (Option-cases (u32_at body off)) [
  | inl missing ↦ absurd (ground arith)
  | inr (n, e1) ↦ elim (Option-cases (slice body (off + 4) n)) [
    | inl missing ↦ absurd (ground arith)
    | inr (chunk, e2) ↦ ground arith
  ]
]

pub open_frames-err :
    (s : Session) (body : List ℕ) (fuel off i : ℕ) (x : SuiteError)
    → off < length body
    → open_frame s body off i ≡ err x
    → open_frames s body (suc fuel) off i ≡ err x
unfolding open_frames
open_frames-err s body fuel off i x h e = rw e (ground arith)

open_frames-next :
    (s : Session) (body : List ℕ) (f g off off' i : ℕ) (opened : List ℕ)
    → open_frame s body off i ≡ ok (opened, off')
    → open_frames s body f off' (suc i) ≡ open_frames s body g off' (suc i)
    → open_frames s body (suc f) off i ≡ open_frames s body (suc g) off i
unfolding open_frames
open_frames-next s body f g off off' i opened e same = rw (e, same) refl

open_frames-end :
    (s : Session) (body : List ℕ) (fuel off i : ℕ)
    → length body ≤ off
    → open_frames s body fuel off i ≡ ok []
unfolding open_frames
open_frames-end s body zero off i h = refl
open_frames-end s body (suc fuel) off i h = rw (ltb-false_of_le off (length body) h) refl

-- The reading loop gives the same with every fuel that is at least the bytes left: it ends by its own
-- test before the fuel runs out.
pub open_frames_fuel :
    (s : Session) (body : List ℕ) (f g off i : ℕ)
    → length body ≤ off + f
    → length body ≤ off + g
    → open_frames s body f off i ≡ open_frames s body g off i
open_frames_fuel s body zero g off i hf hg =
    open_frames-end s body zero off i (omega arith)
    ∙ sym (open_frames-end s body g off i (omega arith))
open_frames_fuel s body (suc f) zero off i hf hg =
    open_frames-end s body (suc f) off i (omega arith)
    ∙ sym (open_frames-end s body zero off i (omega arith))
open_frames_fuel s body (suc f) (suc g) off i hf hg = elim (Bool-cases (ltb off (length body))) [
  | inr done ↦
      open_frames-end s body (suc f) off i (ground arith)
      ∙ sym (open_frames-end s body (suc g) off i (ground arith))
  | inl more ↦ elim (Outcome-cases (open_frame s body off i)) [
    | inr (x, bad) ↦
        open_frames-err s body f off i x (ground arith) bad
        ∙ sym (open_frames-err s body g off i x (ground arith) bad)
    | inl ((opened, off'), e) ↦
        let ahead = open_frame-advances s body off off' i opened e in
        open_frames-next s body f g off off' i opened e
          (open_frames_fuel s body f g off' (suc i) (omega arith) (omega arith))
  ]
]
