-- ===== src/Footer/RoundTrip.antt =====
-- `Footer::parse` and `Footer::to_bytes` are inverse to each other.
use sidequests.Common.{
  ℕ, ◌+◌, ◌-◌, ◌≤◌, ◌<◌, ◌≡◌, ◌↔◌, refl, List, [], ◌++◌, length, drop, length-drop, length-append,
  drop-append, All, All-drop, empty_of_length, append-nil, arith, some,
}
use sidequests.Error.{ok}
use sidequests.Wire.{
  IsByte, slice, u32_at, u64_at, to_le, length-to_le, bytes_eq_refl, uint_at-eq-some, length-slice,
  drop-slice, field_then, drop_then, slice-of_drop, uint_at-of_drop,
}
use sidequests.Format.{magic, header_len, u64_mod}
use sidequests.Footer.{
  Footer, parse, to_bytes, check_sig_lens, u32_or_max, root_len, off_sigs, trailer_len,
  min_footer_len, max_sig_len,
}
use sidequests.Footer.Fields.{Read, parse-Read}

-- A footer that can be written, of a file in which it begins at `start`.
pub record IsValid (f : Footer) (start : ℕ) : Type 0 where
  pub root : length f.root ≡ root_len
  pub classical : length f.sig_classical ≤ max_sig_len
  pub pq : length f.sig_pq ≤ max_sig_len
  pub both_or_neither : (length f.sig_classical ≡ 0) ↔ (length f.sig_pq ≡ 0)
  pub behind_header : header_len ≤ start
  pub total : f.total_len ≡ start + min_footer_len + length f.sig_classical + length f.sig_pq
  pub fits : f.total_len < u64_mod

-- The fields of a footer, in the order in which they stand in the file.
abbrev layout : Footer → List ℕ
layout f =
    f.root
    ++ (to_le 4 (length f.sig_classical)
        ++ (to_le 4 (length f.sig_pq)
            ++ (f.sig_classical ++ (f.sig_pq ++ (to_le 8 f.total_len ++ magic)))))

check_sig_lens-eq-ok :
    (c p : ℕ)
    → check_sig_lens c p ≡ ok tt
    → (c ≤ max_sig_len) × (p ≤ max_sig_len) × ((c ≡ 0) ↔ (p ≡ 0))
unfolding check_sig_lens
check_sig_lens-eq-ok c p e =
    (ground arith, ground arith, ((λ z. ground arith), (λ z. ground arith)))

check_sig_lens-ok :
    (c p : ℕ) → c ≤ max_sig_len → p ≤ max_sig_len → ((c ≡ 0) ↔ (p ≡ 0)) → check_sig_lens c p ≡ ok tt
unfolding check_sig_lens
check_sig_lens-ok c p hc hp h = let to = h.0 in let from = h.1 in ground (arith, to, from)

-- When the lengths pass, what is written is the layout.
to_bytes-layout :
    (f : Footer)
    → check_sig_lens (length f.sig_classical) (length f.sig_pq) ≡ ok tt
    → to_bytes f ≡ ok (layout f)
unfolding to_bytes
to_bytes-layout f lens =
    let (c, p, _) = check_sig_lens-eq-ok (length f.sig_classical) (length f.sig_pq) lens in
    let c_is : u32_or_max (length f.sig_classical) ≡ length f.sig_classical = ground arith in
    let p_is : u32_or_max (length f.sig_pq) ≡ length f.sig_pq = ground arith in
    rw (c_is, p_is, lens) refl

-- The bytes that a footer was read from.
Read-layout :
    (b : List ℕ) (f : Footer) (c p : ℕ)
    → All IsByte b
    → Read b f c p
    → (length f.root ≡ root_len)
      × (length f.sig_classical ≡ c)
      × (length f.sig_pq ≡ p)
      × (b ≡ layout f)
unfolding u32_at u64_at
Read-layout b f c p bytes r =
    let c_len : length f.sig_classical ≡ c = length-slice b off_sigs c r.sig_classical_at in
    let p_len : length f.sig_pq ≡ p = length-slice b (off_sigs + c) p r.sig_pq_at in
    let size = r.size in
    let last : drop (off_sigs + c + p + 8 + 8) b ≡ [] =
      empty_of_length _ (omega (arith, length-drop (off_sigs + c + p + 8 + 8) b)) in
    let c_at : drop 32 b ≡ to_le 4 (length f.sig_classical) ++ drop 36 b =
      rw c_len (uint_at-eq-some b 32 4 bytes r.classical_at).0 in
    let p_at : drop 36 b ≡ to_le 4 (length f.sig_pq) ++ drop 40 b =
      rw p_len (uint_at-eq-some b 36 4 bytes r.pq_at).0 in
    let magic_last : drop (off_sigs + c + p + 8) b ≡ magic =
      rw last at (drop-slice b (off_sigs + c + p + 8) 8 r.magic_at) in
    (
      length-slice b 0 root_len r.root_at,
      c_len,
      p_len,
      field_then f.root (drop-slice b 0 root_len r.root_at) (
          field_then (to_le 4 (length f.sig_classical)) c_at (
            field_then (to_le 4 (length f.sig_pq)) p_at (
              field_then f.sig_classical (drop-slice b off_sigs c r.sig_classical_at) (
                field_then f.sig_pq (drop-slice b (off_sigs + c) p r.sig_pq_at) (
                  field_then (to_le 8 f.total_len)
                    (uint_at-eq-some b (off_sigs + c + p) 8 bytes r.total_at).0 magic_last))))),
    )

-- Writing an accepted footer gives back the bytes that it was read from.
pub to_bytes-parse_footer :
    (file : List ℕ) (off : ℕ) (f : Footer)
    → All IsByte file
    → parse file off ≡ ok f
    → to_bytes f ≡ ok (drop off file)
to_bytes-parse_footer file off f bytes e =
    let (c, p, r, _, _, _) = parse-Read file off f e in
    let (_, c_len, p_len, split) =
      Read-layout (drop off file) f c p (All-drop IsByte off file bytes) r in
    rw split (to_bytes-layout f (rw (c_len, p_len) r.lens))

-- An accepted footer is valid, and its total length is the length of the file.
pub parse-IsValid_footer :
    (file : List ℕ) (off : ℕ) (f : Footer)
    → All IsByte file
    → parse file off ≡ ok f
    → IsValid f off × (f.total_len ≡ length file)
unfolding u64_at
parse-IsValid_footer file off f bytes e =
    let (c, p, r, before, inside, total) = parse-Read file off f e in
    let b_bytes = All-drop IsByte off file bytes in
    let (root_len_is, c_len, p_len, split) = Read-layout (drop off file) f c p b_bytes r in
    let (c_max, p_max, both) = check_sig_lens-eq-ok c p r.lens in
    let size = r.size in
    let bound = (uint_at-eq-some (drop off file) (off_sigs + c + p) 8 b_bytes r.total_at).1 in
    (
      record {
        root = root_len_is;
        classical = rw c_len c_max;
        pq = rw p_len p_max;
        both_or_neither = rw (c_len, p_len) both;
        behind_header = before;
        total = omega (arith, length-drop off file);
        fits = bound;
      },
      total,
    )

length-layout :
    (f : Footer)
    → length f.root ≡ root_len
    → length (layout f) ≡ min_footer_len + length f.sig_classical + length f.sig_pq
unfolding to_le
length-layout f root =
    let at_pq = length-append f.sig_pq (to_le 8 f.total_len ++ magic) in
    let at_classical = length-append f.sig_classical (f.sig_pq ++ (to_le 8 f.total_len ++ magic)) in
    rw (length-append f.root, root) (omega (arith, at_pq, at_classical))

-- The fields of a layout, where `parse` looks for them.
layout-Read :
    (b : List ℕ) (f : Footer) (start : ℕ)
    → IsValid f start
    → b ≡ layout f
    → Read b f (length f.sig_classical) (length f.sig_pq)
unfolding u32_at u64_at
layout-Read b f start v e =
    let c = length f.sig_classical in
    let p = length f.sig_pq in
    let tail_magic = to_le 8 f.total_len ++ magic in
    let tail_pq = f.sig_pq ++ tail_magic in
    let tail_classical = f.sig_classical ++ tail_pq in
    let tail_lens = to_le 4 p ++ tail_classical in
    let tail_root = to_le 4 c ++ tail_lens in
    let at_c : drop 32 b ≡ tail_root = drop_then b 0 32 f.root tail_root e v.root in
    let at_p : drop 36 b ≡ tail_lens =
      drop_then b 32 4 (to_le 4 c) tail_lens at_c (length-to_le 4 c) in
    let at_sigs : drop 40 b ≡ tail_classical =
      drop_then b 36 4 (to_le 4 p) tail_classical at_p (length-to_le 4 p) in
    let at_pq : drop (40 + c) b ≡ tail_pq = drop_then b 40 c f.sig_classical tail_pq at_sigs refl in
    let at_total : drop (40 + c + p) b ≡ tail_magic =
      drop_then b (40 + c) p f.sig_pq tail_magic at_pq refl in
    let at_magic : drop (40 + c + p + 8) b ≡ magic =
      drop_then b (40 + c + p) 8 (to_le 8 f.total_len) magic at_total
        (length-to_le 8 f.total_len) in
    let size : length b ≡ min_footer_len + c + p = rw e (length-layout f v.root) in
    let c_max = v.classical in
    let p_max = v.pq in
    record {
      classical_at = uint_at-of_drop b 32 4 tail_lens (omega arith) at_c (omega arith);
      pq_at = uint_at-of_drop b 36 4 tail_classical (omega arith) at_p (omega arith);
      lens = check_sig_lens-ok c p v.classical v.pq v.both_or_neither;
      size = size;
      magic_at =
          slice-of_drop b (40 + c + p + 8) 8 magic [] (omega arith) (rw append-nil at_magic) refl;
      total_at = uint_at-of_drop b (40 + c + p) 8 magic (omega arith) at_total v.fits;
      root_at = slice-of_drop b 0 32 f.root tail_root (omega arith) e v.root;
      sig_classical_at = slice-of_drop b 40 c f.sig_classical tail_pq (omega arith) at_sigs refl;
      sig_pq_at = slice-of_drop b (40 + c) p f.sig_pq tail_magic (omega arith) at_pq refl;
    }

-- The tests pass on a valid footer, so what was read is what is returned.
Read-parse :
    (file : List ℕ) (off : ℕ) (f : Footer)
    → off ≤ length file
    → f.total_len ≡ length file
    → header_len ≤ off
    → Read (drop off file) f (length f.sig_classical) (length f.sig_pq)
    → parse file off ≡ ok f
unfolding parse
Read-parse file off f inside total behind r =
    let len : length (drop off file) ≡ length file - off = length-drop off file in
    let size = r.size in
    let trailer : length (drop off file) - trailer_len
        ≡ off_sigs + length f.sig_classical + length f.sig_pq =
      omega arith in
    let magic_at : slice (drop off file) (length (drop off file) - trailer_len + 8) 8 ≡ some magic =
      rw trailer r.magic_at in
    let total_at : u64_at (drop off file) (length (drop off file) - trailer_len)
        ≡ some f.total_len =
      rw trailer r.total_at in
    let lens = r.lens in ground (arith, bytes_eq_refl magic)

-- A valid footer is written, and is read back from what it is written to behind the rest of its
-- file.
pub parse-to_bytes_footer :
    (front : List ℕ) (f : Footer)
    → IsValid f (length front)
    → (out : List ℕ) × (to_bytes f ≡ ok out) × (parse (front ++ out) (length front) ≡ ok f)
parse-to_bytes_footer front f v =
    let lens = check_sig_lens-ok _ _ v.classical v.pq v.both_or_neither in
    let seam : drop (length front) (front ++ layout f) ≡ layout f =
      drop-append front (layout f) refl in
    let whole = length-append front (layout f) in
    let size = length-layout f v.root in
    let total = v.total in
    let inside : length front ≤ length (front ++ layout f) = omega arith in
    let ends : f.total_len ≡ length (front ++ layout f) = omega arith in
    (
      layout f,
      to_bytes-layout f lens,
      Read-parse (front ++ layout f) (length front) f inside ends v.behind_header
          (layout-Read _ f (length front) v seam),
    )
