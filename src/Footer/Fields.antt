-- ===== src/Footer/Fields.antt =====
-- What `Footer::parse` has read and tested when it accepts a footer.
use sidequests.Common.{
  ℕ, ◌+◌, ◌-◌, ◌≤◌, ◌≡◌, List, length, drop, some, arith, Option-cases, length-drop, inl, inr,
}
use sidequests.Error.{ok}
use sidequests.Wire.{slice, u32_at, u64_at, bytes_eq→eq}
use sidequests.Format.{magic, header_len}
use sidequests.Footer.{
  Footer, parse, check_sig_lens, root_len, off_sigs, off_sig_classical_len, off_sig_pq_len,
  trailer_len, min_footer_len,
}

pub record Read (b : List ℕ) (f : Footer) (classical pq : ℕ) : Type 0 where
  pub classical_at : u32_at b off_sig_classical_len ≡ some classical
  pub pq_at : u32_at b off_sig_pq_len ≡ some pq
  pub lens : check_sig_lens classical pq ≡ ok tt
  pub size : length b ≡ min_footer_len + classical + pq
  pub magic_at : slice b (off_sigs + classical + pq + 8) 8 ≡ some magic
  pub total_at : u64_at b (off_sigs + classical + pq) ≡ some f.total_len
  pub root_at : slice b 0 root_len ≡ some f.root
  pub sig_classical_at : slice b off_sigs classical ≡ some f.sig_classical
  pub sig_pq_at : slice b (off_sigs + classical) pq ≡ some f.sig_pq

pub parse-Read :
    (file : List ℕ) (off : ℕ) (f : Footer)
    → parse file off ≡ ok f
    → (classical : ℕ) × (pq : ℕ) × Read (drop off file) f classical pq
      × (header_len ≤ off)
      × (off ≤ length file)
      × (f.total_len ≡ length file)
unfolding parse
parse-Read file off f e = elim (Option-cases (u32_at (drop off file) off_sig_classical_len)) [
  | inl missing ↦ absurd (ground arith)
  | inr (classical, classical_at) ↦ elim (Option-cases (u32_at (drop off file) off_sig_pq_len)) [
    | inl missing ↦ absurd (ground arith)
    | inr (pq, pq_at) ↦
        let before : header_len ≤ off = ground arith in
        let inside : off ≤ length file = ground arith in
        let size : length (drop off file) ≡ min_footer_len + classical + pq =
          ground (arith, length-drop off file) in
        let trailer : length (drop off file) - trailer_len ≡ off_sigs + classical + pq =
          omega arith in
        let magic_at : slice (drop off file) (length (drop off file) - trailer_len + 8) 8
            ≡ some magic =
          elim (Option-cases (slice (drop off file) (length (drop off file) - trailer_len + 8) 8)) [
            | inl missing ↦ absurd (ground arith)
            | inr (s, found) ↦ ground (arith, bytes_eq→eq s magic)
          ] in
        let total_at : u64_at (drop off file) (length (drop off file) - trailer_len)
            ≡ some f.total_len =
          ground arith in
        (
          classical,
          pq,
          record {
            classical_at = classical_at;
            pq_at = pq_at;
            lens = ground arith;
            size = size;
            magic_at = rw trailer at magic_at;
            total_at = rw trailer at total_at;
            root_at = ground arith;
            sig_classical_at = ground arith;
            sig_pq_at = ground arith;
          },
          before,
          inside,
          ground arith,
        )
  ]
]
