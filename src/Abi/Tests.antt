-- ===== src/Abi/Tests.antt =====
-- A generator output with one artifact, and the theorems about blocks at it.
use sidequests.Common.{true, ℕ, ◌≡◌, refl, List, [], ◌∷◌, arith}
use sidequests.Outcome.{ok}
use sidequests.Wire.{u32_at, slice, from_le}
use sidequests.Utf8.{is_utf8, is_utf8_from, lead_byte}
use sidequests.Abi.{
  Output, GeneratorOutput, read_u32, read_bytes, read_output, read_outputs, read_block, is_name_of,
  decode_artifacts,
}
use sidequests.Abi.Restores.{HasText}
use sidequests.Abi.RoundTrip.{encode-decode_artifacts, IsBlock}

abbrev pub page : Output
page = record { name = 0x61 ∷ []; bytes = 1 ∷ 2 ∷ [] }

abbrev pub page_and_flag : GeneratorOutput
page_and_flag = record { outputs = page ∷ []; flag = 0x66 ∷ [] }

abbrev artifact_bytes : List ℕ
artifact_bytes = 1 ∷ 0 ∷ 0 ∷ 0 ∷ 1 ∷ 0 ∷ 0 ∷ 0 ∷ 0x61 ∷ 2 ∷ 0 ∷ 0 ∷ 0 ∷ 1 ∷ 2 ∷ []

abbrev output_bytes : List ℕ
output_bytes =
    1 ∷ 0 ∷ 0 ∷ 0 ∷ 1 ∷ 0 ∷ 0 ∷ 0 ∷ 0x61 ∷ 2 ∷ 0 ∷ 0 ∷ 0 ∷ 1 ∷ 2 ∷ 1 ∷ 0 ∷ 0 ∷ 0 ∷ 0x66 ∷ []

artifacts_read : decode_artifacts artifact_bytes 100 ≡ ok (page ∷ [])
unfolding decode_artifacts read_block read_outputs read_output read_u32 read_bytes u32_at slice
    from_le is_utf8 is_utf8_from lead_byte is_name_of
artifacts_read = refl

page-IsBlock : IsBlock 100 (page ∷ [])
page-IsBlock =
    (encode-decode_artifacts artifact_bytes 100 (page ∷ []) (omega arith) artifacts_read).0

page-HasText : HasText page
unfolding is_utf8 is_utf8_from lead_byte
page-HasText = refl

flag_is_text : is_utf8 page_and_flag.flag ≡ true
unfolding is_utf8 is_utf8_from lead_byte
flag_is_text = refl
