-- ===== src/Manifest/Tests.antt =====
-- A manifest with a name table, paths and an external section, as bytes; and the theorems about
-- manifests at it.
use sidequests.Common.{
  ℕ, ◌≤◌, ◌≡◌, ◌≢◌, refl, List, [], ◌∷◌, ◌++◌, some, All, length, replicate, arith,
}
use sidequests.Common.Sort.{AllPairs, sort, insert}
use sidequests.Error.{ok}
use sidequests.Wire.{IsByte, bytes_eq, from_be, from_le}
use sidequests.Kinds.{manifest, contains, artifact, plain, raw}
use sidequests.Section.{SectionRecord}
use sidequests.Cbor.{Value, uint, text, bytes, array, map, entry, end, cons, nil}
use sidequests.Cbor.Access.{
  is_key, find_key, get, as_uint, as_text, as_bytes, elements, as_array, pairs, as_map,
}
use sidequests.Cbor
use sidequests.Manifest.Decode.{
  Manifest, get_uint, get_text, get_array, get_map, as_root, get_root, parse_mirrors,
  parse_external, check_keys, is_among, check_crit_items, if_given, check_crit, check_optional_text,
  check_version, refuse_some, collect_names, collect_paths, repeated, refuse_repeated, check_names,
  check_paths, check_external_entries, check_external, check_schema, decode,
}
use sidequests.Manifest.Readers.{find_id, is_id, texts, spec, id, names, path_of}
use sidequests.Manifest.Against.{
  is_in, check_named, section_ids, id_of_key, check_covered, declare, declared, or_here, lookup,
  external_ids, disagrees, check_declared, check_externals, validate_against,
}
use sidequests.Manifest.Shape.{
  starts_with, ends_with, is_id_byte, all_id_bytes, is_bad_id, check_id, is_bidi_control,
  has_bidi_control, is_bad_name_byte, has_bad_name_byte, is_bad_name, check_name, onto_first,
  components, any_bad_name, check_path,
}
use sidequests.Utf8.{lead_byte, next_state, is_utf8_from, is_utf8}
use sidequests.Manifest.Names.{IsId, IsName, IsPath}
use sidequests.Manifest.NameTable.{decode-names}
use sidequests.Manifest.Paths.{path_of-IsPath, path_of_injective}
use sidequests.Manifest.Agrees.{Agrees, validate_against-Agrees}

abbrev manifest_bytes : List ℕ
manifest_bytes =
    166 ∷ 98 ∷ 105 ∷ 100 ∷ 97 ∷ 99 ∷ 100 ∷ 110 ∷ 97 ∷ 109 ∷ 101 ∷ 97 ∷ 84 ∷ 100 ∷ 115 ∷ 112 ∷ 101
    ∷ 99 ∷ 1 ∷ 101 ∷ 110 ∷ 97 ∷ 109 ∷ 101 ∷ 115 ∷ 130 ∷ 97 ∷ 109 ∷ 97 ∷ 98 ∷ 101 ∷ 112 ∷ 97 ∷ 116
    ∷ 104 ∷ 115 ∷ 161 ∷ 1 ∷ 99 ∷ 97 ∷ 47 ∷ 98 ∷ 104 ∷ 101 ∷ 120 ∷ 116 ∷ 101 ∷ 114 ∷ 110 ∷ 97 ∷ 108
    ∷ 161 ∷ 1 ∷ 163 ∷ 100 ∷ 114 ∷ 111 ∷ 111 ∷ 116 ∷ 88 ∷ 32 ∷ 0 ∷ 0 ∷ 0 ∷ 0 ∷ 0 ∷ 0 ∷ 0 ∷ 0 ∷ 0 ∷ 0
    ∷ 0 ∷ 0 ∷ 0 ∷ 0 ∷ 0 ∷ 0 ∷ 0 ∷ 0 ∷ 0 ∷ 0 ∷ 0 ∷ 0 ∷ 0 ∷ 0 ∷ 0 ∷ 0 ∷ 0 ∷ 0 ∷ 0 ∷ 0 ∷ 0 ∷ 7 ∷ 100
    ∷ 115 ∷ 105 ∷ 122 ∷ 101 ∷ 9 ∷ 103 ∷ 109 ∷ 105 ∷ 114 ∷ 114 ∷ 111 ∷ 114 ∷ 115 ∷ 129 ∷ 97 ∷ 117
    ∷ []

-- The name table is ["m", "b"]; section 1 is external, and extracted to "a/b".
abbrev small_manifest : Manifest
small_manifest = record {
  value = map (
      entry (text (105 ∷ 100 ∷ [])) (text (99 ∷ [])) (
        entry (text (110 ∷ 97 ∷ 109 ∷ 101 ∷ [])) (text (84 ∷ [])) (
          entry (text (115 ∷ 112 ∷ 101 ∷ 99 ∷ [])) (uint 1) (
            entry (text (110 ∷ 97 ∷ 109 ∷ 101 ∷ 115 ∷ []))
              (array (cons (text (109 ∷ [])) (cons (text (98 ∷ [])) nil)))
              (entry (text (112 ∷ 97 ∷ 116 ∷ 104 ∷ 115 ∷ []))
                (map (entry (uint 1) (text (97 ∷ 47 ∷ 98 ∷ [])) end))
                (entry (text (101 ∷ 120 ∷ 116 ∷ 101 ∷ 114 ∷ 110 ∷ 97 ∷ 108 ∷ []))
                  (map (
                    entry (uint 1)
                      (map (
                        entry (text (114 ∷ 111 ∷ 111 ∷ 116 ∷ []))
                          (bytes (
                            0 ∷ 0 ∷ 0 ∷ 0 ∷ 0 ∷ 0 ∷ 0 ∷ 0 ∷ 0 ∷ 0 ∷ 0 ∷ 0 ∷ 0 ∷ 0 ∷ 0 ∷ 0 ∷ 0 ∷ 0
                            ∷ 0 ∷ 0 ∷ 0 ∷ 0 ∷ 0 ∷ 0 ∷ 0 ∷ 0 ∷ 0 ∷ 0 ∷ 0 ∷ 0 ∷ 0 ∷ 7 ∷ []))
                          (entry (text (115 ∷ 105 ∷ 122 ∷ 101 ∷ [])) (uint 9) (
                            entry (text (109 ∷ 105 ∷ 114 ∷ 114 ∷ 111 ∷ 114 ∷ 115 ∷ []))
                              (array (cons (text (117 ∷ [])) nil)) end))))
                      end))
                  end))))));
}

abbrev one : ℕ
one = 1

-- "a/b"
abbrev path : List ℕ
path = 97 ∷ 47 ∷ 98 ∷ []

abbrev manifest_record : SectionRecord
manifest_record = record {
  kind = manifest;
  name_id = 0;
  flags = 0;
  enc = plain;
  comp = raw;
  offset = 64;
  len_stored = 3;
  len_plain = 3;
  chunk_size = 0;
  chunk_index_off = 0;
  root = replicate 32 7;
}

abbrev external_record : SectionRecord
external_record = record {
  kind = artifact;
  name_id = 1;
  flags = 4;
  enc = plain;
  comp = raw;
  offset = 0;
  len_stored = 0;
  len_plain = 9;
  chunk_size = 0;
  chunk_index_off = 0;
  root = replicate 31 0 ++ (7 ∷ []);
}

abbrev both_records : List SectionRecord
both_records = manifest_record ∷ external_record ∷ []

manifest_bytes_IsByte : All IsByte manifest_bytes
manifest_bytes_IsByte = omega arith

decoded : decode manifest_bytes ≡ ok small_manifest
unfolding get_uint get_text get_array get_map as_root get_root parse_mirrors parse_external
    check_keys is_among check_crit_items if_given check_crit check_optional_text check_version
    refuse_some collect_names collect_paths repeated refuse_repeated check_names check_paths
    check_external_entries check_external check_schema decode starts_with ends_with is_id_byte
    all_id_bytes is_bad_id check_id is_bidi_control has_bidi_control is_bad_name_byte
    has_bad_name_byte is_bad_name check_name onto_first components any_bad_name check_path is_key
    find_key get as_uint as_text as_bytes elements as_array pairs as_map Cbor.bytes_lt Cbor.byte
    Cbor.take_bytes Cbor.wide_argument Cbor.argument Cbor.head Cbor.items Cbor.check_order
    Cbor.entries Cbor.body Cbor.value Cbor.decode lead_byte next_state is_utf8_from is_utf8 bytes_eq
    from_be from_le sort insert
decoded = refl

path_given : path_of 1 small_manifest ≡ some path
unfolding path_of find_id is_id get_map is_key find_key get as_uint as_text as_bytes elements
    as_array pairs as_map bytes_eq
path_given = refl

agreed : validate_against small_manifest both_records ≡ ok tt
unfolding is_in check_named section_ids id_of_key check_covered declare declared or_here lookup
    external_ids disagrees check_declared check_externals validate_against names texts get_array
    get_map get_uint get_root as_root parse_external parse_mirrors contains is_key find_key get
    as_uint as_text as_bytes elements as_array pairs as_map bytes_eq
agreed = refl

decode-names_example :
    (1 ≤ spec small_manifest)
    × IsId (id small_manifest)
    × (length (names small_manifest) ≤ 65_536)
    × All IsName (names small_manifest)
    × AllPairs ◌≢◌ (names small_manifest)
decode-names_example = decode-names manifest_bytes small_manifest decoded

path_of-IsPath_example : IsPath path
path_of-IsPath_example = path_of-IsPath manifest_bytes small_manifest 1 path decoded path_given

path_of_injective_example : one ≡ 1
path_of_injective_example =
    path_of_injective manifest_bytes small_manifest one 1 path decoded path_given path_given

validate_against-Agrees_example : All (Agrees small_manifest) both_records
validate_against-Agrees_example =
    validate_against-Agrees manifest_bytes small_manifest both_records manifest_bytes_IsByte decoded
      agreed
