-- ===== src/Manifest/Keys.antt =====
-- The keys of a manifest and of an `external` entry, as their bytes; and the limits of
-- ctf-format/crates/ctf-format/src/manifest.rs.
use sidequests.Common.{ℕ, List, [], ◌∷◌}

-- "category"
abbrev pub category_key : List ℕ
category_key = 99 ∷ 97 ∷ 116 ∷ 101 ∷ 103 ∷ 111 ∷ 114 ∷ 121 ∷ []

-- "crit"
abbrev pub crit_key : List ℕ
crit_key = 99 ∷ 114 ∷ 105 ∷ 116 ∷ []

-- "description"
abbrev pub description_key : List ℕ
description_key = 100 ∷ 101 ∷ 115 ∷ 99 ∷ 114 ∷ 105 ∷ 112 ∷ 116 ∷ 105 ∷ 111 ∷ 110 ∷ []

-- "external"
abbrev pub external_key : List ℕ
external_key = 101 ∷ 120 ∷ 116 ∷ 101 ∷ 114 ∷ 110 ∷ 97 ∷ 108 ∷ []

-- "flag"
abbrev pub flag_key : List ℕ
flag_key = 102 ∷ 108 ∷ 97 ∷ 103 ∷ []

-- "generate"
abbrev pub generate_key : List ℕ
generate_key = 103 ∷ 101 ∷ 110 ∷ 101 ∷ 114 ∷ 97 ∷ 116 ∷ 101 ∷ []

-- "id"
abbrev pub id_key : List ℕ
id_key = 105 ∷ 100 ∷ []

-- "name"
abbrev pub name_key : List ℕ
name_key = 110 ∷ 97 ∷ 109 ∷ 101 ∷ []

-- "names"
abbrev pub names_key : List ℕ
names_key = 110 ∷ 97 ∷ 109 ∷ 101 ∷ 115 ∷ []

-- "paths"
abbrev pub paths_key : List ℕ
paths_key = 112 ∷ 97 ∷ 116 ∷ 104 ∷ 115 ∷ []

-- "platform"
abbrev pub platform_key : List ℕ
platform_key = 112 ∷ 108 ∷ 97 ∷ 116 ∷ 102 ∷ 111 ∷ 114 ∷ 109 ∷ []

-- "runtime"
abbrev pub runtime_key : List ℕ
runtime_key = 114 ∷ 117 ∷ 110 ∷ 116 ∷ 105 ∷ 109 ∷ 101 ∷ []

-- "sealed"
abbrev pub sealed_key : List ℕ
sealed_key = 115 ∷ 101 ∷ 97 ∷ 108 ∷ 101 ∷ 100 ∷ []

-- "spec"
abbrev pub spec_key : List ℕ
spec_key = 115 ∷ 112 ∷ 101 ∷ 99 ∷ []

-- "verify"
abbrev pub verify_key : List ℕ
verify_key = 118 ∷ 101 ∷ 114 ∷ 105 ∷ 102 ∷ 121 ∷ []

-- "version"
abbrev pub version_key : List ℕ
version_key = 118 ∷ 101 ∷ 114 ∷ 115 ∷ 105 ∷ 111 ∷ 110 ∷ []

-- "size"
abbrev pub size_key : List ℕ
size_key = 115 ∷ 105 ∷ 122 ∷ 101 ∷ []

-- "root"
abbrev pub root_key : List ℕ
root_key = 114 ∷ 111 ∷ 111 ∷ 116 ∷ []

-- "mirrors"
abbrev pub mirrors_key : List ℕ
mirrors_key = 109 ∷ 105 ∷ 114 ∷ 114 ∷ 111 ∷ 114 ∷ 115 ∷ []

abbrev pub manifest_spec : ℕ
manifest_spec = 1

abbrev pub max_name_len : ℕ
max_name_len = 255

abbrev pub max_path_len : ℕ
max_path_len = 4096

abbrev pub max_mirror_len : ℕ
max_mirror_len = 2048

abbrev pub max_id_len : ℕ
max_id_len = 64

abbrev pub max_names : ℕ
max_names = 65_536

-- The keys that `crit` may name.
abbrev pub known_keys : List (List ℕ)
known_keys =
    category_key ∷ crit_key ∷ description_key ∷ external_key ∷ flag_key ∷ generate_key ∷ id_key
    ∷ name_key ∷ names_key ∷ paths_key ∷ platform_key ∷ runtime_key ∷ sealed_key ∷ spec_key
    ∷ verify_key ∷ version_key ∷ []

-- The keys of spec 2 that are carried and not acted on.
abbrev pub declaration_keys : List (List ℕ)
declaration_keys = flag_key ∷ generate_key ∷ runtime_key ∷ sealed_key ∷ verify_key ∷ []
