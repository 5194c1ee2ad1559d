-- ===== src/Tests/ArchiveTests.antt =====
-- A zip with one stored file, as anyone may send it.
use bacnet_profile_example_b.Base.{ℕ, ◌≡◌, refl, List, [], ◌∷◌, ◌++◌, none, some, replicate}
use bacnet_profile_example_b.Base.Text.{codes}
use bacnet_profile_example_b.Base.Decimal.{digits_value}
use bacnet_profile_example_b.Base.TextMap.{insert, lookup}
use bacnet_profile_example_b.Archive.{
  split, safe_parts, is_safe_zip_path, ends_with, add_file, add_folder, add_parts, parent,
  device_instance, file_name, is_valid_name,
}
use bacnet_profile_example_b.Archive.Zip.{
  Zlib, done, refused, unsafe_path, get8, get16, get32, ◌>>=◌, refuse_if, read_file_entry,
  read_safe_entry, read_entry, read_entries, find_end, read_directory, read_zip,
}
use bacnet_profile_example_b.Archive.Always.{Always}
use bacnet_profile_example_b.Archive.Path.{AllContained}
use bacnet_profile_example_b.Archive.Contained.{read_zip-AllContained}

abbrev zlib : Zlib
zlib = record { crc32 = λ octets. 9; run_inflate = λ octets expected. none }

abbrev zeros : ℕ → List ℕ
zeros n = replicate n 0

-- The file holds 42; its name has seven octets.
abbrev zip_of : List ℕ → List ℕ
zip_of name =
    codes "PK"
    ++ (3 ∷ 4 ∷ zeros 22)
    ++ (7 ∷ 0 ∷ 0 ∷ 0 ∷ [])
    ++ name
    ++ (42 ∷ [])
    ++ codes "PK"
    ++ (1 ∷ 2 ∷ zeros 12)
    ++ (9 ∷ 0 ∷ 0 ∷ 0 ∷ 1 ∷ 0 ∷ 0 ∷ 0 ∷ 1 ∷ 0 ∷ 0 ∷ 0 ∷ 7 ∷ zeros 17)
    ++ name
    ++ codes "PK"
    ++ (5 ∷ 6 ∷ zeros 4)
    ++ (1 ∷ 0 ∷ 1 ∷ 0 ∷ 53 ∷ 0 ∷ 0 ∷ 0 ∷ 38 ∷ zeros 5)

good_zip :
    read_zip zlib (zip_of (codes "cert1/a"))
    ≡ done (record { files = (codes "cert1/a", 42 ∷ []) ∷ []; folders = (codes "cert1", tt) ∷ [] })
unfolding read_zip read_directory read_entries read_entry read_safe_entry read_file_entry find_end
    get8 get16 get32 ◌>>=◌ refuse_if ends_with is_safe_zip_path safe_parts split add_file add_folder
    add_parts parent insert lookup
good_zip = refl

bad_zip : read_zip zlib (zip_of (codes "a/../bc")) ≡ refused unsafe_path
unfolding read_zip read_directory read_entries read_entry read_safe_entry read_file_entry find_end
    get8 get16 get32 ◌>>=◌ refuse_if ends_with is_safe_zip_path safe_parts split
bad_zip = refl

read_zip-AllContained_example : Always AllContained (read_zip zlib (zip_of (codes "cert1/a")))
read_zip-AllContained_example = read_zip-AllContained zlib (zip_of (codes "cert1/a"))

device_folder : device_instance (codes "device-12") ≡ some 12
unfolding device_instance digits_value
device_folder = refl

request_file : file_name (codes "csr-abc.pem") (codes "csr-") ≡ some (codes "abc")
unfolding file_name ends_with is_valid_name
request_file = refl
