-- ===== src/Archive/Zip.antt =====
-- sc/cari.cpp, `ReadZip`, on the archive's octets. A read that is not within them is `overrun`.
use bacnet_profile_example_b.Base.{
  ℕ, zero, suc, ◌+◌, ◌-◌, ◌*◌, ◌%◌, Bool, true, false, not, ◌&&◌, ◌||◌, List, [], Option, none,
  some, length, take, drop, get_elem?, ltb, ◌==◌, if◌then◌else◌,
}
use bacnet_profile_example_b.Base.Text.{codes}
use bacnet_profile_example_b.Base.TextMap.{lookup}
use bacnet_profile_example_b.Archive.{Tree, is_safe_zip_path, add_folder, add_file, ends_with}

-- Which message is given.
pub data Damage : Type 0 where
  too_long : Damage
  no_zip : Damage
  no_end_of_directory : Damage
  multi_part : Damage
  too_many_entries : Damage
  directory_out_of_range : Damage
  bad_entry : Damage
  name_out_of_range : Damage
  encrypted : Damage
  zip64 : Damage
  compression_method : Damage
  unsafe_path : Damage
  unpacks_to_too_much : Damage
  bad_local_header : Damage
  data_out_of_range : Damage
  bad_size : Damage
  not_decompressed : Damage
  crc_mismatch : Damage
  appears_twice : Damage

pub data ZipResult (A : Type 0) : Type 0 where
  done : A → ZipResult A
  refused : Damage → ZipResult A
  overrun : ZipResult A

infixl 5 ◌>>=◌ ◌>>◌
unfoldable pub ◌>>=◌ : {A B : Type 0} → ZipResult A → (A → ZipResult B) → ZipResult B
done a >>= f = f a
refused damage >>= f = refused damage
overrun >>= f = overrun

abbrev pub ◌>>◌ : {A : Type 0} → ZipResult (Unit {0}) → ZipResult A → ZipResult A
m >> n = m >>= λ _. n

-- An early return with a message.
unfoldable pub refuse_if : Bool → Damage → ZipResult (Unit {0})
refuse_if true damage = refused damage
refuse_if false damage = done tt

abbrev pub present : Option ℕ → ZipResult ℕ
present none = overrun
present (some octet) = done octet

unfoldable pub get8 : List ℕ → ℕ → ZipResult ℕ
get8 octets i = present (get_elem? octets i)

unfoldable pub get16 : List ℕ → ℕ → ZipResult ℕ
get16 octets i = do low ← get8 octets i; high ← get8 octets (i + 1); done (low + high * 256)

unfoldable pub get32 : List ℕ → ℕ → ZipResult ℕ
get32 octets i = do low ← get16 octets i; high ← get16 octets (i + 2); done (low + high * 65536)

-- zlib: the CRC, and a run of `inflate` on the octets with an output buffer of the size given: what
-- it returns, `total_out` and the buffer; none when `inflateInit2` fails.
pub data Status : Type 0 where
  stream_end : Status
  buf_error : Status
  other_status : Status

pub record Zlib : Type 0 where
  pub crc32 : List ℕ → ℕ
  pub run_inflate : List ℕ → ℕ → Option (Status × ℕ × List ℕ)

abbrev pub is_inflated : Status → ℕ → ℕ → Bool
is_inflated stream_end total expected = total == expected
is_inflated buf_error total expected = expected == 0
is_inflated other_status total expected = false

abbrev pub inflated : Option (Status × ℕ × List ℕ) → ℕ → ZipResult (List ℕ)
inflated none expected = refused not_decompressed
inflated (some (status, total, out)) expected =
    if is_inflated status total expected then done out else refused not_decompressed

abbrev pub max_zip_bytes : ℕ
max_zip_bytes = 4194304

abbrev pub max_entries : ℕ
max_entries = 4096

abbrev pub max_total_uncompressed : ℕ
max_total_uncompressed = 16777216

abbrev pub local_header_sig : ℕ
local_header_sig = 67324752

abbrev pub central_header_sig : ℕ
central_header_sig = 33639248

abbrev pub end_of_central_dir_sig : ℕ
end_of_central_dir_sig = 101010256

-- The locals of the loop over the entries.
pub record Progress : Type 0 where
  pub offset : ℕ
  pub total : ℕ
  pub tree : Tree

abbrev pub without_last : List ℕ → List ℕ
without_last name = take (length name - 1) name

abbrev pub unpacked : Zlib → ℕ → List ℕ → ℕ → ℕ → ZipResult (List ℕ)
unpacked zlib method compressed csize usize =
    if method == 0
    then refuse_if (not (csize == usize)) bad_size >> done compressed
    else inflated (zlib.run_inflate compressed usize) usize

-- A file's part of a round, from its size on. `localOffset + 30` and the sum after it are of 32 bits.
unfoldable pub read_file_entry :
    Zlib → List ℕ → List ℕ → ℕ → ℕ → ℕ → ℕ → ℕ → Progress → ZipResult Progress
read_file_entry zlib zip name method crc csize usize header p = do
  let total = p.total + usize
  refuse_if (ltb max_total_uncompressed total) unpacks_to_too_much
  refuse_if (ltb (length zip) (header + 30)) bad_local_header
  signature ← get32 zip header
  refuse_if (not (signature == local_header_sig)) bad_local_header
  name_length ← get16 zip (header + 26)
  extra_length ← get16 zip (header + 28)
  let data_at = (header + 30 + name_length + extra_length) % 4294967296
  refuse_if (ltb (length zip) (data_at + csize)) data_out_of_range
  octets ← unpacked zlib method (take csize (drop data_at zip)) csize usize
  refuse_if (not (zlib.crc32 octets == crc)) crc_mismatch
  let tree = p.tree
  refuse_if (elim (lookup name tree.files) [ none ↦ false | some old ↦ true ]) appears_twice
  done (record { offset = p.offset; total = total; tree = add_file name octets tree })

-- The end of a round: a folder, or a file.
unfoldable pub read_safe_entry :
    Zlib → List ℕ → Bool → List ℕ → ℕ → ℕ → ℕ → ℕ → ℕ → Progress → ZipResult Progress
read_safe_entry zlib zip true name method crc csize usize header p =
    let folder = add_folder name p.tree in done (record p { tree = folder })
read_safe_entry zlib zip false name method crc csize usize header p =
    read_file_entry zlib zip name method crc csize usize header p

-- One round of the loop.
unfoldable pub read_entry : Zlib → List ℕ → ℕ → Progress → ZipResult Progress
read_entry zlib zip end p = do
  let start = p.offset
  refuse_if (ltb end (start + 46)) bad_entry
  signature ← get32 zip start
  refuse_if (not (signature == central_header_sig)) bad_entry
  flags ← get16 zip (start + 8)
  method ← get16 zip (start + 10)
  crc ← get32 zip (start + 16)
  csize ← get32 zip (start + 20)
  usize ← get32 zip (start + 24)
  name_length ← get16 zip (start + 28)
  extra_length ← get16 zip (start + 30)
  comment_length ← get16 zip (start + 32)
  header ← get32 zip (start + 42)
  refuse_if (ltb end (start + 46 + name_length)) name_out_of_range
  let full_name = take name_length (drop (start + 46) zip)
  let next = start + (46 + name_length + extra_length + comment_length)
  refuse_if (not (flags % 2 == 0)) encrypted
  refuse_if (csize == 4294967295 || usize == 4294967295 || header == 4294967295) zip64
  refuse_if (not (method == 0) && not (method == 8)) compression_method
  let is_folder = ends_with (codes "/") full_name
  let name = if is_folder then without_last full_name else full_name
  refuse_if (not (is_safe_zip_path name)) unsafe_path
  read_safe_entry zlib zip is_folder name method crc csize usize header (record p { offset = next })

unfoldable pub read_entries : ℕ → Zlib → List ℕ → ℕ → Progress → ZipResult Progress
read_entries zero zlib zip end p = done p
read_entries (suc entries) zlib zip end p =
    read_entry zlib zip end p >>= read_entries entries zlib zip end

-- The search from the end down to `lowest`: `n` positions are left.
unfoldable pub find_end : List ℕ → ℕ → ℕ → ZipResult ℕ
find_end zip lowest zero = refused no_end_of_directory
find_end zip lowest (suc n) =
    let rest = find_end zip lowest n in
    get32 zip (lowest + n) >>= λ signature.
    if signature == end_of_central_dir_sig then done (lowest + n) else rest

abbrev pub new_tree : Tree
new_tree = record { files = []; folders = [] }

unfoldable pub read_directory : Zlib → List ℕ → ℕ → ZipResult Progress
read_directory zlib zip end = do
  entries ← get16 zip (end + 10)
  size ← get32 zip (end + 12)
  start ← get32 zip (end + 16)
  disk ← get16 zip (end + 4)
  directory_disk ← get16 zip (end + 6)
  disk_entries ← get16 zip (end + 8)
  refuse_if (not (disk == 0) || not (directory_disk == 0) || not (entries == disk_entries))
      multi_part
  refuse_if (ltb max_entries entries) too_many_entries
  refuse_if (ltb end (start + size)) directory_out_of_range
  read_entries entries zlib zip end (record { offset = start; total = 0; tree = new_tree })

unfoldable pub read_zip : Zlib → List ℕ → ZipResult Tree
read_zip zlib zip = do
  refuse_if (ltb max_zip_bytes (length zip)) too_long
  refuse_if (ltb (length zip) 22) no_zip
  signature ← get32 zip 0
  refuse_if (not (signature == local_header_sig)) no_zip
  let lowest = if ltb 65557 (length zip) then length zip - 65557 else 0
  end ← find_end zip lowest (length zip - 21 - lowest)
  last ← read_directory zlib zip end
  done last.tree
