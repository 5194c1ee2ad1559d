-- ===== src/Archive.antt =====
-- sc/cari.cpp, sc/cari.h: the certificate archive (CARI), a zip file. Here are its paths, its names
-- and its tree; Archive/Zip reads the zip, Archive/Always, Archive/Path and Archive/Contained say where its files go.
pub mod Zip
pub mod Always
pub mod Path
pub mod Contained
use bacnet_profile_example_b.Base.{
  ℕ, ◌+◌, ◌-◌, Bool, true, false, not, ◌&&◌, ◌||◌, List, [], ◌∷◌, ◌++◌, Option, none, some, length,
  take, drop, ltb, ◌==◌, if◌then◌else◌,
}
use bacnet_profile_example_b.Base.Text.{codes, same_text, starts_with}
use bacnet_profile_example_b.Base.TextMap.{insert}
use bacnet_profile_example_b.Base.Decimal.{digits_value}

-- `contains c text` is `text.find(c) != npos`; the code asks for each character of the text in a
-- set with it too (`strchr`, of characters that are not 0).
abbrev pub contains : ℕ → List ℕ → Bool
contains c [] = false
contains c (x ∷ xs) = x == c || contains c xs

abbrev pub starts_part : ℕ → List (List ℕ) → List (List ℕ)
starts_part c [] = (c ∷ []) ∷ []
starts_part c (part ∷ parts) = (c ∷ part) ∷ parts

-- What `getline` gives with '/': nothing after a last '/'.
unfoldable pub split : List ℕ → List (List ℕ)
split [] = []
split (c ∷ cs) = let rest = split cs in if c == b'/' then [] ∷ rest else starts_part c rest

abbrev pub is_control : ℕ → Bool
is_control c = ltb c 32 || c == 127

abbrev pub any_control : List ℕ → Bool
any_control [] = false
any_control (c ∷ cs) = is_control c || any_control cs

unfoldable pub safe_parts : List (List ℕ) → Bool
safe_parts [] = true
safe_parts (part ∷ parts) =
    let rest = safe_parts parts in
    if same_text part [] || same_text part (codes ".") || same_text part (codes "..")
    then false
    else if any_control part
    then false
    else rest

unfoldable pub is_safe_zip_path : List ℕ → Bool
is_safe_zip_path path =
    if same_text path [] || starts_with (codes "/") path || contains 92 path || contains b':' path
    then false
    else safe_parts (split path)

unfoldable pub ends_with : List ℕ → List ℕ → Bool
ends_with suffix text =
    not (ltb (length text) (length suffix))
    && same_text (drop (length text - length suffix) text) suffix

-- The number of a device folder: at most seven digits, so `strtoul` cannot overflow.
abbrev pub instance_in_range : Option ℕ → Option ℕ
instance_in_range none = none
instance_in_range (some value) = if ltb 4194302 value then none else some value

unfoldable pub device_instance : List ℕ → Option ℕ
device_instance folder =
    if not (starts_with (codes "device-") folder) || length folder == 7 || ltb 14 (length folder)
    then none
    else instance_in_range (digits_value 0 (drop 7 folder))

-- The characters that a file name of Windows may not have: < > : " / \ | ? *
abbrev pub forbidden : List ℕ
forbidden = 60 ∷ 62 ∷ 58 ∷ 34 ∷ 47 ∷ 92 ∷ 124 ∷ 63 ∷ 42 ∷ []

abbrev pub all_allowed : List ℕ → Bool
all_allowed [] = true
all_allowed (c ∷ cs) = if is_control c || contains c forbidden then false else all_allowed cs

unfoldable pub is_valid_name : List ℕ → Bool
is_valid_name text = if same_text text [] || ltb 128 (length text) then false else all_allowed text

-- `substr` of a text shorter than prefix and ".pem" together would throw or take what is left; the
-- lengths are written as the unsigned subtraction that wraps.
unfoldable pub file_name : List ℕ → List ℕ → Option (List ℕ)
file_name file prefix =
    let rest = drop (length prefix) file in
    let name =
      if ltb (length file) (length prefix + 4)
      then rest
      else take (length file - length prefix - 4) rest in
    if not (starts_with prefix file) || not (ends_with (codes ".pem") file)
    then none
    else if is_valid_name name
    then some name
    else none

-- `files` and `folders` are a map and a set, in the order of the paths.
pub record Tree : Type 0 where
  pub files : List (List ℕ × List ℕ)
  pub folders : List (List ℕ × Unit {0})

abbrev pub joined : List ℕ → List ℕ → List ℕ
joined partial part = (if same_text partial [] then [] else codes "/") ++ part

unfoldable pub add_parts : List ℕ → List (List ℕ) → Tree → Tree
add_parts partial [] tree = tree
add_parts partial (part ∷ parts) tree =
    let path = partial ++ joined partial part in
    add_parts path parts (record tree { folders = insert path tt tree.folders })

unfoldable pub add_folder : List ℕ → Tree → Tree
add_folder path tree = add_parts [] (split path) tree

-- The path up to its last '/'.
unfoldable pub parent : List ℕ → Option (List ℕ)
parent [] = none
parent (c ∷ cs) = elim (parent cs) [
  | some rest ↦ some (c ∷ rest)
  | none ↦ if c == b'/' then some [] else none
]

abbrev pub with_parent : Option (List ℕ) → Tree → Tree
with_parent none tree = tree
with_parent (some folder) tree = add_folder folder tree

unfoldable pub add_file : List ℕ → List ℕ → Tree → Tree
add_file path octets tree =
    let above = with_parent (parent path) tree in
    record above { files = insert path octets above.files }
