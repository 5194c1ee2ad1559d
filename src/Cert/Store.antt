-- ===== src/Cert/Store.antt =====
-- sc/cert_store.cpp: where the certificate File objects' octets are, and the staged copies.
-- The disk is a map from paths to files; "<path>.tmp" is the entry `temps path`.
pub mod Staging
use bacnet_profile_example_b.Base.{
  ℕ, zero, suc, ◌+◌, ◌*◌, Bool, true, false, List, [], ◌∷◌, Option, none, some, if◌then◌else◌,
  length, overwrite, resize, ltb, ◌==◌,
}
use bacnet_profile_example_b.Base.Int.{ℤ, pos, negsuc}
use bacnet_profile_example_b.Base.Assoc.{lookup, insert}
use bacnet_profile_example_b.Cert.Host.{Host}

abbrev pub max_file_bytes : ℕ
max_file_bytes = 64 * 1024

abbrev pub error_invalid_file_start_position : ℕ
error_invalid_file_start_position = 11

abbrev pub error_file_full : ℕ
error_file_full = 128

abbrev pub error_value_out_of_range : ℕ
error_value_out_of_range = 37

pub record Staged : Type 0 where
  pub bytes : List ℕ
  pub modified : ℕ

pub record Layout : Type 0 where
  pub paths : List (ℕ × ℕ)
  pub read_fallback_instances : List (ℕ × ℕ)
  pub operational_instance : ℕ
  pub issuer_instances : List ℕ
  pub private_key_path : ℕ
  pub pending_private_key_path : ℕ
  pub csr_instance : ℕ

-- A file's octets, the time of its last change, and whether it can be opened for reading.
pub record DiskFile : Type 0 where
  pub content : List ℕ
  pub mtime : ℕ
  pub readable : Bool

pub record CertStore : Type 0 where
  pub layout : Layout
  pub staged : List (ℕ × Staged)
  pub commit_promotes_pending_key : Bool
  pub files : ℕ → Option DiskFile
  pub temps : ℕ → Option (List ℕ)

-- `ReadDisk`: none for a file that is not there or cannot be opened.
unfoldable pub read_disk : CertStore → ℕ → Option (List ℕ)
read_disk s path = elim (s.files path) [
  | none ↦ none
  | some f ↦ if f.readable then some f.content else none
]

-- 0 is the empty path.
unfoldable pub own_path : CertStore → ℕ → ℕ
own_path s file = elim (lookup file s.layout.paths) [ none ↦ 0 | some path ↦ path ]

-- The File object that this one serves instead, or 0.
unfoldable pub fallback_instance : CertStore → ℕ → ℕ
unfolding own_path lookup
fallback_instance s file = elim (lookup file s.staged) [
  | some copy ↦ 0
  | none ↦ elim (s.files (own_path s file)) [
    | some f ↦ 0
    | none ↦
        if own_path s file == 0
        then 0
        else elim (lookup file s.layout.read_fallback_instances) [ none ↦ 0 | some other ↦ other ]
  ]
]

read_own : CertStore → ℕ → Option (List ℕ)
unfolding own_path read_disk
read_own s file = if own_path s file == 0 then none else read_disk s (own_path s file)

-- `Read`; the fuel bounds the chain of fallbacks.
unfoldable pub read_chain : ℕ → CertStore → ℕ → Option (List ℕ)
unfolding fallback_instance read_own
read_chain zero s file = none
read_chain (suc fuel) s file = elim (lookup file s.staged) [
  | some copy ↦ some copy.bytes
  | none ↦ elim (fallback_instance s file) [
    | zero ↦ read_own s file
    | suc other ↦ read_chain fuel s (suc other)
  ]
]

-- Every entry of `read_fallback_instances` names a lower instance, so the instance is enough fuel.
unfoldable pub read : CertStore → ℕ → Option (List ℕ)
unfolding read_chain
read s file = read_chain (suc file) s file

stat_own : CertStore → ℕ → Option (ℕ × ℕ)
unfolding own_path
stat_own s file = if own_path s file == 0 then none else elim (s.files (own_path s file)) [
  | none ↦ none
  | some f ↦ some (length f.content, f.mtime)
]

unfoldable pub stat_chain : ℕ → CertStore → ℕ → Option (ℕ × ℕ)
unfolding fallback_instance stat_own
stat_chain zero s file = none
stat_chain (suc fuel) s file = elim (lookup file s.staged) [
  | some copy ↦ some (length copy.bytes, copy.modified)
  | none ↦ elim (fallback_instance s file) [
    | zero ↦ stat_own s file
    | suc other ↦ stat_chain fuel s (suc other)
  ]
]

-- `Stat`: size and modification time.
unfoldable pub stat : CertStore → ℕ → Option (ℕ × ℕ)
unfolding stat_chain
stat s file = stat_chain (suc file) s file

abbrev pub or_empty : Option (List ℕ) → List ℕ
or_empty none = []
or_empty (some bytes) = bytes

unfoldable pub put_staged : CertStore → ℕ → Staged → CertStore
unfolding insert
put_staged s file copy = record s { staged = insert file copy s.staged }

-- `Stage`: the staged copy, made from the current contents if there is none yet.
unfoldable pub stage : Host → CertStore → ℕ → Option (CertStore × Staged)
unfolding put_staged read lookup
stage host s file = elim (lookup file s.staged) [
  | some copy ↦ some (s, copy)
  | none ↦ elim (lookup file s.layout.paths) [
    | none ↦ none
    | some path ↦
        let copy : Staged = record { bytes = or_empty (read s file); modified = host.now } in
        some (put_staged s file copy, copy)
  ]
]

-- The acknowledged start, or an error code.
pub data Written : Type 0 where
  wrote : ℕ → Written
  write_refused : ℕ → Written

unfoldable pub write_staged : Host → CertStore → ℕ → Staged → ℕ → List ℕ → CertStore × Written
unfolding put_staged
write_staged host s file copy start octets =
    if ltb (length copy.bytes) start
    then (s, write_refused error_invalid_file_start_position)
    else if ltb max_file_bytes (start + length octets)
    then (s, write_refused error_file_full)
    else (
      put_staged s file (record { bytes = overwrite copy.bytes start octets; modified = host.now }),
      wrote start,
    )

abbrev pub start_of : ℤ → Staged → Option ℕ
start_of (pos n) copy = some n
start_of (negsuc zero) copy = some (length copy.bytes)
start_of (negsuc (suc n)) copy = none

unfoldable pub write : Host → CertStore → ℕ → ℤ → List ℕ → CertStore × Written
unfolding write_staged stage
write host s file file_start octets = elim (stage host s file) [
  | none ↦ (s, write_refused error_invalid_file_start_position)
  | some (s', copy) ↦ elim (start_of file_start copy) [
    | none ↦ (s', write_refused error_invalid_file_start_position)
    | some start ↦ write_staged host s' file copy start octets
  ]
]

-- An error code is named for a size past the limit only.
pub data Resized : Type 0 where
  resized : Resized
  resize_refused : Option ℕ → Resized

unfoldable pub resize_file : Host → CertStore → ℕ → ℕ → CertStore × Resized
unfolding stage put_staged
resize_file host s file new_size =
    if ltb max_file_bytes new_size
    then (s, resize_refused (some error_value_out_of_range))
    else elim (stage host s file) [
      | none ↦ (s, resize_refused none)
      | some (s', copy) ↦ (
        put_staged s' file (record { bytes = resize copy.bytes new_size 0; modified = host.now }),
        resized,
      )
    ]

unfoldable pub has_staged_changes : CertStore → Bool
has_staged_changes s = elim s.staged [ [] ↦ false | x ∷ xs ↦ true ]

unfoldable pub discard_staged : CertStore → CertStore
discard_staged s = record s { staged = []; commit_promotes_pending_key = false }

-- `SetLayout`.
unfoldable pub set_layout : CertStore → Layout → CertStore
set_layout s layout = record s { layout = layout; staged = [] }
