-- ===== src/Cert/Store/Staging.antt =====
-- Writes to the certificate files are staged: they are read back at once, stay within 64 KiB, and
-- touch no file on disk.
use bacnet_profile_example_b.Base.{
  ℕ, ◌+◌, ◌≤◌, ◌≡◌, refl, ◌∙◌, subst, true, List, Option, none, some, length, overwrite, ltb, ◌==◌,
  ◌⊎◌, sym, [], take, drop, take-drop-overwrite, arith, Bool-cases, inl, inr,
}
use bacnet_profile_example_b.Base.Int.{ℤ}
use bacnet_profile_example_b.Base.Assoc.{lookup, insert, lookup-insert}
use bacnet_profile_example_b.Cert.Host.{Host}
use bacnet_profile_example_b.Cert.Store.{
  error_invalid_file_start_position, CertStore, Staged, Written, wrote, write_refused, stage, write,
  write_staged, put_staged, start_of, read, read_chain, or_empty, max_file_bytes,
}

-- The files and temporary files are those of before.
abbrev pub SameDisk : CertStore → CertStore → Type 0
SameDisk s s' = (s'.files ≡ s.files) × (s'.temps ≡ s.temps)

trans-SameDisk : (a b c : CertStore) → SameDisk a b → SameDisk b c → SameDisk a c
trans-SameDisk a b c (e, f) (e', f') = (e' ∙ e, f' ∙ f)

put_staged-SameDisk :
    (s : CertStore) (file : ℕ) (copy : Staged) → SameDisk s (put_staged s file copy)
unfolding put_staged
put_staged-SameDisk s file copy = (refl, refl)

-- A staged copy is what `Read` gives.
read-staged :
    (s : CertStore) (file : ℕ) (copy : Staged)
    → lookup file s.staged ≡ some copy
    → read s file ≡ some copy.bytes
unfolding read read_chain
read-staged s file copy e = rw (read, read_chain, e) refl

read-put_staged :
    (s : CertStore) (file : ℕ) (copy : Staged)
    → read (put_staged s file copy) file ≡ some copy.bytes
unfolding put_staged
read-put_staged s file copy =
    let same : (file == file) ≡ true = ground arith in
    read-staged (record s { staged = insert file copy s.staged }) file copy
      (lookup-insert file file copy s.staged ∙ simp same refl)

-- What an acknowledged write leaves: the octets where they were acknowledged, within the limit.
abbrev Outcome : ℕ → List ℕ → CertStore × Written → Type 0
Outcome file octets (s', wrote start) =
    (bytes : List ℕ) × (read s' file ≡ some bytes)
    × (take (length octets) (drop start bytes) ≡ octets)
    × (start + length octets ≤ max_file_bytes)
Outcome file octets (s', write_refused code) = Unit {0}

write_staged-Outcome :
    (host : Host) (s : CertStore) (file : ℕ) (copy : Staged) (start : ℕ) (octets : List ℕ)
    → Outcome file octets (write_staged host s file copy start octets)
unfolding write_staged
write_staged-Outcome host s file copy start octets =
    elim (Bool-cases (ltb (length copy.bytes) start)) [
      | inl past ↦ simp past tt
      | inr inside ↦ elim (Bool-cases (ltb max_file_bytes (start + length octets))) [
        | inl full ↦ simp (inside, full) tt
        | inr fits ↦
            let bytes = overwrite copy.bytes start octets in
            let new : Staged = record { bytes = bytes; modified = host.now } in
            simp (inside, fits)
              (
                bytes,
                read-put_staged s file new,
                take-drop-overwrite copy.bytes start octets (ground (arith, inside)),
                ground (arith, fits),
              )
      ]
    ]

write-Outcome :
    (host : Host) (s : CertStore) (file : ℕ) (file_start : ℤ) (octets : List ℕ)
    → Outcome file octets (write host s file file_start octets)
unfolding write
write-Outcome host s file file_start octets = go (stage host s file)
  where
    at_start :
        (s' : CertStore) (copy : Staged) (start : Option ℕ)
        → Outcome file octets (elim start [
          | none ↦ (s', write_refused error_invalid_file_start_position)
          | some n ↦ write_staged host s' file copy n octets
        ])
    at_start s' copy none = tt
    at_start s' copy (some n) = write_staged-Outcome host s' file copy n octets

    go :
        (staged : Option (CertStore × Staged))
        → Outcome file octets (elim staged [
          | none ↦ (s, write_refused error_invalid_file_start_position)
          | some (s', copy) ↦ elim (start_of file_start copy) [
            | none ↦ (s', write_refused error_invalid_file_start_position)
            | some start ↦ write_staged host s' file copy start octets
          ]
        ])
    go none = tt
    go (some (s', copy)) = at_start s' copy (start_of file_start copy)

-- Octets that `Write` acknowledges at a start position are what `Read` then has there, and they end
-- within 64 KiB.
pub read-write :
    (host : Host) (s s' : CertStore) (file : ℕ) (file_start : ℤ) (octets : List ℕ) (start : ℕ)
    → write host s file file_start octets ≡ (s', wrote start)
    → (bytes : List ℕ) × (read s' file ≡ some bytes)
      × (take (length octets) (drop start bytes) ≡ octets)
      × (start + length octets ≤ max_file_bytes)
read-write host s s' file file_start octets start e =
    subst (Outcome file octets) e (write-Outcome host s file file_start octets)

-- What `Read` gives, and what it then gives: the same; or octets of length 0 in place of nothing,
-- since the copy that was staged of a file that cannot be read is empty.
abbrev pub SameRead : Option (List ℕ) → Option (List ℕ) → Type 0
SameRead (some bytes) after = after ≡ some bytes
SameRead none after = (after ≡ none) ⊎ (after ≡ some [])

SameRead-refl : (o : Option (List ℕ)) → SameRead o o
SameRead-refl none = inl refl
SameRead-refl (some bytes) = refl

SameRead-staged : (o : Option (List ℕ)) → SameRead o (some (or_empty o))
SameRead-staged none = inr refl
SameRead-staged (some bytes) = refl

-- The disk is as before, and so is what `Read` gives for `file`.
abbrev pub Kept : CertStore → ℕ → CertStore → Type 0
Kept s file s' = SameDisk s s' × SameRead (read s file) (read s' file)

abbrev KeptIfStaged : CertStore → ℕ → Option (CertStore × Staged) → Type 0
KeptIfStaged s file none = Unit {0}
KeptIfStaged s file (some (s', copy)) = Kept s file s'

stage-Kept : (host : Host) (s : CertStore) (file : ℕ) → KeptIfStaged s file (stage host s file)
unfolding stage
stage-Kept host s file = go (lookup file s.staged) (lookup file s.layout.paths)
  where
    go :
        (present : Option Staged) (path : Option ℕ)
        → KeptIfStaged s file (elim present [
          | some copy ↦ some (s, copy)
          | none ↦ elim path [
            | none ↦ none
            | some p ↦
                let copy : Staged = record {
                  bytes = or_empty (read s file);
                  modified = host.now;
                } in
                some (put_staged s file copy, copy)
          ]
        ])
    go (some copy) path = ((refl, refl), SameRead-refl (read s file))
    go none none = tt
    go none (some p) =
        let copy : Staged = record { bytes = or_empty (read s file); modified = host.now } in
        (
          put_staged-SameDisk s file copy,
          subst (SameRead (read s file)) (sym (read-put_staged s file copy))
              (SameRead-staged (read s file)),
        )

-- Nothing but the contents of an acknowledged write changes.
abbrev KeptUnlessWritten : CertStore → ℕ → CertStore × Written → Type 0
KeptUnlessWritten s file (s', wrote start) = SameDisk s s'
KeptUnlessWritten s file (s', write_refused code) = Kept s file s'

write_staged-KeptUnlessWritten :
    (host : Host) (s s' : CertStore) (file : ℕ) (copy : Staged) (start : ℕ) (octets : List ℕ)
    → Kept s file s'
    → KeptUnlessWritten s file (write_staged host s' file copy start octets)
unfolding write_staged
write_staged-KeptUnlessWritten host s s' file copy start octets kept =
    let new : Staged = record { bytes = overwrite copy.bytes start octets; modified = host.now } in
    let disk =
      trans-SameDisk s s' (put_staged s' file new) kept.0 (put_staged-SameDisk s' file new) in
    elim (Bool-cases (ltb (length copy.bytes) start)) [
      | inl past ↦ simp past kept
      | inr inside ↦ elim (Bool-cases (ltb max_file_bytes (start + length octets))) [
        | inl full ↦ simp (inside, full) kept
        | inr fits ↦ simp (inside, fits) disk
      ]
    ]

write-KeptUnlessWritten :
    (host : Host) (s : CertStore) (file : ℕ) (file_start : ℤ) (octets : List ℕ)
    → KeptUnlessWritten s file (write host s file file_start octets)
unfolding write
write-KeptUnlessWritten host s file file_start octets =
    go (stage host s file) (stage-Kept host s file)
  where
    at_start :
        (s' : CertStore) (copy : Staged) (start : Option ℕ)
        → Kept s file s'
        → KeptUnlessWritten s file (elim start [
          | none ↦ (s', write_refused error_invalid_file_start_position)
          | some n ↦ write_staged host s' file copy n octets
        ])
    at_start s' copy none kept = kept
    at_start s' copy (some n) kept =
        write_staged-KeptUnlessWritten host s s' file copy n octets kept

    go :
        (staged : Option (CertStore × Staged))
        → KeptIfStaged s file staged
        → KeptUnlessWritten s file (elim staged [
          | none ↦ (s, write_refused error_invalid_file_start_position)
          | some (s', copy) ↦ elim (start_of file_start copy) [
            | none ↦ (s', write_refused error_invalid_file_start_position)
            | some start ↦ write_staged host s' file copy start octets
          ]
        ])
    go none kept = ((refl, refl), SameRead-refl (read s file))
    go (some (s', copy)) kept = at_start s' copy (start_of file_start copy) kept

-- A `Write` that is refused leaves every file and temporary file on disk, and what `Read` gives for the
-- file: the octets it gave, or, where it gave none, none or no octets (an empty copy may be staged of a
-- file that is not there).
pub write-refused :
    (host : Host) (s s' : CertStore) (file : ℕ) (file_start : ℤ) (octets : List ℕ) (code : ℕ)
    → write host s file file_start octets ≡ (s', write_refused code)
    → SameRead (read s file) (read s' file) × (s'.files ≡ s.files) × (s'.temps ≡ s.temps)
write-refused host s s' file file_start octets code e =
    let kept : Kept s file s' =
      subst (KeptUnlessWritten s file) e (write-KeptUnlessWritten host s file file_start octets) in
    (kept.1, kept.0.0, kept.0.1)

-- A `Write` that is acknowledged is only staged: no file or temporary file on disk changes.
pub write-staged_only :
    (host : Host) (s s' : CertStore) (file : ℕ) (file_start : ℤ) (octets : List ℕ) (start : ℕ)
    → write host s file file_start octets ≡ (s', wrote start)
    → (s'.files ≡ s.files) × (s'.temps ≡ s.temps)
write-staged_only host s s' file file_start octets start e =
    subst (KeptUnlessWritten s file) e (write-KeptUnlessWritten host s file file_start octets)
