-- ===== src/Cert/Commit/Atomic.antt =====
-- `CommitStaged` writes every temporary file before it replaces anything: a failure there changes no
-- file, and success puts every staged copy in its place.
use bacnet_profile_example_b.Base.{
  ℕ, ◌≡◌, refl, ◌∙◌, subst, Bool, true, false, List, [], ◌∷◌, Option, none, some, if◌then◌else◌,
  ◌⊎◌, inl, inr, Bool-cases,
}
use mathlib.Core.List.{reverse}
use bacnet_profile_example_b.Base.Assoc.{lookup}
use bacnet_profile_example_b.Cert.Host.{Host}
use bacnet_profile_example_b.Cert.Store.{CertStore, Staged}
use bacnet_profile_example_b.Cert.Validate.{
  Refusal, Answer, no_such_file, temp_failed, replace_failed, promote_failed,
}
use bacnet_profile_example_b.Cert.Commit.{
  update, write_temp_file, remove_temps, replace_with_temp, write_all, replace_all,
  promote_pending_key, finish_commit, after_replacing, after_writing, commit_staged,
}

-- The files on disk and the staged copies are those of before.
abbrev pub Untouched : CertStore → CertStore → Type 0
Untouched s s' = (s'.files ≡ s.files) × (s'.staged ≡ s.staged)

remove_temps-Untouched : (s : CertStore) (paths : List ℕ) → Untouched s (remove_temps s paths)
unfolding remove_temps
remove_temps-Untouched s [] = (refl, refl)
remove_temps-Untouched s (path ∷ paths) =
    remove_temps-Untouched (record s { temps = update s.temps path none }) paths

write_temp_file-Untouched :
    (host : Host) (s : CertStore) (path : ℕ) (bytes : List ℕ)
    → Untouched s (write_temp_file host s path bytes).0
unfolding write_temp_file
write_temp_file-Untouched host s path bytes = elim (Bool-cases (host.writes_temp path)) [
  | inl yes' ↦ simp yes' (refl, refl)
  | inr no' ↦ simp no' (refl, refl)
]

trans-Untouched : (a b c : CertStore) → Untouched a b → Untouched b c → Untouched a c
trans-Untouched a b c (e, f) (e', f') = (e' ∙ e, f' ∙ f)

write_all-Untouched :
    (host : Host) (s : CertStore) (copies : List (ℕ × Staged)) (written : List ℕ)
    → Untouched s (write_all host s copies written).0
unfolding write_all
write_all-Untouched host s [] written = (refl, refl)
write_all-Untouched host s ((file, copy) ∷ rest) written =
    go (lookup file s.layout.paths) (λ s' w. write_all-Untouched host s' rest w)
  where
    go :
        (found : Option ℕ)
        → ((s' : CertStore) (w : List ℕ) → Untouched s' (write_all host s' rest w).0)
        → Untouched s
            (elim found as (λ x. CertStore × (List ℕ ⊎ Refusal)) [
              | none ↦ (remove_temps s written, inr (no_such_file file))
              | some path ↦
                  let (s', done) = write_temp_file host s path copy.bytes in
                  let more = write_all host s' rest (path ∷ written) in
                  if done then more else (remove_temps s' written, inr (temp_failed path))
            ]).0
    go none later = remove_temps-Untouched s written
    go (some path) later =
        let s' = (write_temp_file host s path copy.bytes).0 in
        let first = write_temp_file-Untouched host s path copy.bytes in
        let more = (write_all host s' rest (path ∷ written)).0 in
        elim (Bool-cases (write_temp_file host s path copy.bytes).1) [
          | inl done ↦ simp done (trans-Untouched s s' more first (later s' (path ∷ written)))
          | inr failed ↦ simp failed (
              trans-Untouched s s' (remove_temps s' written) first
                (remove_temps-Untouched s' written))
        ]

-- The answer of the second phase: nothing, or what only that phase names.
abbrev IsLate : Answer → Type 0
IsLate none = Unit {0}
IsLate (some (replace_failed path)) = Unit {0}
IsLate (some (promote_failed path)) = Unit {0}
IsLate (some _) = ⊥

if-IsLate :
    (test : Bool) (a b : CertStore × Answer)
    → IsLate a.1
    → IsLate b.1
    → IsLate (if test then a else b).1
if-IsLate true a b ha hb = ha
if-IsLate false a b ha hb = hb

replace_all-IsLate :
    (host : Host) (s : CertStore) (paths : List ℕ) → IsLate (replace_all host s paths).1
unfolding replace_all
replace_all-IsLate host s [] = tt
replace_all-IsLate host s (path ∷ paths) =
    let s' = (replace_with_temp host s path).0 in
    if-IsLate (replace_with_temp host s path).1 (replace_all host s' paths)
      (s', some (replace_failed path)) (replace_all-IsLate host s' paths) tt

finish_commit-IsLate : (host : Host) (s : CertStore) → IsLate (finish_commit host s).1
unfolding finish_commit
finish_commit-IsLate host s =
    let s' = (promote_pending_key host s).0 in
    if-IsLate s.commit_promotes_pending_key _ (s, none)
      (if-IsLate (promote_pending_key host s).1
        (record s' { commit_promotes_pending_key = false }, none)
        (s', some (promote_failed s.layout.private_key_path)) tt tt)
      tt

after_replacing-IsLate :
    (host : Host) (replaced : CertStore × Answer)
    → IsLate replaced.1
    → IsLate (after_replacing host replaced).1
unfolding after_replacing
after_replacing-IsLate host (s, some why) late = late
after_replacing-IsLate host (s, none) late = finish_commit-IsLate host (record s { staged = [] })

not_late :
    (why : Refusal) (path : ℕ)
    → (why ≡ no_such_file path) ⊎ (why ≡ temp_failed path)
    → IsLate (some why)
    → ⊥
not_late why path (inl e) late = subst (λ w. IsLate (some w)) e late
not_late why path (inr e) late = subst (λ w. IsLate (some w)) e late

-- Refused in the second phase, or not at all; or nothing was touched.
abbrev EarlyIsUntouched : CertStore → CertStore × Answer → Type 0
EarlyIsUntouched s (s', a) = IsLate a ⊎ Untouched s s'

after_writing-EarlyIsUntouched :
    (host : Host) (s : CertStore) (written : CertStore × (List ℕ ⊎ Refusal))
    → Untouched s written.0
    → EarlyIsUntouched s (after_writing host written)
unfolding after_writing
after_writing-EarlyIsUntouched host s (s', inr why) kept = inr kept
after_writing-EarlyIsUntouched host s (s', inl paths) kept = inl (
    after_replacing-IsLate host (replace_all host s' (reverse paths))
      (replace_all-IsLate host s' (reverse paths)))

-- When `CommitStaged` refuses because a File object has no path or a temporary file cannot be
-- written, whichever of the files it is, every file on disk and every staged copy is as before.
pub commit_staged-early :
    (host : Host) (s s' : CertStore) (path : ℕ) (why : Refusal)
    → (why ≡ no_such_file path) ⊎ (why ≡ temp_failed path)
    → commit_staged host s ≡ (s', some why)
    → (s'.files ≡ s.files) × (s'.staged ≡ s.staged)
unfolding commit_staged
commit_staged-early host s s' path why early e =
    let result : EarlyIsUntouched s (s', some why) = subst (EarlyIsUntouched s) e (
      after_writing-EarlyIsUntouched host s (write_all host s s.staged [])
        (write_all-Untouched host s s.staged [])) in
    elim result [ inr kept ↦ kept | inl late ↦ absurd (not_late why path early late) ]
