-- ===== src/Cert/Commit.antt =====
-- sc/cert_store.cpp: `CommitStaged`, temp files first and renames after, and the pending key.
pub mod Atomic
use bacnet_profile_example_b.Base.{
  ℕ, Bool, true, false, List, [], ◌∷◌, none, some, if◌then◌else◌, ◌==◌, ◌⊎◌, inl, inr,
}
use mathlib.Core.List.{reverse}
use bacnet_profile_example_b.Base.Assoc.{lookup}
use bacnet_profile_example_b.Cert.Host.{Host}
use bacnet_profile_example_b.Cert.Store.{CertStore, Staged}
use bacnet_profile_example_b.Cert.Validate.{
  Refusal, Answer, no_such_file, temp_failed, replace_failed, promote_failed,
}

abbrev pub update {ℓ} : {A : Type ℓ} → (ℕ → A) → ℕ → A → ℕ → A
update f k a i = if i == k then a else f i

-- `WriteTempFile`: a failure leaves no "<path>.tmp".
unfoldable pub write_temp_file : Host → CertStore → ℕ → List ℕ → CertStore × Bool
write_temp_file host s path bytes =
    if host.writes_temp path
    then (record s { temps = update s.temps path (some bytes) }, true)
    else (record s { temps = update s.temps path none }, false)

-- std::remove of "<path>.tmp" for each path.
unfoldable pub remove_temps : CertStore → List ℕ → CertStore
remove_temps s [] = s
remove_temps s (path ∷ paths) = remove_temps (record s { temps = update s.temps path none }) paths

-- `ReplaceWithTemp`: the rename of "<path>.tmp" over `path`.
unfoldable pub replace_with_temp : Host → CertStore → ℕ → CertStore × Bool
replace_with_temp host s path = elim (s.temps path) [
  | none ↦ (s, false)
  | some bytes ↦
      if host.replaces path
      then (
        record s {
          files =
              update s.files path
                (some (record { content = bytes; mtime = host.now; readable = true }));
          temps = update s.temps path none;
        },
        true,
      )
      else (s, false)
]

-- The first loop of `CommitStaged`; `written` is the paths written so far, the last one first.
unfoldable pub write_all :
    Host → CertStore → List (ℕ × Staged) → List ℕ → CertStore × (List ℕ ⊎ Refusal)
unfolding write_temp_file remove_temps
write_all host s [] written = (s, inl written)
write_all host s ((file, copy) ∷ rest) written = elim (lookup file s.layout.paths) [
  | none ↦ (remove_temps s written, inr (no_such_file file))
  | some path ↦
      let (s', done) = write_temp_file host s path copy.bytes in
      let more = write_all host s' rest (path ∷ written) in
      if done then more else (remove_temps s' written, inr (temp_failed path))
]

-- The second loop: each path is replaced in turn.
unfoldable pub replace_all : Host → CertStore → List ℕ → CertStore × Answer
unfolding replace_with_temp
replace_all host s [] = (s, none)
replace_all host s (path ∷ paths) =
    let (s', done) = replace_with_temp host s path in
    let more = replace_all host s' paths in if done then more else (s', some (replace_failed path))

-- `PromotePendingKey`: the rename of the pending key over the device's key.
unfoldable pub promote_pending_key : Host → CertStore → CertStore × Bool
promote_pending_key host s = elim (s.files s.layout.pending_private_key_path) [
  | none ↦ (s, false)
  | some key ↦
      if host.replaces s.layout.private_key_path
      then (
        record s {
          files =
              update (update s.files s.layout.pending_private_key_path none)
                s.layout.private_key_path (some key);
        },
        true,
      )
      else (s, false)
]

unfoldable pub finish_commit : Host → CertStore → CertStore × Answer
unfolding promote_pending_key
finish_commit host s =
    let (s', done) = promote_pending_key host s in
    if s.commit_promotes_pending_key
    then if done
      then (record s' { commit_promotes_pending_key = false }, none)
      else (s', some (promote_failed s.layout.private_key_path))
    else (s, none)

unfoldable pub after_replacing : Host → CertStore × Answer → CertStore × Answer
unfolding finish_commit
after_replacing host (s, some why) = (s, some why)
after_replacing host (s, none) = finish_commit host (record s { staged = [] })

unfoldable pub after_writing : Host → CertStore × (List ℕ ⊎ Refusal) → CertStore × Answer
unfolding replace_all after_replacing
after_writing host (s, inr why) = (s, some why)
after_writing host (s, inl written) = after_replacing host (replace_all host s (reverse written))

-- `CommitStaged`.
unfoldable pub commit_staged : Host → CertStore → CertStore × Answer
unfolding write_all after_writing
commit_staged host s = after_writing host (write_all host s s.staged [])
