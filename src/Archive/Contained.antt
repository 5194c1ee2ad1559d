-- ===== src/Archive/Contained.antt =====
-- sc/cari.cpp: what reading any zip at all can lead to, step by step.
use bacnet_profile_example_b.Base.{
  ℕ, zero, suc, ◌+◌, ◌-◌, ◌≤◌, Bool, true, false, List, Option, none, some, length, ltb,
  if◌then◌else◌, arith, by_test, ◌==◌, not,
}
use bacnet_profile_example_b.Archive.Zip.{
  done, Zlib, Status, Progress, unpacked, inflated, is_inflated, read_file_entry, read_entry,
  read_entries, find_end, end_of_central_dir_sig, read_safe_entry, read_directory, read_zip,
}
use bacnet_profile_example_b.Archive.Always.{
  Always, bind-Always, refuse-Always, get16-Always, get32-Always, not_over,
}
use bacnet_profile_example_b.Archive.Path.{
  IsContained, AllContained, accepted, safe_path-IsContained, add_file-AllContained,
  add_folder-AllContained,
}

-- The search ends before the end of the zip.
search_range :
    (n : ℕ)
    → 22 ≤ n
    → (if ltb 65557 n then n - 65557 else 0)
        + (n - 21 - (if ltb 65557 n then n - 65557 else 0))
        + 21
      ≤ n
search_range n h = ground (arith, h)

module _ (zlib : Zlib) (zip : List ℕ) where
  abbrev Kept : Progress → Type 0
  Kept p = AllContained p.tree

  inflated-Always :
      (o : Option (Status × ℕ × List ℕ)) (expected : ℕ)
      → Always (λ octets. Unit {0}) (inflated o expected)
  inflated-Always none expected = tt
  inflated-Always (some (status, total, out)) expected =
      by_test (Always (λ octets. Unit {0})) (is_inflated status total expected) _ _ (λ e. tt)
        λ e. tt

  unpacked-Always :
      (method : ℕ) (compressed : List ℕ) (csize usize : ℕ)
      → Always (λ octets. Unit {0}) (unpacked zlib method compressed csize usize)
  unpacked-Always method compressed csize usize =
      by_test (Always (λ octets. Unit {0})) (method == 0) _ _
        (λ stored. refuse-Always _ (not (csize == usize)) _ _ λ e. tt)
        λ deflated. inflated-Always _ usize

  read_file_entry-Always :
      (name : List ℕ) (method crc csize usize header : ℕ) (p : Progress)
      → IsContained name
      → Kept p
      → Always Kept (read_file_entry zlib zip name method crc csize usize header p)
  unfolding read_file_entry
  read_file_entry-Always name method crc csize usize header p new h =
      refuse-Always Kept _ _ _ λ small. refuse-Always Kept _ _ _ λ over.
        let fits = not_over (length zip) (header + 30) over in
        get32-Always Kept zip header _ (omega (arith, fits)) λ signature.
          refuse-Always Kept _ _ _ λ signed.
            get16-Always Kept zip (header + 26) _ (omega (arith, fits)) λ name_length.
              get16-Always Kept zip (header + 28) _ (omega (arith, fits)) λ extra_length.
                refuse-Always Kept _ _ _ λ within.
                  bind-Always _ Kept _ _ (unpacked-Always method _ csize usize) λ octets u.
                    refuse-Always Kept _ _ _ λ checked.
                      refuse-Always Kept _ _ _
                        λ once. add_file-AllContained name octets p.tree new h

  read_safe_entry-Always :
      (is_folder : Bool) (name : List ℕ) (method crc csize usize header : ℕ) (p : Progress)
      → IsContained name
      → Kept p
      → Always Kept (read_safe_entry zlib zip is_folder name method crc csize usize header p)
  unfolding read_safe_entry
  read_safe_entry-Always true name method crc csize usize header p new h =
      add_folder-AllContained name p.tree h
  read_safe_entry-Always false name method crc csize usize header p new h =
      read_file_entry-Always name method crc csize usize header p new h

  read_entry-Always :
      (end : ℕ) (p : Progress)
      → end + 22 ≤ length zip
      → Kept p
      → Always Kept (read_entry zlib zip end p)
  unfolding read_entry
  read_entry-Always end p room h = refuse-Always Kept _ _ _ λ over.
      let fits = not_over end (p.offset + 46) over in
      get32-Always Kept zip p.offset _ (omega (arith, fits, room)) λ signature.
        refuse-Always Kept _ _ _ λ signed.
          get16-Always Kept zip (p.offset + 8) _ (omega (arith, fits, room)) λ flags.
            get16-Always Kept zip (p.offset + 10) _ (omega (arith, fits, room)) λ method.
              get32-Always Kept zip (p.offset + 16) _ (omega (arith, fits, room)) λ crc.
                get32-Always Kept zip (p.offset + 20) _ (omega (arith, fits, room)) λ csize.
                  get32-Always Kept zip (p.offset + 24) _ (omega (arith, fits, room)) λ usize.
                    get16-Always Kept zip (p.offset + 28) _ (omega (arith, fits, room)) λ names.
                      get16-Always Kept zip (p.offset + 30) _ (omega (arith, fits, room)) λ extra.
                        get16-Always Kept zip (p.offset + 32) _ (omega (arith, fits, room)) λ notes.
                          get32-Always Kept zip (p.offset + 42) _ (omega (arith, fits, room))
                            λ header. refuse-Always Kept _ _ _ λ named.
                              refuse-Always Kept _ _ _ λ plain. refuse-Always Kept _ _ _ λ short.
                                refuse-Always Kept _ _ _ λ known. refuse-Always Kept _ _ _ λ safe.
                                  read_safe_entry-Always _ _ method crc csize usize header _
                                    (safe_path-IsContained _ (accepted _ safe)) h

  read_entries-Always :
      (entries end : ℕ) (p : Progress)
      → end + 22 ≤ length zip
      → Kept p
      → Always Kept (read_entries entries zlib zip end p)
  unfolding read_entries
  read_entries-Always zero end p room h = h
  read_entries-Always (suc entries) end p room h =
      bind-Always Kept Kept (read_entry zlib zip end p) _ (read_entry-Always end p room h)
        λ next kept. read_entries-Always entries end next room kept

  read_directory-Always :
      (end : ℕ) → end + 22 ≤ length zip → Always Kept (read_directory zlib zip end)
  unfolding read_directory
  read_directory-Always end room =
      get16-Always Kept zip (end + 10) _ (omega (arith, room)) λ entries.
        get32-Always Kept zip (end + 12) _ (omega (arith, room)) λ size.
          get32-Always Kept zip (end + 16) _ (omega (arith, room)) λ start.
            get16-Always Kept zip (end + 4) _ (omega (arith, room)) λ disk.
              get16-Always Kept zip (end + 6) _ (omega (arith, room)) λ directory_disk.
                get16-Always Kept zip (end + 8) _ (omega (arith, room)) λ disk_entries.
                  refuse-Always Kept _ _ _ λ one_part. refuse-Always Kept _ _ _ λ few.
                    refuse-Always Kept _ _ _ λ within. read_entries-Always entries end _ room tt

  find_end-Always :
      (lowest n : ℕ)
      → lowest + n + 21 ≤ length zip
      → Always (λ end. end + 22 ≤ length zip) (find_end zip lowest n)
  unfolding find_end
  find_end-Always lowest zero room = tt
  find_end-Always lowest (suc n) room =
      let rest = find_end-Always lowest n (omega (arith, room)) in
      get32-Always (λ end. end + 22 ≤ length zip) zip (lowest + n) _ (omega (arith, room))
        λ signature.
          by_test (Always (λ end. end + 22 ≤ length zip)) (signature == end_of_central_dir_sig)
            (done (lowest + n)) _ (λ found. omega (arith, room)) λ other. rest

  -- Reading any zip ends with no octet read past its end; when it succeeds, each file of the tree has
  -- a relative path whose parts are neither empty nor "." nor "..", whatever zlib makes of the data.
  pub read_zip-AllContained : Always AllContained (read_zip zlib zip)
  unfolding read_zip
  read_zip-AllContained = refuse-Always AllContained _ _ _ λ short.
      refuse-Always AllContained _ _ _ λ small.
        let long = not_over (length zip) 22 small in
        get32-Always AllContained zip 0 _ (omega (arith, long)) λ signature.
          refuse-Always AllContained _ _ _ λ signed.
            bind-Always (λ end. end + 22 ≤ length zip) AllContained _ _
              (find_end-Always _ _ (search_range (length zip) long))
              λ end room.
                bind-Always Kept AllContained _ _ (read_directory-Always end room) λ p kept. kept
