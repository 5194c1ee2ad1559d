-- ===== src/Transport/Safe.antt =====
-- The frames that are copied to a peer on another port.
use bacnet_profile_example_b.Base.{
  ℕ, ◌+◌, ◌≡◌, refl, sym, ap, ◌∙◌, subst, Bool, true, false, ◌&&◌, ◌||◌, List, Option, some,
  if◌then◌else◌, length, get_elem?, get_elem?-of_lt, ltb, leb, ◌==◌, arith, by_test, inl, inr, ◌⊎◌,
}
use bacnet_profile_example_b.Transport.{
  Scan, refused, past_end, at_index, after_length, skip_specifier, is_i_am_or_i_have, chosen_at,
  scan_npdu, is_original_npdu, guarded, is_version_1, is_stack_chosen_broadcast, has_bit,
}

abbrev Answers : Option Bool → Type 0
Answers o = (b : Bool) × (o ≡ some b)

-- The scan has read no octet past the end.
abbrev IsWithin : Scan → Type 0
IsWithin refused = Unit {0}
IsWithin past_end = ⊥
IsWithin (at_index n) = Unit {0}

skip_specifier-IsWithin :
    (message : List ℕ) (present : Bool) (scan : Scan)
    → IsWithin scan
    → IsWithin (skip_specifier message present scan)
unfolding skip_specifier
skip_specifier-IsWithin message present refused h = tt
skip_specifier-IsWithin message present past_end h = h
skip_specifier-IsWithin message false (at_index i) h = tt
skip_specifier-IsWithin message true (at_index i) h =
    by_test IsWithin (ltb (length message) (i + 3)) refused _ (λ e. tt)
      λ e.
        let (n, found) = get_elem?-of_lt message (i + 2) (ground (arith, e)) in
        subst (λ o. IsWithin (after_length i o)) (sym found) tt

chosen_at-Answers :
    (message : List ℕ) (control : ℕ) (scan : Scan)
    → IsWithin scan
    → Answers (chosen_at message control scan)
unfolding chosen_at
chosen_at-Answers message control refused h = (false, refl)
chosen_at-Answers message control past_end h = elim h [ ]
chosen_at-Answers message control (at_index n) h = go (if has_bit control 5 then n + 1 else n)
  where
    go :
        (i : ℕ)
        → Answers (
            if has_bit control 7
            then some true
            else if leb (i + 2) (length message)
            then is_i_am_or_i_have (get_elem? message i) (get_elem? message (i + 1))
            else some false)
    go i =
        by_test Answers (has_bit control 7) (some true) _ (λ e. (true, refl))
          λ e.
            by_test Answers (leb (i + 2) (length message)) _ (some false)
              (λ f.
                let (pdu, first) = get_elem?-of_lt message i (ground (arith, f)) in
                let (service, second) = get_elem?-of_lt message (i + 1) (ground (arith, f)) in
                (
                  _,
                  ap (λ o. is_i_am_or_i_have o (get_elem? message (i + 1))) first
                      ∙ ap (is_i_am_or_i_have (some pdu)) second,
                ))
              λ f. (false, refl)

-- A BVLC of type 0x81 with function 0x0A or 0x0B, and an NPDU of version 1.
abbrev pub IsOriginalNpdu : List ℕ → Type 0
IsOriginalNpdu message =
    (get_elem? message 0 ≡ some 129)
    × ((get_elem? message 1 ≡ some 10) ⊎ (get_elem? message 1 ≡ some 11))
    × (get_elem? message 4 ≡ some 1)

-- An answer of yes is about such a frame.
abbrev pub IsAbout : List ℕ → Bool → Type 0
IsAbout message true = IsOriginalNpdu message
IsAbout message false = Unit {0}

about : (message : List ℕ) (b : Bool) → IsOriginalNpdu message → IsAbout message b
about message true h = h
about message false h = tt

original_octets :
    (type function : ℕ)
    → (type == 129 && (function == 10 || function == 11)) ≡ true
    → (type ≡ 129) × ((function ≡ 10) ⊎ (function ≡ 11))
original_octets type function e = ground (arith, e)

same_version : (version : ℕ) → (version == 1) ≡ true → version ≡ 1
same_version version e = ground (arith, e)

scan_npdu-Answers : (message : List ℕ) (control : ℕ) → Answers (scan_npdu message (some control))
unfolding scan_npdu
scan_npdu-Answers message control = chosen_at-Answers message control _ (
    skip_specifier-IsWithin message (has_bit control 3) _
      (skip_specifier-IsWithin message (has_bit control 5) (at_index 6) tt))

-- `IsStackChosenBroadcast` reads no octet past the message and answers on every message; it answers
-- yes only for a BVLC of type 0x81 with function 0x0A or 0x0B, and an NPDU of version 1.
pub is_stack_chosen_broadcast-IsAbout :
    (message : List ℕ)
    → (b : Bool) × (is_stack_chosen_broadcast message ≡ some b) × IsAbout message b
unfolding is_stack_chosen_broadcast
is_stack_chosen_broadcast-IsAbout message =
    by_test (λ o. (b : Bool) × (o ≡ some b) × IsAbout message b) (ltb (length message) 6)
      (some false) _ (λ e. (false, refl, tt))
      λ e.
        let (type, at_0) = get_elem?-of_lt message 0 (ground (arith, e)) in
        let (function, at_1) = get_elem?-of_lt message 1 (ground (arith, e)) in
        let (version, at_4) = get_elem?-of_lt message 4 (ground (arith, e)) in
        let (control, at_5) = get_elem?-of_lt message 5 (ground (arith, e)) in
        let (chosen, scanned) = scan_npdu-Answers message control in
        let (b, same, said) =
          go type function version chosen at_0 at_1 at_4
            (type == 129 && (function == 10 || function == 11)) refl (version == 1) refl in
        (
          b,
          ap
                (λ o. guarded (is_original_npdu o (get_elem? message 1)) (
                  guarded (is_version_1 (get_elem? message 4))
                    (scan_npdu message (get_elem? message 5))))
                at_0
              ∙ ap
                  (λ o. guarded (is_original_npdu (some type) o) (
                    guarded (is_version_1 (get_elem? message 4))
                      (scan_npdu message (get_elem? message 5))))
                  at_1
              ∙ ap
                  (λ o.
                    guarded (is_original_npdu (some type) (some function))
                      (guarded (is_version_1 o) (scan_npdu message (get_elem? message 5))))
                  at_4
              ∙ ap
                  (λ o.
                    guarded (is_original_npdu (some type) (some function))
                      (guarded (is_version_1 (some version)) (scan_npdu message o)))
                  at_5
              ∙ ap
                  (λ o.
                    guarded (is_original_npdu (some type) (some function))
                      (guarded (is_version_1 (some version)) o))
                  scanned
              ∙ same,
          said,
        )
  where
    go :
        (type function version : ℕ) (chosen : Bool)
        → get_elem? message 0 ≡ some type
        → get_elem? message 1 ≡ some function
        → get_elem? message 4 ≡ some version
        → (original : Bool) → (type == 129 && (function == 10 || function == 11)) ≡ original
        → (version_1 : Bool) → (version == 1) ≡ version_1
        → (b : Bool) × (guarded (some original) (guarded (some version_1) (some chosen)) ≡ some b)
          × IsAbout message b
    go type function version chosen at_0 at_1 at_4 false e version_1 f = (false, refl, tt)
    go type function version chosen at_0 at_1 at_4 true e false f = (false, refl, tt)
    go type function version chosen at_0 at_1 at_4 true e true f =
        let (same_type, same_function) = original_octets type function e in
        (
          chosen,
          refl,
          about message chosen (
            at_0 ∙ ap some same_type,
            elim same_function [
              | inl ten ↦ inl (at_1 ∙ ap some ten)
              | inr eleven ↦ inr (at_1 ∙ ap some eleven)
            ],
            at_4 ∙ ap some (same_version version f),
          ),
        )
