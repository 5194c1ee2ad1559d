-- ===== src/CommandLine/Given.antt =====
-- Which options a command line gives, and that the loop records each.
use bacnet_profile_example_b.Base.{
  ℕ, suc, ◌+◌, ◌<◌, ◌≡◌, refl, subst, ap, sym, ◌∙◌, Bool, true, false, not, ◌&&◌, List, [], ◌∷◌,
  Option, none, some, if◌then◌else◌, inl, inr, arith, Bool-cases, by_test, length, length-set, set,
  get_or, zero,
}
use bacnet_profile_example_b.Base.Text.{codes, same_text, same_text_sound}
use bacnet_profile_example_b.Options.{DataLink, same_link}
use bacnet_profile_example_b.CommandLine.{
  Platform, DataLinkOption, data_link_options, known_index, Reason, Parsed, Step, parse_data_link,
  set_baud_rate, failed, parsed,
}
use bacnet_profile_example_b.CommandLine.Parse.{
  set_data_link_option, set_known, apply_option, checked_option, and_then, parse_loop, misplaced,
}
use bacnet_profile_example_b.CommandLine.Leaves.{
  Leaves, number_or_fail-Leaves, hub_uri_or_fail-Leaves, set_baud_rate-Leaves, set_data_link-Leaves,
  checked_option-Leaves, and_then-Leaves,
}

-- The options among the arguments: `--xml` stands alone, any other takes the argument after it.
abbrev pub given_options : List (List ℕ) → List (List ℕ)
given_options [] = []
given_options (option ∷ []) = if same_text option (codes "--xml") then [] else option ∷ []
given_options (option ∷ value ∷ arguments) =
    let skipped = given_options (value ∷ arguments) in
    let rest = given_options arguments in
    if same_text option (codes "--xml") then skipped else option ∷ rest

-- The data link that an option of the table belongs to.
abbrev pub link_of : List DataLinkOption → List ℕ → Option DataLink
link_of [] option = none
link_of (o ∷ os) option =
    let rest = link_of os option in if same_text o.name option then some o.data_link else rest

-- If the option stands in the table, it has been recorded.
abbrev pub IsRecorded : List DataLinkOption → ℕ → List ℕ → List Bool → Type 0
IsRecorded os i option given =
    (k : ℕ) → known_index os i option ≡ some k → get_or given k false ≡ true

abbrev pub AllRecorded : List (List ℕ) → List Bool → Type 0
AllRecorded [] given = Unit {0}
AllRecorded (option ∷ options) given =
    IsRecorded data_link_options 0 option given × AllRecorded options given

-- What was recorded stays recorded.
abbrev pub Grows : List Bool → List Bool → Type 0
Grows given after = (j : ℕ) → get_or given j false ≡ true → get_or after j false ≡ true

AllRecorded-Grows :
    (options : List (List ℕ)) (given after : List Bool)
    → Grows given after
    → AllRecorded options given
    → AllRecorded options after
AllRecorded-Grows [] given after grows h = tt
AllRecorded-Grows (option ∷ options) given after grows (first, rest) =
    (λ k e. grows k (first k e), AllRecorded-Grows options given after grows rest)

Grows-set : (given : List Bool) (i : ℕ) → Grows given (set given i true)
Grows-set [] i j e = e
Grows-set (b ∷ bs) zero zero e = refl
Grows-set (b ∷ bs) zero (suc j) e = e
Grows-set (b ∷ bs) (suc i) zero e = e
Grows-set (b ∷ bs) (suc i) (suc j) e = Grows-set bs i j e

recorded_flag :
    (given : List Bool) (i : ℕ) → i < length given → get_or (set given i true) i false ≡ true
recorded_flag [] i h = elim h [ ]
recorded_flag (b ∷ bs) zero h = refl
recorded_flag (b ∷ bs) (suc i) h = recorded_flag bs i (omega (arith, h))

known_index-bound :
    (os : List DataLinkOption) (i k : ℕ) (option : List ℕ)
    → known_index os i option ≡ some k
    → k < i + length os
unfolding known_index
known_index-bound [] i k option e = absurd (ground (arith, e))
known_index-bound (o ∷ os) i k option e = elim (Bool-cases (same_text o.name option)) [
  | inl same ↦ ground (arith, simp same at e)
  | inr other ↦ omega (arith, known_index-bound os (suc i) k option (simp other at e))
]

-- The value of an option does not change what is recorded.
set_data_link_option-given :
    (pf : Platform) (option value : List ℕ) (p : Parsed)
    → Leaves (λ q. q.given ≡ p.given) (set_data_link_option pf option value p)
unfolding set_data_link_option
set_data_link_option-given pf option value p =
    let Q : Parsed → Type 0 = λ q. q.given ≡ p.given in
    let P = Leaves Q in
    by_test P (same_text option (codes "--interface")) _ _
      (λ e. number_or_fail-Leaves Q pf value 1 4294967295 _ λ n low high. refl)
      λ e.
        by_test P (same_text option (codes "--mstp-port")) _ _ (λ e. refl)
          λ e.
            by_test P (same_text option (codes "--mstp-baud")) _ _
              (λ e.
                number_or_fail-Leaves Q pf value 1 4294967295 (set_baud_rate pf value p)
                  λ n low high. set_baud_rate-Leaves Q pf value p n λ rate. refl)
              λ e.
                by_test P (same_text option (codes "--mstp-mac")) _ _
                  (λ e. number_or_fail-Leaves Q pf value 0 127 _ λ n low high. refl)
                  λ e.
                    by_test P (same_text option (codes "--mstp-max-master")) _ _
                      (λ e. number_or_fail-Leaves Q pf value 1 127 _ λ n low high. refl)
                      λ e.
                        by_test P (same_text option (codes "--mstp-max-info-frames")) _ _
                          (λ e. number_or_fail-Leaves Q pf value 1 255 _ λ n low high. refl)
                          λ e.
                            by_test P (same_text option (codes "--sc-hub")) _ _
                              (λ e. hub_uri_or_fail-Leaves Q option value _ λ uri. refl)
                              λ e.
                                by_test P (same_text option (codes "--sc-failover-hub")) _ _
                                  (λ e. hub_uri_or_fail-Leaves Q option value _ λ uri. refl)
                                  λ e.
                                    by_test P (same_text option (codes "--sc-cert-dir")) _ _
                                      (λ e. refl)
                                      λ e.
                                        by_test P (same_text option (codes "--import-cari")) _ _
                                          (λ e. refl) λ e. refl

-- After a round for an option: ten flags, none lost, and the option's own set.
record Round (option : List ℕ) (given after : List Bool) : Type 0 where
  ten : length after ≡ 10
  grows : Grows given after
  recorded : IsRecorded data_link_options 0 option after

Leaves-weaken :
    (P Q : Parsed → Type 0) (s : Step) → Leaves P s → ((q : Parsed) → P q → Q q) → Leaves Q s
Leaves-weaken P Q (failed why) h k = tt
Leaves-weaken P Q (parsed q) h k = k q h

set_known-Round :
    (pf : Platform) (option value : List ℕ) (p : Parsed) (found : Option ℕ)
    → known_index data_link_options 0 option ≡ found
    → length p.given ≡ 10
    → Leaves (λ q. Round option p.given q.given) (set_known pf option value p found)
unfolding set_known
set_known-Round pf option value p none found ten = tt
set_known-Round pf option value p (some i) found ten =
    Leaves-weaken _ (λ q. Round option p.given q.given) _
      (set_data_link_option-given pf option value (record p { given = set p.given i true }))
      λ q same.
        let bound = known_index-bound data_link_options 0 i option found in
        subst (Round option p.given) (sym same) record {
          ten = length-set p.given i true ∙ ten;
          grows = Grows-set p.given i;
          recorded = λ k e.
              let same_index : i ≡ k = ap (λ o. elim o [ none ↦ i | some n ↦ n ]) (sym found ∙ e) in
              subst (λ n. get_or (set p.given i true) n false ≡ true) same_index
                (recorded_flag p.given i (omega (arith, bound, ten)));
        }

-- An option that is not in the table.
general-Round :
    (option name : List ℕ) (given : List Bool)
    → same_text option name ≡ true
    → known_index data_link_options 0 name ≡ none
    → length given ≡ 10
    → Round option given given
general-Round option name given same absent ten = record {
  ten = ten;
  grows = λ j e. e;
  recorded = λ k e. absurd (
      ground (
        arith,
        sym absent
            ∙ ap (known_index data_link_options 0) (sym (same_text_sound option name same))
            ∙ e,
      ));
}

apply_option-Round :
    (pf : Platform) (option value : List ℕ) (p : Parsed)
    → length p.given ≡ 10
    → Leaves (λ q. Round option p.given q.given) (apply_option pf option value p)
unfolding apply_option known_index
apply_option-Round pf option value p ten =
    let Q : Parsed → Type 0 = λ q. Round option p.given q.given in
    let P = Leaves Q in
    by_test P (same_text option (codes "--datalink")) _ _
      (λ e.
        set_data_link-Leaves Q value p (parse_data_link value)
          λ link. general-Round option (codes "--datalink") p.given e refl ten)
      λ e.
        by_test P (same_text option (codes "--deviceID")) _ _
          (λ e.
            number_or_fail-Leaves Q pf value 0 4194302 _
              λ n low high. general-Round option (codes "--deviceID") p.given e refl ten)
          λ e.
            by_test P (same_text option (codes "--deviceName")) _ _
              (λ e. general-Round option (codes "--deviceName") p.given e refl ten)
              λ e.
                by_test P (same_text option (codes "--port")) _ _
                  (λ e.
                    number_or_fail-Leaves Q pf value 1 65535 _
                      λ n low high. general-Round option (codes "--port") p.given e refl ten)
                  λ e.
                    set_known-Round pf option value p (known_index data_link_options 0 option) refl
                      ten

-- A round for an option, and what comes of the arguments after it and its value.
after_option :
    (option : List ℕ) (options : List (List ℕ)) (given middle after : List Bool)
    → Round option given middle
    → Grows middle after
    → AllRecorded options after
    → Grows given after × AllRecorded (option ∷ options) after
after_option option options given middle after round grows rest =
    (λ j e. grows j (round.grows j e), (λ k e. grows k (round.recorded k e), rest))

Ends : (options : List (List ℕ)) (given : List Bool) → Parsed → Type 0
Ends options given q = (length q.given ≡ 10) × Grows given q.given × AllRecorded options q.given

true_link : (given same : Bool) → (given && not same) ≡ false → given ≡ true → same ≡ true
true_link true true e f = refl
true_link true false e f = absurd (ground (arith, e))
true_link false same e f = absurd (ground (arith, f))

pub none_found :
    (b : Bool) (i : ℕ) (rest : Option ℕ)
    → (if b then some i else rest) ≡ none
    → (b ≡ false) × (rest ≡ none)
none_found true i rest e = absurd (ground (arith, e))
none_found false i rest e = (refl, e)

pub same_link_sound : (l m : DataLink) → same_link l m ≡ true → l ≡ m
same_link_sound DataLink.ipv4 DataLink.ipv4 e = refl
same_link_sound DataLink.ipv6 DataLink.ipv6 e = refl
same_link_sound DataLink.mstp DataLink.mstp e = refl
same_link_sound DataLink.sc DataLink.sc e = refl
same_link_sound l m e = absurd (ground (arith, e))

-- The option is of the data link, or of none in particular.
abbrev pub IsOf : DataLink → Option DataLink → Type 0
IsOf link none = Unit {0}
IsOf link (some l) = l ≡ link

recorded-IsOf :
    (os : List DataLinkOption) (i : ℕ) (option : List ℕ) (given : List Bool) (link : DataLink)
    → misplaced os i given link ≡ none
    → IsRecorded os i option given
    → IsOf link (link_of os option)
unfolding misplaced known_index
recorded-IsOf [] i option given link e recorded = tt
recorded-IsOf (o ∷ os) i option given link e recorded =
    let (here, after) = none_found _ i (misplaced os (suc i) given link) e in
    elim (Bool-cases (same_text o.name option)) [
      | inl same ↦
          let mine : get_or given i false ≡ true = recorded i (simp same refl) in
          simp same (
            same_link_sound o.data_link link
              (true_link (get_or given i false) (same_link o.data_link link) here mine))
      | inr other ↦ simp other (
          recorded-IsOf os (suc i) option given link after
            λ k found. recorded k (simp (other, found) refl))
    ]

-- Every option is of the data link.
abbrev pub AreOf : DataLink → List (List ℕ) → Type 0
AreOf link [] = Unit {0}
AreOf link (option ∷ options) = IsOf link (link_of data_link_options option) × AreOf link options

pub recorded-AreOf :
    (options : List (List ℕ)) (given : List Bool) (link : DataLink)
    → misplaced data_link_options 0 given link ≡ none
    → AllRecorded options given
    → AreOf link options
recorded-AreOf [] given link e h = tt
recorded-AreOf (option ∷ options) given link e (first, rest) = (
  recorded-IsOf data_link_options 0 option given link e first,
  recorded-AreOf options given link e rest,
)

-- Every option that the arguments give and the table knows is recorded when the loop has ended.
pub parse_loop-Ends :
    (pf : Platform) (arguments : List (List ℕ)) (p : Parsed)
    → length p.given ≡ 10
    → Leaves
        (λ q.
          (length q.given ≡ 10)
          × Grows p.given q.given
          × AllRecorded (given_options arguments) q.given)
        (parse_loop pf arguments p)
unfolding parse_loop Ends
parse_loop-Ends pf [] p ten = (ten, λ j e. e, tt)
parse_loop-Ends pf (option ∷ []) p ten = go (same_text option (codes "--xml"))
  where
    go :
        (xml : Bool)
        → Leaves
            (Ends (if xml then [] else option ∷ []) p.given)
            (if xml then parsed p else checked_option option (failed (Reason.needs_value option)))
    go true = (ten, λ j e. e, tt)
    go false =
        checked_option-Leaves (Ends (option ∷ []) p.given) option
          (failed (Reason.needs_value option)) tt
parse_loop-Ends pf (option ∷ value ∷ arguments) p ten =
    go (same_text option (codes "--xml")) (parse_loop-Ends pf (value ∷ arguments) p ten)
      λ q. parse_loop-Ends pf arguments q
  where
    go :
        (xml : Bool)
        → Leaves
            (Ends (given_options (value ∷ arguments)) p.given)
            (parse_loop pf (value ∷ arguments) p)
        → ((q : Parsed)
            → length q.given ≡ 10
            → Leaves (Ends (given_options arguments) q.given) (parse_loop pf arguments q))
        → Leaves
            (Ends
              (if xml then given_options (value ∷ arguments) else option ∷ given_options arguments)
              p.given)
            (if xml
              then parse_loop pf (value ∷ arguments) p
              else checked_option option
                  (and_then (apply_option pf option value p) (parse_loop pf arguments)))
    go true skipped next = skipped
    go false skipped next =
        let Q = Ends (option ∷ given_options arguments) p.given in
        checked_option-Leaves Q option _ (
          and_then-Leaves (λ q. Round option p.given q.given) Q (apply_option pf option value p)
            (parse_loop pf arguments) (apply_option-Round pf option value p ten)
            λ q round.
              Leaves-weaken (Ends (given_options arguments) q.given) Q (parse_loop pf arguments q)
                (next q round.ten)
                λ r (ten', grows, recorded).
                  let (both, all) =
                    after_option option (given_options arguments) p.given q.given r.given round
                      grows recorded in
                  (ten', both, all))
