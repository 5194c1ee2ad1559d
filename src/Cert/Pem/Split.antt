-- ===== src/Cert/Pem/Split.antt =====
-- The splitting of a PEM text ends: every block that is found takes octets, and lies in the text.
use bacnet_profile_example_b.Base.{
  ℕ, zero, suc, ◌+◌, ◌<◌, ◌≤◌, ◌≡◌, ◌≢◌, refl, ap, subst, Bool, true, false, List, [], ◌∷◌, ◌++◌,
  Option, none, some, if◌then◌else◌, length, drop, length-drop, arith, Bool-cases, inl, inr,
}
use mathlib.Core.Option
use bacnet_profile_example_b.Base.Text.{starts_with, find, find_from, all_space, same_text}
use bacnet_profile_example_b.Cert.Pem.{
  Reason, Parsed, parsed, refused, Next, done, block, bad, begin_mark, dashes, end_mark, next_end,
  next_label, next_block, split_loop, split_pem_blocks, slice, or_length, shown_label,
}

starts_with-length :
    (needle text : List ℕ) → starts_with needle text ≡ true → length needle ≤ length text
starts_with-length [] text e = omega arith
starts_with-length (n ∷ needle) [] e = ground (arith, e)
starts_with-length (n ∷ needle) (c ∷ text) e = elim (Bool-cases (starts_with needle text)) [
  | inl rest ↦ omega (arith, starts_with-length needle text rest)
  | inr other ↦ absurd (ground (arith, e, other))
]

-- A place that was found ends within the text.
abbrev Ends : ℕ → ℕ → Option ℕ → Type 0
Ends room size none = Unit {0}
Ends room size (some i) = i + size ≤ room

map-Ends :
    (room size k : ℕ) (o : Option ℕ)
    → Ends room size o
    → Ends (room + k) size (Option.map (λ i. i + k) o)
map-Ends room size k none h = tt
map-Ends room size k (some i) h = omega (arith, h)

if-Ends :
    (room size : ℕ) (test : Bool) (a b : Option ℕ)
    → (test ≡ true → Ends room size a)
    → Ends room size b
    → Ends room size (if test then a else b)
if-Ends room size true a b ha hb = ha refl
if-Ends room size false a b ha hb = hb

find-Ends : (needle text : List ℕ) → Ends (length text) (length needle) (find needle text)
unfolding find
find-Ends needle [] =
    if-Ends 0 (length needle) (starts_with needle []) (some 0) none
      (λ e. omega (arith, starts_with-length needle [] e)) tt
find-Ends needle (c ∷ text) =
    if-Ends (length (c ∷ text)) (length needle) (starts_with needle (c ∷ text)) (some 0)
      (Option.map (λ i. i + 1) (find needle text))
      (λ e. omega (arith, starts_with-length needle (c ∷ text) e))
      (subst (λ room. Ends room (length needle) (Option.map (λ i. i + 1) (find needle text)))
        (omega arith)
        (map-Ends (length text) (length needle) 1 (find needle text) (find-Ends needle text)))

-- From a position on, a needle that is not empty is found there or later, within the text.
find_from-bound :
    (needle text : List ℕ) (pos i : ℕ)
    → 1 ≤ length needle
    → find_from needle text pos ≡ some i
    → (pos ≤ i) × (i + length needle ≤ length text)
unfolding find_from
find_from-bound needle text pos i size e =
    go (find needle (drop pos text)) (find-Ends needle (drop pos text)) e
  where
    go :
        (o : Option ℕ)
        → Ends (length (drop pos text)) (length needle) o
        → Option.map (λ j. j + pos) o ≡ some i
        → (pos ≤ i) × (i + length needle ≤ length text)
    go none h f = absurd (ground (arith, f))
    go (some j) h f =
        let same : j + pos ≡ i = ap (λ o. elim o [ none ↦ 0 | some x ↦ x ]) f in
        (omega (arith, same), omega (arith, same, h, size, length-drop pos text))

-- A round that finds a block moves past it, within the text; a refusal has its reason.
abbrev Moves : List ℕ → ℕ → Next → Type 0
Moves pem pos done = Unit {0}
Moves pem pos (block begin past) = (pos < past) × (past ≤ length pem)
Moves pem pos (bad why) = why ≢ Reason.looping

next_end-Moves :
    (pem label : List ℕ) (begin label_end pos : ℕ)
    → pos < label_end
    → Moves pem pos (next_end pem label begin label_end)
unfolding next_end
next_end-Moves pem label begin label_end pos later =
    go (find_from (end_mark label) pem label_end) refl
  where
    go :
        (o : Option ℕ)
        → find_from (end_mark label) pem label_end ≡ o
        → Moves pem pos (elim o [
          | none ↦ bad Reason.no_end_line
          | some end ↦ block begin (end + length (end_mark label))
        ])
    go none e = λ f. cc
    go (some end) e =
        let (low, high) = find_from-bound (end_mark label) pem label_end end (omega arith) e in
        (omega (arith, later, low), high)

if-Moves :
    (pem : List ℕ) (pos : ℕ) (test : Bool) (a b : Next)
    → Moves pem pos a
    → Moves pem pos b
    → Moves pem pos (if test then a else b)
if-Moves pem pos true a b ha hb = ha
if-Moves pem pos false a b ha hb = hb

next_label-Moves :
    (pem label : List ℕ) (begin pos : ℕ) → pos ≤ begin → Moves pem pos (next_label pem label begin)
unfolding next_label
next_label-Moves pem label begin pos later =
    go (find_from dashes pem (begin + length begin_mark)) refl
  where
    go :
        (o : Option ℕ)
        → find_from dashes pem (begin + length begin_mark) ≡ o
        → Moves pem pos (elim o [
          | none ↦ bad Reason.unterminated_header
          | some label_end ↦
              if same_text (slice pem (begin + length begin_mark) label_end) label
              then next_end pem label begin label_end
              else bad (
                  Reason.wrong_label
                    (shown_label (slice pem (begin + length begin_mark) label_end)))
        ])
    go none e = λ f. cc
    go (some label_end) e =
        let (low, high) =
          find_from-bound dashes pem (begin + length begin_mark) label_end (omega arith) e in
        if-Moves pem pos (same_text (slice pem (begin + length begin_mark) label_end) label)
          (next_end pem label begin label_end) _
          (next_end-Moves pem label begin label_end pos (omega (arith, later, low))) (λ f. cc)

next_block-Moves : (pem label : List ℕ) (pos : ℕ) → Moves pem pos (next_block pem label pos)
unfolding next_block
next_block-Moves pem label pos = go (find_from begin_mark pem pos) refl
  where
    go :
        (o : Option ℕ)
        → find_from begin_mark pem pos ≡ o
        → Moves pem pos (
            if all_space (slice pem pos (or_length pem o))
            then (elim o [ none ↦ done | some b ↦ next_label pem label b ])
            else bad Reason.text_outside)
    go none e = if-Moves pem pos (all_space (slice pem pos (length pem))) done _ tt (λ f. cc)
    go (some b) e =
        let (low, high) = find_from-bound begin_mark pem pos b (omega arith) e in
        if-Moves pem pos (all_space (slice pem pos b)) (next_label pem label b) _
          (next_label-Moves pem label b pos low) (λ f. cc)

abbrev pub Terminates {ℓ} : {A : Type ℓ} → Parsed A → Type 0
Terminates (parsed a) = Unit {0}
Terminates (refused why) = why ≢ Reason.looping

split_loop-Terminates :
    (fuel : ℕ) (pem label : List ℕ) (pos : ℕ) (blocks : List (List ℕ))
    → 0 < fuel
    → length pem < fuel + pos
    → Terminates (split_loop fuel pem label pos blocks)
unfolding split_loop
split_loop-Terminates zero pem label pos blocks some_fuel enough = absurd (omega arith)
split_loop-Terminates (suc fuel) pem label pos blocks some_fuel enough =
    go (next_block pem label pos) (next_block-Moves pem label pos)
      (λ past bs. split_loop-Terminates fuel pem label past bs)
  where
    go :
        (n : Next)
        → Moves pem pos n
        → ((past : ℕ) (bs : List (List ℕ))
            → 0 < fuel
            → length pem < fuel + past
            → Terminates (split_loop fuel pem label past bs))
        → Terminates (elim n as (λ x. Parsed (List (List ℕ))) [
          | done ↦ parsed blocks
          | bad r ↦ refused r
          | block begin past ↦
              split_loop fuel pem label past (blocks ++ (slice pem begin past ∷ []))
        ])
    go done moves later = tt
    go (bad r) moves later = moves
    go (block begin past) moves later =
        later past (blocks ++ (slice pem begin past ∷ [])) (omega (arith, moves, enough))
          (omega (arith, moves, enough))

-- On every text and label the loop of `SplitPemBlocks` ends within one round for each octet and one
-- more: it gives the blocks, or a refusal with one of the source's reasons.
pub split_pem_blocks-Terminates : (pem label : List ℕ) → Terminates (split_pem_blocks pem label)
unfolding split_pem_blocks
split_pem_blocks-Terminates pem label =
    split_loop-Terminates (length pem + 1) pem label 0 [] (omega arith) (omega arith)
