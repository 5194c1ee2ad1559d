-- ===== src/ScNode/Uuid.antt =====
-- sc/ScNode.cpp, `LoadOrCreateDeviceUuid`: the device's UUID and the text file that keeps it.
use bacnet_profile_example_b.Base.{
  ℕ, zero, suc, ◌+◌, ◌-◌, ◌*◌, ◌/◌, ◌%◌, ◌<◌, ◌≡◌, refl, ap, ◌∙◌, subst, Bool, true, false, ◌&&◌,
  ◌||◌, List, [], ◌∷◌, ◌++◌, Option, none, some, if◌then◌else◌, length, ltb, leb, ◌==◌, set, get_or,
  map, arith, length-set, length-map,
}

-- `>>` into a string: white space is skipped, and the text up to the next is read.
abbrev pub is_stream_space : ℕ → Bool
is_stream_space c = c == b' ' || (leb 9 c && leb c 13)

unfoldable pub word : List ℕ → List ℕ
word [] = []
word (c ∷ cs) = let rest = word cs in if is_stream_space c then [] else c ∷ rest

unfoldable pub first_word : List ℕ → List ℕ
first_word [] = []
first_word (c ∷ cs) = let rest = first_word cs in if is_stream_space c then rest else word (c ∷ cs)

unfoldable pub hex_value : ℕ → Option ℕ
hex_value c =
    if leb b'0' c && leb c b'9'
    then some (c - b'0')
    else if leb b'a' c && leb c b'f'
    then some (c - b'a' + 10)
    else if leb b'A' c && leb c b'F'
    then some (c - b'A' + 10)
    else none

-- `strtoul` in base 16 on two characters without white space, where it reads both: two digits, or
-- a sign and a digit; the result is cast to an octet.
unfoldable pub hex_octet : ℕ → Option ℕ → ℕ → Option ℕ → Option ℕ
hex_octet c (some high) d (some low) = some (high * 16 + low)
hex_octet c none d (some low) =
    if c == b'+' then some low else if c == b'-' then some ((256 - low) % 256) else none
hex_octet c (some high) d none = none
hex_octet c none d none = none

abbrev pub before : Option ℕ → Option (List ℕ) → Option (List ℕ)
before none rest = none
before (some octet) none = none
before (some octet) (some octets) = some (octet ∷ octets)

unfoldable pub hex_octets : List ℕ → Option (List ℕ)
hex_octets [] = some []
hex_octets (c ∷ []) = none
hex_octets (c ∷ d ∷ cs) = before (hex_octet c (hex_value c) d (hex_value d)) (hex_octets cs)

-- The UUID that a file holds.
unfoldable pub load_uuid : List ℕ → Option (List ℕ)
load_uuid content =
    let octets = hex_octets (first_word content) in
    if length (first_word content) == 32 then octets else none

-- Octet 6 gets version 4 (`& 0x0F | 0x40`), octet 8 the variant (`& 0x3F | 0x80`).
unfoldable pub new_uuid : List ℕ → List ℕ
new_uuid random =
    let octets = map (λ r. r % 256) random in
    let versioned = set octets 6 (get_or octets 6 0 % 16 + 64) in
    set versioned 8 (get_or versioned 8 0 % 64 + 128)

-- `%02x`
unfoldable pub hex_digit : ℕ → ℕ
hex_digit n = if ltb n 10 then b'0' + n else b'a' + (n - 10)

unfoldable pub hex_text : List ℕ → List ℕ
hex_text [] = []
hex_text (o ∷ os) = hex_digit (o / 16) ∷ hex_digit (o % 16) ∷ hex_text os

unfoldable pub create_uuid : List ℕ → Bool → Option (List ℕ) → Option (List ℕ) × Option (List ℕ)
create_uuid random good left = (left, if good then some (new_uuid random) else none)

-- The text that is written to the stream.
abbrev pub uuid_text : List ℕ → List ℕ
uuid_text random = hex_text (new_uuid random) ++ (10 ∷ [])

abbrev pub loaded : Option (List ℕ) → Option (List ℕ)
loaded none = none
loaded (some content) = load_uuid content

-- `random` are sixteen numbers of the random device; `good` is the stream's state when the code tests
-- it, and `left` what is in the file once the stream, which buffers, has been closed after that. The
-- file's content afterwards, and the UUID unless the function fails.
unfoldable pub load_or_create_device_uuid :
    Option (List ℕ) → List ℕ → Bool → Option (List ℕ) → Option (List ℕ) × Option (List ℕ)
load_or_create_device_uuid content random good left = elim (loaded content) [
  | some uuid ↦ (content, some uuid)
  | none ↦ create_uuid random good left
]

hex_digit-value : (n : ℕ) → n < 16 → hex_value (hex_digit n) ≡ some n
unfolding hex_value hex_digit
hex_digit-value n h = ground (arith, h)

hex_digit_no_space : (n : ℕ) → n < 16 → is_stream_space (hex_digit n) ≡ false
unfolding hex_digit
hex_digit_no_space n h = ground (arith, h)

abbrev AreOctets : List ℕ → Type 0
AreOctets [] = Unit {0}
AreOctets (o ∷ os) = (o < 256) × AreOctets os

word-hex_text : (os : List ℕ) → AreOctets os → word (hex_text os ++ (10 ∷ [])) ≡ hex_text os
unfolding word hex_text
word-hex_text [] h = refl
word-hex_text (o ∷ os) (octet, rest) =
    let high = hex_digit_no_space (o / 16) (omega (arith, octet)) in
    let low = hex_digit_no_space (o % 16) (omega arith) in
    simp (high, low) (ap (λ t. hex_digit (o / 16) ∷ hex_digit (o % 16) ∷ t) (word-hex_text os rest))

hex_octets-hex_text : (os : List ℕ) → AreOctets os → hex_octets (hex_text os) ≡ some os
unfolding hex_octets hex_octet hex_text
hex_octets-hex_text [] h = refl
hex_octets-hex_text (o ∷ os) (octet, rest) =
    let high = hex_digit-value (o / 16) (omega (arith, octet)) in
    let low = hex_digit-value (o % 16) (omega arith) in
    let both : o / 16 * 16 + o % 16 ≡ o = omega arith in
    ap
      (λ v.
        before
          (hex_octet (hex_digit (o / 16)) v (hex_digit (o % 16)) (hex_value (hex_digit (o % 16))))
          (hex_octets (hex_text os)))
      high
    ∙ ap
        (λ v.
          before (hex_octet (hex_digit (o / 16)) (some (o / 16)) (hex_digit (o % 16)) v)
            (hex_octets (hex_text os)))
        low
    ∙ ap (λ n. before (some n) (hex_octets (hex_text os))) both
    ∙ ap (before (some o)) (hex_octets-hex_text os rest)

length-hex_text : (os : List ℕ) → length (hex_text os) ≡ 2 * length os
unfolding hex_text
length-hex_text [] = omega arith
length-hex_text (o ∷ os) = omega (arith, length-hex_text os)

AreOctets-map : (random : List ℕ) → AreOctets (map (λ r. r % 256) random)
AreOctets-map [] = tt
AreOctets-map (r ∷ random) = (omega arith, AreOctets-map random)

AreOctets-set : (os : List ℕ) (i v : ℕ) → v < 256 → AreOctets os → AreOctets (set os i v)
AreOctets-set [] i v new h = tt
AreOctets-set (o ∷ os) zero v new (octet, rest) = (new, rest)
AreOctets-set (o ∷ os) (suc i) v new (octet, rest) = (octet, AreOctets-set os i v new rest)

new_uuid-AreOctets : (random : List ℕ) → AreOctets (new_uuid random)
unfolding new_uuid
new_uuid-AreOctets random =
    let octets = map (λ r. r % 256) random in
    let versioned = set octets 6 (get_or octets 6 0 % 16 + 64) in
    AreOctets-set versioned 8 (get_or versioned 8 0 % 64 + 128) (omega arith)
      (AreOctets-set octets 6 (get_or octets 6 0 % 16 + 64) (omega arith) (AreOctets-map random))

length-new_uuid : (random : List ℕ) → length (new_uuid random) ≡ length random
unfolding new_uuid
length-new_uuid random =
    let octets = map (λ r. r % 256) random in
    let versioned = set octets 6 (get_or octets 6 0 % 16 + 64) in
    length-set versioned 8 (get_or versioned 8 0 % 64 + 128)
    ∙ length-set octets 6 (get_or octets 6 0 % 16 + 64)
    ∙ length-map random (λ r. r % 256)

first_word-hex_text :
    (os : List ℕ) → AreOctets os → first_word (hex_text os ++ (10 ∷ [])) ≡ hex_text os
unfolding first_word hex_text
first_word-hex_text [] h = refl
first_word-hex_text (o ∷ os) (octet, rest) =
    let high = hex_digit_no_space (o / 16) (omega (arith, octet)) in
    simp high (word-hex_text (o ∷ os) (octet, rest))

load_uuid-hex_text :
    (os : List ℕ) → AreOctets os → length os ≡ 16 → load_uuid (hex_text os ++ (10 ∷ [])) ≡ some os
unfolding load_uuid
load_uuid-hex_text os octets sixteen =
    let words = first_word-hex_text os octets in
    let whole : (length (hex_text os) == 32) ≡ true = ground (arith, length-hex_text os, sixteen) in
    ap (λ w. if length w == 32 then hex_octets w else none) words
    ∙ ap (λ b. if b then hex_octets (hex_text os) else none) whole
    ∙ hex_octets-hex_text os octets

-- Whatever the file held and whatever the random device gives: when the function succeeds with a
-- UUID, and the text it wrote, if it made a new one, has reached the file when the stream is closed,
-- every later call succeeds with the same UUID and leaves the file as it is.
pub load_or_create_device_uuid_again :
    (content after left left_later : Option (List ℕ)) (random later : List ℕ)
    (good good_later : Bool) (uuid : List ℕ)
    → length random ≡ 16
    → left ≡ some (uuid_text random)
    → load_or_create_device_uuid content random good left ≡ (after, some uuid)
    → load_or_create_device_uuid after later good_later left_later ≡ (after, some uuid)
unfolding load_or_create_device_uuid create_uuid
load_or_create_device_uuid_again content after left left_later random later good good_later uuid
      sixteen flushed e =
    go (loaded content) refl good e
  where
    Fixed : Option (List ℕ) × Option (List ℕ) → Type 0
    Fixed r = load_or_create_device_uuid r.0 later good_later left_later ≡ r

    stays :
        (content : Option (List ℕ)) (uuid : List ℕ)
        → loaded content ≡ some uuid
        → load_or_create_device_uuid content later good_later left_later ≡ (content, some uuid)
    stays content uuid found =
        ap
          (λ o. elim o [
            | some u ↦ (content, some u)
            | none ↦ create_uuid later good_later left_later
          ])
          found

    made : loaded left ≡ some (new_uuid random)
    made =
        ap loaded flushed
        ∙ load_uuid-hex_text (new_uuid random) (new_uuid-AreOctets random)
            (length-new_uuid random ∙ sixteen)

    go :
        (o : Option (List ℕ))
        → loaded content ≡ o
        → (good : Bool)
        → elim o [ some u ↦ (content, some u) | none ↦ create_uuid random good left ]
          ≡ (after, some uuid)
        → load_or_create_device_uuid after later good_later left_later ≡ (after, some uuid)
    go (some u) found good e = subst Fixed e (stays content u found)
    go none found true e = subst Fixed e (stays left (new_uuid random) made)
    go none found false e = absurd (ground (arith, ap (λ r. r.1) e))

-- With a full disk the code's test comes too early: it succeeds over an empty file.
load_or_create_device_uuid-full_disk :
    (content : Option (List ℕ)) (random : List ℕ)
    → loaded content ≡ none
    → load_or_create_device_uuid content random true (some []) ≡ (some [], some (new_uuid random))
unfolding load_or_create_device_uuid create_uuid
load_or_create_device_uuid-full_disk content random unread =
    ap (λ o. elim o [ some u ↦ (content, some u) | none ↦ create_uuid random true (some []) ])
      unread
