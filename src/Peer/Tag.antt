-- ===== src/Peer/Tag.antt =====
-- main.cpp: the minimal BACnet tag reader. `fault` stands for a read past the octets received, which
-- C++ gives no meaning; Peer/Tag/Bounds shows that it does not happen.
pub mod Bounds
use bacnet_profile_example_b.Base.{
  ℕ, zero, suc, ◌+◌, ◌*◌, ◌/◌, ◌%◌, ◌^◌, Bool, true, false, ◌&&◌, ◌||◌, not, List, Option, none,
  some, if◌then◌else◌, ◌==◌, leb, ltb, length, get_elem?,
}

pub data TagKind : Type 0 where
  value opening closing : TagKind

-- `==` on the enum.
abbrev pub same_kind : TagKind → TagKind → Bool
same_kind value value = true
same_kind opening opening = true
same_kind closing closing = true
same_kind _ _ = false

pub record Tag : Type 0 where
  pub number : ℕ
  pub is_context : Bool
  pub kind : TagKind
  pub length : ℕ
  pub content : ℕ
  pub next : ℕ

-- What reading gives: a result, `false`, or undefined behaviour.
pub data Read {ℓ} (A : Type ℓ) : Type ℓ where
  got : A → Read A
  nothing : Read A
  fault : Read A

-- `octets[position]`.
abbrev pub octet {ℓ} : {A : Type ℓ} → List ℕ → ℕ → (ℕ → Read A) → Read A
octet octets position k = elim (get_elem? octets position) [ none ↦ fault | some o ↦ k o ]

-- The same behind its `position >= octetCount` test.
abbrev pub checked {ℓ} : {A : Type ℓ} → List ℕ → ℕ → (ℕ → Read A) → Read A
checked octets position k =
    if leb (length octets) position then nothing else octet octets position k

-- `value = (value << 8) | octets[position]` for `count` octets, in 32 bits.
unfoldable pub big_endian : List ℕ → ℕ → ℕ → ℕ → Read ℕ
big_endian octets zero position acc = got acc
big_endian octets (suc count) position acc = elim (get_elem? octets position) [
  | none ↦ fault
  | some o ↦ big_endian octets count (position + 1) (acc * 256 % 2 ^ 32 + o)
]

-- The last lines: the content starts here, and must end within the octets.
finish : List ℕ → ℕ → Bool → TagKind → ℕ → ℕ → Read Tag
finish octets number is_context kind len position =
    if leb (position + len) (length octets)
    then got (record {
      number = number;
      is_context = is_context;
      kind = kind;
      length = len;
      content = position;
      next = position + len;
    })
    else nothing

finish_long : List ℕ → ℕ → Bool → ℕ → ℕ → Read Tag
unfolding big_endian finish
finish_long octets number is_context count position =
    if ltb (length octets) (position + count)
    then nothing
    else elim (big_endian octets count position 0) [
      | got len ↦ finish octets number is_context value len (position + count)
      | nothing ↦ nothing
      | fault ↦ fault
    ]

extended_length : List ℕ → ℕ → Bool → ℕ → Read Tag
unfolding finish finish_long
extended_length octets number is_context position = checked octets position λ extended.
    if ltb extended 254
    then finish octets number is_context value extended (position + 1)
    else finish_long octets number is_context (if extended == 254 then 2 else 4) (position + 1)

-- After the tag number: the kind and the length.
read_length : List ℕ → ℕ → Bool → ℕ → ℕ → Read Tag
unfolding finish extended_length
read_length octets number is_context length_value_type position =
    if is_context && length_value_type == 6
    then finish octets number is_context opening 0 position
    else if is_context && length_value_type == 7
    then finish octets number is_context closing 0 position
    else if not is_context && number == 1
    then finish octets number is_context value 0 position
    else if ltb length_value_type 5
    then finish octets number is_context value length_value_type position
    else extended_length octets number is_context position

extended_number : List ℕ → ℕ → ℕ → Read Tag
unfolding read_length
extended_number octets initial position =
    checked octets position
      λ number. read_length octets number (initial / 8 % 2 == 1) (initial % 8) (position + 1)

unfoldable pub read_tag : List ℕ → ℕ → Read Tag
unfolding read_length extended_number
read_tag octets position = checked octets position λ initial.
    if initial / 16 == 15
    then extended_number octets initial (position + 1)
    else read_length octets (initial / 16) (initial / 8 % 2 == 1) (initial % 8) (position + 1)

unfoldable pub content_unsigned : List ℕ → Tag → Read ℕ
unfolding big_endian
content_unsigned octets tag =
    big_endian octets (if ltb tag.length 4 then tag.length else 4) tag.content 0

-- The bit pattern of a REAL.
unfoldable pub content_real : List ℕ → Tag → Read ℕ
unfolding content_unsigned
content_real octets tag =
    if tag.is_context
      || not (same_kind tag.kind value)
      || not (tag.number == 4)
      || not (tag.length == 4)
    then nothing
    else content_unsigned octets tag

unfoldable pub content_status_flags_fault : List ℕ → Tag → Read Bool
content_status_flags_fault octets tag =
    if tag.is_context || not (same_kind tag.kind value) || not (tag.number == 8) || ltb tag.length 2
    then nothing
    else octet octets (tag.content + 1) λ flags. got (flags / 64 % 2 == 1)
