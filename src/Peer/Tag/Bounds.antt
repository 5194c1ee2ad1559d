-- ===== src/Peer/Tag/Bounds.antt =====
-- The tag reader stays within the octets received, and every tag moves forward.
use bacnet_profile_example_b.Base.{
  ℕ, zero, suc, ◌+◌, ◌/◌, ◌%◌, ◌≤◌, ◌<◌, ◌≡◌, ◌≢◌, refl, Bool, true, false, List, ◌==◌, length,
  get_elem?-of_lt, arith, leb, ltb, ◌⊎◌, inl, inr, Bool-cases, if◌then◌else◌, not, ◌&&◌,
}
use bacnet_profile_example_b.Peer.Tag.{
  Tag, TagKind, opening, closing, value, Read, got, nothing, fault, octet, checked, big_endian,
  finish, finish_long, extended_length, extended_number, read_length, read_tag, content_unsigned,
  content_real, content_status_flags_fault,
}

-- A read that comes to a result or to `false`, never past the end; a tag that is found lies ahead
-- of `position` and ends within the octets.
abbrev pub InBounds : List ℕ → ℕ → Read Tag → Type 0
InBounds octets position (got t) =
    (position < t.next) × (t.next ≡ t.content + t.length) × (t.next ≤ length octets)
InBounds octets position nothing = Unit {0}
InBounds octets position fault = ⊥

-- In bounds the loop comes to a number.
pub big_endian-got :
    (octets : List ℕ) (count position acc : ℕ)
    → position + count ≤ length octets
    → (v : ℕ) × (big_endian octets count position acc ≡ got v)
unfolding big_endian
big_endian-got octets zero position acc h = (acc, refl)
big_endian-got octets (suc count) position acc h =
    let (o, e) = get_elem?-of_lt octets position (omega arith) in
    rw (e, big_endian) (big_endian-got octets count (position + 1) _ (omega arith))

finish-InBounds :
    (octets : List ℕ) (number : ℕ) (is_context : Bool) (kind : TagKind) (len position start : ℕ)
    → start < position
    → InBounds octets start (finish octets number is_context kind len position)
unfolding finish
finish-InBounds octets number is_context kind len position start h =
    elim (Bool-cases (leb (position + len) (length octets))) [
      | inl e ↦ rw e (omega arith, refl, ground arith)
      | inr e ↦ rw e tt
    ]

finish_long-InBounds :
    (octets : List ℕ) (number : ℕ) (is_context : Bool) (count position start : ℕ)
    → start < position
    → InBounds octets start (finish_long octets number is_context count position)
unfolding finish_long
finish_long-InBounds octets number is_context count position start h =
    elim (Bool-cases (ltb (length octets) (position + count))) [
      | inl e ↦ rw e tt
      | inr e ↦
          let (v, f) = big_endian-got octets count position 0 (ground arith) in
          rw (e, f)
            (finish-InBounds octets number is_context _ v (position + count) start (omega arith))
    ]

checked-InBounds :
    (octets : List ℕ) (position start : ℕ) (k : ℕ → Read Tag)
    → ((o : ℕ) → InBounds octets start (k o))
    → InBounds octets start (checked octets position k)
checked-InBounds octets position start k keep = elim (Bool-cases (leb (length octets) position)) [
  | inl e ↦ rw e tt
  | inr e ↦
      let (o, f) = get_elem?-of_lt octets position (ground arith) in rw e (rw (f, octet) (keep o))
]

extended_length-InBounds :
    (octets : List ℕ) (number : ℕ) (is_context : Bool) (position start : ℕ)
    → start < position
    → InBounds octets start (extended_length octets number is_context position)
unfolding extended_length
extended_length-InBounds octets number is_context position start h =
    checked-InBounds octets position start _ λ extended. elim (Bool-cases (ltb extended 254)) [
      | inl e ↦ rw e (finish-InBounds octets number is_context _ extended _ start (omega arith))
      | inr e ↦ rw e (finish_long-InBounds octets number is_context _ _ start (omega arith))
    ]

if-InBounds :
    (octets : List ℕ) (start : ℕ) (test : Bool) (a b : Read Tag)
    → InBounds octets start a
    → InBounds octets start b
    → InBounds octets start (if test then a else b)
if-InBounds octets start true a b ha hb = ha
if-InBounds octets start false a b ha hb = hb

read_length-InBounds :
    (octets : List ℕ) (number : ℕ) (is_context : Bool) (kind position start : ℕ)
    → start < position
    → InBounds octets start (read_length octets number is_context kind position)
unfolding read_length
read_length-InBounds octets number is_context kind position start h =
    let plain =
      λ (k : TagKind) (len : ℕ). finish-InBounds octets number is_context k len position start h in
    if-InBounds octets start (is_context && kind == 6) _ _ (plain opening 0) (
      if-InBounds octets start (is_context && kind == 7) _ _ (plain closing 0) (
        if-InBounds octets start (not is_context && number == 1) _ _ (plain value 0) (
          if-InBounds octets start (ltb kind 5) _ _ (plain value kind)
            (extended_length-InBounds octets number is_context position start h))))

-- Reading a tag at any position of any octets never reads past their end; a tag that is found lies
-- wholly within them, and the next position is strictly further on.
pub read_tag-InBounds :
    (octets : List ℕ) (position : ℕ) → InBounds octets position (read_tag octets position)
unfolding read_tag extended_number
read_tag-InBounds octets position = checked-InBounds octets position position _ λ initial.
    if-InBounds octets position (initial / 16 == 15) _ _
      (checked-InBounds octets (position + 1) position _ λ number.
        read_length-InBounds octets number (initial / 8 % 2 == 1) (initial % 8) (position + 1 + 1)
          position (omega arith))
      (read_length-InBounds octets (initial / 16) (initial / 8 % 2 == 1) (initial % 8)
        (position + 1) position (omega arith))

-- The content of a tag that was read can be read too.
pub content_unsigned-got :
    (octets : List ℕ) (position : ℕ) (t : Tag)
    → read_tag octets position ≡ got t
    → (v : ℕ) × (content_unsigned octets t ≡ got v)
unfolding content_unsigned
content_unsigned-got octets position t e =
    let bounds : InBounds octets position (got t) = rw e at (read_tag-InBounds octets position) in
    big_endian-got octets _ t.content 0 (ground (arith, bounds))

pub content_real-ne-fault :
    (octets : List ℕ) (position : ℕ) (t : Tag)
    → read_tag octets position ≡ got t
    → content_real octets t ≢ fault
unfolding content_real
content_real-ne-fault octets position t e =
    let (v, f) = content_unsigned-got octets position t e in ground (arith, f)

pub content_status_flags_fault-ne-fault :
    (octets : List ℕ) (position : ℕ) (t : Tag)
    → read_tag octets position ≡ got t
    → content_status_flags_fault octets t ≢ fault
unfolding content_status_flags_fault
content_status_flags_fault-ne-fault octets position t e h =
    let bounds : InBounds octets position (got t) = rw e at (read_tag-InBounds octets position) in
    elim (Bool-cases (ltb t.length 2)) [
      | inl short ↦ ground arith
      | inr long ↦
          let (o, f) = get_elem?-of_lt octets (t.content + 1) (ground (arith, bounds)) in
          ground (arith, f)
    ]

-- To split on what a read came to.
pub Read-cases {ℓ} :
    {A : Type ℓ} (r : Read A) → ((a : A) × (r ≡ got a)) ⊎ ((r ≡ nothing) ⊎ (r ≡ fault))
Read-cases (got a) = inl (a, refl)
Read-cases nothing = inr (inl refl)
Read-cases fault = inr (inr refl)

-- The same for a tag: with the bounds of one that was found, and no fault.
pub read_tag-cases :
    (octets : List ℕ) (position : ℕ)
    → ((t : Tag) × (read_tag octets position ≡ got t)
        × (position < t.next)
        × (t.next ≤ length octets))
      ⊎ (read_tag octets position ≡ nothing)
read_tag-cases octets position = elim (Read-cases (read_tag octets position)) [
  | inl (t, e) ↦
      let bounds : InBounds octets position (got t) = rw e at (read_tag-InBounds octets position) in
      inl (t, e, bounds.0, bounds.2)
  | inr (inl e) ↦ inr e
  | inr (inr e) ↦ absurd (let bad : ⊥ = rw e at (read_tag-InBounds octets position) in bad)
]
