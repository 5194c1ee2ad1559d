-- ===== src/Cert/Pem.antt =====
-- sc/cert_store.cpp: splitting a PEM text into its blocks, and reading the certificates in it.
pub mod Split
use bacnet_profile_example_b.Base.{
  ℕ, zero, suc, ◌+◌, ◌-◌, ◌&&◌, List, [], ◌∷◌, ◌++◌, Option, none, some, if◌then◌else◌, length,
  take, drop, map, leb, ltb,
}
use bacnet_profile_example_b.Base.Text.{codes, same_text, find_from, all_space}
use bacnet_profile_example_b.Cert.Host.{Host}

-- The `reason` texts, by what they say. `looping` is no reason of the source: the fuel ran out.
pub data Reason : Type 0 where
  text_outside unterminated_header no_end_line not_pem unparsable looping : Reason
  wrong_label : List ℕ → Reason

pub data Parsed {ℓ} (A : Type ℓ) : Type ℓ where
  parsed : A → Parsed A
  refused : Reason → Parsed A

abbrev pub begin_mark : List ℕ
begin_mark = codes "-----BEGIN "

abbrev pub dashes : List ℕ
dashes = codes "-----"

abbrev pub end_mark : List ℕ → List ℕ
end_mark label = codes "-----END " ++ (label ++ dashes)

-- The octets from `first` up to `past`.
abbrev pub slice : List ℕ → ℕ → ℕ → List ℕ
slice text first past = take (past - first) (drop first text)

abbrev pub or_length : List ℕ → Option ℕ → ℕ
or_length text none = length text
or_length text (some i) = i

-- The label as a log line shows it: 40 octets at most, printable ASCII only.
unfoldable pub shown_label : List ℕ → List ℕ
shown_label found = map (λ c. if leb 0x20 c && ltb c 0x7f then c else b'?') (take 40 found)

-- One round of the loop finds the next block: its first octet and the position past its END line.
pub data Next : Type 0 where
  done : Next
  block : ℕ → ℕ → Next
  bad : Reason → Next

next_end : List ℕ → List ℕ → ℕ → ℕ → Next
next_end pem label begin label_end = elim (find_from (end_mark label) pem label_end) [
  | none ↦ bad Reason.no_end_line
  | some end ↦ block begin (end + length (end_mark label))
]

next_label : List ℕ → List ℕ → ℕ → Next
unfolding next_end shown_label
next_label pem label begin =
    let label_start = begin + length begin_mark in
    elim (find_from dashes pem label_start) [
      | none ↦ bad Reason.unterminated_header
      | some label_end ↦
          if same_text (slice pem label_start label_end) label
          then next_end pem label begin label_end
          else bad (Reason.wrong_label (shown_label (slice pem label_start label_end)))
    ]

unfoldable pub next_block : List ℕ → List ℕ → ℕ → Next
unfolding next_label
next_block pem label pos =
    let begin = find_from begin_mark pem pos in
    if all_space (slice pem pos (or_length pem begin))
    then (elim begin [ none ↦ done | some b ↦ next_label pem label b ])
    else bad Reason.text_outside

split_loop : ℕ → List ℕ → List ℕ → ℕ → List (List ℕ) → Parsed (List (List ℕ))
split_loop zero pem label pos blocks = refused Reason.looping
split_loop (suc fuel) pem label pos blocks = elim (next_block pem label pos) [
  | done ↦ parsed blocks
  | bad r ↦ refused r
  | block begin past ↦ split_loop fuel pem label past (blocks ++ (slice pem begin past ∷ []))
]

-- Every block takes an octet at least, so one round more than there are octets is enough.
unfoldable pub split_pem_blocks : List ℕ → List ℕ → Parsed (List (List ℕ))
unfolding split_loop next_block
split_pem_blocks pem label = split_loop (length pem + 1) pem label 0 []

abbrev pub certificate_label : List ℕ
certificate_label = codes "CERTIFICATE"

read_certificates : Host → List (List ℕ) → List ℕ → Parsed (List ℕ)
read_certificates host [] out = parsed out
read_certificates host (b ∷ bs) out = elim (host.certificate_of b) [
  | none ↦ refused Reason.unparsable
  | some cert ↦ read_certificates host bs (out ++ (cert ∷ []))
]

parse_blocks : Host → List ℕ → List (List ℕ) → List ℕ → Parsed (List ℕ)
unfolding read_certificates
parse_blocks host pem [] out = if all_space pem then parsed out else refused Reason.not_pem
parse_blocks host pem (b ∷ bs) out = read_certificates host (b ∷ bs) out

-- Appends every certificate of the text to `out`.
unfoldable pub parse_certificates : Host → List ℕ → List ℕ → Parsed (List ℕ)
unfolding parse_blocks split_pem_blocks
parse_certificates host pem out = elim (split_pem_blocks pem certificate_label) [
  | refused r ↦ refused r
  | parsed blocks ↦ parse_blocks host pem blocks out
]
