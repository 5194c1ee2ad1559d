-- ===== src/HubConnector/Uri.antt =====
-- sc/ScHubConnector.cpp, `ParseHubUri`, with `strtol` of the standard library.
use bacnet_profile_example_b.Base.{
  ℕ, suc, ◌+◌, ◌-◌, Bool, not, ◌&&◌, ◌||◌, List, [], ◌∷◌, Option, none, some, length, ltb, leb,
  ◌==◌, if◌then◌else◌, take, drop, get_or,
}
use mathlib.Core.Option
use bacnet_profile_example_b.Base.Text.{codes, starts_with}
use bacnet_profile_example_b.Base.Decimal.{digits_value}

-- `find` and `rfind` of one character.
unfoldable pub find_char : ℕ → List ℕ → Option ℕ
find_char c [] = none
find_char c (x ∷ xs) = if x == c then some 0 else Option.map suc (find_char c xs)

unfoldable pub rfind_char : ℕ → List ℕ → Option ℕ
rfind_char c [] = none
rfind_char c (x ∷ xs) = elim (rfind_char c xs) [
  | some i ↦ some (suc i)
  | none ↦ if x == c then some 0 else none
]

pub record HubUri : Type 0 where
  pub host : List ℕ
  pub port : ℕ
  pub path : List ℕ

-- A white-space character of the C locale.
abbrev pub is_c_space : ℕ → Bool
is_c_space c = c == b' ' || (leb 9 c && leb c 13)

-- The digits after white space and a sign; `strtol` takes none for 0 and stops before them.
unfoldable pub digits_only : List ℕ → Option ℕ
digits_only [] = none
digits_only (d ∷ ds) = digits_value 0 (d ∷ ds)

-- `strtol` where nothing may follow the number, and only a positive one is wanted: none for every
-- other text. A number above LONG_MAX is read as LONG_MAX, which is no port either.
unfoldable pub strtol_positive : List ℕ → Option ℕ
strtol_positive [] = none
strtol_positive (c ∷ cs) =
    let after_space = strtol_positive cs in
    if is_c_space c then after_space else if c == b'+' then digits_only cs else digits_only (c ∷ cs)

-- `host` and `portText` of "[host]:port", from the position of the bracket.
unfoldable pub split_bracketed : List ℕ → Option ℕ → Option (List ℕ × List ℕ)
split_bracketed text none = none
split_bracketed text (some close) =
    let host = take (close - 1) (drop 1 text) in
    let port_text = drop (close + 2) text in
    if leb (length text) (close + 1)
    then some (host, [])
    else if not (get_or text (close + 1) 0 == b':')
    then none
    else some (host, port_text)

unfoldable pub split_at_colon : List ℕ → Option ℕ → List ℕ × List ℕ
split_at_colon text none = (text, [])
split_at_colon text (some colon) = (take colon text, drop (colon + 1) text)

unfoldable pub split_host_and_port : List ℕ → Option (List ℕ × List ℕ)
split_host_and_port text =
    if starts_with (codes "[") text
    then split_bracketed text (find_char b']' text)
    else some (split_at_colon text (rfind_char b':' text))

unfoldable pub port_in_range : Option ℕ → Option ℕ
port_in_range none = none
port_in_range (some n) = if ltb n 1 || ltb 65535 n then none else some n

-- What `c_str()` shows of a text: the octets before a NUL.
unfoldable pub c_string : List ℕ → List ℕ
c_string [] = []
c_string (c ∷ cs) = let rest = c_string cs in if c == 0 then [] else c ∷ rest

unfoldable pub parse_port : List ℕ → Option ℕ
parse_port [] = some 443
parse_port (c ∷ cs) = port_in_range (strtol_positive (c_string (c ∷ cs)))

unfoldable pub with_port : List ℕ → List ℕ → Option ℕ → Option HubUri
with_port host path none = none
with_port host path (some port) = some (record { host = host; port = port; path = path })

unfoldable pub finish_uri : List ℕ → Option (List ℕ × List ℕ) → Option HubUri
finish_uri path none = none
finish_uri path (some ([], port_text)) = none
finish_uri path (some (c ∷ cs, port_text)) = with_port (c ∷ cs) path (parse_port port_text)

-- The host with the port, and the path, at the slash.
unfoldable pub split_path : List ℕ → Option ℕ → List ℕ × List ℕ
split_path rest none = (rest, codes "/")
split_path rest (some slash) = (take slash rest, drop slash rest)

unfoldable pub parse_after_scheme : List ℕ → Option HubUri
parse_after_scheme rest =
    let (host_and_port, path) = split_path rest (find_char b'/' rest) in
    finish_uri path (split_host_and_port host_and_port)

unfoldable pub parse_hub_uri : List ℕ → Option HubUri
parse_hub_uri uri =
    if not (starts_with (codes "wss://") uri) then none else parse_after_scheme (drop 6 uri)
