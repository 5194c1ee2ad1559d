-- ===== src/HubConnector/UriRoundTrip.antt =====
-- A hub's URI, put together from its host, port and path, is taken apart again.
use bacnet_profile_example_b.Base.{
  ℕ, suc, ◌+◌, ◌-◌, ◌≤◌, ◌≡◌, refl, sym, ap, ◌∙◌, true, false, not, List, [], ◌∷◌, ◌++◌, Option,
  none, some, length, length-append, arith, if◌then◌else◌, leb, ◌==◌, take, drop, take-of_length,
  drop-of_length, get_or,
}
use bacnet_profile_example_b.Base.Text.{codes, starts_with}
use bacnet_profile_example_b.Base.Decimal.{
  decimal, digits_value, is_digit, digits_value-decimal, decimal-digit, AllDigits,
  decimal-AllDigits,
}
use bacnet_profile_example_b.HubConnector.Uri.{
  find_char, rfind_char, digits_only, strtol_positive, is_c_space, split_bracketed, split_at_colon,
  split_host_and_port, port_in_range, c_string, parse_port, with_port, finish_uri, split_path,
  parse_after_scheme, parse_hub_uri,
}

-- The character is not in the text.
abbrev pub Lacks : ℕ → List ℕ → Type 0
Lacks c [] = Unit {0}
Lacks c (x ∷ xs) = ((x == c) ≡ false) × Lacks c xs

find_char-Lacks :
    (c : ℕ) (xs ys : List ℕ) → Lacks c xs → find_char c (xs ++ (c ∷ ys)) ≡ some (length xs)
unfolding find_char
find_char-Lacks c [] ys h = let same : (c == c) ≡ true = ground arith in simp same refl
find_char-Lacks c (x ∷ xs) ys (other, rest) = simp (other, find_char-Lacks c xs ys rest) refl

find_char-none : (c : ℕ) (xs : List ℕ) → Lacks c xs → find_char c xs ≡ none
unfolding find_char
find_char-none c [] h = refl
find_char-none c (x ∷ xs) (other, rest) = simp (other, find_char-none c xs rest) refl

rfind_char-none : (c : ℕ) (xs : List ℕ) → Lacks c xs → rfind_char c xs ≡ none
unfolding rfind_char
rfind_char-none c [] h = refl
rfind_char-none c (x ∷ xs) (other, rest) = simp (rfind_char-none c xs rest, other) refl

rfind_char-Lacks :
    (c : ℕ) (xs ys : List ℕ) → Lacks c ys → rfind_char c (xs ++ (c ∷ ys)) ≡ some (length xs)
unfolding rfind_char
rfind_char-Lacks c [] ys h =
    let same : (c == c) ≡ true = ground arith in simp (rfind_char-none c ys h, same) refl
rfind_char-Lacks c (x ∷ xs) ys h = simp (rfind_char-Lacks c xs ys h) refl

Lacks-append : (c : ℕ) (xs ys : List ℕ) → Lacks c xs → Lacks c ys → Lacks c (xs ++ ys)
Lacks-append c [] ys h k = k
Lacks-append c (x ∷ xs) ys (other, rest) k = (other, Lacks-append c xs ys rest k)

no_digit : (c x : ℕ) → is_digit c ≡ false → is_digit x ≡ true → (x == c) ≡ false
no_digit c x e f = ground (arith, e, f)

AllDigits-Lacks : (c : ℕ) (xs : List ℕ) → is_digit c ≡ false → AllDigits xs → Lacks c xs
AllDigits-Lacks c [] e h = tt
AllDigits-Lacks c (x ∷ xs) e (digit, rest) = (no_digit c x e digit, AllDigits-Lacks c xs e rest)

first_digit : (c : ℕ) → is_digit c ≡ true → (is_c_space c ≡ false) × ((c == b'+') ≡ false)
first_digit c e = (ground (arith, e), ground (arith, e))

strtol_positive-digits :
    (c : ℕ) (cs : List ℕ) → is_digit c ≡ true → strtol_positive (c ∷ cs) ≡ digits_value 0 (c ∷ cs)
unfolding strtol_positive digits_only
strtol_positive-digits c cs e =
    let (no_space, no_sign) = first_digit c e in simp (no_space, no_sign) refl

port_in_range-some : (n : ℕ) → 1 ≤ n → n ≤ 65535 → port_in_range (some n) ≡ some n
unfolding port_in_range
port_in_range-some n low high = ground (arith, low, high)

c_string-AllDigits : (xs : List ℕ) → AllDigits xs → c_string xs ≡ xs
unfolding c_string
c_string-AllDigits [] h = refl
c_string-AllDigits (x ∷ xs) (digit, rest) =
    let other : (x == 0) ≡ false = ground (arith, digit) in
    simp (other, c_string-AllDigits xs rest) refl

-- A port is read as it is printed.
parse_port-decimal : (n : ℕ) → 1 ≤ n → n ≤ 65535 → parse_port (decimal n) ≡ some n
unfolding parse_port
parse_port-decimal n low high =
    let (c, (cs, text, digit)) = decimal-digit n in
    ap parse_port text
    ∙ ap (λ t. port_in_range (strtol_positive t))
        (ap c_string (sym text) ∙ c_string-AllDigits (decimal n) (decimal-AllDigits n) ∙ text)
    ∙ ap port_in_range (strtol_positive-digits c cs digit)
    ∙ ap (λ t. port_in_range (digits_value 0 t)) (sym text)
    ∙ ap port_in_range (digits_value-decimal n)
    ∙ port_in_range-some n low high

drop-after : (xs ys : List ℕ) (c : ℕ) → drop (length xs + 1) (xs ++ (c ∷ ys)) ≡ ys
drop-after [] ys c = refl
drop-after (x ∷ xs) ys c =
    let e : length (x ∷ xs) + 1 ≡ suc (length xs + 1) = omega arith in
    ap (λ n. drop n (x ∷ (xs ++ (c ∷ ys)))) e ∙ drop-after xs ys c

drop-after_two : (xs ys : List ℕ) (c d : ℕ) → drop (length xs + 2) (xs ++ (c ∷ d ∷ ys)) ≡ ys
drop-after_two [] ys c d = refl
drop-after_two (x ∷ xs) ys c d =
    let e : length (x ∷ xs) + 2 ≡ suc (length xs + 2) = omega arith in
    ap (λ n. drop n (x ∷ (xs ++ (c ∷ d ∷ ys)))) e ∙ drop-after_two xs ys c d

-- "host:port"
split_host_and_port-plain :
    (host port : List ℕ)
    → starts_with (codes "[") (host ++ (b':' ∷ port)) ≡ false
    → Lacks b':' port
    → split_host_and_port (host ++ (b':' ∷ port)) ≡ some (host, port)
unfolding split_host_and_port split_at_colon
split_host_and_port-plain host port plain no_colon =
    let text = host ++ (b':' ∷ port) in
    ap
      (λ b.
        if b
        then split_bracketed text (find_char b']' text)
        else some (split_at_colon text (rfind_char b':' text)))
      plain
    ∙ ap (λ o. some (split_at_colon text o)) (rfind_char-Lacks b':' host port no_colon)
    ∙ ap (λ h. some (h, drop (length host + 1) text)) (take-of_length host (b':' ∷ port))
    ∙ ap (λ p. some (host, p)) (drop-after host port b':')

get_or-after : (xs ys : List ℕ) (c d e : ℕ) → get_or (xs ++ (c ∷ d ∷ ys)) (length xs + 1) e ≡ d
get_or-after [] ys c d e = refl
get_or-after (x ∷ xs) ys c d e =
    let f : length (x ∷ xs) + 1 ≡ suc (length xs + 1) = omega arith in
    ap (λ n. get_or (x ∷ (xs ++ (c ∷ d ∷ ys))) n e) f ∙ get_or-after xs ys c d e

-- "[host]:port"
split_host_and_port-bracketed :
    (host port : List ℕ)
    → Lacks b']' host
    → split_host_and_port (b'[' ∷ (host ++ (b']' ∷ b':' ∷ port))) ≡ some (host, port)
unfolding split_host_and_port split_bracketed
split_host_and_port-bracketed host port closed =
    let text = b'[' ∷ (host ++ (b']' ∷ b':' ∷ port)) in
    ap (split_bracketed text) (find_char-Lacks b']' (b'[' ∷ host) (b':' ∷ port) (refl, closed))
    ∙ split
  where
    text : List ℕ
    text = b'[' ∷ (host ++ (b']' ∷ b':' ∷ port))

    longer : leb (length text) (suc (length host) + 1) ≡ false
    longer = let e = length-append host (b']' ∷ b':' ∷ port) in ground (arith, e)

    split : split_bracketed text (some (suc (length host))) ≡ some (host, port)
    split =
        let found = take (suc (length host) - 1) (drop 1 text) in
        let after = drop (suc (length host) + 2) text in
        let one : suc (length host) - 1 ≡ length host = omega arith in
        ap
          (λ b.
            if b
            then some (found, [])
            else if not (get_or text (suc (length host) + 1) 0 == b':')
            then none
            else some (found, after))
          longer
        ∙ ap (λ c. if not (c == b':') then none else some (found, after))
            (get_or-after (b'[' ∷ host) port b']' b':' 0)
        ∙ ap (λ n. some (take n (drop 1 text), after)) one
        ∙ ap (λ h. some (h, after)) (take-of_length host (b']' ∷ b':' ∷ port))
        ∙ ap (λ p. some (host, p)) (drop-after_two (b'[' ∷ host) port b']' b':')

-- With or without a path: without one, it is "/".
parse_after_scheme-path :
    (host_and_port path : List ℕ)
    → Lacks b'/' host_and_port
    → (parse_after_scheme (host_and_port ++ (b'/' ∷ path))
        ≡ finish_uri (b'/' ∷ path) (split_host_and_port host_and_port))
      × (parse_after_scheme host_and_port
          ≡ finish_uri (codes "/") (split_host_and_port host_and_port))
unfolding parse_after_scheme split_path
parse_after_scheme-path host_and_port path no_slash =
    let rest = host_and_port ++ (b'/' ∷ path) in
    let split : split_path rest (find_char b'/' rest) ≡ (host_and_port, b'/' ∷ path) =
      ap (split_path rest) (find_char-Lacks b'/' host_and_port path no_slash)
      ∙ ap (λ h. (h, drop (length host_and_port) rest)) (take-of_length host_and_port (b'/' ∷ path))
      ∙ ap (λ p. (host_and_port, p)) (drop-of_length host_and_port (b'/' ∷ path)) in
    (
      ap (λ p. finish_uri p.1 (split_host_and_port p.0)) split,
      ap
          (λ o.
            finish_uri (split_path host_and_port o).1
              (split_host_and_port (split_path host_and_port o).0))
          (find_char-none b'/' host_and_port no_slash),
    )

-- The host and the port that were read.
finish_uri-decimal :
    (c : ℕ) (cs path : List ℕ) (port : ℕ)
    → 1 ≤ port
    → port ≤ 65535
    → finish_uri path (some (c ∷ cs, decimal port))
      ≡ some (record { host = c ∷ cs; port = port; path = path })
unfolding finish_uri with_port
finish_uri-decimal c cs path port low high =
    ap (with_port (c ∷ cs) path) (parse_port-decimal port low high)

-- The two ways to write a host with its port.
pub data Form : Type 0 where
  plain bracketed : Form

-- "host:port" or "[host]:port".
abbrev pub authority : Form → List ℕ → ℕ → List ℕ
authority plain host port = host ++ (b':' ∷ decimal port)
authority bracketed host port = b'[' ∷ (host ++ (b']' ∷ b':' ∷ decimal port))

-- A plain host does not start with a bracket, one in brackets has none that closes.
abbrev pub IsHost : Form → List ℕ → Type 0
IsHost plain host = starts_with (codes "[") host ≡ false
IsHost bracketed host = Lacks b']' host

-- The text of the path, and the path that is meant: "/" when none is written.
abbrev pub path_text : Option (List ℕ) → List ℕ
path_text none = []
path_text (some path) = b'/' ∷ path

abbrev pub meant_path : Option (List ℕ) → List ℕ
meant_path none = codes "/"
meant_path (some path) = b'/' ∷ path

decimal-Lacks : (c port : ℕ) → is_digit c ≡ false → Lacks c (decimal port)
decimal-Lacks c port e = AllDigits-Lacks c (decimal port) e (decimal-AllDigits port)

authority-Lacks :
    (form : Form) (host : List ℕ) (port : ℕ)
    → Lacks b'/' host
    → Lacks b'/' (authority form host port)
authority-Lacks plain host port h =
    Lacks-append b'/' host (b':' ∷ decimal port) h (refl, decimal-Lacks b'/' port refl)
authority-Lacks bracketed host port h = (
  refl,
  Lacks-append b'/' host (b']' ∷ b':' ∷ decimal port) h
      (refl, (refl, decimal-Lacks b'/' port refl)),
)

split_host_and_port-authority :
    (form : Form) (c : ℕ) (cs : List ℕ) (port : ℕ)
    → IsHost form (c ∷ cs)
    → split_host_and_port (authority form (c ∷ cs) port) ≡ some (c ∷ cs, decimal port)
split_host_and_port-authority plain c cs port h =
    split_host_and_port-plain (c ∷ cs) (decimal port) h (decimal-Lacks b':' port refl)
split_host_and_port-authority bracketed c cs port h =
    split_host_and_port-bracketed (c ∷ cs) (decimal port) h

append_nil : (xs : List ℕ) → xs ++ [] ≡ xs
append_nil [] = refl
append_nil (x ∷ xs) = ap (λ ys. x ∷ ys) (append_nil xs)

parse_after_scheme-path_text :
    (host_and_port : List ℕ) (path : Option (List ℕ))
    → Lacks b'/' host_and_port
    → parse_after_scheme (host_and_port ++ path_text path)
      ≡ finish_uri (meant_path path) (split_host_and_port host_and_port)
parse_after_scheme-path_text host_and_port none no_slash =
    ap parse_after_scheme (append_nil host_and_port)
    ∙ (parse_after_scheme-path host_and_port [] no_slash).1
parse_after_scheme-path_text host_and_port (some path) no_slash =
    (parse_after_scheme-path host_and_port path no_slash).0

-- "wss://host:port" and "wss://[host]:port", each with and without a path, are taken apart into the
-- host, the port and the path ("/" where none is written), for every port from 1 to 65535 and every
-- host that is not empty, has no slash, and does not start with a bracket, or, written in brackets, has
-- none that closes.
pub parse_hub_uri-authority :
    (form : Form) (c : ℕ) (cs : List ℕ) (port : ℕ) (path : Option (List ℕ))
    → 1 ≤ port
    → port ≤ 65535
    → Lacks b'/' (c ∷ cs)
    → IsHost form (c ∷ cs)
    → parse_hub_uri (codes "wss://" ++ (authority form (c ∷ cs) port ++ path_text path))
      ≡ some (record { host = c ∷ cs; port = port; path = meant_path path })
unfolding parse_hub_uri
parse_hub_uri-authority form c cs port path low high no_slash host =
    parse_after_scheme-path_text (authority form (c ∷ cs) port) path
      (authority-Lacks form (c ∷ cs) port no_slash)
    ∙ ap (finish_uri (meant_path path)) (split_host_and_port-authority form c cs port host)
    ∙ finish_uri-decimal c cs (meant_path path) port low high
