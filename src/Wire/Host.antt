-- ===== src/Wire/Host.antt =====
-- `CanonicalHost::parse` of src/wire.rs, over the bytes of the text. Bytes that are not UTF-8 are
-- bytes above 127, which the test of a label refuses with the error that the decoder gives for them.
-- An IPv6 address has a colon, which is refused in the same way, so of `parse::<IpAddr>` the IPv4
-- form is left to test.
use quicp.Prelude.{
  ℕ, ◌+◌, ◌*◌, ◌-◌, Bool, true, false, List, [], ◌∷◌, length, ltb, leb, ◌==◌, ◌||◌, ◌&&◌, not,
  if◌then◌else◌, Result, ok, err,
}
use quicp.Wire.{WireError, invalid_host}

abbrev pub max_canonical_host_bytes : ℕ
max_canonical_host_bytes = 253

abbrev cons_first : ℕ → List (List ℕ) → List (List ℕ)
cons_first b [] = (b ∷ []) ∷ []
cons_first b (l ∷ ls) = (b ∷ l) ∷ ls

-- `host.split('.')`
unfoldable pub split_dots : List ℕ → List (List ℕ)
split_dots [] = [] ∷ []
split_dots (b ∷ bs) = let rest = split_dots bs in if b == b'.' then [] ∷ rest else cons_first b rest

unfoldable pub contains_dot : List ℕ → Bool
contains_dot [] = false
contains_dot (b ∷ bs) = b == b'.' || contains_dot bs

abbrev is_digit : ℕ → Bool
is_digit b = leb b'0' b && leb b b'9'

abbrev is_label_byte : ℕ → Bool
is_label_byte b = leb b'a' b && leb b b'z' || (is_digit b || b == b'-')

all_bytes : (ℕ → Bool) → List ℕ → Bool
all_bytes p [] = true
all_bytes p (b ∷ bs) = p b && all_bytes p bs

starts_with_hyphen : List ℕ → Bool
starts_with_hyphen [] = false
starts_with_hyphen (b ∷ bs) = b == b'-'

ends_with_hyphen : List ℕ → Bool
ends_with_hyphen [] = false
ends_with_hyphen (b ∷ []) = b == b'-'
ends_with_hyphen (b ∷ c ∷ bs) = ends_with_hyphen (c ∷ bs)

unfoldable pub label_refused : List ℕ → Bool
unfolding all_bytes starts_with_hyphen ends_with_hyphen
label_refused l =
    length l == 0
    || (ltb 63 (length l)
        || (starts_with_hyphen l || (ends_with_hyphen l || not (all_bytes is_label_byte l))))

unfoldable pub any_label_refused : List (List ℕ) → Bool
unfolding label_refused
any_label_refused [] = false
any_label_refused (l ∷ ls) = label_refused l || any_label_refused ls

decimal : ℕ → List ℕ → ℕ
decimal acc [] = acc
decimal acc (b ∷ bs) = decimal (acc * 10 + (b - b'0')) bs

leading_zero : List ℕ → Bool
leading_zero [] = false
leading_zero (b ∷ []) = false
leading_zero (b ∷ c ∷ bs) = b == b'0'

-- One to three digits, up to 255, and no zero in front of another digit.
is_octet : List ℕ → Bool
unfolding decimal leading_zero all_bytes
is_octet l =
    not (length l == 0)
    && (leb (length l) 3
        && (all_bytes is_digit l && (not (leading_zero l) && leb (decimal 0 l) 255)))

unfoldable pub is_ipv4 : List (List ℕ) → Bool
unfolding is_octet
is_ipv4 (a ∷ b ∷ c ∷ d ∷ []) = is_octet a && (is_octet b && (is_octet c && is_octet d))
is_ipv4 _ = false

unfoldable pub host_refused : List ℕ → Bool
unfolding contains_dot split_dots is_ipv4 any_label_refused
host_refused h =
    ltb max_canonical_host_bytes (length h)
    || (not (contains_dot h) || (is_ipv4 (split_dots h) || any_label_refused (split_dots h)))

-- `CanonicalHost::parse`
unfoldable pub parse_host : List ℕ → Result (List ℕ) WireError
unfolding host_refused
parse_host h = if host_refused h then err invalid_host else ok h
