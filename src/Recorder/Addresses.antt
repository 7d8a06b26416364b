-- ===== src/Recorder/Addresses.antt =====
-- recorder/src/decode.rs: socket addresses as strace renders them, and which are private.
use mathlib.Core.Option.{map}
use mathlib.Core.List.{head?}
use install_scope.Common.{
  ℕ, ◌+◌, ◌-◌, Bool, false, Option, none, some, [], ◌∷◌, ◌++◌, ◌==◌, ◌||◌, ◌&&◌, leb, take, drop,
  get_elem?, if◌then◌else◌,
}
use install_scope.Common.Text.{
  Text, text, text_eq, strip_prefix, starts_with, split, split_where, trim, trim_start_matches,
  trim_end_matches,
}
use install_scope.Core.Catalog.{to_ascii_lowercase}
use install_scope.Recorder.Descriptors.{find_char, rfind_char, number_of}

pub data SockFamily : Type 0 where
  inet : SockFamily
  inet6 : SockFamily
  unix : SockFamily
  other : SockFamily

pub record SockAddr : Type 0 where
  pub family : SockFamily
  pub ip : Option Text
  pub port : Option ℕ
  pub unix_path : Option Text

-- `str::find` of a text that is not empty: what stands before it and behind it.
unfoldable pub split_once : Text → Text → Option (Text × Text)
unfolding strip_prefix
split_once needle [] = none
split_once needle (c ∷ s) = elim (strip_prefix needle (c ∷ s)) [
  | some rest ↦ some ([], rest)
  | none ↦ map (λ (before, behind). (c ∷ before, behind)) (split_once needle s)
]

abbrev trimmed : Option Text → Option Text
trimmed o = map trim o

abbrev field_value : Option (Text × Text) → Option Text
field_value none = none
field_value (some (_, rest)) = trimmed (head? (split_where (λ c. c == b',' || c == b'}') rest))

abbrev pub struct_field : Text → Text → Option Text
struct_field s key = field_value (split_once (key ++ text "=") s)

abbrev trim_quotes : Text → Text
trim_quotes s = trim_end_matches 34 (trim_start_matches 34 s)

abbrev call_between : Text → Option ℕ → Option ℕ → Option Text
call_between s none _ = none
call_between s (some start) none = none
call_between s (some start) (some end) =
    if leb end start
    then none
    else some (trim_quotes (trim (take (end - (start + 1)) (drop (start + 1) s))))

abbrev pub unwrap_call : Text → Option Text
unwrap_call s = call_between s (find_char b'(' s) (rfind_char b')' s)

abbrev and_unwrapped : Option Text → Option Text
and_unwrapped none = none
and_unwrapped (some s) = unwrap_call s

-- `parse` of an unsigned number with a largest value.
abbrev at_most : ℕ → Option ℕ → Option ℕ
at_most limit none = none
at_most limit (some n) = if leb n limit then some n else none

abbrev pub parse_unsigned : ℕ → Text → Option ℕ
parse_unsigned limit [] = none
parse_unsigned limit (c ∷ s) = at_most limit (if c == b'+' then number_of s else number_of (c ∷ s))

abbrev port_of : Option Text → Option ℕ
port_of none = none
port_of (some s) = parse_unsigned 65535 s

abbrev second_quoted : Option Text → Option Text
second_quoted none = none
second_quoted (some f) = get_elem? (split 34 f) 1

abbrev or_literal : Option Text → Option Text → Option Text
or_literal (some s) _ = some s
or_literal none o = o

abbrev pton : Text
pton = text "inet_pton(AF_INET6, " ++ 34 ∷ []

-- The second piece of a text that is split at each call.
abbrev piece_before : Text → Option (Text × Text) → Text
piece_before s none = s
piece_before s (some (before, _)) = before

abbrev pton_argument : Option (Text × Text) → Option Text
pton_argument none = none
pton_argument (some (_, r)) = head? (split 34 (piece_before r (split_once pton r)))

abbrev of_family : Text → Text → SockAddr
of_family s family =
    if text_eq family (text "AF_INET")
    then record {
      family = inet;
      ip = and_unwrapped (struct_field s (text "sin_addr"));
      port = port_of (and_unwrapped (struct_field s (text "sin_port")));
      unix_path = none;
    }
    else if text_eq family (text "AF_INET6")
    then record {
      family = inet6;
      ip =
          or_literal (second_quoted (struct_field s (text "sin6_addr")))
            (pton_argument (split_once pton s));
      port = port_of (and_unwrapped (struct_field s (text "sin6_port")));
      unix_path = none;
    }
    else if text_eq family (text "AF_UNIX")
    then record {
      family = unix;
      ip = none;
      port = none;
      unix_path = map trim_quotes (struct_field s (text "sun_path"));
    }
    else record { family = other; ip = none; port = none; unix_path = none }

unfoldable pub parse_sockaddr : Text → Option SockAddr
unfolding split_once split_where trim split
parse_sockaddr struct_text =
    map (of_family struct_text) (struct_field struct_text (text "sa_family"))

unfoldable pub is_loopback : Text → Bool
unfolding starts_with
is_loopback ip = text_eq ip (text "::1") || starts_with (text "127.") ip

abbrev octet_in : ℕ → ℕ → Option ℕ → Bool
octet_in low high none = false
octet_in low high (some octet) = leb low octet && leb octet high

abbrev octet_of : Option Text → Option ℕ
octet_of none = none
octet_of (some o) = parse_unsigned 255 o

abbrev second_in : ℕ → ℕ → Option Text → Bool
second_in low high none = false
second_in low high (some rest) = octet_in low high (octet_of (head? (split b'.' rest)))

unfoldable pub is_private : Text → Bool
unfolding is_loopback starts_with strip_prefix split to_ascii_lowercase
is_private ip =
    let lower = to_ascii_lowercase ip in
    is_loopback ip
    || (starts_with (text "10.") ip
        || starts_with (text "192.168.") ip
        || starts_with (text "169.254.") ip)
    || second_in 16 31 (strip_prefix (text "172.") ip)
    || second_in 64 127 (strip_prefix (text "100.") ip)
    || (starts_with (text "fe80:") lower
        || starts_with (text "fc") lower
        || starts_with (text "fd") lower)
