-- ===== src/Recorder/Dns.antt =====
-- recorder/src/decode.rs: the first question of a DNS query. A payload is its bytes, and an offset into
-- it is what follows there.
pub mod Labels
pub mod Questions
use mathlib.Core.Option.{map}
use install_scope.Common.{
  ℕ, suc, zero, ◌+◌, ◌*◌, Bool, true, false, Option, none, some, List, [], ◌∷◌, ◌==◌, ◌||◌, ◌&&◌,
  leb, ltb, all, length, take, drop, get_elem?, if◌then◌else◌,
}
use install_scope.Common.Text.{Text, text, join_with}
use install_scope.Common.Text.Utf8.{from_utf8_lossy}

pub record DnsQuestion : Type 0 where
  pub qname : Text
  pub qtype : Option ℕ

abbrev is_ascii_alphanumeric : ℕ → Bool
is_ascii_alphanumeric b =
    leb b'0' b && leb b b'9' || leb b'A' b && leb b b'Z' || leb b'a' b && leb b b'z'

abbrev pub is_label_byte : ℕ → Bool
is_label_byte b = is_ascii_alphanumeric b || b == b'-' || b == b'_' || b == b'*'

-- Two bytes, the high one first.
abbrev from_be_bytes : ℕ → ℕ → ℕ
from_be_bytes high low = high * 256 + low

abbrev pub qdcount : List ℕ → ℕ
qdcount (_ ∷ _ ∷ _ ∷ _ ∷ high ∷ low ∷ _) = from_be_bytes high low
qdcount _ = 0

abbrev pub qtype_at : List ℕ → Option ℕ
qtype_at (high ∷ low ∷ _) = some (from_be_bytes high low)
qtype_at _ = none

abbrev pub Labels : Type 0
Labels = List Text × List ℕ

abbrev pub with_label : Text → Option Labels → Option Labels
with_label label none = none
with_label label (some (labels, rest)) = some (label ∷ labels, rest)

-- The loop over the labels, with the rounds that are left. A length of 64 and more has one of the top
-- two bits of the byte.
unfoldable pub read_labels : ℕ → List ℕ → Option Labels
unfolding from_utf8_lossy
read_labels zero s = some ([], s)
read_labels (suc rounds) [] = none
read_labels (suc rounds) (len ∷ s) =
    let label = take len s in
    let later = with_label (from_utf8_lossy label) (read_labels rounds (drop len s)) in
    if len == 0
    then some ([], s)
    else if leb 64 len
    then none
    else if ltb (length s) len
    then none
    else if all is_label_byte label
    then later
    else none

abbrev pub question_of : Option Labels → Option DnsQuestion
question_of none = none
question_of (some ([], rest)) = none
question_of (some (label ∷ labels, rest)) =
    some (record { qname = join_with (text ".") (label ∷ labels); qtype = qtype_at rest })

unfoldable pub parse_dns_question : List ℕ → Option DnsQuestion
unfolding read_labels
parse_dns_question payload =
    if ltb (length payload) 13
    then none
    else if ltb (qdcount payload) 1
    then none
    else question_of (read_labels 64 (drop 12 payload))
