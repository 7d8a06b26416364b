-- ===== src/Recorder/DecodingTests.antt =====
-- Tests of the decoding of trace lines, and an instance of each theorem about it.
use install_scope.Common.{
  ℕ, ap, length, length-append, all, not, ◌==◌, Any, ◌+◌, ◌≡◌, refl, ◌↔◌, inr, zero, suc, true,
  false, none, some, List, [], ◌∷◌, ◌++◌, map, arith,
}
use install_scope.Common.Int.{pos, negsuc}
use install_scope.Common.Text.{text_eq, is_whitespace, Text, text, trim, starts_with, join_with}
use install_scope.Recorder.Dns.{DnsQuestion, parse_dns_question}
use install_scope.Recorder.Dns.Labels.{on_wire}
use install_scope.Recorder.Dns.Questions.{
  HasManyLabels, AsksWhole, length-on_wire, parse_dns_question_iff,
}
use install_scope.Recorder.Strings.{quote_mark, backslash, read_quoted}
use install_scope.Recorder.Strings.Escapes.{Renders, line_feed, nothing, plain, named, octal}
use install_scope.Recorder.Strings.Quoting.{read_quoted-Renders}
use install_scope.Recorder.Arguments.{split_args}
use install_scope.Recorder.Arguments.Splitting.{
  Closes, IsNoneOf, letter, inner_comma, bracket, end_bracket, quoted, listed_args,
  split_args-listed_args,
}
use install_scope.Recorder.Results.{parse_ret}
use install_scope.Recorder.Addresses.{inet, parse_sockaddr, is_private}

abbrev query_of : List ℕ → List ℕ
query_of name = 0 ∷ 7 ∷ 1 ∷ 0 ∷ 0 ∷ 1 ∷ 0 ∷ 0 ∷ 0 ∷ 0 ∷ 0 ∷ 0 ∷ name

abbrev short_query : List ℕ
short_query = query_of (3 ∷ text "npm" ++ 2 ∷ text "io" ++ 0 ∷ 0 ∷ 28 ∷ 0 ∷ 1 ∷ [])

abbrev short_question : DnsQuestion
short_question = record { qname = text "npm.io"; qtype = some 28 }

short_query_read : parse_dns_question short_query ≡ some short_question
unfolding parse_dns_question join_with
short_query_read = refl

short_query_few : ¬ HasManyLabels short_query
short_query_few (labels, rest, h, n, e) =
    absurd
      (omega (arith, length-on_wire labels h, n, ap length e, length-append (on_wire labels) rest))

parse_dns_question_iff_example :
    (parse_dns_question short_query ≡ some short_question) ↔ AsksWhole short_query short_question
parse_dns_question_iff_example = parse_dns_question_iff short_query short_question short_query_few

abbrev labels_of_a : ℕ → List ℕ
labels_of_a zero = 0 ∷ 0 ∷ 1 ∷ []
labels_of_a (suc n) = 1 ∷ b'a' ∷ labels_of_a n

abbrev many_as : ℕ → List Text
many_as zero = []
many_as (suc n) = text "a" ∷ many_as n

-- A name of 66 labels is read as its first 64, and the type from the next one.
long_name_cut :
    parse_dns_question (query_of (labels_of_a 66))
    ≡ some (record { qname = join_with (text ".") (many_as 64); qtype = some (256 + b'a') })
unfolding parse_dns_question
long_name_cut = refl

-- The bytes of `a`, a line feed, an escape and a null.
abbrev rendered_bytes :
    Renders
      (b'a' ∷ 10 ∷ 27 ∷ 0 ∷ [])
      (b'a' ∷ backslash ∷ b'n' ∷ backslash ∷ b'3' ∷ b'3' ∷ backslash ∷ b'0' ∷ [])
rendered_bytes = plain b'a' refl refl refl (
    named b'n' 10 line_feed (
      octal 3 (3 ∷ []) (omega arith, (omega arith, tt)) (omega arith) (inr (omega arith, refl))
        (octal 0 [] (omega arith, tt) (omega arith) (inr (omega arith, tt)) nothing)))

read_quoted-Renders_example :
    read_quoted (quote_mark ∷ text "a\\n\\33\\0" ++ quote_mark ∷ text "...")
    ≡ some (record { bytes = b'a' ∷ 10 ∷ 27 ∷ 0 ∷ []; end = 13; truncated = true })
unfolding starts_with
read_quoted-Renders_example =
    read_quoted-Renders (b'a' ∷ 10 ∷ 27 ∷ 0 ∷ []) (text "a\\n\\33\\0") (text "...") rendered_bytes

abbrev arguments : Text
arguments = listed_args ((quote_mark ∷ text "a, b" ++ quote_mark ∷ []) ∷ []) (text " {1, 2}")

a_comma_b : Renders (text "a, b") (text "a, b")
a_comma_b =
    plain b'a' refl refl refl
      (plain b',' refl refl refl (plain 32 refl refl refl (plain b'b' refl refl refl nothing)))

first_argument : Closes 0 (quote_mark ∷ text "a, b" ++ quote_mark ∷ [])
first_argument = quoted (text "a, b") (text "a, b") a_comma_b tt Closes.nothing

tested : (chars : List ℕ) (c : ℕ) → all (λ d. not (c == d)) chars ≡ true → IsNoneOf chars c
tested [] c h = tt
tested (d ∷ chars) c h = (λ e. ground arith, tested chars c (ground arith))

plain_letter :
    {n : ℕ} {s : Text} (c : ℕ)
    → all (λ d. not (c == d)) (text "\"()[]{},") ≡ true
    → Closes n s
    → Closes n (c ∷ s)
plain_letter c h = letter c (tested (text "\"()[]{},") c h)

last_argument : Closes 0 (text " {1, 2}")
last_argument = plain_letter 32 refl (
    bracket b'{' (Any.there (Any.there (Any.here refl))) (omega arith) (
      plain_letter b'1' refl (
        inner_comma (
          plain_letter 32 refl (
            plain_letter b'2' refl
              (end_bracket b'}' (Any.there (Any.there (Any.here refl))) Closes.nothing))))))

split_args-listed_args_example :
    split_args arguments ≡ (quote_mark ∷ text "a, b" ++ quote_mark ∷ []) ∷ text "{1, 2}" ∷ []
unfolding trim
split_args-listed_args_example =
    split_args-listed_args ((quote_mark ∷ text "a, b" ++ quote_mark ∷ []) ∷ []) (text " {1, 2}")
      (first_argument, tt) last_argument

-- An opened file, a failure, and a connection under way.
opened_ret : parse_ret (text " = 7<TCP:[10.1.0.4:50001->104.16.0.1:443]>") ≡ record {
  ok = some true;
  value = some (pos 7);
  error = none;
  annotation = some (text "TCP:[10.1.0.4:50001->104.16.0.1:443]");
}
unfolding parse_ret is_whitespace
opened_ret = refl

failed_ret : parse_ret (text " = -1 ENOENT (No such file or directory)") ≡ record {
  ok = some false;
  value = some (negsuc 0);
  error = some (text "ENOENT");
  annotation = none;
}
unfolding parse_ret is_whitespace text_eq
failed_ret = refl

pending_ret : (parse_ret (text " = -1 EINPROGRESS (Operation now in progress)")).ok ≡ some true
unfolding parse_ret is_whitespace text_eq
pending_ret = refl

inet_address :
    parse_sockaddr (text "{sa_family=AF_INET, sin_port=htons(443), sin_addr=inet_addr(104.16.0.1)}")
    ≡ some
        (record { family = inet; ip = some (text "104.16.0.1"); port = some 443; unix_path = none })
unfolding parse_sockaddr text_eq
inet_address = refl

private_hosts :
    map is_private (
      text "172.16.0.1"
      ∷ text "172.32.0.1"
      ∷ text "100.64.0.1"
      ∷ text "FE80::1"
      ∷ text "8.8.8.8"
      ∷ [])
    ≡ true ∷ false ∷ true ∷ true ∷ false ∷ []
unfolding is_private text_eq
private_hosts = refl
