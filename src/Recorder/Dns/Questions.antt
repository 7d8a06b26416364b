-- ===== src/Recorder/Dns/Questions.antt =====
-- recorder/src/decode.rs: which payloads have a question, and which.
use install_scope.Common.{
  ℕ, ◌*◌, ◌≤◌, ◌<◌, ◌≡◌, ◌≢◌, refl, sym, ap, ap₂, ◌∙◌, ◌↔◌, inl, inr, Option, none, some, List, [],
  ◌∷◌, ◌++◌, ltb, if◌then◌else◌, length, drop, length-append, All, arith,
}
use install_scope.Common.Text.{Text, text, join_with}
use install_scope.Recorder.Dns.{
  DnsQuestion, Labels, qdcount, qtype_at, read_labels, question_of, parse_dns_question,
}
use install_scope.Recorder.Dns.Labels.{
  IsLabel, on_wire, StartsWith, StartsWith-read_labels, read_labels-StartsWith,
}

-- The payload has room for a header and a name, counts a question, and asks this one.
pub record Asks (payload : List ℕ) (q : DnsQuestion) : Type 0 where
  pub roomy : 13 ≤ length payload
  pub counted : 1 ≤ qdcount payload
  pub labels : List Text
  pub rest : List ℕ
  pub named : labels ≢ []
  pub labelled : All IsLabel labels
  pub starts : StartsWith 64 labels rest (drop 12 payload)
  pub is_name : q.qname ≡ join_with (text ".") labels
  pub is_type : q.qtype ≡ qtype_at rest

question_of-eq-some :
    (o : Option Labels) (q : DnsQuestion)
    → question_of o ≡ some q
    → (labels : List Text) × (rest : List ℕ) × (o ≡ some (labels, rest))
      × (labels ≢ [])
      × (q.qname ≡ join_with (text ".") labels)
      × (q.qtype ≡ qtype_at rest)
question_of-eq-some none q h = absurd (ground arith)
question_of-eq-some (some ([], rest)) q h = absurd (ground arith)
question_of-eq-some (some (label ∷ labels, rest)) q h =
    let e : record { qname = join_with (text ".") (label ∷ labels); qtype = qtype_at rest } ≡ q =
      ground arith in
    (
      label ∷ labels,
      rest,
      refl,
      λ k. ground arith,
      sym (ap (λ x. x.qname) e),
      sym (ap (λ x. x.qtype) e),
    )

question_of_named :
    (labels : List Text) (rest : List ℕ) (q : DnsQuestion)
    → labels ≢ []
    → q.qname ≡ join_with (text ".") labels
    → q.qtype ≡ qtype_at rest
    → question_of (some (labels, rest)) ≡ some q
question_of_named [] rest q h n t = absurd (h refl)
question_of_named (label ∷ labels) rest q h n t =
    ap₂ (λ x y. some (record { qname = x; qtype = y })) (sym n) (sym t)

guards_iff :
    (n counted : ℕ) (o : Option DnsQuestion) (q : DnsQuestion)
    → ((if ltb n 13 then none else if ltb counted 1 then none else o) ≡ some q)
      ↔ ((13 ≤ n) × (1 ≤ counted) × (o ≡ some q))
guards_iff n counted o q = ground arith

-- What the loop answers: also the first 64 labels of a longer name.
parse_dns_question-Asks :
    (payload : List ℕ) (q : DnsQuestion) → (parse_dns_question payload ≡ some q) ↔ Asks payload q
unfolding parse_dns_question
parse_dns_question-Asks payload q =
    let asked = question_of (read_labels 64 (drop 12 payload)) in
    (
      λ h.
          let (roomy, counted, k) = (guards_iff (length payload) (qdcount payload) asked q).0 h in
          let (labels, rest, r, named, name, type) =
            question_of-eq-some (read_labels 64 (drop 12 payload)) q k in
          let (labelled, starts) = read_labels-StartsWith 64 (drop 12 payload) labels rest r in
          record {
            roomy = roomy;
            counted = counted;
            labels = labels;
            rest = rest;
            named = named;
            labelled = labelled;
            starts = starts;
            is_name = name;
            is_type = type;
          },
      λ a.
          let read =
            StartsWith-read_labels 64 a.labels a.rest (drop 12 payload) a.labelled a.starts in
          (guards_iff (length payload) (qdcount payload) asked q).1 (
            a.roomy,
            a.counted,
            ap question_of read ∙ question_of_named a.labels a.rest q a.named a.is_name a.is_type,
          ),
    )

-- A name whose first 64 labels are not followed by the empty one yet, or not by anything.
abbrev pub HasManyLabels : List ℕ → Type 0
HasManyLabels payload =
    (labels : List Text) × (rest : List ℕ) × All IsLabel labels
    × (length labels ≡ 64)
    × (drop 12 payload ≡ on_wire labels ++ rest)

-- The payload has room for a header and a name, counts a question, and asks this one: the name is that
-- of all the labels up to the empty one, and the type what follows.
pub record AsksWhole (payload : List ℕ) (q : DnsQuestion) : Type 0 where
  pub roomy : 13 ≤ length payload
  pub counted : 1 ≤ qdcount payload
  pub labels : List Text
  pub rest : List ℕ
  pub named : labels ≢ []
  pub labelled : All IsLabel labels
  pub few : length labels < 64
  pub whole : drop 12 payload ≡ on_wire labels ++ 0 ∷ rest
  pub is_name : q.qname ≡ join_with (text ".") labels
  pub is_type : q.qtype ≡ qtype_at rest

-- Every label takes two bytes at least.
pub length-on_wire :
    (labels : List Text) → All IsLabel labels → 2 * length labels ≤ length (on_wire labels)
length-on_wire [] h = omega arith
length-on_wire (label ∷ labels) (l, h) =
    omega (arith, l.visible, length-append label (on_wire labels), length-on_wire labels h)

Asks-AsksWhole :
    (payload : List ℕ) (q : DnsQuestion)
    → ¬ HasManyLabels payload
    → Asks payload q
    → AsksWhole payload q
Asks-AsksWhole payload q few a = elim a.starts [
  | inl (less, e) ↦ record {
    roomy = a.roomy;
    counted = a.counted;
    labels = a.labels;
    rest = a.rest;
    named = a.named;
    labelled = a.labelled;
    few = less;
    whole = e;
    is_name = a.is_name;
    is_type = a.is_type;
  }
  | inr (many, e) ↦ absurd (few (a.labels, a.rest, a.labelled, many, e))
]

-- For any bytes whose name has fewer than 64 labels before its end or before it breaks off: a question is
-- read exactly from a payload of at least 13 bytes that counts one and has labels of 1 to 63 host name
-- characters behind its header, up to an empty label; the name is all of these labels, joined by dots,
-- and the type is in the two bytes that follow, if there are two.
pub parse_dns_question_iff :
    (payload : List ℕ) (q : DnsQuestion)
    → ¬ HasManyLabels payload
    → (parse_dns_question payload ≡ some q) ↔ AsksWhole payload q
parse_dns_question_iff payload q few = (
  λ h. Asks-AsksWhole payload q few ((parse_dns_question-Asks payload q).0 h),
  λ a. (parse_dns_question-Asks payload q).1 (record {
    roomy = a.roomy;
    counted = a.counted;
    labels = a.labels;
    rest = a.rest;
    named = a.named;
    labelled = a.labelled;
    starts = inl (a.few, a.whole);
    is_name = a.is_name;
    is_type = a.is_type;
  }),
)
