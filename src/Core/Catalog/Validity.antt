-- ===== src/Core/Catalog/Validity.antt =====
-- core/src/catalog.rs: `validate`, `from_yaml` and `load`, against what a catalog must be.
use mathlib.Core.Path.{subst, subst⁻¹}
use install_scope.Common.{
  ℕ, ◌+◌, ◌⊎◌, inl, inr, ◌∙◌, ◌≡◌, refl, ap, ◌≢◌, ◌↔◌, Bool, true, false, not, List, [], ◌∷◌, arith,
  any, all, any_iff, all_iff, any-false_iff, iff_trans, not-Any-nil, not-eq-false, ==_iff, All, Any,
}
use install_scope.Common.Text.{Text, text_eq, text_eq_iff, trim-ne-nil_iff, trim, is_whitespace}
use install_scope.Core.Catalog.{
  Rule, Catalog, CatalogError, no_enabled_rules, Checked, ok, err, ◌>>=◌, ◌>>◌, refuse_if, is_empty,
  is_id_char, check_rule, check_rules, validate, catalog_version, from_yaml, load, or_parse, or_io,
}

-- Lowercase letters, digits and underscores, at least one.
abbrev pub IsIdText : Text → Type 0
IsIdText id = (id ≢ []) × All (λ c. is_id_char c ≡ true) id

-- Some character is no white space.
abbrev pub IsVisible : Text → Type 0
IsVisible s = Any (λ c. is_whitespace c ≡ false) s

pub record IsWellFormedRule (rule : Rule) : Type 0 where
  pub id_text : IsIdText rule.id
  pub titled : IsVisible rule.title

-- The ids of the rules differ from one another and from those in `seen`.
abbrev pub AreNew : List Text → List Rule → Type 0
AreNew seen [] = Unit
AreNew seen (rule ∷ rules) = All (λ id. rule.id ≢ id) seen × AreNew (rule.id ∷ seen) rules

pub record IsWellFormed (c : Catalog) : Type 0 where
  pub versioned : c.version ≡ catalog_version
  pub each : All IsWellFormedRule c.rules
  pub distinct : AreNew [] c.rules
  pub some_enabled : Any (λ rule. rule.enabled ≡ true) c.rules

is_empty_iff : (s : Text) → (is_empty s ≡ false) ↔ (s ≢ [])
is_empty_iff [] = (λ h. ground arith, λ h. absurd (h refl))
is_empty_iff (c ∷ s) = (λ h e. ground arith, λ h. refl)

trim_test_iff : (s : Text) → (is_empty (trim s) ≡ false) ↔ IsVisible s
trim_test_iff s = iff_trans (is_empty_iff (trim s)) (trim-ne-nil_iff s)

-- A rule passes exactly when each of its four guards does.
check_rule-guards :
    (position : ℕ) (seen : List Text) (rule : Rule)
    → (check_rule position seen rule ≡ ok tt) ↔ (
        (is_empty (trim rule.id) ≡ false)
        × (all is_id_char rule.id ≡ true)
        × (any (text_eq rule.id) seen ≡ false)
        × (is_empty (trim rule.title) ≡ false))
unfolding check_rule
check_rule-guards position seen rule = ground arith

-- An id character is no white space.
id_char_visible : (c : ℕ) → is_id_char c ≡ true → is_whitespace c ≡ false
unfolding is_whitespace
id_char_visible c h = ground arith

id-IsVisible : (id : Text) → IsIdText id → IsVisible id
id-IsVisible [] (h, _) = absurd (h refl)
id-IsVisible (c ∷ id) (_, (p, _)) = Any.here (id_char_visible c p)

ne-nil_of_visible : (id : Text) → IsVisible id → id ≢ []
ne-nil_of_visible [] h = λ _. not-Any-nil h
ne-nil_of_visible (c ∷ id) h = λ e. ground arith

seen_iff :
    (id : Text) (seen : List Text)
    → (any (text_eq id) seen ≡ false) ↔ All (λ other. id ≢ other) seen
seen_iff id seen = any-false_iff (text_eq id) (λ other. id ≡ other) (text_eq_iff id) seen

check_rule_iff :
    (position : ℕ) (seen : List Text) (rule : Rule)
    → (check_rule position seen rule ≡ ok tt)
      ↔ (IsWellFormedRule rule × All (λ id. rule.id ≢ id) seen)
check_rule_iff position seen rule =
    let guards = check_rule-guards position seen rule in
    (
      λ h.
          let (id_full, id_chars, id_new, title_full) = guards.0 h in
          (
            record {
              id_text = (
                ne-nil_of_visible rule.id ((trim_test_iff rule.id).0 id_full),
                (all_iff is_id_char rule.id).0 id_chars,
              );
              titled = (trim_test_iff rule.title).0 title_full;
            },
            (seen_iff rule.id seen).0 id_new,
          ),
      λ (w, new). guards.1 (
        (trim_test_iff rule.id).1 (id-IsVisible rule.id w.id_text),
        (all_iff is_id_char rule.id).1 w.id_text.1,
        (seen_iff rule.id seen).1 new,
        (trim_test_iff rule.title).1 w.titled,
      ),
    )

-- Of two checks in a row.
both_ok_iff : (m k : Checked (Unit {0})) → ((m >> k) ≡ ok tt) ↔ ((m ≡ ok tt) × (k ≡ ok tt))
both_ok_iff (ok u) k = (λ h. (refl, h), λ h. h.1)
both_ok_iff (err e) k = (λ h. cc, λ h. cc)

check_rules_iff :
    (position : ℕ) (seen : List Text) (rules : List Rule)
    → (check_rules position seen rules ≡ ok tt) ↔ (All IsWellFormedRule rules × AreNew seen rules)
unfolding check_rules
check_rules_iff position seen [] = (λ _. (tt, tt), λ _. refl)
check_rules_iff position seen (rule ∷ rules) =
    let both =
      both_ok_iff (check_rule position seen rule)
        (check_rules (position + 1) (rule.id ∷ seen) rules) in
    let one = check_rule_iff position seen rule in
    let rest = check_rules_iff (position + 1) (rule.id ∷ seen) rules in
    (
      λ h.
          let (first, later) = both.0 h in
          let (w, new) = one.0 first in let (ws, news) = rest.0 later in ((w, ws), (new, news)),
      λ ((w, ws), (new, news)). both.1 (one.1 (w, new), rest.1 (ws, news)),
    )

refuse_if_iff : (b : Bool) (e : CatalogError) → (refuse_if b e ≡ ok tt) ↔ (b ≡ false)
refuse_if_iff true e = (λ h. cc, λ h. cc)
refuse_if_iff false e = (λ _. refl, λ _. refl)

-- `validate` accepts exactly the well-formed catalogs: of the supported version, every id a text of
-- lowercase letters, digits and underscores, no id twice, every title visible, and some rule enabled.
pub validate_iff : (c : Catalog) → (validate c ≡ ok tt) ↔ IsWellFormed c
unfolding validate
validate_iff c =
    let enabled =
      any_iff (λ (rule : Rule). rule.enabled) (λ rule. rule.enabled ≡ true)
        (λ rule. (λ h. h, λ h. h)) c.rules in
    let version = ==_iff c.version catalog_version in
    let tail =
      both_ok_iff (check_rules 0 [] c.rules)
        (refuse_if (not (any (λ rule. rule.enabled) c.rules)) no_enabled_rules) in
    let whole = both_ok_iff _ (
      check_rules 0 [] c.rules
      >> refuse_if (not (any (λ rule. rule.enabled) c.rules)) no_enabled_rules) in
    (
      λ h.
          let (v, rest) = whole.0 h in
          let (checked, on) = tail.0 rest in
          let (each, distinct) = (check_rules_iff 0 [] c.rules).0 checked in
          record {
            versioned = version.0 (not-eq-false _ ((refuse_if_iff _ _).0 v));
            each = each;
            distinct = distinct;
            some_enabled = enabled.0 (not-eq-false _ ((refuse_if_iff _ _).0 on));
          },
      λ w. whole.1 (
        rw (version.1 w.versioned) refl,
        tail.1 (
          (check_rules_iff 0 [] c.rules).1 (w.each, w.distinct),
          rw (enabled.1 w.some_enabled) refl,
        ),
      ),
    )

kept_iff : (v : Checked (Unit {0})) (d c : Catalog) → ((v >> ok d) ≡ ok c) ↔ ((d ≡ c) × (v ≡ ok tt))
kept_iff (ok u) d c = (λ h. (ground arith, refl), λ h. ap ok h.0)
kept_iff (err e) d c = (λ h. cc, λ h. cc)

from_parsed_iff :
    (m : Checked Catalog) (c : Catalog)
    → ((m >>= λ d. validate d >> ok d) ≡ ok c) ↔ ((m ≡ ok c) × (validate c ≡ ok tt))
from_parsed_iff (ok d) c = (
  λ h.
      let (same, valid) = (kept_iff (validate d) d c).0 h in
      (ap ok same, subst (λ x. validate x ≡ ok tt) same valid),
  λ (e, valid).
      let same : d ≡ c = ground arith in
      (kept_iff (validate d) d c).1 (same, subst⁻¹ (λ x. validate x ≡ ok tt) same valid),
)
from_parsed_iff (err e) c = (λ h. cc, λ h. cc)

or_parse_iff : (m : Text ⊎ Catalog) (c : Catalog) → (or_parse m ≡ ok c) ↔ (m ≡ inr c)
or_parse_iff (inl e) c = (λ h. ground arith, λ h. ground arith)
or_parse_iff (inr d) c = (λ h. ground arith, λ h. ground arith)

or_io_iff : (path : Text) (m : Text ⊎ Text) (s : Text) → (or_io path m ≡ ok s) ↔ (m ≡ inr s)
or_io_iff path (inl e) s = (λ h. ground arith, λ h. ground arith)
or_io_iff path (inr t) s = (λ h. ground arith, λ h. ground arith)

-- Whatever the parser does, `from_yaml` returns a catalog exactly when the parser returns it and it
-- is well-formed.
pub from_yaml_iff :
    (from_str : Text → Text ⊎ Catalog) (source : Text) (c : Catalog)
    → (from_yaml from_str source ≡ ok c) ↔ ((from_str source ≡ inr c) × IsWellFormed c)
unfolding from_yaml
from_yaml_iff from_str source c =
    let parsed = from_parsed_iff (or_parse (from_str source)) c in
    let read = or_parse_iff (from_str source) c in
    (
      λ h. let (e, valid) = parsed.0 h in (read.0 e, (validate_iff c).0 valid),
      λ (e, w). parsed.1 (read.1 e, (validate_iff c).1 w),
    )

loaded_iff :
    (m : Checked Text) (f : Text → Checked Catalog) (c : Catalog)
    → ((m >>= f) ≡ ok c) ↔ ((s : Text) × (m ≡ ok s) × (f s ≡ ok c))
loaded_iff (ok t) f c =
    (λ h. (t, refl, h), λ (s, e, h). let same : t ≡ s = ground arith in ap f same ∙ h)
loaded_iff (err e) f c = (λ h. ground arith, λ (s, e', _). ground arith)

-- Whatever the file system and the parser do, `load` returns a catalog exactly when the file can be
-- read, the parser returns the catalog from its content, and the catalog is well-formed.
pub load_iff :
    (read_to_string : Text → Text ⊎ Text) (from_str : Text → Text ⊎ Catalog) (path : Text)
    (c : Catalog)
    → (load read_to_string from_str path ≡ ok c)
      ↔ ((s : Text) × (read_to_string path ≡ inr s) × (from_str s ≡ inr c) × IsWellFormed c)
unfolding load
load_iff read_to_string from_str path c =
    let loaded = loaded_iff (or_io path (read_to_string path)) (from_yaml from_str) c in
    (
      λ h.
          let (s, read, parsed) = loaded.0 h in
          let (e, w) = (from_yaml_iff from_str s c).0 parsed in
          (s, (or_io_iff path (read_to_string path) s).0 read, e, w),
      λ (s, read, e, w). loaded.1 (
        s,
        (or_io_iff path (read_to_string path) s).1 read,
        (from_yaml_iff from_str s c).1 (e, w),
      ),
    )
