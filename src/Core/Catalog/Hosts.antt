-- ===== src/Core/Catalog/Hosts.antt =====
-- core/src/catalog.rs: `suffix_matches` and `is_registry_host`, against domains.
use install_scope.Common.{
  ◌≡◌, refl, sym, ap, ◌∙◌, ◌↔◌, ◌⊎◌, inl, inr, true, ◌∷◌, ◌++◌, arith, any, any_iff, Any,
  is_some_and, Option-cases, ||_iff,
}
use mathlib.Core.List.{append_assoc}
use install_scope.Common.Text.{
  Text, text, text_eq_iff, strip_suffix, strip_suffix-eq-some, strip_suffix-append, ends_with,
  ends_with_iff, trim_start_matches, text_eq,
}
use install_scope.Core.Catalog.{
  Catalog, suffix_matches, eq_ignore_ascii_case, to_ascii_lowercase, normalized, is_registry_host,
}

-- A host is in a domain if it is the domain or ends in a dot and the domain.
abbrev pub InDomain : Text → Text → Type 0
InDomain domain host = (host ≡ domain) ⊎ ((p : Text) × (host ≡ p ++ b'.' ∷ domain))

dotted_iff :
    (host domain : Text)
    → (is_some_and (strip_suffix domain host) (λ prefix. ends_with (text ".") prefix) ≡ true)
      ↔ ((p : Text) × (host ≡ p ++ b'.' ∷ domain))
dotted_iff host domain = (
  λ h. elim (Option-cases (strip_suffix domain host)) [
    | inl e ↦ ground arith
    | inr (q, e) ↦
        let (p, cut) = (ends_with_iff (text ".") q).0 (ground arith) in
        (
          p,
          strip_suffix-eq-some domain host q e
              ∙ ap (λ t. t ++ domain) cut
              ∙ append_assoc p (text ".") domain,
        )
  ],
  λ (p, e).
      rw (e ∙ sym (append_assoc p (text ".") domain), strip_suffix-append)
        ((ends_with_iff (text ".") (p ++ text ".")).1 (p, refl)),
)

eq_ignore_ascii_case_iff :
    (s t : Text) → (eq_ignore_ascii_case s t ≡ true) ↔ (to_ascii_lowercase s ≡ to_ascii_lowercase t)
unfolding eq_ignore_ascii_case
eq_ignore_ascii_case_iff s t = text_eq_iff (to_ascii_lowercase s) (to_ascii_lowercase t)

-- A suffix matches exactly the hosts in the domain that it names, its leading dots taken off.
pub suffix_matches_iff :
    (host suffix : Text)
    → (suffix_matches host suffix ≡ true) ↔ InDomain (trim_start_matches b'.' suffix) host
unfolding suffix_matches
suffix_matches_iff host suffix =
    let domain = trim_start_matches b'.' suffix in
    let tests =
      ||_iff (text_eq host domain)
        (is_some_and (strip_suffix domain host) (λ prefix. ends_with (text ".") prefix)) in
    (
      λ h. elim (tests.0 h) [
        | inl same ↦ inl ((text_eq_iff host domain).0 same)
        | inr below ↦ inr ((dotted_iff host domain).0 below)
      ],
      λ u. tests.1 (elim u [
        | inl same ↦ inl ((text_eq_iff host domain).1 same)
        | inr below ↦ inr ((dotted_iff host domain).1 below)
      ]),
    )

-- A host counts as registry infrastructure exactly when, without its trailing dots and in lower
-- case, it is a listed host up to case or lies in a listed domain.
pub is_registry_host_iff :
    (c : Catalog) (host : Text)
    → (is_registry_host c host ≡ true) ↔ (
        Any (λ r. to_ascii_lowercase r ≡ to_ascii_lowercase (normalized host)) c.registry_hosts
        ⊎ Any (λ s. InDomain (trim_start_matches b'.' s) (normalized host)) c.registry_suffixes)
unfolding is_registry_host
is_registry_host_iff c host =
    let hosts =
      any_iff (λ r. eq_ignore_ascii_case r (normalized host)) _
        (λ r. eq_ignore_ascii_case_iff r (normalized host)) c.registry_hosts in
    let suffixes =
      any_iff (λ s. suffix_matches (normalized host) s) _
        (λ s. suffix_matches_iff (normalized host) s) c.registry_suffixes in
    let tests =
      ||_iff (any (λ r. eq_ignore_ascii_case r (normalized host)) c.registry_hosts)
        (any (λ s. suffix_matches (normalized host) s) c.registry_suffixes) in
    (
      λ h. elim (tests.0 h) [ inl a ↦ inl (hosts.0 a) | inr b ↦ inr (suffixes.0 b) ],
      λ u. tests.1 (elim u [ inl a ↦ inl (hosts.1 a) | inr b ↦ inr (suffixes.1 b) ]),
    )
