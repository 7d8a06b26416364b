-- ===== src/Core/Catalog.antt =====
-- core/src/catalog.rs: the rule catalog, its validation and its lists of hosts, paths and programs.
-- The YAML parser and the file system are parameters of `from_yaml` and `load`.
pub mod Validity
pub mod Hosts
pub mod Choice
use install_scope.Common.{
  ℕ, ◌+◌, ◌⊎◌, inl, inr, Bool, true, false, Option, none, some, List, [], ◌∷◌, ◌++◌, ◌==◌, ◌&&◌,
  ◌||◌, not, leb, any, all, find, if◌then◌else◌, is_some_and, unwrap_or, map,
}
use mathlib.Core.List.{reverse, head?}
use install_scope.Common.Text.{
  Text, text, text_eq, trim, trim_end_where, trim_start_where, trim_end_matches, trim_start_matches,
  strip_suffix, ends_with, contains_text, starts_with, rsplit,
}
use install_scope.Core.Findings.{Severity}
use install_scope.Core.Coverage.{
  ObservationClass, filesystem_writes, credential_reads, network_connections, dns_queries,
  process_spawns,
}

abbrev pub catalog_version : ℕ
catalog_version = 1

pub data RuleKind : Type 0 where
  write_outside_zones chmod_executable_outside_zones : RuleKind
  credential_read credential_read_failed npmrc_read : RuleKind
  dns_outside_registry dns_binary_distribution : RuleKind
  connect_unusual_port connect_external : RuleKind
  download_piped_to_shell spawn_network_tool spawn_unexpected : RuleKind

unfoldable pub observation_class : RuleKind → ObservationClass
observation_class write_outside_zones = filesystem_writes
observation_class chmod_executable_outside_zones = filesystem_writes
observation_class credential_read = credential_reads
observation_class credential_read_failed = credential_reads
observation_class npmrc_read = credential_reads
observation_class dns_outside_registry = dns_queries
observation_class dns_binary_distribution = dns_queries
observation_class connect_unusual_port = network_connections
observation_class connect_external = network_connections
observation_class download_piped_to_shell = process_spawns
observation_class spawn_network_tool = process_spawns
observation_class spawn_unexpected = process_spawns

-- The derived order of the kinds, and the derived equality by it.
abbrev pub kind_index : RuleKind → ℕ
kind_index write_outside_zones = 0
kind_index chmod_executable_outside_zones = 1
kind_index credential_read = 2
kind_index credential_read_failed = 3
kind_index npmrc_read = 4
kind_index dns_outside_registry = 5
kind_index dns_binary_distribution = 6
kind_index connect_unusual_port = 7
kind_index connect_external = 8
kind_index download_piped_to_shell = 9
kind_index spawn_network_tool = 10
kind_index spawn_unexpected = 11

abbrev pub kind_eq : RuleKind → RuleKind → Bool
kind_eq a b = kind_index a == kind_index b

pub record Rule : Type 0 where
  pub id : Text
  pub severity : Severity
  pub kind : RuleKind
  pub title : Text
  pub note : Option Text
  pub enabled : Bool

pub record Catalog : Type 0 where
  pub version : ℕ
  pub registry_hosts : List Text
  pub registry_suffixes : List Text
  pub binary_distribution_suffixes : List Text
  pub credential_paths : List Text
  pub credential_filenames : List Text
  pub network_tools : List Text
  pub expected_spawns : List Text
  pub rules : List Rule

-- `parse` and `io` carry what the YAML parser and the file system report.
pub data CatalogError : Type 0 where
  parse : Text → CatalogError
  unsupported_version : ℕ → ℕ → CatalogError
  duplicate_id : Text → CatalogError
  invalid_id : ℕ → Text → CatalogError
  empty_title : Text → CatalogError
  no_enabled_rules : CatalogError
  io : Text → Text → CatalogError

pub data Checked {ℓ} (A : Type ℓ) : Type ℓ where
  ok : A → Checked A
  err : CatalogError → Checked A

infixl 5 ◌>>=◌ ◌>>◌
abbrev pub ◌>>=◌ {ℓ κ} : {A : Type ℓ} {B : Type κ} → Checked A → (A → Checked B) → Checked B
ok a >>= f = f a
err e >>= f = err e

abbrev pub ◌>>◌ {ℓ} : {B : Type ℓ} → Checked (Unit {0}) → Checked B → Checked B
m >> k = m >>= λ _. k

-- `return Err(e)` under a test.
abbrev pub refuse_if : Bool → CatalogError → Checked (Unit {0})
refuse_if true e = err e
refuse_if false e = ok tt

abbrev pub is_empty : Text → Bool
is_empty [] = true
is_empty (_ ∷ _) = false

-- A byte that may stand in an id. A byte of a longer code point is none, nor is that code point.
abbrev pub is_id_char : ℕ → Bool
is_id_char c = leb b'a' c && leb c b'z' || leb b'0' c && leb c b'9' || c == b'_'

abbrev pub bad_id_reason : Text → Text
bad_id_reason id = text "`" ++ id ++ text "` must be lowercase ascii, digits, and underscores only"

-- One round of the loop over the rules: `seen` holds the ids of the rules before it.
unfoldable pub check_rule : ℕ → List Text → Rule → Checked (Unit {0})
check_rule position seen rule = do
  refuse_if (is_empty (trim rule.id)) (invalid_id position (text "empty"))
  refuse_if (not (all is_id_char rule.id)) (invalid_id position (bad_id_reason rule.id))
  refuse_if (any (text_eq rule.id) seen) (duplicate_id rule.id)
  refuse_if (is_empty (trim rule.title)) (empty_title rule.id)

unfoldable pub check_rules : ℕ → List Text → List Rule → Checked (Unit {0})
check_rules position seen [] = ok tt
check_rules position seen (rule ∷ rules) = do
  check_rule position seen rule
  check_rules (position + 1) (rule.id ∷ seen) rules

unfoldable pub validate : Catalog → Checked (Unit {0})
validate c = do
  refuse_if (not (c.version == catalog_version)) (unsupported_version c.version catalog_version)
  check_rules 0 [] c.rules
  refuse_if (not (any (λ rule. rule.enabled) c.rules)) no_enabled_rules

-- `?` on the parser's result, and `map_err` with `?` on the reader's: an error is text.
abbrev pub or_parse : Text ⊎ Catalog → Checked Catalog
or_parse (inl error) = err (parse error)
or_parse (inr catalog) = ok catalog

abbrev pub or_io : Text → Text ⊎ Text → Checked Text
or_io path (inl source) = err (io path source)
or_io path (inr content) = ok content

-- `Catalog::from_yaml`, with the parser as a parameter.
unfoldable pub from_yaml : (Text → Text ⊎ Catalog) → Text → Checked Catalog
from_yaml from_str source = do catalog ← or_parse (from_str source); validate catalog; ok catalog

-- `Catalog::load`, with `read_to_string` as a parameter too.
unfoldable pub load : (Text → Text ⊎ Text) → (Text → Text ⊎ Catalog) → Text → Checked Catalog
load read_to_string from_str path = do
  source ← or_io path (read_to_string path)
  from_yaml from_str source

unfoldable pub rule_for : Catalog → RuleKind → Option Rule
rule_for c kind = find (λ rule. rule.enabled && kind_eq rule.kind kind) c.rules

-- `to_ascii_lowercase` and `eq_ignore_ascii_case`
abbrev pub lower : ℕ → ℕ
lower c = if leb b'A' c && leb c b'Z' then c + 32 else c

unfoldable pub to_ascii_lowercase : Text → Text
to_ascii_lowercase = map lower

unfoldable pub eq_ignore_ascii_case : Text → Text → Bool
unfolding text_eq to_ascii_lowercase
eq_ignore_ascii_case s t = text_eq (to_ascii_lowercase s) (to_ascii_lowercase t)

unfoldable pub suffix_matches : Text → Text → Bool
suffix_matches host suffix =
    let bare = trim_start_matches b'.' suffix in
    text_eq host bare
    || is_some_and (strip_suffix bare host) (λ prefix. ends_with (text ".") prefix)

unfoldable pub normalized : Text → Text
unfolding trim_end_where to_ascii_lowercase
normalized host = to_ascii_lowercase (trim_end_matches b'.' host)

unfoldable pub is_registry_host : Catalog → Text → Bool
is_registry_host c host =
    any (λ candidate. eq_ignore_ascii_case candidate (normalized host)) c.registry_hosts
    || any (λ suffix. suffix_matches (normalized host) suffix) c.registry_suffixes

unfoldable pub is_binary_distribution_host : Catalog → Text → Bool
is_binary_distribution_host c host =
    any (λ suffix. suffix_matches (normalized host) suffix) c.binary_distribution_suffixes

-- The text behind the last slash.
unfoldable pub basename : Text → Text
unfolding rsplit
basename path = unwrap_or (head? (rsplit b'/' path)) path

unfoldable pub is_credential_path : Catalog → Text → Bool
is_credential_path c path =
    any (λ fragment. contains_text fragment path) c.credential_paths
    || any
        (λ name.
          text_eq (basename path) name
          || text_eq name (text ".env") && starts_with (text ".env") (basename path))
        c.credential_filenames

unfoldable pub is_network_tool : Catalog → Text → Bool
is_network_tool c binary = any (λ tool. text_eq tool binary) c.network_tools

unfoldable pub is_expected_spawn : Catalog → Text → Bool
is_expected_spawn c binary = any (λ expected. text_eq expected binary) c.expected_spawns
