-- ===== src/Core/Coverage.antt =====
-- core/src/coverage.rs: what each backend can observe, so that an absent finding is not mistaken for
-- absent behaviour.
pub mod Notes
use install_scope.Common.{
  Bool, true, false, Option, none, some, List, [], ◌∷◌, ◌++◌, map, if◌then◌else◌,
}
use install_scope.Common.Text.{Text, text, join_with}
use install_scope.Core.Events.{Backend, strace, aya}
use Notes.{
  strace_filesystem_writes_note, strace_process_spawns_note, strace_credential_reads_note,
  strace_network_connections_note, strace_dns_queries_note, strace_write_volumes_note,
  aya_filesystem_writes_note, aya_credential_reads_note, aya_network_connections_note,
  aya_dns_queries_note, aya_process_spawns_note, aya_write_volumes_note,
}

pub data ObservationClass : Type 0 where
  filesystem_writes credential_reads network_connections : ObservationClass
  dns_queries process_spawns write_volumes : ObservationClass

abbrev pub all_classes : List ObservationClass
all_classes =
    filesystem_writes ∷ credential_reads ∷ network_connections ∷ dns_queries ∷ process_spawns
    ∷ write_volumes ∷ []

unfoldable pub class_name : ObservationClass → Text
class_name filesystem_writes = text "filesystem writes"
class_name credential_reads = text "credential reads"
class_name network_connections = text "network connections"
class_name dns_queries = text "DNS queries"
class_name process_spawns = text "process spawns"
class_name write_volumes = text "write byte volumes"

pub data Observability : Type 0 where
  observed : Observability
  partial : Text → Observability
  unobserved : Text → Observability

unfoldable pub silence_is_meaningful : Observability → Bool
silence_is_meaningful observed = true
silence_is_meaningful (partial _) = true
silence_is_meaningful (unobserved _) = false

unfoldable pub note : Observability → Option Text
note observed = none
note (partial n) = some n
note (unobserved n) = some n

unfoldable pub observability : Backend → ObservationClass → Observability
observability strace filesystem_writes = partial strace_filesystem_writes_note
observability strace process_spawns = partial strace_process_spawns_note
observability strace credential_reads = partial strace_credential_reads_note
observability strace network_connections = partial strace_network_connections_note
observability strace dns_queries = partial strace_dns_queries_note
observability strace write_volumes = partial strace_write_volumes_note
observability aya filesystem_writes = partial aya_filesystem_writes_note
observability aya credential_reads = unobserved aya_credential_reads_note
observability aya network_connections = partial aya_network_connections_note
observability aya dns_queries = unobserved aya_dns_queries_note
observability aya process_spawns = partial aya_process_spawns_note
observability aya write_volumes = partial aya_write_volumes_note

pub record Coverage : Type 0 where
  pub backend : Backend
  pub classes : List (ObservationClass × Observability)

unfoldable pub for_backend : Backend → Coverage
for_backend backend = record {
  backend = backend;
  classes = map (λ class. (class, observability backend class)) all_classes;
}

-- The classes that the backend cannot see, each with the reason.
unfoldable pub unobserved_of :
    List (ObservationClass × Observability) → List (ObservationClass × Text)
unobserved_of [] = []
unobserved_of ((class, unobserved reason) ∷ rest) = (class, reason) ∷ unobserved_of rest
unobserved_of ((class, observed) ∷ rest) = unobserved_of rest
unobserved_of ((class, partial _) ∷ rest) = unobserved_of rest

unfoldable pub blind_spots : Coverage → List (ObservationClass × Text)
unfolding unobserved_of
blind_spots c = unobserved_of c.classes

abbrev is_empty : List (ObservationClass × Text) → Bool
is_empty [] = true
is_empty (_ ∷ _) = false

unfoldable pub is_complete : Coverage → Bool
is_complete c = is_empty (blind_spots c)

-- The classes that the backend sees with a qualification.
unfoldable pub partial_of : List (ObservationClass × Observability) → List (ObservationClass × Text)
partial_of [] = []
partial_of ((class, partial reason) ∷ rest) = (class, reason) ∷ partial_of rest
partial_of ((class, observed) ∷ rest) = partial_of rest
partial_of ((class, unobserved _) ∷ rest) = partial_of rest

unfoldable pub qualifications : Coverage → List (ObservationClass × Text)
unfolding partial_of
qualifications c = partial_of c.classes

abbrev backend_name : Backend → Text
backend_name strace = text "strace"
backend_name aya = text "aya"

abbrev caveat_of : Backend → List (ObservationClass × Text) → Option Text
caveat_of backend [] = none
caveat_of backend (spot ∷ spots) = some (
    text "Not checked by the "
    ++ backend_name backend
    ++ text " backend: "
    ++ join_with (text ", ") (map (λ s. class_name s.0) (spot ∷ spots))
    ++ text ". Absence of these findings is not evidence they did not happen.")

unfoldable pub caveat_line : Coverage → Option Text
unfolding join_with class_name
caveat_line c = caveat_of c.backend (blind_spots c)
