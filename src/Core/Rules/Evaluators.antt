-- ===== src/Core/Rules/Evaluators.antt =====
-- core/src/rules.rs: the evaluation of one event, a function for each kind of observation. Each takes
-- the findings so far and returns them with what it emits.
use install_scope.Common.{
  ℕ, Bool, true, false, Option, none, some, List, [], ◌∷◌, ◌++◌, ◌||◌, ◌&&◌, not, if◌then◌else◌,
  unwrap_or,
}
use install_scope.Common.Text.{Text, text, ends_with, contains_char}
use install_scope.Common.Text.Decimal.{decimal}
use install_scope.Core.Events.{
  Event, FsWrite, FsRead, NetConnect, DnsQuery, ProcSpawn, WriteKind, open_file, write, create,
  truncate, mkdir, rename, delete, symlink, hardlink, chmod, chown, failed_known, command_line, op,
}
use install_scope.Core.Zones.{Placement, is_scorable_as_outside}
use install_scope.Core.Findings.{Severity, Evidence, Finding, new_finding, with_note}
use install_scope.Core.Catalog.{
  RuleKind, write_outside_zones, chmod_executable_outside_zones, credential_read,
  credential_read_failed, npmrc_read, dns_outside_registry, dns_binary_distribution,
  connect_unusual_port, connect_external, download_piped_to_shell, spawn_network_tool,
  spawn_unexpected, Rule, Catalog, rule_for, is_registry_host, is_binary_distribution_host,
  is_credential_path, is_network_tool, is_expected_spawn, basename,
}
use install_scope.Core.Rules.Commands.{
  is_unusual_port, pipes_download_to_shell, is_executable_mode, truncate_subject,
}

unfoldable pub evidence_of : Event → Text → Evidence
evidence_of event detail = record {
  ts_ns = event.meta.ts_ns;
  pid = event.meta.pid;
  syscall = event.meta.syscall;
  op = op event.payload;
  detail = detail;
}

unfoldable pub format_title : Rule → Text → Text
format_title rule subject = rule.title ++ text ": " ++ subject

abbrev noted : Finding → Option Text → Finding
noted f none = f
noted f (some n) = with_note f n

-- The finding of a rule on a subject.
unfoldable pub finding_of : Rule → Text → Event → Text → Option Severity → Finding
finding_of rule subject event detail severity_override =
    noted
      (new_finding rule.id (unwrap_or severity_override rule.severity) subject
        (format_title rule subject) (evidence_of event detail))
      rule.note

abbrev emit_rule : Option Rule → Text → Event → Text → List Finding → Option Severity → List Finding
emit_rule none subject event detail out severity_override = out
emit_rule (some rule) subject event detail out severity_override =
    out ++ finding_of rule subject event detail severity_override ∷ []

unfoldable pub emit :
    Catalog → RuleKind → Text → Event → Text → List Finding → Option Severity → List Finding
emit catalog kind = emit_rule (rule_for catalog kind)

-- `{:?}` of a kind
unfoldable pub kind_debug : WriteKind → Text
kind_debug open_file = text "Open"
kind_debug write = text "Write"
kind_debug create = text "Create"
kind_debug truncate = text "Truncate"
kind_debug mkdir = text "Mkdir"
kind_debug rename = text "Rename"
kind_debug delete = text "Delete"
kind_debug symlink = text "Symlink"
kind_debug hardlink = text "Hardlink"
kind_debug chmod = text "Chmod"
kind_debug chown = text "Chown"

abbrev describe : WriteKind → Option ℕ → Text
describe kind none = kind_debug kind
describe kind (some bytes) = kind_debug kind ++ text " " ++ decimal bytes ++ text " bytes"

unfoldable pub describe_write : FsWrite → Text
describe_write w = describe w.kind w.bytes

abbrev pub is_chmod : WriteKind → Bool
is_chmod chmod = true
is_chmod _ = false

-- `ip:port`, or the address alone
abbrev pub connect_subject : Text → Option ℕ → Text
connect_subject ip none = ip
connect_subject ip (some port) = ip ++ text ":" ++ decimal port

module _ (catalog : Catalog) (event : Event) where
  unfoldable pub evaluate_write : FsWrite → Placement → List Finding → List Finding
  evaluate_write w placement out =
      if is_scorable_as_outside placement
      then (if is_chmod w.kind && is_executable_mode w.mode
          then emit catalog chmod_executable_outside_zones w.target.path event
              (text "chmod " ++ unwrap_or w.mode (text "?") ++ text " " ++ w.target.path) out none
          else emit catalog write_outside_zones w.target.path event (describe_write w) out none)
      else out

  unfoldable pub evaluate_read : FsRead → List Finding → List Finding
  evaluate_read r out =
      if ends_with (text "/.npmrc") r.target.path || ends_with (text "/.yarnrc") r.target.path
      then emit catalog npmrc_read r.target.path event (text "read package manager config") out none
      else (if not (is_credential_path catalog r.target.path)
          then out
          else (if failed_known r.outcome
              then emit catalog credential_read_failed r.target.path event
                  (text "failed: " ++ unwrap_or r.outcome.error (text "unknown error")) out none
              else emit catalog credential_read r.target.path event (text "read succeeded") out
                  none))

  abbrev connect_to : Option Text → NetConnect → List Finding → List Finding
  connect_to none c out = out
  connect_to (some ip) c out =
      if failed_known c.outcome
      then out
      else (let subject = connect_subject ip c.port in
          if is_unusual_port c.port
          then emit catalog connect_unusual_port subject event (text "connected to " ++ subject) out
              none
          else emit catalog connect_external subject event (text "connected to " ++ subject) out
              none)

  unfoldable pub evaluate_connect : NetConnect → List Finding → List Finding
  evaluate_connect c out = if c.loopback || c.is_private then out else connect_to c.ip c out

  unfoldable pub evaluate_dns : DnsQuery → List Finding → List Finding
  evaluate_dns q out =
      if is_registry_host catalog q.qname
      then out
      else (if not (contains_char b'.' q.qname)
          then out
          else (let kind =
                if is_binary_distribution_host catalog q.qname
                then dns_binary_distribution
                else dns_outside_registry in
              emit catalog kind q.qname event (text "resolved " ++ q.qname) out none))

  abbrev spawn_of : Option Text → Text → List Finding → List Finding
  spawn_of none command out = out
  spawn_of (some bin) command out =
      if is_network_tool catalog (basename bin)
      then emit catalog spawn_network_tool (basename bin) event (truncate_subject command) out none
      else (if not (is_expected_spawn catalog (basename bin))
          then emit catalog spawn_unexpected (basename bin) event (truncate_subject command) out
              none
          else out)

  unfoldable pub evaluate_spawn : ProcSpawn → List Finding → List Finding
  evaluate_spawn s out =
      if pipes_download_to_shell s.argv s.argv_truncated
      then emit catalog download_piped_to_shell (truncate_subject (command_line s)) event
          (command_line s) out none
      else spawn_of s.bin (command_line s) out
