-- ===== src/Core/Rules/Shows.antt =====
-- core/src/rules.rs: what the evaluators look for. For each kind of rule, the observations on which it
-- fires and the subject that it fires on, without the order in which the code tests them.
use install_scope.Common.{◌≡◌, ◌⊎◌, true, false, some}
use install_scope.Common.Text.{Text, text, ends_with, contains_char}
use install_scope.Core.Events.{
  Payload, fs_write, fs_read, net_connect, dns_query, proc_spawn, FsWrite, FsRead, NetConnect,
  DnsQuery, ProcSpawn, failed_known, command_line, Zones,
}
use install_scope.Core.Zones.Placing.{IsOutside}
use install_scope.Core.Catalog.{
  RuleKind, write_outside_zones, chmod_executable_outside_zones, credential_read,
  credential_read_failed, npmrc_read, dns_outside_registry, dns_binary_distribution,
  connect_unusual_port, connect_external, download_piped_to_shell, spawn_network_tool,
  spawn_unexpected, Catalog, is_registry_host, is_binary_distribution_host, is_credential_path,
  is_network_tool, is_expected_spawn, basename,
}
use install_scope.Core.Rules.Commands.{
  is_unusual_port, pipes_download_to_shell, is_executable_mode, truncate_subject,
}
use install_scope.Core.Rules.Evaluators.{is_chmod, connect_subject}

-- A write that is known to have failed changed nothing.
pub record Escapes (zones : Zones) (w : FsWrite) : Type 0 where
  pub is_outside : IsOutside w.target zones
  pub not_failed : failed_known w.outcome ≡ false

abbrev pub SetsExecutable : FsWrite → Type 0
SetsExecutable w = (is_chmod w.kind ≡ true) × (is_executable_mode w.mode ≡ true)

abbrev pub IsPackageConfig : Text → Type 0
IsPackageConfig path =
    (ends_with (text "/.npmrc") path ≡ true) ⊎ (ends_with (text "/.yarnrc") path ≡ true)

-- A read of credentials that is no read of the package manager's own configuration.
pub record IsCredentialRead (catalog : Catalog) (r : FsRead) : Type 0 where
  pub no_npmrc : ends_with (text "/.npmrc") r.target.path ≡ false
  pub no_yarnrc : ends_with (text "/.yarnrc") r.target.path ≡ false
  pub credential : is_credential_path catalog r.target.path ≡ true

-- A connection that left the machine and its network.
pub record IsExternal (c : NetConnect) (ip : Text) : Type 0 where
  pub no_loopback : c.loopback ≡ false
  pub no_private : c.is_private ≡ false
  pub address : c.ip ≡ some ip
  pub not_failed : failed_known c.outcome ≡ false

pub record IsForeignName (catalog : Catalog) (q : DnsQuery) : Type 0 where
  pub no_registry : is_registry_host catalog q.qname ≡ false
  pub dotted : contains_char b'.' q.qname ≡ true

-- A spawn of a known program that pipes no download into a shell.
pub record SpawnsPlainly (s : ProcSpawn) (bin : Text) : Type 0 where
  pub no_pipe : pipes_download_to_shell s.argv s.argv_truncated ≡ false
  pub program : s.bin ≡ some bin

pub data Shows (catalog : Catalog) (zones : Zones) : Payload → RuleKind → Text → Type 0 where
  escaped_write :
      (w : FsWrite)
      → Escapes zones w
      → ¬ SetsExecutable w
      → Shows catalog zones (fs_write w) write_outside_zones w.target.path
  escaped_chmod :
      (w : FsWrite)
      → Escapes zones w
      → SetsExecutable w
      → Shows catalog zones (fs_write w) chmod_executable_outside_zones w.target.path
  config_read :
      (r : FsRead)
      → IsPackageConfig r.target.path
      → Shows catalog zones (fs_read r) npmrc_read r.target.path
  failed_read :
      (r : FsRead)
      → IsCredentialRead catalog r
      → failed_known r.outcome ≡ true
      → Shows catalog zones (fs_read r) credential_read_failed r.target.path
  read :
      (r : FsRead)
      → IsCredentialRead catalog r
      → failed_known r.outcome ≡ false
      → Shows catalog zones (fs_read r) credential_read r.target.path
  unusual_connect :
      (c : NetConnect) (ip : Text)
      → IsExternal c ip
      → is_unusual_port c.port ≡ true
      → Shows catalog zones (net_connect c) connect_unusual_port (connect_subject ip c.port)
  external_connect :
      (c : NetConnect) (ip : Text)
      → IsExternal c ip
      → is_unusual_port c.port ≡ false
      → Shows catalog zones (net_connect c) connect_external (connect_subject ip c.port)
  binary_query :
      (q : DnsQuery)
      → IsForeignName catalog q
      → is_binary_distribution_host catalog q.qname ≡ true
      → Shows catalog zones (dns_query q) dns_binary_distribution q.qname
  foreign_query :
      (q : DnsQuery)
      → IsForeignName catalog q
      → is_binary_distribution_host catalog q.qname ≡ false
      → Shows catalog zones (dns_query q) dns_outside_registry q.qname
  piped_download :
      (s : ProcSpawn)
      → pipes_download_to_shell s.argv s.argv_truncated ≡ true
      → Shows catalog zones
          (proc_spawn s)
          download_piped_to_shell
          (truncate_subject (command_line s))
  network_tool :
      (s : ProcSpawn) (bin : Text)
      → SpawnsPlainly s bin
      → is_network_tool catalog (basename bin) ≡ true
      → Shows catalog zones (proc_spawn s) spawn_network_tool (basename bin)
  unexpected :
      (s : ProcSpawn) (bin : Text)
      → SpawnsPlainly s bin
      → is_network_tool catalog (basename bin) ≡ false
      → is_expected_spawn catalog (basename bin) ≡ false
      → Shows catalog zones (proc_spawn s) spawn_unexpected (basename bin)
