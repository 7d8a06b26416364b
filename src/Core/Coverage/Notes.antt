-- ===== src/Core/Coverage/Notes.antt =====
-- core/src/coverage.rs: the texts that say what a backend does not see.
use install_scope.Common.Text.{Text, text}

pub strace_filesystem_writes_note : Text
strace_filesystem_writes_note =
    text
      "mutations are seen through the traced syscall set, which covers both the path and descriptor forms of every operation it traces. Not covered: an `io_uring` submission, which can open and write without issuing a traced syscall at all"

pub strace_process_spawns_note : Text
strace_process_spawns_note =
    text
      "execution is observed at `execve`/`execveat`; argument vectors are captured up to strace's 512-byte string limit and a longer command line is flagged truncated rather than shown in full"

pub strace_credential_reads_note : Text
strace_credential_reads_note =
    text
      "reads are filtered to a list of credential- and environment-bearing paths; a read of some other sensitive file is not reported"

pub strace_network_connections_note : Text
strace_network_connections_note =
    text
      "destinations are IP addresses; strace cannot prove which DNS answer a connect used, so no hostname is attached. Inbound sockets are not traced, so a package that binds and listens produces no event"

pub strace_dns_queries_note : Text
strace_dns_queries_note =
    text
      "questions are decoded from datagram payloads sent to port 53; a payload truncated by strace's buffer yields no event rather than a partial hostname, and resolution over DNS-over-HTTPS or DNS-over-TLS is indistinguishable from ordinary traffic"

pub strace_write_volumes_note : Text
strace_write_volumes_note =
    text
      "byte counts come from the write-family syscalls; volume moved by `sendfile`, `copy_file_range`, or a shared mapping is not counted, so a total is a floor rather than a measurement"

pub aya_filesystem_writes_note : Text
aya_filesystem_writes_note =
    text
      "paths come from the syscall argument rather than a dentry walk, so a relative path stays unresolved and cannot be placed inside or outside a directory"

pub aya_credential_reads_note : Text
aya_credential_reads_note =
    text
      "the aya probes are scoped to writes, connects, and spawns (Phases.md:23); recording credential reads is a strace-backend capability"

pub aya_network_connections_note : Text
aya_network_connections_note =
    text "destination addresses are read from the sockaddr argument; no hostname is attached"

pub aya_dns_queries_note : Text
aya_dns_queries_note =
    text
      "decoding DNS payloads inside a BPF program is a deliberate non-goal; the aya backend emits no dns_query events"

pub aya_process_spawns_note : Text
aya_process_spawns_note =
    text
      "argv is captured in fixed-width slots; a long argument or more than the slot count is truncated with a flag rather than silently shortened"

pub aya_write_volumes_note : Text
aya_write_volumes_note =
    text
      "byte counts are the requested count from syscall entry, not the number actually written, so a short write overstates the total"
