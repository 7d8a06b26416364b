-- ===== src/Core/Rules/Effects.antt =====
-- core/src/rules.rs: the evaluators, from what they emit to what an event shows.
use install_scope.Common.{
  ◌≡◌, refl, ◌⊎◌, inl, inr, true, false, ◌&&◌, ◌||◌, arith, Bool-cases, Option-cases, not, &&_iff,
}
use install_scope.Common.Text.{Text, text, ends_with, contains_char}
use install_scope.Core.Events.{
  Event, Payload, session_start, fs_write, fs_read, net_connect, dns_query, proc_spawn, heartbeat,
  session_end, FsWrite, FsRead, NetConnect, DnsQuery, ProcSpawn, failed_known, Zones,
}
use install_scope.Core.Zones.{placement_of, is_scorable_as_outside}
use install_scope.Core.Zones.Placing.{placement_of-outside_iff}
use install_scope.Core.Catalog.{
  RuleKind, Catalog, is_registry_host, is_binary_distribution_host, is_credential_path,
  is_network_tool, is_expected_spawn, basename,
}
use install_scope.Core.Rules.Commands.{is_unusual_port, pipes_download_to_shell, is_executable_mode}
use install_scope.Core.Rules.Evaluators.{
  is_chmod, evaluate_write, evaluate_read, evaluate_connect, evaluate_dns, evaluate_spawn,
}
use install_scope.Core.Rules.Shows.{
  Shows, Escapes, IsCredentialRead, IsExternal, IsForeignName, SpawnsPlainly, escaped_write,
  escaped_chmod, config_read, failed_read, read, unusual_connect, external_connect, binary_query,
  foreign_query, piped_download, network_tool, unexpected,
}
use install_scope.Core.Rules.{Progress}
use install_scope.Core.Rules.Steps.{Effect, after, shown_is_emitted, placement-outside_cases}

module _ (catalog : Catalog) (zones : Zones) (event : Event) (p : Progress) where
  -- The effect of a payload on the findings so far.
  abbrev Effective : Payload → Type 0
  Effective payload = Effect catalog zones event payload p.raw (after catalog zones event payload p)

  abbrev Quiet : Payload → Type 0
  Quiet payload = after catalog zones event payload p ≡ p.raw

  -- What an observation shows is its effect.
  effect_of :
      {payload : Payload} {kind : RuleKind} {subject : Text}
      → Shows catalog zones payload kind subject
      → Effective payload
  effect_of shows = inr (_, _, shows, shown_is_emitted catalog zones event p shows)

  -- A write that is placed elsewhere, or is known to have failed, emits nothing.
  Quiet-write :
      (w : FsWrite)
      → (is_scorable_as_outside (placement_of w.target zones) ≡ false)
        ⊎ (failed_known w.outcome ≡ true)
      → Quiet (fs_write w)
  unfolding evaluate_write
  Quiet-write w h = ground arith

  escaping_write : (w : FsWrite) → Escapes zones w → Effective (fs_write w)
  escaping_write w e = elim (Bool-cases (is_chmod w.kind && is_executable_mode w.mode)) [
    | inl x ↦ effect_of (escaped_chmod w e ((&&_iff _ _).0 x))
    | inr x ↦ effect_of (escaped_write w e (λ b. ground (arith, (&&_iff _ _).1 b)))
  ]

  write_effect : (w : FsWrite) → Effective (fs_write w)
  write_effect w = elim (placement-outside_cases catalog zones event w) [
    | inr elsewhere ↦ inl (Quiet-write w (inl elsewhere))
    | inl placed ↦ elim (Bool-cases (failed_known w.outcome)) [
      | inl failed ↦ inl (Quiet-write w (inr failed))
      | inr done ↦ escaping_write w (record {
        is_outside = (placement_of-outside_iff w.target zones).0 placed;
        not_failed = done;
      })
    ]
  ]

  Quiet-read :
      (r : FsRead)
      → ends_with (text "/.npmrc") r.target.path ≡ false
      → ends_with (text "/.yarnrc") r.target.path ≡ false
      → is_credential_path catalog r.target.path ≡ false
      → Quiet (fs_read r)
  unfolding evaluate_read
  Quiet-read r a b c = ground arith

  credential_effect : (r : FsRead) → IsCredentialRead catalog r → Effective (fs_read r)
  credential_effect r c = elim (Bool-cases (failed_known r.outcome)) [
    | inl f ↦ effect_of (failed_read r c f)
    | inr f ↦ effect_of (read r c f)
  ]

  read_effect : (r : FsRead) → Effective (fs_read r)
  read_effect r = elim (Bool-cases (ends_with (text "/.npmrc") r.target.path)) [
    | inl npmrc ↦ effect_of (config_read r (inl npmrc))
    | inr no_npmrc ↦ elim (Bool-cases (ends_with (text "/.yarnrc") r.target.path)) [
      | inl yarnrc ↦ effect_of (config_read r (inr yarnrc))
      | inr no_yarnrc ↦ elim (Bool-cases (is_credential_path catalog r.target.path)) [
        | inr plain ↦ inl (Quiet-read r no_npmrc no_yarnrc plain)
        | inl credential ↦
            credential_effect r
              (record { no_npmrc = no_npmrc; no_yarnrc = no_yarnrc; credential = credential })
      ]
    ]
  ]

  -- A connection is external, or emits nothing.
  IsExternal-or_Quiet : (c : NetConnect) → ((ip : Text) × IsExternal c ip) ⊎ Quiet (net_connect c)
  unfolding evaluate_connect
  IsExternal-or_Quiet c = elim (Option-cases c.ip) [
    | inl unknown ↦ inr (ground arith)
    | inr (ip, known) ↦ elim (Bool-cases (c.loopback || c.is_private || failed_known c.outcome)) [
      | inl local ↦ inr (ground arith)
      | inr away ↦ inl (
        ip,
        record {
          no_loopback = ground arith;
          no_private = ground arith;
          address = known;
          not_failed = ground arith;
        },
      )
    ]
  ]

  connect_effect : (c : NetConnect) → Effective (net_connect c)
  connect_effect c = elim (IsExternal-or_Quiet c) [
    | inr quiet ↦ inl quiet
    | inl (ip, x) ↦ elim (Bool-cases (is_unusual_port c.port)) [
      | inl u ↦ effect_of (unusual_connect c ip x u)
      | inr u ↦ effect_of (external_connect c ip x u)
    ]
  ]

  foreign_or_Quiet : (q : DnsQuery) → IsForeignName catalog q ⊎ Quiet (dns_query q)
  unfolding evaluate_dns
  foreign_or_Quiet q =
      elim (Bool-cases (is_registry_host catalog q.qname || not (contains_char b'.' q.qname))) [
        | inl known ↦ inr (ground arith)
        | inr foreign ↦ inl (record { no_registry = ground arith; dotted = ground arith })
      ]

  dns_effect : (q : DnsQuery) → Effective (dns_query q)
  dns_effect q = elim (foreign_or_Quiet q) [
    | inr quiet ↦ inl quiet
    | inl f ↦ elim (Bool-cases (is_binary_distribution_host catalog q.qname)) [
      | inl b ↦ effect_of (binary_query q f b)
      | inr b ↦ effect_of (foreign_query q f b)
    ]
  ]

  -- A spawn that pipes no download is of a known program, or emits nothing.
  plain_or_Quiet :
      (s : ProcSpawn)
      → pipes_download_to_shell s.argv s.argv_truncated ≡ false
      → ((bin : Text) × SpawnsPlainly s bin) ⊎ Quiet (proc_spawn s)
  unfolding evaluate_spawn
  plain_or_Quiet s no_pipe = elim (Option-cases s.bin) [
    | inl unknown ↦ inr (ground arith)
    | inr (bin, known) ↦ inl (bin, record { no_pipe = no_pipe; program = known })
  ]

  expected_spawn-Quiet :
      (s : ProcSpawn) (bin : Text)
      → SpawnsPlainly s bin
      → is_network_tool catalog (basename bin) ≡ false
      → is_expected_spawn catalog (basename bin) ≡ true
      → Quiet (proc_spawn s)
  unfolding evaluate_spawn
  expected_spawn-Quiet s bin x t u = ground arith

  plain_effect : (s : ProcSpawn) (bin : Text) → SpawnsPlainly s bin → Effective (proc_spawn s)
  plain_effect s bin x = elim (Bool-cases (is_network_tool catalog (basename bin))) [
    | inl t ↦ effect_of (network_tool s bin x t)
    | inr t ↦ elim (Bool-cases (is_expected_spawn catalog (basename bin))) [
      | inl u ↦ inl (expected_spawn-Quiet s bin x t u)
      | inr u ↦ effect_of (unexpected s bin x t u)
    ]
  ]

  spawn_effect : (s : ProcSpawn) → Effective (proc_spawn s)
  spawn_effect s = elim (Bool-cases (pipes_download_to_shell s.argv s.argv_truncated)) [
    | inl piped ↦ effect_of (piped_download s piped)
    | inr no_pipe ↦ elim (plain_or_Quiet s no_pipe) [
      | inr quiet ↦ inl quiet
      | inl (bin, x) ↦ plain_effect s bin x
    ]
  ]

  -- One event adds nothing, or one finding that the observation shows.
  pub payload_effect : (payload : Payload) → Effective payload
  payload_effect (fs_write w) = write_effect w
  payload_effect (fs_read r) = read_effect r
  payload_effect (net_connect c) = connect_effect c
  payload_effect (dns_query q) = dns_effect q
  payload_effect (proc_spawn s) = spawn_effect s
  payload_effect (session_start _) = inl refl
  payload_effect (session_end _) = inl refl
  payload_effect (heartbeat _) = inl refl
