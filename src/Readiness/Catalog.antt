-- ===== src/Readiness/Catalog.antt =====
-- operations/bin/compose_readiness_v1.py: the owners and the names that evidence has to list.
use liqi_platform.Prelude.{String, List, [], ◌∷◌}

abbrev pub evidence_owner : List (String × String)
evidence_owner =
    ("capacity", "Senior 5")
    ∷ ("platform-probe", "Senior 1")
    ∷ ("load", "Senior 5")
    ∷ ("reconnect", "Senior 5")
    ∷ ("recovery", "Senior 2")
    ∷ ("resilience", "Senior 5")
    ∷ ("security", "Senior 5")
    ∷ ("cutover", "Senior 5")
    ∷ ("release-recovery", "Senior 4")
    ∷ []

abbrev pub probe_checks : List String
probe_checks =
    "https-health" ∷ "runtime-readiness" ∷ "websocket-connect" ∷ "websocket-auth"
    ∷ "durable-command-commit" ∷ "outbox-handoff" ∷ "realtime-delivery" ∷ "resume-gap-repair"
    ∷ "worker-job" ∷ "native-kernel" ∷ "native-fallback" ∷ []

abbrev pub recovery_steps : List String
recovery_steps =
    "select-latest-valid-backup" ∷ "restore-isolated-target" ∷ "wal-pitr" ∷ "verify-migrations"
    ∷ "verify-platform-invariants" ∷ "elixir-read-only-probe" ∷ "cleanup" ∷ []

abbrev pub resilience_scenarios : List String
resilience_scenarios =
    "postgresql-restart" ∷ "pgbouncer-unavailable" ∷ "outbox-backlog" ∷ "oban-backlog"
    ∷ "realtime-slow-consumers" ∷ "reconnect-storm-25pct" ∷ "native-artifact-disabled"
    ∷ "native-kernel-panic" ∷ "telemetry-sink-unavailable" ∷ "disk-pressure" ∷ "beam-process-crash"
    ∷ "actor-supervisor-restart" ∷ "release-activation-failure"
    ∷ "first-release-deactivation-recovery" ∷ "host-reboot" ∷ []

abbrev pub security_checks : List String
security_checks =
    "public-ports" ∷ "tls" ∷ "secret-scan" ∷ "vault-references" ∷ "iam-least-privilege"
    ∷ "instance-principal" ∷ "private-database" ∷ "private-metrics" ∷ "systemd-hardening"
    ∷ "dependency-vulnerabilities" ∷ "license-policy" ∷ "sbom" ∷ "provenance" ∷ "log-redaction"
    ∷ "session-token-handling" ∷ "websocket-origin-auth" ∷ "rate-admission-limits"
    ∷ "native-input-bounds" ∷ "crash-dump-secret-hygiene" ∷ []

abbrev pub cutover_preconditions : List String
cutover_preconditions =
    "source" ∷ "integration" ∷ "artifact" ∷ "live-staging" ∷ "capacity" ∷ "load-floor"
    ∷ "reconnect-storm" ∷ "recovery" ∷ "security" ∷ "release-recovery" ∷ "approved-plan"
    ∷ "exact-release-binding" ∷ []

abbrev pub cutover_bundle : List String
cutover_bundle =
    "platform-probe" ∷ "load" ∷ "reconnect" ∷ "recovery" ∷ "security" ∷ "release-recovery"
    ∷ "capacity" ∷ "artifact" ∷ "oci-plan" ∷ []

abbrev pub rollback_steps : List String
rollback_steps =
    "stop-new-admission" ∷ "drain-sessions" ∷ "disable-traffic" ∷ "stop-release"
    ∷ "verify-no-public-traffic" ∷ "observe" ∷ "cleanup" ∷ []

abbrev pub capacity_owners : List String
capacity_owners = "Senior 1" ∷ "Senior 2" ∷ "Senior 3" ∷ "Senior 4" ∷ []

abbrev pub checkpoint_names : List String
checkpoint_names =
    "source" ∷ "integration" ∷ "artifact" ∷ "live-staging" ∷ "promotion" ∷ "cutover"
    ∷ "post-cutover" ∷ []

abbrev pub compatibility_owner : List (String × String)
compatibility_owner =
    ("migrations-expand-compatible", "Senior 2")
    ∷ ("realtime-protocol-negotiated", "Senior 1")
    ∷ ("native-fallback-available", "Senior 3")
    ∷ ("config-versioned", "Senior 1")
    ∷ []

abbrev pub compatibility_names : List String
compatibility_names =
    "migrations-expand-compatible" ∷ "realtime-protocol-negotiated" ∷ "native-fallback-available"
    ∷ "config-versioned" ∷ []

-- A correctness event: its name, its key in a document, its owner.
abbrev pub correctness_owner : List (String × (String × String))
correctness_owner =
    ("authorization-bypass", ("authorization_bypass", "Senior 1"))
    ∷ ("secret-exposure", ("secret_exposure", "Senior 5"))
    ∷ ("duplicate-durable-identity", ("duplicate_durable_identity", "Senior 2"))
    ∷ ("event-before-commit", ("event_before_commit", "Senior 2"))
    ∷ ("durable-event-loss", ("durable_event_loss", "Senior 2"))
    ∷ []
