-- ===== src/Config/Defaults.antt =====
-- internal/config/config.go: ApplyDefaults.
use exec_over_lark.Prelude.{[], ◌∷◌, ◌≡◌, refl, zero, suc, false, if◌then◌else◌}
use exec_over_lark.Prelude.Bytes.{Bytes}
use exec_over_lark.Prelude.Dict.{Dict}
use exec_over_lark.Prelude.Int.{ℤ, pos, negsuc, is_zero}
use exec_over_lark.Config.Types.{
  Config, HostConfig, default_send_cooldown, default_lark_text_request_limit_bytes,
  default_heartbeat_interval, default_heartbeat_timeout, default_sequence_gap_timeout,
  default_stream_chunk_bytes, default_max_sessions,
}

-- A value that is not set gets the default.
abbrev pub or_default : ℤ → ℤ → ℤ
or_default z fallback = if is_zero z then fallback else z

-- The loop over the hosts.
unfoldable pub default_hosts : Dict Bytes HostConfig → Dict Bytes HostConfig
default_hosts [] = []
default_hosts ((name, host) ∷ hosts) =
    (
      name,
      record host {
        stream_chunk_bytes = or_default host.stream_chunk_bytes default_stream_chunk_bytes;
      },
    )
    ∷ default_hosts hosts

unfoldable pub apply_defaults : Config → Config
unfolding default_hosts
apply_defaults cfg = record cfg {
  lark = record cfg.lark {
    send_cooldown = or_default cfg.lark.send_cooldown default_send_cooldown;
    lark_text_request_limit_bytes =
        or_default cfg.lark.lark_text_request_limit_bytes default_lark_text_request_limit_bytes;
  };
  connection = record {
    heartbeat_interval = or_default cfg.connection.heartbeat_interval default_heartbeat_interval;
    heartbeat_timeout = or_default cfg.connection.heartbeat_timeout default_heartbeat_timeout;
    sequence_gap_timeout =
        or_default cfg.connection.sequence_gap_timeout default_sequence_gap_timeout;
  };
  exec = record cfg.exec {
    max_sessions = or_default cfg.exec.max_sessions default_max_sessions;
    stream_chunk_bytes = or_default cfg.exec.stream_chunk_bytes default_stream_chunk_bytes;
  };
  hosts = default_hosts cfg.hosts;
}

-- A default is not 0, so it is not replaced.
or_default_again :
    (z fallback : ℤ)
    → is_zero fallback ≡ false
    → or_default (or_default z fallback) fallback ≡ or_default z fallback
or_default_again (pos zero) fallback h = rw h refl
or_default_again (pos (suc n)) fallback h = refl
or_default_again (negsuc n) fallback h = refl

default_hosts_again :
    (hosts : Dict Bytes HostConfig) → default_hosts (default_hosts hosts) ≡ default_hosts hosts
unfolding default_hosts
default_hosts_again [] = refl
default_hosts_again ((name, host) ∷ hosts) =
    rw
      (
        or_default_again host.stream_chunk_bytes default_stream_chunk_bytes refl,
        default_hosts_again hosts,
      )
      refl

-- Setting the defaults twice is setting them once.
pub apply_defaults_again : (cfg : Config) → apply_defaults (apply_defaults cfg) ≡ apply_defaults cfg
unfolding apply_defaults
apply_defaults_again cfg =
    rw
      (
        or_default_again cfg.lark.send_cooldown default_send_cooldown refl,
        or_default_again cfg.lark.lark_text_request_limit_bytes
            default_lark_text_request_limit_bytes refl,
        or_default_again cfg.connection.heartbeat_interval default_heartbeat_interval refl,
        or_default_again cfg.connection.heartbeat_timeout default_heartbeat_timeout refl,
        or_default_again cfg.connection.sequence_gap_timeout default_sequence_gap_timeout refl,
        or_default_again cfg.exec.max_sessions default_max_sessions refl,
        or_default_again cfg.exec.stream_chunk_bytes default_stream_chunk_bytes refl,
        default_hosts_again cfg.hosts,
      )
      refl
