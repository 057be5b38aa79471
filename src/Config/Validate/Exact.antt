-- ===== src/Config/Validate/Exact.antt =====
-- internal/config/config.go: Validate accepts exactly the valid configurations.
use exec_over_lark.Prelude.{
  ℕ, zero, suc, ◌≡◌, ◌≢◌, refl, ◌↔◌, ◌⊎◌, inl, inr, Bool, true, false, not, ◌&&◌, Option, none,
  some, List, [], ◌∷◌, ◌++◌, All, arith, ==_iff, if◌then◌else◌, is_empty, Option-cases,
}
use mathlib.Core.Path.{subst}
use exec_over_lark.Prelude.Bytes.{Bytes, codes, trim_space, is_blank, has_prefix, bytes_eq}
use exec_over_lark.Prelude.Dict.{Dict, lookup, Every}
use exec_over_lark.Prelude.Int.{ℤ, pos, negsuc, is_positive, ltz}
use exec_over_lark.Prelude.Result.{Result, ok, err, ◌>>=◌, ensures, chain}
use exec_over_lark.Prelude.FilePath.{dir}
use exec_over_lark.Prelude.Files.{Os}
use exec_over_lark.Config.Types.{
  Config, ConfigError, HostConfig, LarkConfig, ConnectionConfig, IpcConfig, ExecConfig, Field,
  FileError, missing,
}
use exec_over_lark.Config.Paths.{expand_user_path}
use exec_over_lark.Config.Security.{check_secure_directory}
use exec_over_lark.Config.Security.Private.{check_secure_directory_iff}
use exec_over_lark.Config.Validate.{
  is_id_char, all_id_chars, matches_id, validate_lark_id, is_limit, validate_lark,
  validate_connection, tolerate_missing, validate_socket, validate_ipc, is_defined,
  validate_default_host, validate_host, validate_hosts, validate_exec, validate_chat_ids,
  validate_allowed, validate,
}
use exec_over_lark.Config.Validate.Valid.{
  IsPositive, IsLess, IsIdChar, IsLarkId, IsLark, IsConnection, IsSocket, IsIpc, IsDefaultHost,
  IsHost, IsExec, IsAllowed, IsValid,
}

both {ℓ κ} :
    {P : Type ℓ} {Q : Type κ} (a b : Bool)
    → (a ≡ true) ↔ P
    → (b ≡ true) ↔ Q
    → (a && b ≡ true) ↔ (P × Q)
both true b i j = (λ h. (i.0 refl, j.0 h), λ p. j.1 p.1)
both false b i j = (λ h. cc, λ p. absurd (cc (i.1 p.0)))

is_positive_iff : (z : ℤ) → (is_positive z ≡ true) ↔ IsPositive z
is_positive_iff (pos zero) = (λ h. cc, λ (n, e). cc)
is_positive_iff (pos (suc n)) = (λ h. (n, refl), λ p. refl)
is_positive_iff (negsuc n) = (λ h. cc, λ (n, e). cc)

ltz_iff : (a b : ℤ) → (ltz a b ≡ true) ↔ IsLess a b
ltz_iff (pos a) (pos b) = ground arith
ltz_iff (pos a) (negsuc b) = (λ h. cc, λ h. absurd h)
ltz_iff (negsuc a) (pos b) = (λ h. tt, λ h. refl)
ltz_iff (negsuc a) (negsuc b) = ground arith

not_iff : (b : Bool) → (not b ≡ true) ↔ (b ≡ false)
not_iff true = (λ h. cc, λ h. cc)
not_iff false = (λ h. refl, λ h. refl)

not_empty_iff : (s : Bytes) → (not (is_empty s) ≡ true) ↔ (s ≢ [])
not_empty_iff [] = (λ h. cc, λ h. absurd (h refl))
not_empty_iff (c ∷ s) = (λ h e. cc, λ h. refl)

is_limit_iff : (z : ℤ) → (is_limit z ≡ true) ↔ (z ≡ pos 153600)
is_limit_iff (pos n) = ground (arith, ==_iff n 153600)
is_limit_iff (negsuc n) = (λ h. cc, λ h. cc)

has_prefix_iff : (p s : Bytes) → (has_prefix p s ≡ true) ↔ ((rest : Bytes) × (s ≡ p ++ rest))
unfolding has_prefix
has_prefix_iff [] s = (λ h. (s, refl), λ h. refl)
has_prefix_iff (c ∷ p) [] = (λ h. cc, λ (r, e). cc)
has_prefix_iff (c ∷ p) (d ∷ s) =
    let i = has_prefix_iff p s in
    (
      λ h. let (rest, e) = i.0 (ground arith) in (rest, ground (arith, e)),
      λ (rest, e). let tail = i.1 (rest, ground arith) in ground (arith, tail),
    )

is_id_char_iff : (c : ℕ) → (is_id_char c ≡ true) ↔ IsIdChar c
is_id_char_iff c = ground arith

all_id_chars_iff : (s : Bytes) → (all_id_chars s ≡ true) ↔ All IsIdChar s
unfolding all_id_chars
all_id_chars_iff [] = (λ h. tt, λ h. refl)
all_id_chars_iff (c ∷ s) =
    both (is_id_char c) (all_id_chars s) (is_id_char_iff c) (all_id_chars_iff s)

pub validate_lark_id_iff :
    (field : Field) (text prefix : Bytes)
    → (validate_lark_id field text prefix ≡ ok tt) ↔ IsLarkId prefix text
unfolding validate_lark_id matches_id
validate_lark_id_iff field text prefix =
    let value = trim_space text in
    let all = chain _ _ (ensures _ _ (not_empty_iff value)) (
      chain _ _ (ensures _ _ (has_prefix_iff prefix value))
        (ensures _ _ (both _ _ (not_empty_iff value) (all_id_chars_iff value)))) in
    (λ h. let (a, (b, (c, d))) = all.0 h in (a, (b, d)), λ p. all.1 (p.0, (p.1.0, (p.0, p.1.1))))

validate_lark_iff :
    (name : Bytes) (lark : LarkConfig) → (validate_lark name lark ≡ ok tt) ↔ IsLark name lark
unfolding validate_lark
validate_lark_iff name lark = chain _ _ (ensures _ _ (not_iff (is_blank name))) (
    chain _ _ (ensures _ _ (not_iff (is_blank lark.app_id))) (
      chain _ _ (ensures _ _ (not_iff (is_blank lark.app_secret))) (
        chain _ _ (ensures _ _ (is_positive_iff lark.send_cooldown))
          (ensures _ _ (is_limit_iff lark.lark_text_request_limit_bytes)))))

validate_connection_iff : (c : ConnectionConfig) → (validate_connection c ≡ ok tt) ↔ IsConnection c
unfolding validate_connection
validate_connection_iff c = chain _ _ (ensures _ _ (is_positive_iff c.heartbeat_interval)) (
    chain _ _ (ensures _ _ (is_positive_iff c.heartbeat_timeout)) (
      chain _ _ (ensures _ _ (is_positive_iff c.sequence_gap_timeout))
        (ensures _ _ (ltz_iff c.heartbeat_interval c.heartbeat_timeout))))

tolerate_missing_iff :
    (r : Result FileError (Unit {0}))
    → (tolerate_missing r ≡ ok tt) ↔ ((r ≡ ok tt) ⊎ (r ≡ err missing))
tolerate_missing_iff (ok done) = (λ h. inl refl, λ h. refl)
tolerate_missing_iff (err e) = ground arith

validate_socket_iff :
    (os : Os) (path : Bytes) → (validate_socket os path ≡ ok tt) ↔ IsSocket os path
unfolding validate_socket
validate_socket_iff os path =
    let own = check_secure_directory_iff os (dir path) in
    let i = tolerate_missing_iff (check_secure_directory os (dir path)) in
    chain _ _ (ensures _ _ (not_iff (is_blank path))) (
      λ h. elim (i.0 h) [ inl p ↦ inl (own.0 p) | inr e ↦ inr e ],
      λ h. i.1 (elim h [ inl p ↦ inl (own.1 p) | inr e ↦ inr e ]),
    )

-- A check behind a switch.
when_iff {ℓ} :
    {P : Type ℓ} (on : Bool) (m : Result ConfigError (Unit {0}))
    → (m ≡ ok tt) ↔ P
    → ((if on then m else ok tt) ≡ ok tt) ↔ (on ≡ true → P)
when_iff true m i = (λ h _. i.0 h, λ p. i.1 (p refl))
when_iff false m i = (λ h e. absurd (cc e), λ p. refl)

bind_iff {ℓ} :
    {P : Bytes → Type ℓ} (m : Result ConfigError Bytes)
    (next : Bytes → Result ConfigError (Unit {0}))
    → ((a : Bytes) → (next a ≡ ok tt) ↔ P a)
    → ((m >>= next) ≡ ok tt) ↔ ((a : Bytes) × ((m ≡ ok a) × P a))
bind_iff (err failure) next i = (λ h. cc, λ (a, (e, p)). cc)
bind_iff {P = P} (ok b) next i = (
  λ h. (b, (refl, (i b).0 h)),
  λ (a, (e, p)). let same : a ≡ b = cc e in (i b).1 (subst P same p),
)

validate_ipc_iff : (os : Os) (ipc : IpcConfig) → (validate_ipc os ipc ≡ ok tt) ↔ IsIpc os ipc
unfolding validate_ipc
validate_ipc_iff os ipc = when_iff ipc.enabled _ (
    bind_iff (expand_user_path os ipc.socket_path) (validate_socket os)
      (λ path. validate_socket_iff os path))

is_defined_iff :
    (name : Bytes) (hosts : Dict Bytes HostConfig)
    → (is_defined name hosts ≡ true) ↔ ((host : HostConfig) × (lookup name hosts ≡ some host))
unfolding is_defined
is_defined_iff name hosts = elim (Option-cases (lookup name hosts)) [
  | inl e ↦ rw (e, is_defined) (λ h. cc h, λ (host, q). cc q)
  | inr (host, e) ↦ rw (e, is_defined) (λ h. (host, refl), λ q. refl)
]

validate_default_host_iff :
    (name : Bytes) (hosts : Dict Bytes HostConfig)
    → (validate_default_host name hosts ≡ ok tt) ↔ IsDefaultHost name hosts
unfolding validate_default_host
validate_default_host_iff [] hosts = (λ h. inl refl, λ h. refl)
validate_default_host_iff (c ∷ name) hosts =
    let i = is_defined_iff (c ∷ name) hosts in
    ensures (is_defined (c ∷ name) hosts) _
      (λ h. inr (i.0 h), λ q. i.1 (elim q [ inl e ↦ absurd (cc e) | inr found ↦ found ]))

validate_host_iff :
    (name : Bytes) (host : HostConfig) → (validate_host name host ≡ ok tt) ↔ IsHost name host
unfolding validate_host
validate_host_iff name host = chain _ _ (ensures _ _ (not_iff (is_blank name))) (
    chain _ _ (validate_lark_id_iff _ _ _) (
      chain _ _ (validate_lark_id_iff _ _ _)
        (ensures _ _ (is_positive_iff host.stream_chunk_bytes))))

validate_hosts_iff :
    (hosts : Dict Bytes HostConfig) → (validate_hosts hosts ≡ ok tt) ↔ Every IsHost hosts
unfolding validate_hosts
validate_hosts_iff [] = (λ h. tt, λ h. refl)
validate_hosts_iff ((name, host) ∷ hosts) =
    chain _ _ (validate_host_iff name host) (validate_hosts_iff hosts)

validate_exec_iff : (exec : ExecConfig) → (validate_exec exec ≡ ok tt) ↔ IsExec exec
unfolding validate_exec
validate_exec_iff exec = when_iff exec.enabled _ (
    chain _ _ (ensures _ _ (not_iff (is_blank exec.default_shell))) (
      chain _ _ (ensures _ _ (is_positive_iff exec.max_sessions))
        (ensures _ _ (is_positive_iff exec.stream_chunk_bytes))))

validate_chat_ids_iff :
    (ids : List Bytes) → (validate_chat_ids ids ≡ ok tt) ↔ All (IsLarkId (codes "oc_")) ids
unfolding validate_chat_ids
validate_chat_ids_iff [] = (λ h. tt, λ h. refl)
validate_chat_ids_iff (id ∷ ids) =
    chain _ _ (validate_lark_id_iff _ id _) (validate_chat_ids_iff ids)

validate_allowed_iff : (ids : Option (List Bytes)) → (validate_allowed ids ≡ ok tt) ↔ IsAllowed ids
unfolding validate_allowed
validate_allowed_iff none = (λ h. tt, λ h. refl)
validate_allowed_iff (some []) = (λ h. cc, λ h. absurd (h.0 refl))
validate_allowed_iff (some (id ∷ ids)) =
    let i = validate_chat_ids_iff (id ∷ ids) in (λ h. (λ e. cc, i.0 h), λ h. i.1 h.1)

-- Validate accepts a configuration exactly when it is valid: the names and secrets are not blank, the
-- durations positive and the heartbeat interval below its timeout, the request limit the fixed one,
-- the socket of an enabled IPC in a private directory or one that is not there yet, the default host one of the hosts, every host and
-- allowed chat with identifiers of Lark, and an enabled exec with a shell and positive limits.
pub validate_iff : (os : Os) (cfg : Config) → (validate os (some cfg) ≡ ok tt) ↔ IsValid os cfg
unfolding validate
validate_iff os cfg =
    let all = chain _ _ (validate_lark_iff cfg.node_name cfg.lark) (
      chain _ _ (validate_connection_iff cfg.connection) (
        chain _ _ (validate_ipc_iff os cfg.ipc) (
          chain _ _ (validate_default_host_iff cfg.default_host cfg.hosts) (
            chain _ _ (validate_hosts_iff cfg.hosts) (
              chain _ _ (validate_exec_iff cfg.exec)
                (validate_allowed_iff cfg.exec.allowed_chat_ids)))))) in
    (
      λ h.
          let (a, (b, (c, (d, (e, (f, g)))))) = all.0 h in
          record {
            lark = a;
            connection = b;
            ipc = c;
            default_host = d;
            hosts = e;
            exec = f;
            allowed = g;
          },
      λ v.
          all.1 (v.lark, (v.connection, (v.ipc, (v.default_host, (v.hosts, (v.exec, v.allowed)))))),
    )
