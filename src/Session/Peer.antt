-- ===== src/Session/Peer.antt =====
-- Whose messages reach a receiver (internal/session/session.go).
use exec_over_lark.Prelude.{
  ◌≡◌, ◌≢◌, ◌⊎◌, ℕ, refl, false, not, ◌&&◌, none, some, [], is_empty, is_empty_nil, Bool-cases,
  Option-cases, inl, inr,
}
use exec_over_lark.Prelude.Bytes.{Bytes, same, same_iff, is_blank, bytes_eq}
use exec_over_lark.Prelude.Dict.{lookup}
use exec_over_lark.Session.Types.{World, RemoteSession, SessionState, Manager, InboundMessage}
use exec_over_lark.Session.Base.{normalize_conn_id, ensure_peer}
use exec_over_lark.Session.Remote.{receive_remote}

-- A part of a message's sender that is not given, or is the session's.
abbrev pub Matches : Bytes → Bytes → Type 0
Matches given known = (given ≡ []) ⊎ (given ≡ known)

Matches-test :
    (given known : Bytes)
    → (not (is_empty given) && not (same given known)) ≡ false
    → Matches given known
Matches-test given known h = elim (Bool-cases (is_empty given)) [
  | inl e ↦ inl (is_empty_nil given e)
  | inr n ↦ elim (Bool-cases (same given known)) [
    | inl s ↦ inr ((same_iff given known).0 s)
    | inr d ↦ cc (simp (n, d) at h)
  ]
]

pub ensure_peer-Matches :
    (chat peer : Bytes) (s : SessionState)
    → ensure_peer chat peer s ≡ none
    → Matches chat s.chat_id × Matches peer s.peer_open_id
unfolding ensure_peer
ensure_peer-Matches chat peer s h =
    elim (Bool-cases (not (is_empty chat) && not (same chat s.chat_id))) [
      | inl t ↦ cc (rw t at h)
      | inr f ↦ elim (Bool-cases (not (is_empty peer) && not (same peer s.peer_open_id))) [
        | inl t ↦ cc (rw t at (rw f at h))
        | inr g ↦ (Matches-test chat s.chat_id f, Matches-test peer s.peer_open_id g)
      ]
    ]

-- A message that has any effect on the manager (a call of a receiver, a change of a session, or a step of the outbound
-- manager) belongs to a session that is there, and comes from the session's chat and the session's peer,
-- as far as the message names them.
pub receive_remote_authorized :
    (w : World) (now : ℕ) (msg : InboundMessage) (m : Manager w)
    → (receive_remote w now msg m).0 ≢ m
    → (sess : RemoteSession) × (lookup (normalize_conn_id msg) m.remote_by_conn ≡ some sess)
      × Matches msg.chat_id sess.base.chat_id
      × Matches msg.sender_open_id sess.base.peer_open_id
unfolding receive_remote
receive_remote_authorized w now msg m h = elim (Bool-cases (is_blank (normalize_conn_id msg))) [
  | inl t ↦ absurd (h (rw t refl))
  | inr f ↦ elim (Option-cases (lookup (normalize_conn_id msg) m.remote_by_conn)) [
    | inl e ↦ absurd (h (rw f (rw (e, receive_remote) refl)))
    | inr (sess, e) ↦ elim (Option-cases (ensure_peer msg.chat_id msg.sender_open_id sess.base)) [
      | inl good ↦
          let p = ensure_peer-Matches msg.chat_id msg.sender_open_id sess.base good in
          (sess, e, p.0, p.1)
      | inr (x, bad) ↦ absurd (
          h (
            rw f (
              rw (e, receive_remote)
                (rw (bad, receive_remote)
                  (elim (Bool-cases sess.base.closed) [ inl c ↦ rw c refl | inr o ↦ rw o refl ])))))
    ]
  ]
]
