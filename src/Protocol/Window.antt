-- ===== src/Protocol/Window.antt =====
-- internal/protocol/frame.go: `RecvWindow`, which puts the frames of a connection back in order.
-- A time is a number of nanoseconds, the zero time is 0, and a duration that is not positive is 0.
mod Loop
mod Invariant
pub mod Order
pub mod Authentic
pub mod Complete
pub mod Timeout
pub mod Repeat
mod Seen
mod Tests
use exec_over_lark.Prelude.{
  ℕ, zero, suc, ◌+◌, Bool, true, false, not, Option, none, some, List, [], ◌∷◌, ◌++◌, ltb, leb,
  ◌==◌, if◌then◌else◌, length, is_empty, nat_eq,
}
use exec_over_lark.Prelude.Dict.{Dict, keys, lookup, insert, remove}
use exec_over_lark.Protocol.Frame.{Frame, ProtocolError, invalid_frame, sequence_gap_timeout, u64}

pub record RecvWindow : Type 0 where
  pub next_expected_seq : ℕ  -- uint64
  pub pending_frames : Dict ℕ Frame
  pub gap_started_at : ℕ
  pub gap_open : Bool
  pub gap_timeout : ℕ

pub record RecvResult : Type 0 where
  pub delivered : List Frame
  pub duplicate : Bool
  pub buffered : Bool
  pub gap_timed_out : Bool

unfoldable pub new_recv_window : ℕ → RecvWindow
new_recv_window gap_timeout = record {
  next_expected_seq = 1;
  pending_frames = [];
  gap_started_at = 0;
  gap_open = false;
  gap_timeout = gap_timeout;
}

-- `init`: the zero value of the struct is a window too. The map is never nil here.
unfoldable pub init : RecvWindow → RecvWindow
init w = record w {
  next_expected_seq = if w.next_expected_seq == 0 then 1 else w.next_expected_seq;
}

unfoldable pub close_gap : RecvWindow → RecvWindow
close_gap w = record w { gap_open = false; gap_started_at = 0 }

-- `sort.Slice` on the keys, by insertion.
unfoldable pub insert_sorted : ℕ → List ℕ → List ℕ
insert_sorted k [] = k ∷ []
insert_sorted k (j ∷ js) = if leb k j then k ∷ j ∷ js else j ∷ insert_sorted k js

unfoldable pub sort_seqs : List ℕ → List ℕ
unfolding insert_sorted
sort_seqs [] = []
sort_seqs (k ∷ ks) = insert_sorted k (sort_seqs ks)

unfoldable pub pending_seqs : RecvWindow → List ℕ
unfolding sort_seqs
pending_seqs w = sort_seqs (keys w.pending_frames)

-- `CheckGapTimeoutAt` behind its call of `init`.
unfoldable pub check_gap : RecvWindow → ℕ → RecvWindow × Option ProtocolError
unfolding close_gap pending_seqs
check_gap w now =
    if not w.gap_open
    then (w, none)
    else if is_empty w.pending_frames
    then (close_gap w, none)
    else if w.gap_timeout == 0
    then (w, none)
    else if ltb now (w.gap_started_at + w.gap_timeout)
    then (w, none)
    else (
      close_gap (record w { pending_frames = [] }),
      some (sequence_gap_timeout w.next_expected_seq (pending_seqs w)),
    )

-- `CheckGapTimeoutAt`: the window afterwards, and the error if there is one.
unfoldable pub check_gap_timeout_at : RecvWindow → ℕ → RecvWindow × Option ProtocolError
unfolding init check_gap
check_gap_timeout_at w now = check_gap (init w) now

-- The `for` loop of `OfferAt`. Each round deletes a pending frame, so their number is fuel enough.
unfoldable pub deliver_pending : ℕ → RecvWindow → List Frame → RecvWindow × List Frame
deliver_pending zero w delivered = (w, delivered)
deliver_pending (suc fuel) w delivered = elim (lookup w.next_expected_seq w.pending_frames) [
  | none ↦ (w, delivered)
  | some pending ↦
      deliver_pending fuel
        (record w {
          pending_frames = remove w.next_expected_seq w.pending_frames;
          next_expected_seq = u64 (w.next_expected_seq + 1);
        })
        (delivered ++ pending ∷ [])
]

-- The end of `OfferAt`: the gap is closed, or opened anew for what is still pending.
unfoldable pub settle_gap : ℕ → RecvWindow → RecvWindow
unfolding close_gap
settle_gap now w =
    if is_empty w.pending_frames
    then close_gap w
    else record w { gap_open = true; gap_started_at = now }

abbrev pub result : List Frame → RecvResult
result delivered = record {
  delivered = delivered;
  duplicate = false;
  buffered = false;
  gap_timed_out = false;
}

-- A frame ahead of the expected one, with what is pending under its number.
unfoldable pub buffer : RecvWindow → Frame → ℕ → Option Frame → RecvWindow × RecvResult
buffer w frame now (some _) = (w, record (result []) { duplicate = true })
buffer w frame now none = (
  record w {
    pending_frames = insert frame.seq frame w.pending_frames;
    gap_open = true;
    gap_started_at = if w.gap_open then w.gap_started_at else now;
  },
  record (result []) { buffered = true },
)

-- The expected frame, and the pending ones behind it.
unfoldable pub deliver : RecvWindow → Frame → ℕ → RecvWindow × RecvResult
unfolding deliver_pending settle_gap
deliver w frame now =
    let (w', delivered) =
      deliver_pending (length w.pending_frames)
        (record w { next_expected_seq = u64 (w.next_expected_seq + 1) }) (frame ∷ []) in
    (settle_gap now w', result delivered)

-- The part of `OfferAt` behind the check for a timeout.
unfoldable pub accept : RecvWindow → Frame → ℕ → RecvWindow × RecvResult
unfolding buffer deliver
accept w frame now =
    if ltb frame.seq w.next_expected_seq
    then (w, record (result []) { duplicate = true })
    else if ltb w.next_expected_seq frame.seq
    then buffer w frame now (lookup frame.seq w.pending_frames)
    else deliver w frame now

unfoldable pub offer_at : RecvWindow → Frame → ℕ → RecvWindow × RecvResult × Option ProtocolError
unfolding init check_gap_timeout_at accept
offer_at w₀ frame now =
    let w = init w₀ in
    if frame.seq == 0
    then (w, result [], some invalid_frame)
    else let (w', timed_out) = check_gap_timeout_at w now in
      elim timed_out [
        | some e ↦ (w', record (result []) { gap_timed_out = true }, some e)
        | none ↦ let (w'', r) = accept w' frame now in (w'', r, none)
      ]

-- `ReceiveAt`
unfoldable pub receive_at : RecvWindow → Frame → ℕ → RecvWindow × List Frame × Option ProtocolError
unfolding offer_at
receive_at w frame now = let (w', r, e) = offer_at w frame now in (w', r.delivered, e)

unfoldable pub reset : RecvWindow → RecvWindow
unfolding close_gap
reset w = close_gap (record w { next_expected_seq = 1; pending_frames = [] })
