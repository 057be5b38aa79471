-- ===== src/Lark/Errors.antt =====
-- internal/lark/client.go: `APIError` and `IsRetryableSendError`.
use exec_over_lark.Prelude.{
  ℕ, Bool, true, false, ◌&&◌, ◌||◌, Option, none, some, ◌==◌, leb, if◌then◌else◌,
}

pub record ApiError : Type 0 where
  pub status : ℕ
  pub code : ℕ

-- An error that is not nil, by what `errors.Is` and `errors.As` find in its chain.
pub record SendError : Type 0 where
  pub canceled : Bool  -- context.Canceled
  pub deadline_exceeded : Bool  -- context.DeadlineExceeded
  pub api : Option ApiError
  pub url_error : Bool
  pub op_error : Bool
  pub net_error : Bool

unfoldable pub is_network_connection_error : SendError → Bool
is_network_connection_error e = e.url_error || e.op_error || e.net_error

unfoldable pub retryable_api : ApiError → Bool
retryable_api a =
    if leb 500 a.status && leb a.status 599
    then true
    else leb 400 a.status && leb a.status 499 && a.code == 230020

unfoldable pub is_retryable_send_error : SendError → Bool
unfolding is_network_connection_error retryable_api
is_retryable_send_error e =
    if e.canceled || e.deadline_exceeded
    then false
    else elim e.api [ some a ↦ retryable_api a | none ↦ is_network_connection_error e ]
