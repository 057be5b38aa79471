-- ===== src/RemoteExec/Tests.antt =====
-- The theorems of RemoteExec at concrete inputs.
use exec_over_lark.Prelude.{◌≡◌, refl, true, Option, none, some, List, [], ◌∷◌, arith}
use exec_over_lark.Prelude.Bytes.{Bytes, codes, bytes_eq, same, bytes_le}
use exec_over_lark.Prelude.Dict.{Dict, lookup, insert}
use exec_over_lark.Prelude.Int.{negsuc}
use exec_over_lark.Prelude.Result.{ok, err}
use exec_over_lark.Prelude.Files.{directory, not_exist}
use exec_over_lark.Protocol.Wire.{cut}
use exec_over_lark.RemoteExec.Types.{Request, Machine, canceled, WaitError, exit_error, signaled}
use exec_over_lark.RemoteExec.Env.{merge_env}
use exec_over_lark.RemoteExec.Env.Value.{value_of, or_else, merge_env_value}
use exec_over_lark.RemoteExec.Start.{start_command}
use exec_over_lark.RemoteExec.Wait.{classify_wait}
use exec_over_lark.RemoteExec.Process.{Session, new_session, cancel}
use exec_over_lark.RemoteExec.Outcome.{
  StartsAs, start_command_lem, IsReport, classify_wait-IsReport,
}

abbrev base : List Bytes
base = codes "PATH=/bin" ∷ codes "LANG=C" ∷ codes "broken" ∷ []

abbrev overrides : Dict Bytes Bytes
overrides = (codes "LANG", codes "de") ∷ []

merge_env_runs : merge_env base overrides ≡ codes "LANG=de" ∷ codes "PATH=/bin" ∷ []
unfolding merge_env insert lookup same bytes_le cut
merge_env_runs = refl

merge_env_value_example :
    value_of (codes "LANG") (merge_env base overrides)
    ≡ or_else (lookup (codes "LANG") overrides) (value_of (codes "LANG") base)
unfolding lookup
merge_env_value_example =
    merge_env_value base overrides (codes "LANG") (refl, tt) (ground arith, tt)

abbrev machine : Machine
machine = record {
  os = record {
    home_dir = some (codes "/h");
    working_dir = none;
    uid = 1;
    stat = λ path. ok (record { kind = directory; perm = 0; owner = none });
    lstat = λ path. err not_exist;
  };
  environ = base;
  shell_variable = [];
  look_path = λ name. some name;
  pipes = true;
  start = λ c. true;
}

abbrev request : Request
request = record { command = codes "ls"; shell = codes "sh"; cwd = []; env = overrides }

start_command_lem_example : StartsAs machine [] none request (start_command machine [] none request)
start_command_lem_example = start_command_lem machine [] none request

abbrev killed : Option WaitError
killed = some (exit_error (record { sys = some (signaled 9); code = negsuc 0 }))

classify_wait-IsReport_example :
    IsReport (some canceled) killed (classify_wait (some canceled) killed)
classify_wait-IsReport_example =
    classify_wait-IsReport (some canceled) killed (signaled 9, (refl, omega arith))

abbrev ended : Session
ended = record new_session { ended = some killed }

abbrev sent : Session
sent = record ended { sent = true; wait_ch = some (classify_wait none killed) }

abbrev over : Session
over = record sent {
  wait_ch = none;
  wait_result = some (classify_wait none killed);
  answers = classify_wait none killed ∷ [];
}

-- The session is canceled behind its end, twice.
abbrev stopped : Session
stopped = cancel canceled (cancel canceled over)
