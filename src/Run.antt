-- ===== src/Run.antt =====
-- main.go and internal/server/server.go, `Run`: how the program ends.
use gols_bash.Prelude.{ℕ, Bool, not, Option, none, some, Str, if◌then◌else◌}
use gols_bash.State.{Server}

-- The errors of `Run`; a text stands for an error of another package.
pub data RunError : Type 0 where
  context_canceled exit_without_shutdown : RunError
  log_file_error connection_error : Str → RunError

-- What `Run` waits for: the context, the `exit` message, or the end of the connection, with its
-- error.
pub data RunEnd : Type 0 where
  ctx_done exit_signalled : RunEnd
  conn_done : Option Str → RunEnd

unfoldable pub exit_result : Server → Option RunError
exit_result s = if s.abnormal_exit then some exit_without_shutdown else none

-- The select at the end of `Run`, in the state that the messages have left.
unfoldable pub run_result : Server → RunEnd → Option RunError
unfolding exit_result
run_result s ctx_done = some context_canceled
run_result s exit_signalled = exit_result s
run_result s (conn_done err) =
    if s.exited
    then exit_result s
    else elim err [ none ↦ none | some text ↦ some (connection_error text) ]

-- The exit status of `main`, by its flags.
unfoldable pub main_status : (version valid_log_level : Bool) → Option RunError → ℕ
main_status version valid_log_level err =
    if version
    then 0
    else if not valid_log_level
    then 2
    else elim err [ none ↦ 0 | some exit_without_shutdown ↦ 1 | some _ ↦ 1 ]
