-- ===== src/ShellCheck/Ranges.antt =====
-- internal/server/diagnostics.go, `shellCheckSourceRange`: the ranges that are sent to the client.
use gols_bash.Prelude.{◌≡◌, false, Str, ℤ, arith}
use gols_bash.Positions.{PositionEncoding, Position}
use gols_bash.ShellCheck.{before, shellcheck_position, shellcheck_source_range}

before_self : (p : Position) → before p p ≡ false
before_self p = ground arith

-- Whatever ShellCheck says of lines and columns, the range does not end before it starts.
pub shellcheck_source_range_ordered :
    (text : Str) (enc : PositionEncoding) (line column end_line end_column : ℤ)
    → before
        (shellcheck_source_range text enc line column end_line end_column).stop
        (shellcheck_source_range text enc line column end_line end_column).start
      ≡ false
unfolding shellcheck_source_range
shellcheck_source_range_ordered text enc line column end_line end_column =
    ground (arith, before_self (shellcheck_position text enc line column))
