-- ===== src/Clam/Exec.antt =====
-- internal/clamav/exec.go without the process itself: what is kept of its output, the lines that its
-- output is split into, and the error of its end. The chunks are those that the process writes.
pub mod Output
use clamav_webui.Prelude.{
  ℕ, ◌-◌, ◌*◌, ◌^◌, Text, Bool, true, false, ◌||◌, Option, none, some, List, [], ◌∷◌, ◌++◌, nat_beq,
  ltb, length, take, if◌then◌else◌,
}
use clamav_webui.Prelude.Int.{ℤ, pos}
use clamav_webui.Prelude.Bytes.{trim_right}
use clamav_webui.Clam.Scan.{StreamError, exited, failed}

abbrev pub max_captured_output : ℕ
max_captured_output = 8 * 2 ^ 20

-- The bytes that were written, and the room that is left
pub record LimitedWriter : Type 0 where
  pub buf : Text
  pub n : ℕ

-- `Write`, with the number of bytes that it answers
unfoldable pub write : LimitedWriter → Text → LimitedWriter × ℕ
write w p = (
  (if ltb 0 w.n
      then (let n_taken = if ltb w.n (length p) then w.n else length p in
          record { buf = w.buf ++ take n_taken p; n = w.n - n_taken })
      else w),
  length p,
)

-- The writes of a process, one after the other
unfoldable pub write_all : LimitedWriter → List Text → LimitedWriter
write_all w [] = w
write_all w (p ∷ ps) = write_all (write w p).0 ps

-- How a process ends: it cannot be started, its exit code, or another error of the wait.
pub data ProcessEnd : Type 0 where
  not_started wait_failed : ProcessEnd
  exit : ℤ → ProcessEnd

pub record Process : Type 0 where
  pub stdout : List Text
  pub stderr : List Text
  pub end : ProcessEnd

pub record Result : Type 0 where
  pub stdout : Text
  pub stderr : Text
  pub exit_code : ℤ

exit_error : ℤ → Option StreamError
exit_error (pos n) = if nat_beq n 0 then none else some (exited (pos n))
exit_error code = some (exited code)

pub end_error : ProcessEnd → Option StreamError
end_error not_started = some failed
end_error wait_failed = some failed
end_error (exit code) = exit_error code

exit_code_of : ProcessEnd → ℤ
exit_code_of not_started = pos 0
exit_code_of wait_failed = pos 0
exit_code_of (exit code) = code

-- `Run` on what the process does
unfoldable pub run : Process → Result × Option StreamError
unfolding exit_code_of end_error exit_error
run p =
    let room : LimitedWriter = record { buf = []; n = max_captured_output } in
    (
      record {
        stdout = (write_all room p.stdout).buf;
        stderr = (write_all room p.stderr).buf;
        exit_code = exit_code_of p.end;
      },
      end_error p.end,
    )

abbrev pub is_line_end : ℕ → Bool
is_line_end c = nat_beq c 13 || nat_beq c 10

-- The loop of the reader. `part` is what was read of a line so far; a line is passed on at its "\n",
-- and what is left at the end of the output if it is not empty.
pass_on : Text → List Text → List Text
pass_on [] rest = rest
pass_on (c ∷ s) rest = trim_right is_line_end (c ∷ s) ∷ rest

unfoldable pub read_lines : Text → Text → List Text
unfolding pass_on
read_lines part [] = pass_on part []
read_lines part (c ∷ s) =
    let same = read_lines (part ++ c ∷ []) s in
    let next = read_lines [] s in if nat_beq c 10 then pass_on (part ++ c ∷ []) next else same

-- The pipe joins the writes.
unfoldable pub joined : List Text → Text
joined [] = []
joined (p ∷ ps) = p ++ joined ps

-- `Stream`: the lines that are passed on, and the error. `chunks` is what the process writes to both
-- outputs, in the order of its writes.
unfoldable pub stream : List Text → ProcessEnd → List Text × Option StreamError
unfolding end_error exit_error
stream chunks not_started = ([], some failed)
stream chunks end = (read_lines [] (joined chunks), end_error end)
