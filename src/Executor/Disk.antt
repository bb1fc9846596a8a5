-- ===== src/Executor/Disk.antt =====
-- FileJobStateStore: the file of the execution state. What stands in the file is a text; a write
-- replaces it as a whole or not at all, as atomicWrite's rename does.
use bazusop.Base.{
  String, Bool, not, ◌&&◌, ◌||◌, Option, none, some, Result, ok, err, ◌==◌, string_comparable,
  if◌then◌else◌,
}
use bazusop.Executor.{Error, ExecutionState, phase_executing, phase_completed}

-- encoding/json at jobExecutionState.
pub record Codec : Type 0 where
  pub encode : ExecutionState → String
  pub decode : String → Option ExecutionState

-- The file's contents, if there is one.
abbrev pub File : Type 0
File = Option String

unfoldable pub state_valid : ExecutionState → Bool
state_valid st =
    not
      (st.job.id == "" || (not (st.phase == phase_executing) && not (st.phase == phase_completed)))

abbrev pub decoded : Option ExecutionState → Result Error (Option ExecutionState)
decoded none = err "decode job execution state"
decoded (some st) =
    if state_valid st then ok (some st) else err "stored job execution state is invalid"

-- Load, where `ok none` stands for an error that os.IsNotExist tells.
unfoldable pub load : Codec → File → Result Error (Option ExecutionState)
load c none = ok none
load c (some contents) = decoded (c.decode contents)

unfoldable pub save : Codec → ExecutionState → File → File × Result Error (Unit {0})
save c st file =
    if state_valid st
    then (some (c.encode st), ok tt)
    else (file, err "job execution state is invalid")

unfoldable pub remove : File → File × Result Error (Unit {0})
remove file = (none, ok tt)
