-- ===== src/Worker/Lock.antt =====
-- `single_worker_lock` of scripts/governance_worker.py: several processes and one lock file, where each
-- system call is one step. What `os.kill` answers, `str` and `int` are parameters; that a file cannot be
-- created, read or removed for want of rights is left out.
use automem.Common.{
  ℕ, Bool, true, false, ◌||◌, Option, none, some, List, [], ◌∷◌, nat_eq, if◌then◌else◌,
}
use automem.Text.{Text, is_empty}
use automem.Text.Normalize.{strip}

-- What a call comes to, where all exceptions are one.
pub data Call (T : Type 0) : Type 0 where
  returned : T → Call T
  threw : Call T

-- `str` of a pid, and `int` of a text: the sign (true for a minus) and the absolute value, `none` for a
-- ValueError.
pub record Numerals : Type 0 where
  pub print : ℕ → Text
  pub parse : Text → Option (Bool × ℕ)

-- What `os.kill(pid, 0)` does: it returns, or raises ProcessLookupError, PermissionError or OverflowError.
pub data Signal : Type 0 where
  delivered no_process not_permitted too_large : Signal

unfoldable pub pid_is_alive : Signal → Call Bool
pid_is_alive delivered = returned true
pid_is_alive no_process = returned false
pid_is_alive not_permitted = returned true
pid_is_alive too_large = threw

-- The file under the path of the lock. A write goes to the file that the process created, also when
-- another stands under the path by then. A content that is not UTF-8 is `none`.
pub record LockFile : Type 0 where
  pub creator : ℕ
  pub content : Option Text

-- Where a process is: before `os.open`, before `os.write`, before `_read_lock_pid`, before `unlink`, in
-- the body with True, in the body with False, behind the body, and behind an exception.
pub data Place : Type 0 where
  opening writing reading unlinking holding refused finished crashed : Place

abbrev pub LockPath : Type 0
LockPath = Option LockFile

-- `pid if pid > 0 else None` of `int(raw)`, unless `raw` is empty or no number.
unfoldable pub pid_of : Numerals → (raw : Text) → Option ℕ
pid_of numerals raw = if is_empty raw then none else elim (numerals.parse raw) [
  | none ↦ none
  | some (negative, pid) ↦ if negative || nat_eq pid 0 then none else some pid
]

-- `_read_lock_pid`, which does not catch a UnicodeDecodeError.
unfoldable pub read_lock_pid : Numerals → LockPath → Call (Option ℕ)
read_lock_pid numerals none = returned none
read_lock_pid numerals (some file) = elim file.content [
  | none ↦ threw
  | some raw ↦ returned (pid_of numerals (strip raw))
]

unfoldable pub write_pid : Numerals → ℕ → LockPath → LockPath
write_pid numerals pid none = none
write_pid numerals pid (some file) =
    if nat_eq file.creator pid
    then some (record file { content = some (numerals.print pid) })
    else some file

-- `existing_pid is not None and _pid_is_alive(existing_pid)`
unfoldable pub is_held : (kill : ℕ → Signal) → Call (Option ℕ) → Call Bool
is_held kill threw = threw
is_held kill (returned none) = returned false
is_held kill (returned (some pid)) = pid_is_alive (kill pid)

-- Behind the look at the file. An exception leaves the file, as nothing was acquired.
abbrev pub place_behind : Call Bool → Place
place_behind (returned true) = refused
place_behind (returned false) = unlinking
place_behind threw = crashed

-- `os.open` with O_CREAT | O_EXCL.
unfoldable pub open_lock : ℕ → LockPath → Place × LockPath
open_lock pid none = (writing, some (record { creator = pid; content = some [] }))
open_lock pid (some file) = (reading, some file)

-- One step towards the body.
unfoldable pub proceed : Numerals → (kill : ℕ → Signal) → ℕ → Place → LockPath → Place × LockPath
proceed numerals kill pid opening path = open_lock pid path
proceed numerals kill pid writing path = (holding, write_pid numerals pid path)
proceed numerals kill pid reading path =
    (place_behind (is_held kill (read_lock_pid numerals path)), path)
proceed numerals kill pid unlinking path = (opening, none)
proceed numerals kill pid place path = (place, path)

-- The end of the body: `finally` unlinks if the lock was acquired.
unfoldable pub leave : Place → LockPath → Place × LockPath
leave holding path = (finished, none)
leave refused path = (finished, path)
leave place path = (place, path)

pub data Act : Type 0 where
  proceeds leaves : (pid : ℕ) → Act

abbrev pub actor : Act → ℕ
actor (proceeds pid) = pid
actor (leaves pid) = pid

pub record System : Type 0 where
  pub places : ℕ → Place
  pub path : LockPath

abbrev pub put : (ℕ → Place) → ℕ → Place → ℕ → Place
put places pid place other = if nat_eq pid other then place else places other

unfoldable pub moved : ℕ → Place × LockPath → System → System
moved pid (place, path) s = record { places = put s.places pid place; path = path }

unfoldable pub perform : Numerals → (kill : ℕ → Signal) → Act → System → System
perform numerals kill (proceeds pid) s =
    moved pid (proceed numerals kill pid (s.places pid) s.path) s
perform numerals kill (leaves pid) s = moved pid (leave (s.places pid) s.path) s

-- An interleaving of the processes.
unfoldable pub perform_acts : Numerals → (kill : ℕ → Signal) → List Act → System → System
perform_acts numerals kill [] s = s
perform_acts numerals kill (act ∷ acts) s =
    perform_acts numerals kill acts (perform numerals kill act s)
