-- ===== src/Worker/Exclusion.antt =====
-- Who gets the lock.
use automem.Text.Normalize.{strip}
use automem.Text.{is_empty}
use automem.Common.{
  ◌≤◌, false, ℕ, ◌≡◌, ◌≢◌, refl, Bool, true, Bool-cases, inl, inr, some, List, [], ◌∷◌, nat_eq,
  arith, All,
}
use automem.Worker.Lock.{
  threw, returned, pid_of, crashed, returned, pid_is_alive, Call, Signal, Numerals, Place, opening,
  writing, reading, unlinking, holding, refused, finished, LockPath, read_lock_pid, is_held,
  open_lock, proceed, leave, Act, proceeds, leaves, actor, System, moved, perform, perform_acts,
}

-- A process that has not found the lock free.
abbrev pub IsNewcomer : Place → Type 0
IsNewcomer opening = Unit
IsNewcomer reading = Unit
IsNewcomer refused = Unit
IsNewcomer finished = Unit
IsNewcomer crashed = Unit
IsNewcomer _ = ⊥

-- `pid` holds the lock, and its file is written.
pub record IsHeldBy (numerals : Numerals) (pid : ℕ) (s : System) : Type 0 where
  pub holder : s.places pid ≡ holding
  pub file : s.path ≡ some (record { creator = pid; content = some (numerals.print pid) })
  pub others : (other : ℕ) → other ≢ pid → IsNewcomer (s.places other)

-- `int` reads back what `str` wrote of a pid, also behind `strip`.
pub record IsReadBack (numerals : Numerals) (pid : ℕ) : Type 0 where
  pub nonempty : is_empty (strip (numerals.print pid)) ≡ false
  pub parsed : numerals.parse (strip (numerals.print pid)) ≡ some (false, pid)
  pub positive : 1 ≤ pid

module _ (numerals : Numerals) (kill : ℕ → Signal) (pid : ℕ) (back : IsReadBack numerals pid)
    (lives : pid_is_alive (kill pid) ≡ returned true) where
  abbrev lock : LockPath
  lock = some (record { creator = pid; content = some (numerals.print pid) })

  pid_of-print : pid_of numerals (strip (numerals.print pid)) ≡ some pid
  unfolding pid_of
  pid_of-print = rw (back.nonempty, back.parsed) (ground (arith, back.positive))

  lock-is_held : is_held kill (read_lock_pid numerals lock) ≡ returned true
  unfolding is_held read_lock_pid
  lock-is_held = rw pid_of-print lives

  -- A newcomer that finds the file stays one and leaves the file.
  proceed-newcomer :
      (other : ℕ) (place : Place)
      → IsNewcomer place
      → IsNewcomer (proceed numerals kill other place lock).0
        × ((proceed numerals kill other place lock).1 ≡ lock)
  unfolding proceed open_lock
  proceed-newcomer other opening n = (tt, refl)
  proceed-newcomer other reading n = (rw lock-is_held tt, refl)
  proceed-newcomer other refused n = (tt, refl)
  proceed-newcomer other finished n = (tt, refl)
  proceed-newcomer other crashed n = (tt, refl)
  proceed-newcomer other writing n = elim n [ ]
  proceed-newcomer other unlinking n = elim n [ ]
  proceed-newcomer other holding n = elim n [ ]

  leave-newcomer :
      (place : Place)
      → IsNewcomer place
      → IsNewcomer (leave place lock).0 × ((leave place lock).1 ≡ lock)
  unfolding leave
  leave-newcomer opening n = (tt, refl)
  leave-newcomer reading n = (tt, refl)
  leave-newcomer refused n = (tt, refl)
  leave-newcomer finished n = (tt, refl)
  leave-newcomer crashed n = (tt, refl)
  leave-newcomer writing n = elim n [ ]
  leave-newcomer unlinking n = elim n [ ]
  leave-newcomer holding n = elim n [ ]

  moved-IsHeldBy :
      (other : ℕ) (s : System) (step : Place × LockPath)
      → other ≢ pid
      → IsHeldBy numerals pid s
      → IsNewcomer step.0 × (step.1 ≡ lock)
      → IsHeldBy numerals pid (moved other step s)
  unfolding moved
  moved-IsHeldBy other s (place, path) apart h (newcomer, kept) = record {
    holder = ground (arith, h.holder, apart);
    file = kept;
    others = λ third n. elim (Bool-cases (nat_eq other third)) [
      | inl e ↦ rw e newcomer
      | inr e ↦ rw e (h.others third n)
    ];
  }

  perform-IsHeldBy :
      (act : Act) (s : System)
      → actor act ≢ pid
      → IsHeldBy numerals pid s
      → IsHeldBy numerals pid (perform numerals kill act s)
  unfolding perform
  perform-IsHeldBy (proceeds other) s apart h =
      moved-IsHeldBy other s _ apart h
        (rw h.file (proceed-newcomer other (s.places other) (h.others other apart)))
  perform-IsHeldBy (leaves other) s apart h =
      moved-IsHeldBy other s _ apart h
        (rw h.file (leave-newcomer (s.places other) (h.others other apart)))

  -- While a living process, whose pid is read back as it was written, holds the lock and its file is written, no interleaving of processes that had not
  -- found the lock free lets one of them hold it or changes the file.
  pub perform_acts-IsHeldBy :
      (acts : List Act) (s : System)
      → All (λ act. actor act ≢ pid) acts
      → IsHeldBy numerals pid s
      → IsHeldBy numerals pid (perform_acts numerals kill acts s)
  unfolding perform_acts
  perform_acts-IsHeldBy [] s apart h = h
  perform_acts-IsHeldBy (act ∷ acts) s apart h =
      perform_acts-IsHeldBy acts (perform numerals kill act s) apart.1
        (perform-IsHeldBy act s apart.0 h)

-- The steps of one process alone.
abbrev pub five_steps : ℕ → List Act
five_steps pid = proceeds pid ∷ proceeds pid ∷ proceeds pid ∷ proceeds pid ∷ proceeds pid ∷ []

-- Where the process is, and the file.
abbrev pub seen_by : ℕ → System → Place × LockPath
seen_by pid s = (s.places pid, s.path)

module _ (numerals : Numerals) (kill : ℕ → Signal) (pid : ℕ) where
  abbrev go : Place × LockPath → Place × LockPath
  go here = proceed numerals kill pid here.0 here.1

  abbrev own_lock : LockPath
  own_lock = some (record { creator = pid; content = some (numerals.print pid) })

  -- By what the file says of its process: where a process that is alone comes to, and the file.
  abbrev pub settled : Call Bool → LockPath → Place × LockPath
  settled (returned true) path = (refused, path)
  settled (returned false) path = (holding, own_lock)
  settled threw path = (crashed, path)
