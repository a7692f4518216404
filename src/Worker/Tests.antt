-- ===== src/Worker/Tests.antt =====
-- Two workers at one lock, and requests to a server that answers 200 at the second post.
use automem.Text.Normalize.{is_space, rstrip, lstrip, strip}
use automem.Common.{
  Option, ◌-◌, true, ℕ, ◌+◌, ◌≡◌, refl, false, none, some, [], ◌∷◌, if◌then◌else◌, nat_eq, arith,
  max,
}
use automem.Text.{Text, text, ◌==◌, elem}
use automem.Worker.Lock.{
  delivered, too_large, returned, no_process, Numerals, crashed, Signal, pid_is_alive, pid_of,
  opening, holding, proceeds, leaves, System, perform_acts, perform, moved, proceed, open_lock,
  write_pid, is_held, read_lock_pid,
}
use automem.Worker.Exclusion.{IsHeldBy, IsReadBack, perform_acts-IsHeldBy, five_steps}
use automem.Worker.Loop.{raised, polled, work, next_streak}
use automem.Worker.Retries.{
  end_of, Response, missing_keys, IsRun, path_of, mode_name, run_consolidation,
  run_consolidation_cases, post_until, has_all, validate,
}

-- All processes live but 9, and 1000 is too large for a pid.
abbrev kill : ℕ → Signal
kill pid = if nat_eq pid 9 then no_process else if nat_eq pid 1000 then too_large else delivered

-- A numeral of one digit.
abbrev numerals : Numerals
numerals = record {
  print = λ n. (48 + n) ∷ [];
  parse = λ t. elim t [ [] ↦ none | c ∷ cs ↦ some (false, c - 48) ];
}

abbrev free : System
free = record { places = λ pid. opening; path = none }

-- Process 1 has the lock.
abbrev held : System
held = perform_acts numerals kill (proceeds 1 ∷ proceeds 1 ∷ []) free

held-IsHeldBy : IsHeldBy numerals 1 held
unfolding perform_acts perform moved proceed open_lock write_pid
held-IsHeldBy = record { holder = refl; file = refl; others = λ other apart. ground (arith, apart) }

one_back : IsReadBack numerals 1
unfolding strip lstrip rstrip is_space
one_back = record { nonempty = refl; parsed = refl; positive = omega arith }

one_lives : pid_is_alive (kill 1) ≡ returned true
unfolding pid_is_alive
one_lives = refl

perform_acts-IsHeldBy_example :
    IsHeldBy numerals 1 (perform_acts numerals kill (proceeds 2 ∷ proceeds 2 ∷ leaves 2 ∷ []) held)
perform_acts-IsHeldBy_example =
    perform_acts-IsHeldBy numerals kill 1 one_back one_lives
      (proceeds 2 ∷ proceeds 2 ∷ leaves 2 ∷ []) held (λ e. cc, (λ e. cc, (λ e. cc, tt)))
      held-IsHeldBy

-- The file of a process that is gone.
abbrev stale : System
stale = record {
  places = λ pid. opening;
  path = some (record { creator = 9; content = some (text "9") });
}

-- A file that is not UTF-8 stops the worker.
abbrev garbled : System
garbled = record { places = λ pid. opening; path = some (record { creator = 9; content = none }) }

stopped : (perform_acts numerals kill (five_steps 2) garbled).places 2 ≡ crashed
unfolding perform_acts perform moved proceed open_lock is_held read_lock_pid
stopped = refl

-- Process 2 reads the file of 1 before 1 has written it, and removes it: both hold the lock.
abbrev race : System
race =
    perform_acts numerals kill
      (proceeds 1
        ∷ proceeds 2
        ∷ proceeds 2
        ∷ proceeds 2
        ∷ proceeds 2
        ∷ proceeds 2
        ∷ proceeds 1
        ∷ [])
      free

two_holders : (race.places 1 ≡ holding) × (race.places 2 ≡ holding)
unfolding perform_acts perform moved proceed open_lock write_pid is_held read_lock_pid pid_of
    pid_is_alive strip
two_holders = (refl, refl)

-- The server answers 503 and then 200.
abbrev post : Text → ℕ → Option Response × ℕ
post path n =
    (some (record { status_code = if nat_eq n 1 then 200 else 503; keys = some [] }), n + 1)

second_try : run_consolidation post (text "enqueue") 3 0 ≡ (missing_keys, 2)
unfolding run_consolidation post_until end_of has_all validate ◌==◌ elem
second_try = refl

run_consolidation_cases_example :
    (n : ℕ) × IsRun
      (post (path_of false))
      false
      (max 1 3)
      0
      (run_consolidation post (mode_name false) 3 0)
      n
run_consolidation_cases_example = run_consolidation_cases post false 3 0

-- Two idle polls and a job.
polls :
    work false 0 (polled (some (text "idle")) ∷ polled (some (text "idle")) ∷ raised ∷ [])
    ≡ (some 1, 2)
unfolding work next_streak ◌==◌
polls = refl
