-- ===== src/Backup/Lock.antt =====
-- backup-service/internal/lock/lock.go: a lock on a file, which the operating system grants to one open
-- file at a time, and drops when that file is closed or its process ends.
use fcstask_backend.Errors.{Error, other_error}
use fcstask_backend.Errors.Action.{Result, err, ok}
use fcstask_backend.Prelude.{Option, if◌then◌else◌, none, some, ℕ, ◌+◌, ◌==◌}

-- The open file that has the lock, and the number of the next file that is opened.
pub record OsLock : Type 0 where
  pub holder : Option ℕ
  pub next : ℕ

-- `l.f`
pub record FileLock : Type 0 where
  pub file : Option ℕ

abbrev pub err_locked : Error
err_locked = other_error "resource is locked by another process"

-- `syscall.Flock` with `LOCK_EX|LOCK_NB` on a file that was just opened.
abbrev pub flock : Option ℕ → FileLock → OsLock → Result (Unit {0}) × (FileLock × OsLock)
flock none lock os = (
  ok tt,
  (record lock { file = some os.next }, record { holder = some os.next; next = os.next + 1 }),
)
flock (some other) lock os = (err err_locked, (lock, record os { next = os.next + 1 }))

-- `opened` tells how making the directory and opening the file went, and a call of flock that fails for
-- another reason than the lock.
unfoldable pub try_acquire :
    (opened : Result (Unit {0})) → FileLock → OsLock → Result (Unit {0}) × (FileLock × OsLock)
try_acquire (err e) lock os = (err e, (lock, os))
try_acquire (ok _) lock os = flock os.holder lock os

-- The lock is dropped with the file that had it.
abbrev pub close_file : ℕ → OsLock → OsLock
close_file file os = record os {
  holder = elim os.holder [ none ↦ none | some f ↦ if f == file then none else some f ];
}

abbrev pub release_file : Option ℕ → OsLock → OsLock
release_file none os = os
release_file (some file) os = close_file file os

unfoldable pub release : FileLock → OsLock → FileLock × OsLock
release lock os = (record lock { file = none }, release_file lock.file os)
