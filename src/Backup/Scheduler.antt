-- ===== src/Backup/Scheduler.antt =====
-- backup-service/internal/scheduler/scheduler.go: jobs that the schedule starts, in one or several processes
-- with one lock file. A job goes on in steps, in any order with the steps of the others.
pub mod Exclusion
use fcstask_backend.Backup.Lock.{FileLock, OsLock, release, release_file, try_acquire}
use fcstask_backend.Errors.Action.{Result, err, ok}
use fcstask_backend.Prelude.{Bool, List, [], false, if◌then◌else◌, none, true, ℕ, ◌==◌, ◌∷◌}

-- Where a job is in `runJob`: not begun or over; with the mutex; running the backup; at the deferred
-- release of the file lock; at the deferred release of the mutex.
pub data JobState : Type 0 where
  idle has_mutex running releasing leaving : JobState

pub record Process : Type 0 where
  pub job_mu : Bool
  pub file_lock : FileLock

pub record System : Type 0 where
  pub os : OsLock
  pub process : ℕ → Process
  pub job : ℕ → JobState

-- A step of a job, with how the file system takes it, or the end of a process, which may start again.
pub data SystemEvent : Type 0 where
  job_step : (i : ℕ) → (opened : Result (Unit {0})) → SystemEvent
  process_ends : (p : ℕ) → SystemEvent

abbrev pub update {ℓ} : {A : Type ℓ} → (ℕ → A) → ℕ → A → ℕ → A
update f i v j = if j == i then v else f j

abbrev pub unlocked : Process
unlocked = record { job_mu = false; file_lock = record { file = none } }

-- `home i` is the process that job `i` belongs to.
module _ (home : ℕ → ℕ) where
  abbrev pub set_job : ℕ → JobState → System → System
  set_job i state s = record s { job = update s.job i state }

  abbrev pub set_mutex : ℕ → Bool → System → System
  set_mutex p b s = record s { process = update s.process p (record (s.process p) { job_mu = b }) }

  -- `TryLock`
  abbrev pub enter : ℕ → Bool → System → System
  enter i true s = s
  enter i false s = set_job i has_mutex (set_mutex (home i) true s)

  abbrev pub after_acquire : ℕ → Result (Unit {0}) × (FileLock × OsLock) → System → System
  after_acquire i (ok _, (lock, os)) s = set_job i running (record s {
    os = os;
    process = update s.process (home i) (record (s.process (home i)) { file_lock = lock });
  })
  after_acquire i (err e, (lock, os)) s = set_job i leaving (record s { os = os })

  abbrev pub after_release : ℕ → FileLock × OsLock → System → System
  after_release i (lock, os) s = set_job i leaving (record s {
    os = os;
    process = update s.process (home i) (record (s.process (home i)) { file_lock = lock });
  })

  unfoldable pub run_job : ℕ → Result (Unit {0}) → JobState → System → System
  run_job i opened idle s = enter i (s.process (home i)).job_mu s
  run_job i opened has_mutex s =
      after_acquire i (try_acquire opened (s.process (home i)).file_lock s.os) s
  run_job i opened running s = set_job i releasing s
  run_job i opened releasing s = after_release i (release (s.process (home i)).file_lock s.os) s
  run_job i opened leaving s = set_job i idle (set_mutex (home i) false s)

  -- The jobs of a process end with it, and so do its mutex and its open file.
  abbrev pub end_process : ℕ → System → System
  end_process p s = record {
    os = release_file (s.process p).file_lock.file s.os;
    process = update s.process p unlocked;
    job = λ i. if home i == p then idle else s.job i;
  }

  unfoldable pub step : SystemEvent → System → System
  step (job_step i opened) s = run_job i opened (s.job i) s
  step (process_ends p) s = end_process p s

  unfoldable pub run_events : List SystemEvent → System → System
  run_events [] s = s
  run_events (e ∷ es) s = run_events es (step e s)

abbrev pub all_idle : System
all_idle = record {
  os = record { holder = none; next = 0 };
  process = λ p. unlocked;
  job = λ i. idle;
}
