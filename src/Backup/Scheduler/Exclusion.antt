-- ===== src/Backup/Scheduler/Exclusion.antt =====
-- Jobs that run at the same time, in one process or in several.
use fcstask_backend.Backup.Lock.{
  FileLock, OsLock, err_locked, flock, release, release_file, try_acquire,
}
use fcstask_backend.Errors.{Error}
use fcstask_backend.Errors.Action.{Result, err, ok}
use fcstask_backend.Backup.Scheduler.{
  JobState, System, SystemEvent, after_acquire, after_release, all_idle, end_process, enter,
  has_mutex, idle, job_step, leaving, process_ends, releasing, run_events, run_job, running,
  set_job, set_mutex, step,
}
use fcstask_backend.Prelude.{
  Bool, Bool-cases, inl, inr, List, [], ◌+◌, ◌∷◌, Option, arith, false, none, refl, some, true, ℕ,
  ◌≡◌,
}

abbrev pub is_idle : JobState → Bool
is_idle idle = true
is_idle has_mutex = false
is_idle running = false
is_idle releasing = false
is_idle leaving = false

-- Between the two releases the job no longer counts on the file lock.
abbrev pub needs_lock : JobState → Bool
needs_lock idle = false
needs_lock has_mutex = false
needs_lock running = true
needs_lock releasing = true
needs_lock leaving = false

abbrev pub file_of : System → ℕ → Option ℕ
file_of s p = (s.process p).file_lock.file

abbrev pub is_open : Option ℕ → Bool
is_open none = false
is_open (some f) = true

module _ (home : ℕ → ℕ) where
  pub record IsExclusive (s : System) : Type 0 where
    -- A job that is not idle has the mutex of its process, and no other job of the process does.
    pub mutex : (i : ℕ) → is_idle (s.job i) ≡ false → (s.process (home i)).job_mu ≡ true
    pub alone :
        (i j : ℕ) → is_idle (s.job i) ≡ false → is_idle (s.job j) ≡ false → home i ≡ home j → i ≡ j
    -- A job that runs its backup has its file open, and an open file of a process is the one with the lock.
    pub opened : (i : ℕ) → needs_lock (s.job i) ≡ true → is_open (file_of s (home i)) ≡ true
    pub locked : (p : ℕ) → is_open (file_of s p) ≡ true → s.os.holder ≡ file_of s p
    pub one_open : (p q : ℕ) → is_open (file_of s p) ≡ true → is_open (file_of s q) ≡ true → p ≡ q

  all_idle-IsExclusive : IsExclusive all_idle
  all_idle-IsExclusive = record {
    mutex = λ i. cc;
    alone = λ i j. cc;
    opened = λ i. cc;
    locked = λ p. cc;
    one_open = λ p q. cc;
  }

  -- Two jobs that run their backups are one.
  pub IsExclusive-one :
      (s : System) (i j : ℕ)
      → IsExclusive s
      → needs_lock (s.job i) ≡ true
      → needs_lock (s.job j) ≡ true
      → i ≡ j
  IsExclusive-one s i j inv hi hj =
      inv.alone i j (busy (s.job i) hi) (busy (s.job j) hj)
        (inv.one_open (home i) (home j) (inv.opened i hi) (inv.opened j hj))
    where
      busy : (x : JobState) → needs_lock x ≡ true → is_idle x ≡ false
      busy idle h = cc
      busy has_mutex h = refl
      busy running h = refl
      busy releasing h = refl
      busy leaving h = refl

  module _ (s : System) (inv : IsExclusive s) (i : ℕ) where
    enter-IsExclusive :
        (b : Bool)
        → (s.process (home i)).job_mu ≡ b
        → s.job i ≡ idle
        → IsExclusive (enter home i b s)
    enter-IsExclusive true e here = inv
    enter-IsExclusive false e here = record {
      mutex = λ j h. ground (arith, inv.mutex j);
      alone = λ j k hj hk same. ground (arith, inv.alone j k, inv.mutex j, inv.mutex k);
      opened = λ j h. ground (arith, inv.opened j);
      locked = λ p h. ground (arith, inv.locked p);
      one_open = λ p q hp hq. ground (arith, inv.one_open p q);
    }

    set_job-IsExclusive :
        (x : JobState)
        → is_idle (s.job i) ≡ is_idle x
        → (needs_lock x ≡ true → needs_lock (s.job i) ≡ true)
        → IsExclusive (set_job home i x s)
    set_job-IsExclusive x e need = record {
      mutex = λ j h. ground (arith, inv.mutex j);
      alone = λ j k hj hk same. ground (arith, inv.alone j k);
      opened = λ j h. ground (arith, need, inv.opened j);
      locked = λ p h. ground (arith, inv.locked p);
      one_open = λ p q hp hq. ground (arith, inv.one_open p q);
    }

    acquired-IsExclusive :
        (os : OsLock) (f : ℕ)
        → s.os.holder ≡ none
        → os.holder ≡ some f
        → s.job i ≡ has_mutex
        → IsExclusive (after_acquire home i (ok tt, (record { file = some f }, os)) s)
    acquired-IsExclusive os f free held here = record {
      mutex = λ j h. ground (arith, inv.mutex j);
      alone = λ j k hj hk same. ground (arith, inv.alone j k);
      opened = λ j h. ground (arith, inv.opened j);
      locked = λ p h. ground (arith, inv.locked p, held, free);
      one_open = λ p q hp hq. ground (arith, inv.locked p, inv.locked q, free);
    }

    refused-IsExclusive :
        (os : OsLock) (lock : FileLock) (e : Error)
        → os.holder ≡ s.os.holder
        → s.job i ≡ has_mutex
        → IsExclusive (after_acquire home i (err e, (lock, os)) s)
    refused-IsExclusive os lock e same here = record {
      mutex = λ j h. ground (arith, inv.mutex j);
      alone = λ j k hj hk same. ground (arith, inv.alone j k);
      opened = λ j h. ground (arith, inv.opened j);
      locked = λ p h. ground (arith, inv.locked p, same);
      one_open = λ p q hp hq. ground (arith, inv.one_open p q);
    }

    left-IsExclusive :
        s.job i ≡ leaving → IsExclusive (set_job home i idle (set_mutex home (home i) false s))
    left-IsExclusive here = record {
      mutex = λ j h. ground (arith, inv.mutex j, inv.alone j i);
      alone = λ j k hj hk same. ground (arith, inv.alone j k);
      opened = λ j h. ground (arith, inv.opened j);
      locked = λ p h. ground (arith, inv.locked p);
      one_open = λ p q hp hq. ground (arith, inv.one_open p q);
    }

    released-IsExclusive :
        (os : OsLock)
        → s.job i ≡ releasing
        → IsExclusive (after_release home i (record { file = none }, os) s)
    released-IsExclusive os here = record {
      mutex = λ j h. ground (arith, inv.mutex j);
      alone = λ j k hj hk same. ground (arith, inv.alone j k);
      opened = λ j h. ground (arith, inv.opened j, inv.alone j i, inv.mutex j);
      locked = λ p h. ground (arith, inv.opened i, inv.one_open p (home i));
      one_open = λ p q hp hq. ground (arith, inv.one_open p q);
    }

    ended-IsExclusive : (p : ℕ) → IsExclusive (end_process home p s)
    ended-IsExclusive p = record {
      mutex = λ j h. ground (arith, inv.mutex j);
      alone = λ j k hj hk same. ground (arith, inv.alone j k);
      opened = λ j h. ground (arith, inv.opened j);
      locked = λ q h. ground (arith, inv.locked q, inv.one_open p q);
      one_open = λ q r hq hr. ground (arith, inv.one_open q r);
    }

    flocked-IsExclusive :
        (holder : Option ℕ) (lock : FileLock)
        → s.os.holder ≡ holder
        → s.job i ≡ has_mutex
        → IsExclusive (after_acquire home i (flock holder lock s.os) s)
    flocked-IsExclusive none lock e here =
        acquired-IsExclusive (record { holder = some s.os.next; next = s.os.next + 1 }) s.os.next e
          refl here
    flocked-IsExclusive (some f) lock e here =
        refused-IsExclusive (record s.os { next = s.os.next + 1 }) lock err_locked refl here

    acquire-IsExclusive :
        (opened : Result (Unit {0})) (lock : FileLock)
        → s.job i ≡ has_mutex
        → IsExclusive (after_acquire home i (try_acquire opened lock s.os) s)
    unfolding try_acquire
    acquire-IsExclusive (err e) lock here = refused-IsExclusive s.os lock e refl here
    acquire-IsExclusive (ok _) lock here = flocked-IsExclusive s.os.holder lock refl here

    run_job-IsExclusive :
        (opened : Result (Unit {0})) (x : JobState)
        → s.job i ≡ x
        → IsExclusive (run_job home i opened x s)
    unfolding run_job release
    run_job-IsExclusive opened idle here = enter-IsExclusive ((s.process (home i)).job_mu) refl here
    run_job-IsExclusive opened has_mutex here =
        acquire-IsExclusive opened ((s.process (home i)).file_lock) here
    run_job-IsExclusive opened running here = set_job-IsExclusive releasing (cc) (λ h. cc)
    run_job-IsExclusive opened releasing here =
        released-IsExclusive (release_file (file_of s (home i)) s.os) here
    run_job-IsExclusive opened leaving here = left-IsExclusive here

  step-IsExclusive : (e : SystemEvent) (s : System) → IsExclusive s → IsExclusive (step home e s)
  unfolding step
  step-IsExclusive (job_step i opened) s inv = run_job-IsExclusive s inv i opened (s.job i) refl
  step-IsExclusive (process_ends p) s inv = ended-IsExclusive s inv 0 p

  run_events-IsExclusive :
      (es : List SystemEvent) (s : System) → IsExclusive s → IsExclusive (run_events home es s)
  unfolding run_events
  run_events-IsExclusive [] s inv = inv
  run_events-IsExclusive (e ∷ es) s inv =
      run_events-IsExclusive es (step home e s) (step-IsExclusive e s inv)

  -- Whatever the jobs do, in any order and in any number of processes that may end and start again: while
  -- one job is between taking the lock on the file and giving it back, no other job is.
  pub run_events-one_running :
      (es : List SystemEvent) (i j : ℕ)
      → (i ≡ j → ⊥)
      → needs_lock ((run_events home es all_idle).job i) ≡ true
      → needs_lock ((run_events home es all_idle).job j) ≡ false
  run_events-one_running es i j ne hi =
      elim (Bool-cases (needs_lock ((run_events home es all_idle).job j))) [
        | inl hj ↦ absurd (
            ne (
              IsExclusive-one (run_events home es all_idle) i j
                (run_events-IsExclusive es all_idle all_idle-IsExclusive) hi hj))
        | inr h ↦ h
      ]
