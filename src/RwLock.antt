-- ===== src/RwLock.antt =====
-- src/ftllexengine/runtime/rwlock.py: the class `RWLock`. Each function is one critical section of
-- a method: what runs between taking `_condition` and waiting on it or leaving it.
pub mod System
pub mod Invariant
pub mod Preserve
pub mod Readers
pub mod Writers
pub mod Steps
pub mod Safety
pub mod Reentrant
use ftllex_engine.Base.{
  ℕ, zero, suc, ◌+◌, ◌-◌, Bool, true, false, ◌&&◌, ◌||◌, Option, none, some, List, [], ltb, leb,
  ◌==◌, if◌then◌else◌, Exception, value_error, runtime_error, timeout_error, ℤ, Dict, lookup,
  insert, remove, has, nat_eq,
}

-- The fields behind the condition variable; threads are numbered by `get_ident`.
pub record RwLock : Type 0 where
  pub active_readers : ℕ
  pub active_writer : Option ℕ
  pub waiting_writers : ℕ
  pub reader_threads : Dict ℕ ℕ

-- `RWLock()`.
abbrev pub unlocked : RwLock
unlocked = record {
  active_readers = 0;
  active_writer = none;
  waiting_writers = 0;
  reader_threads = [];
}

-- How a critical section ends: by returning, by raising, or in `_condition.wait`.
pub data Reply : Type 0 where
  done : Reply
  failed : Exception → Reply
  waits : Reply

-- Its result, the fields that it leaves, and whether it called `notify_all`.
pub record Effect : Type 0 where
  pub reply : Reply
  pub lock : RwLock
  pub notify : Bool

abbrev pub effect : Reply → RwLock → Bool → Effect
effect r s n = record { reply = r; lock = s; notify = n }

-- `self._active_writer is not None`.
abbrev pub writer_active : RwLock → Bool
writer_active s = elim s.active_writer [ none ↦ false | some w ↦ true ]

-- `self._active_writer == t`.
abbrev pub is_writer : ℕ → RwLock → Bool
is_writer t s = elim s.active_writer [ none ↦ false | some w ↦ w == t ]

-- The conditions of the two `while` loops.
unfoldable pub read_blocked : RwLock → Bool
read_blocked s = writer_active s || ltb 0 s.waiting_writers

unfoldable pub write_blocked : RwLock → Bool
write_blocked s = ltb 0 s.active_readers || writer_active s

-- `deadline is not None` and `deadline - time.monotonic() <= 0`, at a reading of the clock.
unfoldable pub is_late : Option ℕ → ℕ → Bool
is_late none now = false
is_late (some deadline) now = leb deadline now

-- `time.monotonic() + timeout if timeout is not None else None`, for a timeout that is not negative.
unfoldable pub deadline_of : Option ℤ → ℕ → Option ℕ
deadline_of none start = none
deadline_of (some (ℤ.pos n)) start = some (start + n)
deadline_of (some (ℤ.negsuc n)) start = some start

-- `timeout is not None and timeout < 0`.
unfoldable pub is_negative : Option ℤ → Bool
is_negative none = false
is_negative (some (ℤ.pos n)) = false
is_negative (some (ℤ.negsuc n)) = true

-- From the loop of `_acquire_read` on: the thread waits, gives up, or takes the lock.
unfoldable pub read_round : ℕ → Option ℕ → ℕ → RwLock → Effect
read_round t deadline now s =
    if read_blocked s
    then (if is_late deadline now
        then effect (failed timeout_error) s false
        else effect waits s false)
    else effect done
        (record s {
          active_readers = s.active_readers + 1;
          reader_threads = insert t 1 s.reader_threads;
        })
        false

-- `_reader_threads[t] += 1` and `-= 1`; the count of a thread that is there.
abbrev pub holds : ℕ → RwLock → ℕ
holds t s = elim (lookup t s.reader_threads) [ none ↦ 0 | some n ↦ n ]

-- `_acquire_read(timeout)` up to its first wait; `start` and `now` are the clock when the
-- deadline is computed and when it is first tested.
unfoldable pub acquire_read : ℕ → Option ℤ → ℕ → ℕ → RwLock → Effect
acquire_read t timeout start now s =
    if is_negative timeout
    then effect (failed value_error) s false
    else if has t s.reader_threads
    then effect done (record s { reader_threads = insert t (holds t s + 1) s.reader_threads }) false
    else if is_writer t s
    then effect (failed runtime_error) s false
    else read_round t (deadline_of timeout start) now s

unfoldable pub release_read : ℕ → RwLock → Effect
release_read t s =
    if has t s.reader_threads
    then (if holds t s - 1 == 0
        then effect done
            (record s {
              active_readers = s.active_readers - 1;
              reader_threads = remove t s.reader_threads;
            })
            (s.active_readers - 1 == 0)
        else effect done (record s { reader_threads = insert t (holds t s - 1) s.reader_threads })
            false)
    else effect (failed runtime_error) s false

-- From the loop of `_acquire_write` on, with its `finally`.
unfoldable pub write_round : ℕ → Option ℕ → ℕ → RwLock → Effect
write_round t deadline now s =
    if write_blocked s
    then (if is_late deadline now
        then effect (failed timeout_error) (record s { waiting_writers = s.waiting_writers - 1 })
            true
        else effect waits s false)
    else effect done (record s { active_writer = some t; waiting_writers = s.waiting_writers - 1 })
        true

unfoldable pub acquire_write : ℕ → Option ℤ → ℕ → ℕ → RwLock → Effect
acquire_write t timeout start now s =
    if is_negative timeout
    then effect (failed value_error) s false
    else if has t s.reader_threads
    then effect (failed runtime_error) s false
    else if is_writer t s
    then effect (failed runtime_error) s false
    else write_round t (deadline_of timeout start) now
        (record s { waiting_writers = s.waiting_writers + 1 })

unfoldable pub release_write : ℕ → RwLock → Effect
release_write t s =
    if is_writer t s
    then effect done (record s { active_writer = none }) true
    else effect (failed runtime_error) s false
