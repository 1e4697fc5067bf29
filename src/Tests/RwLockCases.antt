-- ===== src/Tests/RwLockCases.antt =====
-- src/ftllexengine/runtime/rwlock.py at concrete schedules.
use ftllex_engine.Base.{
  ◌<◌, ◌≡◌, refl, ◌⊎◌, inl, true, false, none, List, [], ◌∷◌, ◌++◌, length, Keyed, All, has, nat_eq,
  arith, runtime_error,
}
use ftllex_engine.RwLock.{
  RwLock, unlocked, done, failed, waits, is_writer, is_negative, acquire_read, release_read,
  acquire_write, release_write, read_round, write_round, read_blocked, write_blocked, deadline_of,
  is_late,
}
use ftllex_engine.RwLock.System.{
  System, initial, Waiter, Call, call, Reach, begin, later, perform, enqueued, settle, round,
  reading, call_acquire_read, call_acquire_write, call_release_write,
}
use ftllex_engine.RwLock.Invariant.{IsSound, writers, blocked}
use ftllex_engine.RwLock.Safety.{mutual_exclusion, counters_exact, no_lost_wakeup, no_stall}
use ftllex_engine.RwLock.Reentrant.{release_read-acquire_read}

abbrev take_write : Call
take_write = call_acquire_write none 0 0

abbrev take_read : Call
take_read = call_acquire_read none 0 0

-- Thread 1 writes, thread 2 waits to read, and then thread 1 is done.
abbrev writing_one : System
writing_one = settle (perform 1 take_write initial.lock) (enqueued 1 take_write) initial.waiters

writing_one-Reach : Reach writing_one
writing_one-Reach = later begin (call 1 take_write tt)

abbrev reader_waits : System
reader_waits =
    settle (perform 2 take_read writing_one.lock) (enqueued 2 take_read) writing_one.waiters

reader_waits-Reach : Reach reader_waits
unfolding acquire_write write_round write_blocked is_negative is_late deadline_of has
reader_waits-Reach = later writing_one-Reach (call 2 take_read tt)

abbrev writer_left : System
writer_left =
    settle (perform 1 call_release_write reader_waits.lock) (enqueued 1 call_release_write)
      reader_waits.waiters

writer_left-Reach : Reach writer_left
unfolding acquire_write write_round write_blocked is_negative is_late deadline_of has acquire_read
    read_round read_blocked
writer_left-Reach = later reader_waits-Reach (call 1 call_release_write (omega arith, tt))

mutual_exclusion_example :
    (reader_waits.lock.active_readers ≡ 0) × (has 2 reader_waits.lock.reader_threads ≡ false)
unfolding acquire_write write_round write_blocked is_negative is_late deadline_of has acquire_read
    read_round read_blocked
mutual_exclusion_example = mutual_exclusion 1 2 reader_waits-Reach refl

counters_exact_example :
    (reader_waits.lock.active_readers ≡ length reader_waits.lock.reader_threads)
    × Keyed reader_waits.lock.reader_threads
    × All (λ e. 0 < e.1) reader_waits.lock.reader_threads
    × (reader_waits.lock.waiting_writers ≡ writers reader_waits.waiters)
counters_exact_example = counters_exact reader_waits-Reach

abbrev waiting_two : Waiter
waiting_two = record { thread = 2; kind = reading; deadline = none; notified = false }

no_lost_wakeup_example :
    ((waiting_two.notified ≡ true) ⊎ (blocked waiting_two.kind reader_waits.lock ≡ true))
    × (has 2 reader_waits.lock.reader_threads ≡ false)
    × (is_writer 2 reader_waits.lock ≡ false)
unfolding acquire_write write_round write_blocked is_negative is_late deadline_of has acquire_read
    read_round read_blocked
no_lost_wakeup_example = no_lost_wakeup [] waiting_two [] reader_waits-Reach refl

no_stall_example :
    (before : List Waiter) × (w : Waiter) × (after : List Waiter) × (writer_left.waiters
      ≡ before ++ w ∷ after)
    × (w.notified ≡ true)
    × ((round w 5 writer_left.lock).reply ≡ done)
unfolding acquire_write write_round write_blocked is_negative is_late deadline_of has acquire_read
    read_round read_blocked release_write
no_stall_example = no_stall 5 writer_left-Reach refl refl (λ e. cc)

abbrev read_held : RwLock
read_held = record {
  active_readers = 1;
  active_writer = none;
  waiting_writers = 1;
  reader_threads = (7, 2) ∷ [];
}

read_held-IsSound : IsSound read_held
unfolding has
read_held-IsSound = record {
  counted = refl;
  keyed = (refl, tt);
  positive = (omega arith, tt);
  exclusive = inl refl;
}

nested_read : (acquire_read 7 none 0 0 read_held).reply ≡ done
unfolding acquire_read is_negative has
nested_read = refl

release_read-acquire_read_example :
    ((release_read 7 (acquire_read 7 none 0 0 read_held).lock).reply ≡ done)
    × ((release_read 7 (acquire_read 7 none 0 0 read_held).lock).lock ≡ read_held)
release_read-acquire_read_example =
    release_read-acquire_read 7 none 0 0 read_held read_held-IsSound nested_read

free_write : (acquire_write 3 none 0 0 unlocked).reply ≡ done
unfolding acquire_write write_round write_blocked is_negative has
free_write = refl

new_reader_waits : (acquire_read 8 none 0 0 read_held).reply ≡ waits
unfolding acquire_read is_negative has read_round read_blocked deadline_of is_late
new_reader_waits = refl

upgrade_refused : (acquire_write 7 none 0 0 read_held).reply ≡ failed runtime_error
unfolding acquire_write is_negative has
upgrade_refused = refl
