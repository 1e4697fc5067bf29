-- ===== src/RwLock/Readers.antt =====
-- `_acquire_read` and `_release_read` keep the invariant.
use ftllex_engine.Base.{
  ℕ, ◌+◌, ◌-◌, ◌<◌, ◌≡◌, refl, ◌≢◌, ◌⊎◌, inl, inr, true, false, Option, Dict, has, insert, remove,
  nat_eq, arith, ◌==◌, has-insert, length-insert_new, length-insert_old, length-remove,
  Keyed-insert, Keyed-remove, All-insert, All-remove, has-lookup, All-lookup, has-remove_le,
  timeout_error, value_error, runtime_error, Bool-cases, ℤ,
}
use ftllex_engine.RwLock.{
  RwLock, read_blocked, write_blocked, is_writer, done, failed, read_round, acquire_read,
  release_read, deadline_of, holds, effect, is_late, is_negative,
}
use ftllex_engine.RwLock.System.{Waiter, Kind, reading, writing}
use ftllex_engine.RwLock.Invariant.{IsSound, IsParked, blocked}
use ftllex_engine.RwLock.Preserve.{told, Keeps, Keeps-same, Keeps-waits}

acquired_reader : ℕ → RwLock → RwLock
acquired_reader t s = record s {
  active_readers = s.active_readers + 1;
  reader_threads = insert t 1 s.reader_threads;
}

acquired_reader-IsSound :
    (t : ℕ) (s : RwLock)
    → IsSound s
    → has t s.reader_threads ≡ false
    → read_blocked s ≡ false
    → IsSound (acquired_reader t s)
unfolding acquired_reader read_blocked
acquired_reader-IsSound t s g no_read b = record {
  counted = omega (arith, g.counted, length-insert_new t 1 s.reader_threads no_read);
  keyed = Keyed-insert t 1 s.reader_threads g.keyed;
  positive = All-insert (λ c. 0 < c) t 1 s.reader_threads (omega arith) g.positive;
  exclusive = inl (ground arith);
}

-- A table that changes only at `t` shows the other threads the same.
pub still_parked :
    (t : ℕ) (v : Waiter) (k : ℕ) (d : Dict ℕ ℕ)
    → v.thread ≢ t
    → has v.thread d ≡ false
    → has v.thread (insert t k d) ≡ false
still_parked t v k d ne h = ground (arith, has-insert t v.thread k d)

acquired_reader-IsParked :
    (t : ℕ) (s : RwLock) (v : Waiter)
    → read_blocked s ≡ false
    → v.thread ≢ t
    → IsParked s v
    → IsParked (acquired_reader t s) v
unfolding acquired_reader read_blocked write_blocked
acquired_reader-IsParked t s v b ne p = record {
  no_read = still_parked t v 1 s.reader_threads ne p.no_read;
  no_write = p.no_write;
  awake = elim p.awake [ inl x ↦ inl x | inr x ↦ awake v.kind x ];
}
  where
    awake :
        (k : Kind)
        → blocked k s ≡ true
        → (v.notified ≡ true) ⊎ (blocked k (acquired_reader t s) ≡ true)
    awake reading x = absurd (ground arith)
    awake writing x = inr (ground arith)

pub read_round-Keeps :
    (w : Waiter) (deadline : Option ℕ) (now n : ℕ) (s : RwLock)
    → IsSound s
    → has w.thread s.reader_threads ≡ false
    → is_writer w.thread s ≡ false
    → w.kind ≡ reading
    → s.waiting_writers ≡ n
    → Keeps w n s (read_round w.thread deadline now s)
unfolding read_round acquired_reader
read_round-Keeps w deadline now n s g no_read no_write k q = elim (Bool-cases (read_blocked s)) [
  | inl b ↦ elim (Bool-cases (is_late deadline now)) [
    | inl l ↦ rw (b, read_round) (rw l (Keeps-same w n s (failed timeout_error) g q refl))
    | inr l ↦
        rw (b, read_round)
          (rw l (Keeps-waits w n s g (rw k (omega (arith, q))) no_read no_write (rw k b)))
  ]
  | inr b ↦
      rw (b, read_round)
        (record {
          sound = acquired_reader-IsSound w.thread s g no_read b;
          rest = λ v ne p. acquired_reader-IsParked w.thread s v b ne p;
          self = tt;
          waiting = omega (arith, q);
        })
]

-- The table with another count for a thread that is in it.
recounted : ℕ → ℕ → RwLock → RwLock
recounted t k s = record s { reader_threads = insert t k s.reader_threads }

recounted-Keeps :
    (w : Waiter) (k n : ℕ) (s : RwLock)
    → IsSound s
    → has w.thread s.reader_threads ≡ true
    → 0 < k
    → s.waiting_writers ≡ n
    → Keeps w n s (effect done (recounted w.thread k s) false)
unfolding recounted read_blocked write_blocked
recounted-Keeps w k n s g mine pos q = record {
  sound = record {
    counted = omega (arith, g.counted, length-insert_old w.thread k s.reader_threads mine);
    keyed = Keyed-insert w.thread k s.reader_threads g.keyed;
    positive = All-insert (λ c. 0 < c) w.thread k s.reader_threads pos g.positive;
    exclusive = g.exclusive;
  };
  rest = λ v ne p. record {
    no_read = still_parked w.thread v k s.reader_threads ne p.no_read;
    no_write = p.no_write;
    awake = elim p.awake [ inl x ↦ inl x | inr x ↦ inr (same v.kind x) ];
  };
  self = tt;
  waiting = omega (arith, q);
}
  where
    same : (j : Kind) → blocked j s ≡ true → blocked j (recounted w.thread k s) ≡ true
    same reading x = x
    same writing x = x

pub acquire_read-Keeps :
    (w : Waiter) (timeout : Option ℤ) (start now n : ℕ) (s : RwLock)
    → IsSound s
    → w.kind ≡ reading
    → s.waiting_writers ≡ n
    → Keeps w n s (acquire_read w.thread timeout start now s)
unfolding acquire_read recounted
acquire_read-Keeps w timeout start now n s g k q = elim (Bool-cases (is_negative timeout)) [
  | inl neg ↦ rw neg (Keeps-same w n s (failed value_error) g q refl)
  | inr fine ↦ rw fine (elim (Bool-cases (has w.thread s.reader_threads)) [
    | inl mine ↦ rw mine (recounted-Keeps w (holds w.thread s + 1) n s g mine (omega arith) q)
    | inr new ↦ rw new (elim (Bool-cases (is_writer w.thread s)) [
      | inl held ↦ rw held (Keeps-same w n s (failed runtime_error) g q refl)
      | inr free ↦ rw free (read_round-Keeps w (deadline_of timeout start) now n s g new free k q)
    ])
  ])
]

removed_reader : ℕ → RwLock → RwLock
removed_reader t s = record s {
  active_readers = s.active_readers - 1;
  reader_threads = remove t s.reader_threads;
}

removed_reader-Keeps :
    (w : Waiter) (n : ℕ) (s : RwLock)
    → IsSound s
    → has w.thread s.reader_threads ≡ true
    → s.waiting_writers ≡ n
    → Keeps w n s (effect done (removed_reader w.thread s) (s.active_readers - 1 == 0))
unfolding removed_reader read_blocked write_blocked
removed_reader-Keeps w n s g mine q = record {
  sound = record {
    counted = omega (arith, g.counted, length-remove w.thread s.reader_threads mine);
    keyed = Keyed-remove w.thread s.reader_threads g.keyed;
    positive = All-remove (λ c. 0 < c) w.thread s.reader_threads g.positive;
    exclusive = elim g.exclusive [ inl x ↦ inl x | inr x ↦ inr (omega arith) ];
  };
  rest = λ v ne p. record {
    no_read = has-remove_le w.thread v.thread s.reader_threads p.no_read;
    no_write = p.no_write;
    awake = awake v v.kind p.awake;
  };
  self = tt;
  waiting = omega (arith, q);
}
  where
    awake :
        (v : Waiter) (k : Kind)
        → (v.notified ≡ true) ⊎ (blocked k s ≡ true)
        → ((told (s.active_readers - 1 == 0) v).notified ≡ true)
          ⊎ (blocked k (removed_reader w.thread s) ≡ true)
    awake v reading x = ground arith
    awake v writing x = ground arith

holds_pos : (t : ℕ) (s : RwLock) → IsSound s → has t s.reader_threads ≡ true → 0 < holds t s
holds_pos t s g mine =
    let (k, at) = has-lookup t s.reader_threads mine in
    rw (at, holds) (All-lookup (λ c. 0 < c) t k s.reader_threads g.positive at)

pub release_read-Keeps :
    (w : Waiter) (n : ℕ) (s : RwLock)
    → IsSound s
    → s.waiting_writers ≡ n
    → Keeps w n s (release_read w.thread s)
unfolding release_read recounted removed_reader
release_read-Keeps w n s g q = elim (Bool-cases (has w.thread s.reader_threads)) [
  | inr other ↦ rw other (Keeps-same w n s (failed runtime_error) g q refl)
  | inl mine ↦ rw mine (elim (Bool-cases (holds w.thread s - 1 == 0)) [
    | inl last ↦ rw last (removed_reader-Keeps w n s g mine q)
    | inr more ↦ rw more (recounted-Keeps w (holds w.thread s - 1) n s g mine (ground arith) q)
  ])
]
