-- ===== src/RwLock/Writers.antt =====
-- `_acquire_write` and `_release_write` keep the invariant.
use ftllex_engine.Base.{
  ℕ, ◌+◌, ◌-◌, ◌≡◌, refl, inl, inr, true, false, Option, some, has, nat_eq, arith, timeout_error,
  value_error, runtime_error, Bool-cases, ℤ,
}
use ftllex_engine.RwLock.{
  RwLock, read_blocked, write_blocked, is_writer, done, failed, Effect, write_round, acquire_write,
  release_write, deadline_of, effect, is_late, is_negative,
}
use ftllex_engine.RwLock.System.{Waiter, Kind, reading, writing}
use ftllex_engine.RwLock.Invariant.{IsSound, IsParked, blocked}
use ftllex_engine.RwLock.Preserve.{Keeps, Keeps-same, Keeps-waits}

timed_out : RwLock → RwLock
timed_out s = record s { waiting_writers = s.waiting_writers - 1 }

timed_out-Keeps :
    (w : Waiter) (n : ℕ) (s : RwLock)
    → IsSound s
    → s.waiting_writers ≡ n + 1
    → Keeps w n s (effect (failed timeout_error) (timed_out s) true)
unfolding timed_out
timed_out-Keeps w n s g q = record {
  sound = record {
    counted = g.counted;
    keyed = g.keyed;
    positive = g.positive;
    exclusive = g.exclusive;
  };
  rest = λ v ne p. record { no_read = p.no_read; no_write = p.no_write; awake = inl refl };
  self = tt;
  waiting = omega (arith, q);
}

acquired_writer : ℕ → RwLock → RwLock
acquired_writer t s = record s { active_writer = some t; waiting_writers = s.waiting_writers - 1 }

acquired_writer-Keeps :
    (w : Waiter) (n : ℕ) (s : RwLock)
    → IsSound s
    → write_blocked s ≡ false
    → s.waiting_writers ≡ n + 1
    → Keeps w n s (effect done (acquired_writer w.thread s) true)
unfolding acquired_writer write_blocked
acquired_writer-Keeps w n s g b q = record {
  sound = record {
    counted = g.counted;
    keyed = g.keyed;
    positive = g.positive;
    exclusive = inr (ground arith);
  };
  rest = λ v ne p. record { no_read = p.no_read; no_write = ground arith; awake = inl refl };
  self = tt;
  waiting = omega (arith, q);
}

pub write_round-Keeps :
    (w : Waiter) (deadline : Option ℕ) (now n : ℕ) (s : RwLock)
    → IsSound s
    → has w.thread s.reader_threads ≡ false
    → is_writer w.thread s ≡ false
    → w.kind ≡ writing
    → s.waiting_writers ≡ n + 1
    → Keeps w n s (write_round w.thread deadline now s)
unfolding write_round timed_out acquired_writer
write_round-Keeps w deadline now n s g no_read no_write k q = elim (Bool-cases (write_blocked s)) [
  | inl b ↦ elim (Bool-cases (is_late deadline now)) [
    | inl l ↦ rw (b, write_round) (rw l (timed_out-Keeps w n s g q))
    | inr l ↦
        rw (b, write_round)
          (rw l (Keeps-waits w n s g (rw k (omega (arith, q))) no_read no_write (rw k b)))
  ]
  | inr b ↦ rw (b, write_round) (acquired_writer-Keeps w n s g b q)
]

announced : RwLock → RwLock
announced s = record s { waiting_writers = s.waiting_writers + 1 }

-- One writer more that waits leaves everybody blocked who was.
announced-IsParked : (s : RwLock) (v : Waiter) → IsParked s v → IsParked (announced s) v
unfolding announced read_blocked write_blocked
announced-IsParked s v p = record {
  no_read = p.no_read;
  no_write = p.no_write;
  awake = elim p.awake [ inl x ↦ inl x | inr x ↦ inr (more v.kind x) ];
}
  where
    more : (k : Kind) → blocked k s ≡ true → blocked k (announced s) ≡ true
    more reading x = ground arith
    more writing x = x

acquire_write_enters :
    (w : Waiter) (n : ℕ) (s : RwLock) (e : Effect) → Keeps w n (announced s) e → Keeps w n s e
acquire_write_enters w n s e k = record {
  sound = k.sound;
  rest = λ v ne p. k.rest v ne (announced-IsParked s v p);
  self = k.self;
  waiting = k.waiting;
}

pub acquire_write-Keeps :
    (w : Waiter) (timeout : Option ℤ) (start now n : ℕ) (s : RwLock)
    → IsSound s
    → w.kind ≡ writing
    → s.waiting_writers ≡ n
    → Keeps w n s (acquire_write w.thread timeout start now s)
unfolding acquire_write announced
acquire_write-Keeps w timeout start now n s g k q = elim (Bool-cases (is_negative timeout)) [
  | inl neg ↦ rw neg (Keeps-same w n s (failed value_error) g q refl)
  | inr fine ↦ rw fine (elim (Bool-cases (has w.thread s.reader_threads)) [
    | inl mine ↦ rw mine (Keeps-same w n s (failed runtime_error) g q refl)
    | inr new ↦ rw new (elim (Bool-cases (is_writer w.thread s)) [
      | inl held ↦ rw held (Keeps-same w n s (failed runtime_error) g q refl)
      | inr free ↦ rw free (
          acquire_write_enters w n s _ (
            write_round-Keeps w (deadline_of timeout start) now n (announced s)
              (record {
                counted = g.counted;
                keyed = g.keyed;
                positive = g.positive;
                exclusive = g.exclusive;
              })
              new free k (omega (arith, q))))
    ])
  ])
]

pub release_write-Keeps :
    (w : Waiter) (n : ℕ) (s : RwLock)
    → IsSound s
    → s.waiting_writers ≡ n
    → Keeps w n s (release_write w.thread s)
unfolding release_write
release_write-Keeps w n s g q = elim (Bool-cases (is_writer w.thread s)) [
  | inr other ↦ rw other (Keeps-same w n s (failed runtime_error) g q refl)
  | inl mine ↦ rw mine (record {
    sound = record {
      counted = g.counted;
      keyed = g.keyed;
      positive = g.positive;
      exclusive = inl refl;
    };
    rest = λ v ne p. record { no_read = p.no_read; no_write = refl; awake = inl refl };
    self = tt;
    waiting = omega (arith, q);
  })
]
