-- ===== src/RwLock/System.antt =====
-- Threads around one `RWLock`: whoever is not waiting may call a method, and whoever waits may wake
-- when it has been notified or when it waits with a deadline.
use ftllex_engine.Base.{
  ℕ, ◌≡◌, ◌≢◌, ◌⊎◌, Bool, true, false, Option, none, List, [], ◌∷◌, ◌++◌, ℤ, All, if◌then◌else◌,
}
use ftllex_engine.RwLock.{
  RwLock, unlocked, Reply, waits, Effect, read_round, write_round, acquire_read, release_read,
  acquire_write, release_write, deadline_of,
}

pub data Kind : Type 0 where
  reading writing : Kind

-- A thread in `_condition.wait`, with its local variables.
pub record Waiter : Type 0 where
  pub thread : ℕ
  pub kind : Kind
  pub deadline : Option ℕ
  pub notified : Bool

pub record System : Type 0 where
  pub lock : RwLock
  pub waiters : List Waiter

abbrev pub initial : System
initial = record { lock = unlocked; waiters = [] }

pub data Call : Type 0 where
  call_acquire_read : Option ℤ → ℕ → ℕ → Call
  call_release_read : Call
  call_acquire_write : Option ℤ → ℕ → ℕ → Call
  call_release_write : Call

abbrev pub perform : ℕ → Call → RwLock → Effect
perform t (call_acquire_read timeout start now) s = acquire_read t timeout start now s
perform t call_release_read s = release_read t s
perform t (call_acquire_write timeout start now) s = acquire_write t timeout start now s
perform t call_release_write s = release_write t s

-- The waiter that a thread becomes if its call waits.
abbrev pub enqueued : ℕ → Call → Waiter
enqueued t (call_acquire_write timeout start now) = record {
  thread = t;
  kind = writing;
  deadline = deadline_of timeout start;
  notified = false;
}
enqueued t (call_acquire_read timeout start now) = record {
  thread = t;
  kind = reading;
  deadline = deadline_of timeout start;
  notified = false;
}
enqueued t other = record { thread = t; kind = reading; deadline = none; notified = false }

-- The loop that a waiter is in, from its condition on.
abbrev pub round_as : Kind → Waiter → ℕ → RwLock → Effect
round_as reading w now s = read_round w.thread w.deadline now s
round_as writing w now s = write_round w.thread w.deadline now s

abbrev pub round : Waiter → ℕ → RwLock → Effect
round w = round_as w.kind w

-- `notify_all`.
abbrev pub wake_all : List Waiter → List Waiter
wake_all [] = []
wake_all (w ∷ ws) = record w { notified = true } ∷ wake_all ws

abbrev pub parked : Reply → Waiter → List Waiter
parked waits w = record w { notified = false } ∷ []
parked _ w = []

-- The system after a critical section of the thread of `w`, among the other waiters `ws`.
abbrev pub settle : Effect → Waiter → List Waiter → System
settle e w ws = record {
  lock = e.lock;
  waiters = (if e.notify then wake_all ws else ws) ++ parked e.reply w;
}

abbrev pub Fresh : ℕ → List Waiter → Type 0
Fresh t ws = All (λ w. w.thread ≢ t) ws

pub data Step : System → System → Type 0 where
  call :
      {s : System} (t : ℕ) (c : Call)
      → Fresh t s.waiters
      → Step s (settle (perform t c s.lock) (enqueued t c) s.waiters)
  wake :
      {s : System} (before : List Waiter) (w : Waiter) (after : List Waiter) (now : ℕ)
      → s.waiters ≡ before ++ w ∷ after
      → (w.notified ≡ true) ⊎ (w.deadline ≢ none)
      → Step s (settle (round w now s.lock) w (before ++ after))

pub data Reach : System → Type 0 where
  begin : Reach initial
  later : {s s' : System} → Reach s → Step s s' → Reach s'
