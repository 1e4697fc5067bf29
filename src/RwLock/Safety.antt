-- ===== src/RwLock/Safety.antt =====
-- What the lock promises: exclusion, exact counters, no lost wake-up, no stall.
use ftllex_engine.Base.{
  ℕ, ◌<◌, ◌≡◌, refl, ◌≢◌, ◌⊎◌, inl, inr, true, false, none, some, List, [], ◌∷◌, ◌++◌, All, length,
  has, nat_eq, Keyed, arith, has_of_length-zero, sym, ltb, ltb→lt, ap, subst, Bool-cases,
}
use ftllex_engine.RwLock.{
  RwLock, read_blocked, write_blocked, is_writer, done, read_round, write_round,
}
use ftllex_engine.RwLock.System.{System, Waiter, Kind, reading, writing, round, round_as, Reach}
use ftllex_engine.RwLock.Invariant.{IsParked, writers, blocked, All-drop}
use ftllex_engine.RwLock.Steps.{Reach-Inv}

-- In a reachable state with an active writer no thread holds the lock for reading: the count of
-- readers is 0 and no thread is in the table of readers.
pub mutual_exclusion :
    {s : System} (w t : ℕ)
    → Reach s
    → s.lock.active_writer ≡ some w
    → (s.lock.active_readers ≡ 0) × (has t s.lock.reader_threads ≡ false)
mutual_exclusion {s} w t r held =
    let g = (Reach-Inv r).sound in
    let none_active : s.lock.active_readers ≡ 0 = elim g.exclusive [ inl x ↦ cc | inr x ↦ x ] in
    (none_active, has_of_length-zero t s.lock.reader_threads (omega (arith, g.counted)))

-- In every reachable state `reader_count` is the number of distinct threads in the table of
-- readers, each with a positive count, and `writers_waiting` is the number of threads that wait
-- for the write lock.
pub counters_exact :
    {s : System}
    → Reach s
    → (s.lock.active_readers ≡ length s.lock.reader_threads)
      × Keyed s.lock.reader_threads
      × All (λ e. 0 < e.1) s.lock.reader_threads
      × (s.lock.waiting_writers ≡ writers s.waiters)
counters_exact r =
    let i = Reach-Inv r in (i.sound.counted, i.sound.keyed, i.sound.positive, i.waiting)

-- No wake-up is lost: in a reachable state every waiter that has not been notified since it went
-- to wait is still blocked by the condition of its loop, and holds the lock in no way.
pub no_lost_wakeup :
    {s : System} (before : List Waiter) (w : Waiter) (after : List Waiter)
    → Reach s
    → s.waiters ≡ before ++ w ∷ after
    → ((w.notified ≡ true) ⊎ (blocked w.kind s.lock ≡ true))
      × (has w.thread s.lock.reader_threads ≡ false)
      × (is_writer w.thread s.lock ≡ false)
no_lost_wakeup {s} before w after r e =
    let p =
      (All-drop (IsParked s.lock) before w after
        (subst (All (IsParked s.lock)) e (Reach-Inv r).parked)).0 in
    (p.awake, p.no_read, p.no_write)

-- A waiter that the list holds, with a property.
record Among (ws : List Waiter) (P : Waiter → Type 0) : Type 0 where
  before : List Waiter
  waiter : Waiter
  after : List Waiter
  split : ws ≡ before ++ waiter ∷ after
  holds_of : P waiter

Kind-cases : (k : Kind) → (k ≡ reading) ⊎ (k ≡ writing)
Kind-cases reading = inl refl
Kind-cases writing = inr refl

-- A writer among the waiters, if the count says so.
some_writer :
    (s : RwLock) (ws : List Waiter)
    → All (IsParked s) ws
    → 0 < writers ws
    → Among ws (λ w. IsParked s w × (w.kind ≡ writing))
some_writer s [] p h = absurd (omega arith)
some_writer s (w ∷ ws) p h = elim (Kind-cases w.kind) [
  | inr k ↦ record { before = []; waiter = w; after = ws; split = refl; holds_of = (p.0, k) }
  | inl k ↦
      let rest = some_writer s ws p.1 (ground arith) in
      record {
        before = w ∷ rest.before;
        waiter = rest.waiter;
        after = rest.after;
        split = ap (◌∷◌ w) rest.split;
        holds_of = rest.holds_of;
      }
]

-- With nobody in, a writer is not blocked; with no writer announced either, nor is a reader.
free_writer :
    (s : RwLock) (w : Waiter) (now : ℕ)
    → s.active_readers ≡ 0
    → s.active_writer ≡ none
    → IsParked s w
    → w.kind ≡ writing
    → (w.notified ≡ true) × ((round_as writing w now s).reply ≡ done)
unfolding write_round write_blocked
free_writer s w now a b p k =
    (elim p.awake [ inl x ↦ x | inr x ↦ absurd (clash w.kind k x) ], ground arith)
  where
    clash : (j : Kind) → j ≡ writing → blocked j s ≡ true → ⊥
    clash reading e x = cc
    clash writing e x = ground arith

free_reader :
    (s : RwLock) (w : Waiter) (now : ℕ)
    → s.waiting_writers ≡ 0
    → s.active_writer ≡ none
    → IsParked s w
    → w.kind ≡ reading
    → (w.notified ≡ true) × ((round_as reading w now s).reply ≡ done)
unfolding read_round read_blocked
free_reader s w now a b p k =
    (elim p.awake [ inl x ↦ x | inr x ↦ absurd (clash w.kind k x) ], ground arith)
  where
    clash : (j : Kind) → j ≡ reading → blocked j s ≡ true → ⊥
    clash writing e x = cc
    clash reading e x = ground arith

abbrev CanEnter : RwLock → ℕ → Waiter → Type 0
CanEnter s now w = (w.notified ≡ true) × ((round w now s).reply ≡ done)

some_free :
    (s : RwLock) (ws : List Waiter) (now : ℕ)
    → All (IsParked s) ws
    → s.waiting_writers ≡ writers ws
    → s.active_readers ≡ 0
    → s.active_writer ≡ none
    → ws ≢ []
    → Among ws (CanEnter s now)
some_free s [] now p q a b ne = absurd (ne refl)
some_free s (w ∷ ws) now p q a b ne = elim (Bool-cases (ltb 0 (writers (w ∷ ws)))) [
  | inl some_wait ↦
      let found = some_writer s (w ∷ ws) p (ltb→lt 0 (writers (w ∷ ws)) some_wait) in
      let v = found.waiter in
      record {
        before = found.before;
        waiter = v;
        after = found.after;
        split = found.split;
        holds_of =
            subst (λ k. (v.notified ≡ true) × ((round_as k v now s).reply ≡ done))
              (sym found.holds_of.1) (free_writer s v now a b found.holds_of.0 found.holds_of.1);
      }
  | inr no_wait ↦
      let k : w.kind ≡ reading = elim (Kind-cases w.kind) [
        | inl r ↦ r
        | inr x ↦ absurd (ground arith)
      ] in
      record {
        before = [];
        waiter = w;
        after = ws;
        split = refl;
        holds_of =
            subst (λ j. (w.notified ≡ true) × ((round_as j w now s).reply ≡ done)) (sym k)
              (free_reader s w now (ground arith) b p.0 k);
      }
]

-- No stall: in a reachable state in which nobody holds the lock and somebody waits, some waiter
-- has been notified, and its next round, at whatever time, takes the lock.
pub no_stall :
    {s : System} (now : ℕ)
    → Reach s
    → s.lock.active_readers ≡ 0
    → s.lock.active_writer ≡ none
    → s.waiters ≢ []
    → (before : List Waiter) × (w : Waiter) × (after : List Waiter) × (s.waiters
        ≡ before ++ w ∷ after)
      × (w.notified ≡ true)
      × ((round w now s.lock).reply ≡ done)
no_stall {s} now r a b ne =
    let i = Reach-Inv r in
    let f = some_free s.lock s.waiters now i.parked i.waiting a b ne in
    (f.before, f.waiter, f.after, f.split, f.holds_of.0, f.holds_of.1)
