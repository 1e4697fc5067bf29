-- ===== src/RwLock/Steps.antt =====
-- Every step of the system keeps the invariant, so every reachable state has it.
use ftllex_engine.Base.{ℕ, ◌+◌, ◌≡◌, refl, List, [], ◌∷◌, ◌++◌, All, nat_eq, arith, ap, ◌∙◌, subst}
use ftllex_engine.RwLock.{RwLock}
use ftllex_engine.RwLock.System.{
  System, Waiter, Kind, reading, writing, Fresh, settle, Call, perform, enqueued, round, round_as,
  call_acquire_read, call_release_read, call_acquire_write, call_release_write, Step, call, wake,
  Reach, begin, later,
}
use ftllex_engine.RwLock.Invariant.{
  IsSound, IsParked, Inv, Inv-initial, writers, Distinct, All-drop, Distinct-drop,
}
use ftllex_engine.RwLock.Preserve.{Keeps, settle-Inv}
use ftllex_engine.RwLock.Readers.{read_round-Keeps, acquire_read-Keeps, release_read-Keeps}
use ftllex_engine.RwLock.Writers.{write_round-Keeps, acquire_write-Keeps, release_write-Keeps}

call-Inv :
    (s : System) (t : ℕ) (c : Call)
    → Inv s
    → Fresh t s.waiters
    → Inv (settle (perform t c s.lock) (enqueued t c) s.waiters)
call-Inv s t (call_acquire_read timeout start now) i f =
    let w = enqueued t (call_acquire_read timeout start now) in
    settle-Inv w s.lock _ s.waiters
      (acquire_read-Keeps w timeout start now (writers s.waiters) s.lock i.sound refl i.waiting)
      i.parked f i.distinct
call-Inv s t call_release_read i f =
    let w = enqueued t call_release_read in
    settle-Inv w s.lock _ s.waiters
      (release_read-Keeps w (writers s.waiters) s.lock i.sound i.waiting) i.parked f i.distinct
call-Inv s t (call_acquire_write timeout start now) i f =
    let w = enqueued t (call_acquire_write timeout start now) in
    settle-Inv w s.lock _ s.waiters
      (acquire_write-Keeps w timeout start now (writers s.waiters) s.lock i.sound refl i.waiting)
      i.parked f i.distinct
call-Inv s t call_release_write i f =
    let w = enqueued t call_release_write in
    settle-Inv w s.lock _ s.waiters
      (release_write-Keeps w (writers s.waiters) s.lock i.sound i.waiting) i.parked f i.distinct

weight : Kind → ℕ
weight reading = 0
weight writing = 1

round-Keeps :
    (w : Waiter) (k : Kind) (now n : ℕ) (s : RwLock)
    → w.kind ≡ k
    → IsSound s
    → IsParked s w
    → s.waiting_writers ≡ n + weight k
    → Keeps w n s (round_as k w now s)
unfolding weight
round-Keeps w reading now n s k g p q =
    read_round-Keeps w w.deadline now n s g p.no_read p.no_write k (omega (arith, q))
round-Keeps w writing now n s k g p q =
    write_round-Keeps w w.deadline now n s g p.no_read p.no_write k q

writers-drop :
    (xs : List Waiter) (w : Waiter) (ys : List Waiter)
    → writers (xs ++ w ∷ ys) ≡ writers (xs ++ ys) + weight w.kind
unfolding weight
writers-drop [] w ys = ground arith
writers-drop (x ∷ xs) w ys = omega (arith, writers-drop xs w ys)

wake-Inv :
    (s : System) (before : List Waiter) (w : Waiter) (after : List Waiter) (now : ℕ)
    → Inv s
    → s.waiters ≡ before ++ w ∷ after
    → Inv (settle (round w now s.lock) w (before ++ after))
wake-Inv s before w after now i e =
    let (p, rest) =
      All-drop (IsParked s.lock) before w after (subst (All (IsParked s.lock)) e i.parked) in
    let (f, d) = Distinct-drop before w after (subst Distinct e i.distinct) in
    let q : s.lock.waiting_writers ≡ writers (before ++ after) + weight w.kind =
      i.waiting ∙ ap writers e ∙ writers-drop before w after in
    settle-Inv w s.lock (round w now s.lock) (before ++ after)
      (round-Keeps w w.kind now (writers (before ++ after)) s.lock refl i.sound p q) rest f d

pub Step-Inv : {s s' : System} → Step s s' → Inv s → Inv s'
Step-Inv {s} (call t c f) i = call-Inv s t c i f
Step-Inv {s} (wake before w after now e a) i = wake-Inv s before w after now i e

pub Reach-Inv : {s : System} → Reach s → Inv s
Reach-Inv begin = Inv-initial
Reach-Inv (later r st) = Step-Inv st (Reach-Inv r)
