-- ===== src/RwLock/Preserve.antt =====
-- Every critical section keeps the invariant.
use ftllex_engine.Base.{
  ℕ, ◌+◌, ◌≡◌, refl, ◌≢◌, inl, inr, Bool, true, false, List, [], ◌∷◌, ◌++◌, All, All-append, has,
  nat_eq, if◌then◌else◌, arith, append-nil, Bool-cases,
}
use ftllex_engine.RwLock.{RwLock, is_writer, Reply, done, failed, waits, Effect, effect}
use ftllex_engine.RwLock.System.{Waiter, wake_all, Fresh, parked, settle}
use ftllex_engine.RwLock.Invariant.{
  IsSound, IsParked, Inv, writers, Distinct, blocked, writers-append, writers-wake_all,
  Fresh-wake_all, Distinct-wake_all, Distinct-concat,
}

abbrev pub told : Bool → Waiter → Waiter
told n v = record v { notified = if n then true else v.notified }

-- What a critical section of thread `w.thread` owes to the invariant, where `others` of the
-- other waiters are writers.
pub record Keeps (w : Waiter) (others : ℕ) (s : RwLock) (e : Effect) : Type 0 where
  pub sound : IsSound e.lock
  pub rest : (v : Waiter) → v.thread ≢ w.thread → IsParked s v → IsParked e.lock (told e.notify v)
  pub self : All (IsParked e.lock) (parked e.reply w)
  pub waiting : e.lock.waiting_writers ≡ others + writers (parked e.reply w)

parked_rest :
    (w : Waiter) (n : ℕ) (s : RwLock) (e : Effect) (ws : List Waiter)
    → Keeps w n s e
    → All (IsParked s) ws
    → Fresh w.thread ws
    → All (IsParked e.lock) (if e.notify then wake_all ws else ws)
parked_rest w n s e [] k p f = elim (Bool-cases e.notify) [ inl t ↦ rw t tt | inr t ↦ rw t tt ]
parked_rest w n s e (v ∷ ws) k p f =
    let ih = parked_rest w n s e ws k p.1 f.1 in
    let here = k.rest v f.0 p.0 in
    elim (Bool-cases e.notify) [
      | inl t ↦ rw t (rw t at here, rw t at ih)
      | inr t ↦ rw t (rw t at here, rw t at ih)
    ]

writers_told : (n : Bool) (ws : List Waiter) → writers (if n then wake_all ws else ws) ≡ writers ws
writers_told true ws = writers-wake_all ws
writers_told false ws = refl

Fresh-told :
    (n : Bool) (t : ℕ) (ws : List Waiter) → Fresh t ws → Fresh t (if n then wake_all ws else ws)
Fresh-told true t ws f = Fresh-wake_all t ws f
Fresh-told false t ws f = f

Distinct-told :
    (n : Bool) (ws : List Waiter) → Distinct ws → Distinct (if n then wake_all ws else ws)
Distinct-told true ws d = Distinct-wake_all ws d
Distinct-told false ws d = d

Distinct-parked :
    (r : Reply) (w : Waiter) (ws : List Waiter)
    → Distinct ws
    → Fresh w.thread ws
    → Distinct (ws ++ parked r w)
Distinct-parked waits w ws d f = Distinct-concat ws (record w { notified = false }) d f
Distinct-parked done w ws d f = rw append-nil d
Distinct-parked (failed x) w ws d f = rw append-nil d

pub settle-Inv :
    (w : Waiter) (s : RwLock) (e : Effect) (ws : List Waiter)
    → Keeps w (writers ws) s e
    → All (IsParked s) ws
    → Fresh w.thread ws
    → Distinct ws
    → Inv (settle e w ws)
settle-Inv w s e ws k p f d = record {
  sound = k.sound;
  parked =
      All-append (IsParked e.lock) (if e.notify then wake_all ws else ws) (parked e.reply w)
        (parked_rest w (writers ws) s e ws k p f) k.self;
  waiting = omega (
    arith,
    k.waiting,
    writers_told e.notify ws,
    writers-append (if e.notify then wake_all ws else ws) (parked e.reply w),
  );
  distinct =
      Distinct-parked e.reply w (if e.notify then wake_all ws else ws) (Distinct-told e.notify ws d)
        (Fresh-told e.notify w.thread ws f);
}

-- A section that leaves the lock alone and does not wait.
pub Keeps-same :
    (w : Waiter) (n : ℕ) (s : RwLock) (x : Reply)
    → IsSound s
    → s.waiting_writers ≡ n
    → parked x w ≡ []
    → Keeps w n s (record { reply = x; lock = s; notify = false })
Keeps-same w n s x g q e = record {
  sound = g;
  rest = λ v ne p. p;
  self = rw e tt;
  waiting = rw e (omega (arith, q));
}

pub Keeps-waits :
    (w : Waiter) (n : ℕ) (s : RwLock)
    → IsSound s
    → s.waiting_writers ≡ n + writers (w ∷ [])
    → has w.thread s.reader_threads ≡ false
    → is_writer w.thread s ≡ false
    → blocked w.kind s ≡ true
    → Keeps w n s (effect waits s false)
Keeps-waits w n s g q no_read no_write b = record {
  sound = g;
  rest = λ v ne p. p;
  self = (record { no_read = no_read; no_write = no_write; awake = inr b }, tt);
  waiting = q;
}
