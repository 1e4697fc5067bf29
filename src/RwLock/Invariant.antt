-- ===== src/RwLock/Invariant.antt =====
-- What holds of the lock and its waiters in every reachable state.
use ftllex_engine.Base.{
  ℕ, ◌+◌, ◌<◌, ◌≡◌, refl, ◌≢◌, ◌⊎◌, inl, Bool, true, false, none, List, [], ◌∷◌, ◌++◌, All,
  All-append, length, has, nat_eq, Keyed, arith, sym,
}
use ftllex_engine.RwLock.{RwLock, read_blocked, write_blocked, is_writer}
use ftllex_engine.RwLock.System.{System, initial, Waiter, Kind, reading, writing, wake_all, Fresh}

-- The counters agree with the table of readers, and a writer excludes readers.
pub record IsSound (s : RwLock) : Type 0 where
  pub counted : s.active_readers ≡ length s.reader_threads
  pub keyed : Keyed s.reader_threads
  pub positive : All (λ e. 0 < e.1) s.reader_threads
  pub exclusive : (s.active_writer ≡ none) ⊎ (s.active_readers ≡ 0)

abbrev pub blocked : Kind → RwLock → Bool
blocked reading s = read_blocked s
blocked writing s = write_blocked s

-- A waiting thread holds nothing, and is blocked or has been notified.
pub record IsParked (s : RwLock) (w : Waiter) : Type 0 where
  pub no_read : has w.thread s.reader_threads ≡ false
  pub no_write : is_writer w.thread s ≡ false
  pub awake : (w.notified ≡ true) ⊎ (blocked w.kind s ≡ true)

abbrev pub writers : List Waiter → ℕ
writers [] = 0
writers (w ∷ ws) = elim w.kind [ reading ↦ 0 | writing ↦ 1 ] + writers ws

-- No thread waits twice.
abbrev pub Distinct : List Waiter → Type 0
Distinct [] = Unit
Distinct (w ∷ ws) = Fresh w.thread ws × Distinct ws

pub record Inv (s : System) : Type 0 where
  pub sound : IsSound s.lock
  pub parked : All (IsParked s.lock) s.waiters
  pub waiting : s.lock.waiting_writers ≡ writers s.waiters
  pub distinct : Distinct s.waiters

pub Inv-initial : Inv initial
Inv-initial = record {
  sound = record { counted = refl; keyed = tt; positive = tt; exclusive = inl refl };
  parked = tt;
  waiting = refl;
  distinct = tt;
}

pub writers-append : (xs ys : List Waiter) → writers (xs ++ ys) ≡ writers xs + writers ys
writers-append [] ys = omega arith
writers-append (w ∷ xs) ys = omega (arith, writers-append xs ys)

pub writers-wake_all : (ws : List Waiter) → writers (wake_all ws) ≡ writers ws
writers-wake_all [] = refl
writers-wake_all (w ∷ ws) = omega (arith, writers-wake_all ws)

pub Fresh-wake_all : (t : ℕ) (ws : List Waiter) → Fresh t ws → Fresh t (wake_all ws)
Fresh-wake_all t [] f = tt
Fresh-wake_all t (w ∷ ws) f = (f.0, Fresh-wake_all t ws f.1)

pub Distinct-wake_all : (ws : List Waiter) → Distinct ws → Distinct (wake_all ws)
Distinct-wake_all [] d = tt
Distinct-wake_all (w ∷ ws) d = (Fresh-wake_all w.thread ws d.0, Distinct-wake_all ws d.1)

-- Taking an element out of the middle.
pub All-drop {ℓ} :
    (P : Waiter → Type ℓ) (xs : List Waiter) (w : Waiter) (ys : List Waiter)
    → All P (xs ++ w ∷ ys)
    → P w × All P (xs ++ ys)
All-drop P [] w ys h = h
All-drop P (x ∷ xs) w ys h = let (p, r) = All-drop P xs w ys h.1 in (p, (h.0, r))

pub Distinct-drop :
    (xs : List Waiter) (w : Waiter) (ys : List Waiter)
    → Distinct (xs ++ w ∷ ys)
    → Fresh w.thread (xs ++ ys) × Distinct (xs ++ ys)
Distinct-drop [] w ys d = d
Distinct-drop (x ∷ xs) w ys d =
    let (f, r) = Distinct-drop xs w ys d.1 in
    let (other, rest) = All-drop (λ v. v.thread ≢ x.thread) xs w ys d.0 in
    (((λ e. other (sym e)), f), (rest, r))

pub Distinct-concat :
    (xs : List Waiter) (w : Waiter) → Distinct xs → Fresh w.thread xs → Distinct (xs ++ w ∷ [])
Distinct-concat [] w d f = (tt, tt)
Distinct-concat (x ∷ xs) w d f = (
  All-append (λ v. v.thread ≢ x.thread) xs (w ∷ []) d.0 ((λ e. f.0 (sym e)), tt),
  Distinct-concat xs w d.1 f.1,
)
