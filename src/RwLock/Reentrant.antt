-- ===== src/RwLock/Reentrant.antt =====
-- Taking the lock and releasing it again, and writer preference.
use ftllex_engine.Base.{
  ℕ, ◌+◌, ◌-◌, ◌<◌, ◌≡◌, refl, ◌⊎◌, inl, inr, true, false, Option, none, has, insert, nat_eq, arith,
  ◌==◌, has-insert, lookup-insert, has-lookup, All-lookup, insert-insert, insert-lookup,
  remove-insert_new, ==_refl, ◌↔◌, sym, subst, ℤ,
}
use ftllex_engine.RwLock.{
  RwLock, read_blocked, write_blocked, done, read_round, write_round, acquire_read, release_read,
  acquire_write, release_write, holds, is_negative,
}
use ftllex_engine.RwLock.Invariant.{IsSound}

-- The two ways in which `_acquire_read` succeeds.
acquired_lock :
    (t : ℕ) (timeout : Option ℤ) (start now : ℕ) (s : RwLock)
    → (acquire_read t timeout start now s).reply ≡ done
    → ((has t s.reader_threads ≡ true)
        × ((acquire_read t timeout start now s).lock
            ≡ record s { reader_threads = insert t (holds t s + 1) s.reader_threads }))
      ⊎ ((has t s.reader_threads ≡ false)
          × ((acquire_read t timeout start now s).lock ≡ record s {
            active_readers = s.active_readers + 1;
            reader_threads = insert t 1 s.reader_threads;
          }))
unfolding acquire_read read_round
acquired_lock t timeout start now s h = ground arith

Released : ℕ → RwLock → RwLock → Type 0
Released t s' s = ((release_read t s').reply ≡ done) × ((release_read t s').lock ≡ s)

release_nested :
    (t : ℕ) (s : RwLock)
    → IsSound s
    → has t s.reader_threads ≡ true
    → Released t (record s { reader_threads = insert t (holds t s + 1) s.reader_threads }) s
unfolding Released release_read
release_nested t s g mine =
    let (k, at) = has-lookup t s.reader_threads mine in
    let pos : 0 < k = All-lookup (λ c. 0 < c) t k s.reader_threads g.positive at in
    let back : k + 1 - 1 ≡ k = omega arith in
    let more : (k == 0) ≡ false = ground arith in
    rw (at, holds)
      (simp
        (
          has-insert,
          lookup-insert,
          ==_refl,
          back,
          more,
          insert-insert,
          insert-lookup t k s.reader_threads at,
        )
        (refl, refl))

release_first :
    (t : ℕ) (s : RwLock)
    → has t s.reader_threads ≡ false
    → Released t
        (record s {
          active_readers = s.active_readers + 1;
          reader_threads = insert t 1 s.reader_threads;
        })
        s
unfolding Released release_read
release_first t s new =
    let d = s.reader_threads in
    ground (arith, has-insert t t 1 d, lookup-insert t t 1 d, remove-insert_new t 1 d)

-- In a sound state, if `_acquire_read` succeeds, the `_release_read` of the same thread succeeds
-- and restores every field, also where the thread held the lock already.
pub release_read-acquire_read :
    (t : ℕ) (timeout : Option ℤ) (start now : ℕ) (s : RwLock)
    → IsSound s
    → (acquire_read t timeout start now s).reply ≡ done
    → ((release_read t (acquire_read t timeout start now s).lock).reply ≡ done)
      × ((release_read t (acquire_read t timeout start now s).lock).lock ≡ s)
unfolding Released
release_read-acquire_read t timeout start now s g h = elim (acquired_lock t timeout start now s h) [
  | inl (mine, e) ↦ subst (λ x. Released t x s) (sym e) (release_nested t s g mine)
  | inr (new, e) ↦ subst (λ x. Released t x s) (sym e) (release_first t s new)
]

-- If `_acquire_write` succeeds without waiting, the `_release_write` of the same thread succeeds,
-- restores every field and notifies all waiters.
pub release_write-acquire_write :
    (t : ℕ) (timeout : Option ℤ) (start now : ℕ) (s : RwLock)
    → (acquire_write t timeout start now s).reply ≡ done
    → release_write t (acquire_write t timeout start now s).lock
      ≡ record { reply = done; lock = s; notify = true }
unfolding acquire_write write_round write_blocked release_write
release_write-acquire_write t timeout start now s h = ground arith

-- Writer preference: `_acquire_read` returns without waiting exactly if the timeout is not
-- negative and the thread holds a read lock already, or no writer is active and no writer waits.
pub acquire_read-eq-done :
    (t : ℕ) (timeout : Option ℤ) (start now : ℕ) (s : RwLock)
    → ((acquire_read t timeout start now s).reply ≡ done) ↔ (
        (is_negative timeout ≡ false)
        × ((has t s.reader_threads ≡ true) ⊎ ((s.active_writer ≡ none) × (s.waiting_writers ≡ 0))))
unfolding acquire_read read_round read_blocked
acquire_read-eq-done t timeout start now s = (λ h. ground arith, λ h. ground arith)
