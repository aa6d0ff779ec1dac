-- ===== src/Fifo/Interleaving.antt =====
-- FifoQueue/fifoqueue.cpp with any number of threads: `PushToQueue` posts the semaphore after it left
-- the lock, and `TakeFromQueue` waits for the semaphore before it enters the lock. Its test for an
-- empty list, just before the lock, is one step with the removal.
use console_master_rtpvoice.Prelude.{
  ℕ, zero, suc, ◌+◌, ◌*◌, ◌≤◌, ◌<◌, ◌≡◌, refl, subst, sym, ap, ok, undefined, thrown, running, leb,
  Bool, true, false, List, [], ◌∷◌, ℤ, pos, length, length-append, arith, if◌then◌else◌,
}
use console_master_rtpvoice.Fifo.{
  Fifo, empty_fifo, fifo_bytes, slot_size, appended, posted, Waited, wait_timeout, wait_abandoned,
  wait_failed, sem_wait, take_front, take_from_queue, push_to_queue,
}

-- A queue, how many pushes have put their packet into the list and not posted the semaphore yet, and
-- how many takes have passed the semaphore and not entered the lock yet.
pub record Busy : Type 0 where
  pub queue : Fifo
  pub pushing : ℕ
  pub taking : ℕ

-- What a thread may do next: put a packet into the list, which fits into the array; post the
-- semaphore; pass the semaphore; take the front of the list.
pub data Step : Busy → Busy → Type 0 where
  append :
      (f : Fifo) (a t : ℕ) (packet : List ℕ)
      → f.fifo_counter * slot_size + length packet ≤ fifo_bytes
      → Step
          (record { queue = f; pushing = a; taking = t })
          (record { queue = appended f packet; pushing = suc a; taking = t })
  post :
      (f : Fifo) (a t : ℕ)
      → Step
          (record { queue = f; pushing = suc a; taking = t })
          (record { queue = posted f; pushing = a; taking = t })
  pass :
      (f : Fifo) (a t : ℕ) (w : Waited)
      → (sem_wait w f.sem).0 ≡ pos 0
      → Step
          (record { queue = f; pushing = a; taking = t })
          (record { queue = record f { sem = (sem_wait w f.sem).1 }; pushing = a; taking = suc t })
  take_out :
      (f : Fifo) (a t : ℕ)
      → Step
          (record { queue = f; pushing = a; taking = suc t })
          (record { queue = (take_front f (pos 0) f.list).2; pushing = a; taking = t })

pub data Reach (b : Busy) : Busy → Type 0 where
  here : Reach b b
  next : {c d : Busy} → Reach b c → Step c d → Reach b d

abbrev pub idle_queue : Busy
idle_queue = record { queue = empty_fifo; pushing = 0; taking = 0 }

abbrev pub at_rest : Fifo → Busy
at_rest f = record { queue = f; pushing = 0; taking = 0 }

when-ok : (b : Bool) (x y : Fifo) → (if b then ok x else undefined) ≡ ok y → (b ≡ true) × (x ≡ y)
when-ok true x y e =
    (refl, ap (λ r. elim r [ ok a ↦ a | undefined ↦ x | thrown ↦ x | running ↦ x ]) e)
when-ok false x y e = absurd (cc)

-- A whole `PushToQueue` is two of the steps.
push_to_queue-Reach :
    (f f' : Fifo) (packet : List ℕ)
    → push_to_queue f packet ≡ ok f'
    → Reach (at_rest f) (at_rest f')
unfolding push_to_queue
push_to_queue-Reach f f' packet e =
    let (fits, same) =
      when-ok (leb (f.fifo_counter * slot_size + length packet) fifo_bytes)
        (posted (appended f packet)) f' e in
    subst (λ g. Reach (at_rest f) (at_rest g)) same
      (next (next here (append f 0 0 packet (ground arith))) (post (appended f packet) 0 0))

-- A whole `TakeFromQueue` that finds the semaphore up is two of the steps.
take_from_queue-Reach :
    (f : Fifo) (w : Waited)
    → (sem_wait w f.sem).0 ≡ pos 0
    → Reach (at_rest f) (at_rest (take_from_queue f w).2)
unfolding take_from_queue
take_from_queue-Reach f w e =
    subst (λ g. Reach (at_rest f) (at_rest g))
      (ap
        (λ (r : ℤ).
          (elim r as (λ (z : ℤ). ℤ × List ℕ × Fifo) [
            | pos zero ↦ take_front (record f { sem = (sem_wait w f.sem).1 }) (pos zero) f.list
            | other ↦ (other, [], record f { sem = (sem_wait w f.sem).1 })
          ]).2)
        (sym e))
      (next (next here (pass f 0 0 w e)) (take_out (record f { sem = (sem_wait w f.sem).1 }) 0 0))

-- The semaphore, the pushes that have yet to post it and the takes that have passed it count no more
-- packets than the list has.
abbrev pub IsCounted : Busy → Type 0
IsCounted b = b.queue.sem + b.pushing + b.taking ≤ length b.queue.list

pass-sem : (w : Waited) (n : ℕ) → (sem_wait w n).0 ≡ pos 0 → (sem_wait w n).1 + 1 ≡ n
unfolding sem_wait
pass-sem w (suc n) e = omega arith
pass-sem wait_timeout zero e = ground arith
pass-sem wait_abandoned zero e = ground arith
pass-sem wait_failed zero e = ground arith

-- A list with something in it gives its front.
take_front-some :
    (f : Fifo) (xs : List ℕ)
    → 0 < length xs
    → ((take_front f (pos 0) xs).0 ≡ pos 0)
      × ((take_front f (pos 0) xs).2.sem ≡ f.sem)
      × (length (take_front f (pos 0) xs).2.list + 1 ≡ length xs)
unfolding take_front
take_front-some f [] h = absurd (omega arith)
take_front-some f (i ∷ xs) h = (refl, refl, omega arith)

Step-IsCounted : {b c : Busy} → Step b c → IsCounted b → IsCounted c
unfolding take_front
Step-IsCounted (append f a t packet fits) h =
    omega (arith, h, length-append f.list (f.fifo_counter ∷ []))
Step-IsCounted (post f a t) h = ground arith
Step-IsCounted (pass f a t w e) h = omega (arith, h, pass-sem w f.sem e)
Step-IsCounted (take_out f a t) h =
    let (_, sem, size) = take_front-some f f.list (omega arith) in omega (arith, sem, size)

pub Reach-IsCounted : {b c : Busy} → Reach b c → IsCounted b → IsCounted c
Reach-IsCounted here h = h
Reach-IsCounted (next r s) h = Step-IsCounted s (Reach-IsCounted r h)

-- However the steps of any number of threads that push and take are interleaved, from an empty queue
-- and with no call of `ClearQueue`: a take that has passed the semaphore finds a packet, and so
-- returns 0 and never -2, as its comment says. The packets fit into the array.
pub take_front-Reach :
    (b : Busy) (t : ℕ)
    → Reach idle_queue b
    → b.taking ≡ suc t
    → (take_front b.queue (pos 0) b.queue.list).0 ≡ pos 0
take_front-Reach b t r e =
    let counted = Reach-IsCounted r (omega arith) in
    (take_front-some b.queue b.queue.list (omega (arith, e, counted))).0
