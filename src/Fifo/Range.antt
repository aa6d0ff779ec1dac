-- ===== src/Fifo/Range.antt =====
-- About `PushToQueue` and `TakeFromQueue` of FifoQueue/fifoqueue.cpp, however many packets wait: the
-- slot of the next one stays one of the 20.
use console_master_rtpvoice.Prelude.{
  ℕ, zero, suc, ◌+◌, ◌*◌, ◌≤◌, ◌<◌, ◌≡◌, refl, List, [], ◌∷◌, ℤ, pos, length, ok, le→leb, arith,
}
use console_master_rtpvoice.Fifo.{
  Fifo, slot_size, slot_count, fifo_bytes, next_counter, pushed, push_to_queue, Waited,
  wait_timeout, wait_abandoned, wait_failed, sem_wait, take_from_queue, take_front,
}

abbrev pub InRange : Fifo → Type 0
InRange q = q.fifo_counter < slot_count

next_counter-range : (c : ℕ) → c < slot_count → next_counter c < slot_count
next_counter-range c h = ground arith

pub push_to_queue-InRange :
    (q : Fifo) (packet : List ℕ)
    → InRange q
    → length packet ≤ slot_size
    → (push_to_queue q packet ≡ ok (pushed q packet)) × InRange (pushed q packet)
unfolding push_to_queue
push_to_queue-InRange q packet h small = (
  rw (le→leb (q.fifo_counter * slot_size + length packet) fifo_bytes (omega arith)) refl,
  next_counter-range q.fifo_counter h,
)

take_front-InRange :
    (q : Fifo) (ret : ℤ) (is : List ℕ) → InRange q → InRange (take_front q ret is).2
unfolding take_front
take_front-InRange q ret [] h = h
take_front-InRange q ret (i ∷ is) h = h

pub take_from_queue-InRange : (q : Fifo) (w : Waited) → InRange q → InRange (take_from_queue q w).2
unfolding take_from_queue sem_wait take_front
take_from_queue-InRange q w h = by_count q.sem w refl
  where
    by_count : (n : ℕ) (w : Waited) → q.sem ≡ n → InRange (take_from_queue q w).2
    by_count (suc n) w e = rw e (take_front-InRange (record q { sem = n }) (pos 0) q.list h)
    by_count zero wait_timeout e = rw e h
    by_count zero wait_abandoned e = rw e h
    by_count zero wait_failed e = rw e h
