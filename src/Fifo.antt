-- ===== src/Fifo.antt =====
-- FifoQueue/fifoqueue.cpp and the semaphore of SynInterface/syninterface.cpp (WIN32 branch).
-- A queue has 20 slots of 512 bytes and a list of pointers to slots. A pointer is the slot's number;
-- `char fifobuff[20][512]` is one run of bytes, so a packet of more than 512 bytes goes on into the
-- slot behind, and a copy that leaves the array is undefined behaviour.
-- `queuelock` covers each change of the list and the counter, so a call is one step here;
-- Fifo.Interleaving takes the semaphore's steps apart.
pub mod Slots
pub mod Bounded
pub mod Range
pub mod Refine
pub mod Faults
pub mod Interleaving
pub mod Order
use console_master_rtpvoice.Prelude.{
  ℕ, zero, suc, ◌+◌, ◌-◌, ◌*◌, Bool, true, false, List, [], ◌∷◌, ◌++◌, ℤ, pos, negsuc, ltb, leb,
  ◌==◌, ◌||◌, if◌then◌else◌, length, take, drop, replicate, blit, Run, ok, undefined, ◌>>=◌,
}

abbrev pub slot_count : ℕ
slot_count = 20

abbrev pub slot_size : ℕ
slot_size = 512

abbrev pub fifo_bytes : ℕ
fifo_bytes = slot_count * slot_size

-- `CreateSemaphore(NULL, 0, 100, NULL)`: a release beyond 100 fails and changes nothing.
abbrev pub sem_max : ℕ
sem_max = 100

pub record Fifo : Type 0 where
  pub list : List ℕ
  pub buf : List ℕ
  pub fifo_counter : ℕ
  pub sem : ℕ

abbrev pub empty_fifo : Fifo
empty_fifo = record { list = []; buf = replicate fifo_bytes 0; fifo_counter = 0; sem = 0 }

pub clear_queue : Fifo → Fifo
clear_queue f = record f { list = [] }

pub queue_is_empty : Fifo → Bool
queue_is_empty f = elim f.list [ [] ↦ true | _ ∷ _ ↦ false ]

-- `SemPost`, by `ReleaseSemaphore`.
abbrev pub sem_post : ℕ → ℕ
sem_post n = if ltb n sem_max then n + 1 else n

abbrev pub next_counter : ℕ → ℕ
next_counter c = if ltb 19 (c + 1) then 0 else c + 1

-- The body of `PushToQueue` under the lock, and its `SemPost`.
abbrev pub appended : Fifo → List ℕ → Fifo
appended f packet = record f {
  list = f.list ++ f.fifo_counter ∷ [];
  buf = blit f.buf (f.fifo_counter * slot_size) packet;
  fifo_counter = next_counter f.fifo_counter;
}

abbrev pub posted : Fifo → Fifo
posted f = record f { sem = sem_post f.sem }

abbrev pub pushed : Fifo → List ℕ → Fifo
pushed f packet = posted (appended f packet)

-- `PushToQueue(packet, len)` for a packet of `length packet` bytes; it always returns true.
unfoldable pub push_to_queue : Fifo → List ℕ → Run Fifo
push_to_queue f packet =
    if leb (f.fifo_counter * slot_size + length packet) fifo_bytes
    then ok (pushed f packet)
    else undefined

-- How `WaitForSingleObject` ends where the count is zero: after the time, or with an error.
pub data Waited : Type 0 where
  wait_timeout wait_abandoned wait_failed : Waited

-- `SemWait`: 0 and one less if the count is positive; else 258 (`WAIT_TIMEOUT`) or -1.
unfoldable pub sem_wait : Waited → ℕ → ℤ × ℕ
sem_wait w (suc n) = (pos 0, n)
sem_wait wait_timeout zero = (pos 258, 0)
sem_wait wait_abandoned zero = (negsuc 0, 0)
sem_wait wait_failed zero = (negsuc 0, 0)

abbrev pub slot : List ℕ → ℕ → List ℕ
slot buf i = take slot_size (drop (i * slot_size) buf)

-- `TakeFromQueue`: the return value, the 512 bytes copied to `packet` if any, and the queue.
pub take_front : Fifo → ℤ → List ℕ → ℤ × List ℕ × Fifo
take_front f ret [] = (negsuc 1, [], f)
take_front f ret (i ∷ rest) = (ret, slot f.buf i, record f { list = rest })

unfoldable pub take_from_queue : Fifo → Waited → ℤ × List ℕ × Fifo
unfolding sem_wait take_front
take_from_queue f w =
    let (ret, sem) = sem_wait w f.sem in
    let f' = record f { sem = sem } in
    elim ret [ pos zero ↦ take_front f' (pos zero) f.list | other ↦ (other, [], f') ]
