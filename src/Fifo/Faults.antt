-- ===== src/Fifo/Faults.antt =====
-- About the calls of FifoQueue/fifoqueue.cpp outside their limits.
use console_master_rtpvoice.Prelude.{
  ℕ, suc, ◌+◌, ◌*◌, ◌%◌, ◌≤◌, ◌<◌, ◌≡◌, refl, sym, true, blit, length-append, ◌↔◌, ap, ◌∙◌, List,
  [], ◌∷◌, ◌++◌, arith, pos, negsuc, length, take, ok, undefined, le→leb,
}
use console_master_rtpvoice.Fifo.{
  Fifo, pushed, slot, slot_size, slot_count, fifo_bytes, push_to_queue, Waited, clear_queue,
  queue_is_empty, take_from_queue,
}
use console_master_rtpvoice.Fifo.Slots.{slot-blit_self, length-blit}
use console_master_rtpvoice.Fifo.Bounded.{
  Holds, indices, InSlots, InSlots-append, InSlots-blit, indices-append,
}

take_from_queue_lem :
    (f : Fifo) (w : Waited) (n i : ℕ) (rest : List ℕ)
    → f.sem ≡ suc n
    → f.list ≡ i ∷ rest
    → take_from_queue f w ≡ (pos 0, slot f.buf i, record f { sem = n; list = rest })
unfolding take_from_queue
take_from_queue_lem f w n i rest posted pointers = rw (posted, pointers)

-- The packets behind the one whose slot was taken are as before.
InSlots-overwritten :
    (buf : List ℕ) (n : ℕ) (ps : List (List ℕ)) (j : ℕ) (new : List ℕ)
    → length new ≤ slot_size
    → j < slot_count
    → length ps < slot_count
    → (n + length ps) % slot_count ≡ j
    → length buf ≡ fifo_bytes
    → InSlots buf n ps
    → InSlots (blit buf (j * slot_size) new) n (ps ++ new ∷ [])
InSlots-overwritten buf n ps j new small range few e full h =
    InSlots-append _ n ps new (InSlots-blit buf n ps j new full small range (sym e) few h) small (
      ap (λ k. take (length new) (slot (blit buf (j * slot_size) new) k)) e
      ∙ slot-blit_self buf j new (omega arith) small)

-- A push of at most 512 bytes on top of 20 queued packets takes the slot of the oldest: the next
-- take, which should give the oldest packet, gives the newest, and the queue holds the others then
-- and the newest once more. The oldest is lost.
pub push_full_overwrites :
    (f : Fifo) (p : List ℕ) (ps : List (List ℕ)) (new : List ℕ) (w : Waited)
    → Holds f (p ∷ ps)
    → length (p ∷ ps) ≡ slot_count
    → length new ≤ slot_size
    → (f' : Fifo) × (block : List ℕ) × (f'' : Fifo) × (push_to_queue f new ≡ ok f')
      × (take_from_queue f' w ≡ (pos 0, block, f''))
      × (take (length new) block ≡ new)
      × Holds f'' (ps ++ new ∷ [])
unfolding push_to_queue
push_full_overwrites f p ps new w h full small = (
  pushed f new,
  slot (pushed f new).buf (h.taken % slot_count),
  record (pushed f new) { sem = 20; list = indices (suc h.taken) ps ++ f.fifo_counter ∷ [] },
  rw (le→leb (f.fifo_counter * slot_size + length new) fifo_bytes (omega arith)),
  taken_next,
  ap (λ i. take (length new) (slot (pushed f new).buf i)) same
      ∙ slot-blit_self f.buf f.fifo_counter new (omega arith) small,
  record {
    taken = suc h.taken;
    few = omega (arith, sizes);
    pointers =
        ap (λ c. indices (suc h.taken) ps ++ c ∷ []) (sym (omega arith))
        ∙ sym (indices-append (suc h.taken) ps new);
    packets =
        InSlots-overwritten f.buf (suc h.taken) ps f.fifo_counter new small (omega arith)
          (omega arith) (omega arith) h.full h.packets.2;
    counter = ground (arith, sizes, h.counter, full);
    posted = omega (arith, sizes);
    full = length-blit f.buf (f.fifo_counter * slot_size) new (omega arith) ∙ h.full;
  },
)
  where
    sizes : length (ps ++ new ∷ []) ≡ length ps + 1
    sizes = length-append ps (new ∷ [])

    same : h.taken % slot_count ≡ f.fifo_counter
    same = omega arith

    taken_next : take_from_queue (pushed f new) w ≡ (
      pos 0,
      slot (pushed f new).buf (h.taken % slot_count),
      record (pushed f new) { sem = 20; list = indices (suc h.taken) ps ++ f.fifo_counter ∷ [] },
    )
    taken_next =
        take_from_queue_lem (pushed f new) w 20 (h.taken % slot_count) _ (ground (arith, h.posted))
          (ap (λ l. l ++ f.fifo_counter ∷ []) h.pointers)

-- `ClearQueue` leaves the semaphore as it is: with a count left, the next take returns -2.
pub clear-take :
    (f : Fifo) (w : Waited) (n : ℕ)
    → f.sem ≡ suc n
    → (queue_is_empty (clear_queue f) ≡ true)
      × (take_from_queue (clear_queue f) w ≡ (negsuc 1, [], record (clear_queue f) { sem = n }))
unfolding clear_queue queue_is_empty take_from_queue
clear-take f w n h = (refl, rw h)

-- `PushToQueue` is undefined behaviour exactly when the packet reaches beyond the last slot; the
-- C code has no test for that.
pub push_undefined_iff :
    (f : Fifo) (p : List ℕ)
    → (push_to_queue f p ≡ undefined) ↔ (fifo_bytes < f.fifo_counter * slot_size + length p)
unfolding push_to_queue
push_undefined_iff f p = (λ e. ground arith, λ h. ground arith)
