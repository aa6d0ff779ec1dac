-- ===== src/Fifo/Bounded.antt =====
-- About `PushToQueue` and `TakeFromQueue` of FifoQueue/fifoqueue.cpp within their limits: at most 20
-- packets of at most 512 bytes.
use console_master_rtpvoice.Prelude.{
  length-replicate, ℕ, suc, ◌+◌, ◌*◌, ◌%◌, ◌≤◌, ◌<◌, ◌≡◌, refl, ap, ap₂, sym, ◌∙◌, List, [], ◌∷◌,
  ◌++◌, arith, ℤ, pos, negsuc, length, take, blit, length-append, length-take, length-drop, ok,
  le→leb,
}
use console_master_rtpvoice.Fifo.{
  empty_fifo, Fifo, pushed, slot, slot_size, slot_count, fifo_bytes, push_to_queue, Waited,
  wait_timeout, wait_abandoned, wait_failed, take_from_queue, take_front,
}
use console_master_rtpvoice.Fifo.Slots.{length-blit, slot-blit_self, slot-blit_ne}

-- The slots of the packets, when the oldest is the `n`-th that was pushed.
abbrev pub indices : ℕ → List (List ℕ) → List ℕ
indices n [] = []
indices n (p ∷ ps) = (n % slot_count) ∷ indices (suc n) ps

abbrev pub InSlots : List ℕ → ℕ → List (List ℕ) → Type 0
InSlots buf n [] = Unit {0}
InSlots buf n (p ∷ ps) =
    (length p ≤ slot_size)
    × (take (length p) (slot buf (n % slot_count)) ≡ p)
    × InSlots buf (suc n) ps

-- The queue `f` holds the packets `ps`, oldest first.
pub record Holds (f : Fifo) (ps : List (List ℕ)) : Type 0 where
  pub taken : ℕ
  pub few : length ps ≤ slot_count
  pub pointers : f.list ≡ indices taken ps
  pub packets : InSlots f.buf taken ps
  pub counter : f.fifo_counter ≡ (taken + length ps) % slot_count
  pub posted : f.sem ≡ length ps
  pub full : length f.buf ≡ fifo_bytes

pub indices-append :
    (n : ℕ) (ps : List (List ℕ)) (p : List ℕ)
    → indices n (ps ++ p ∷ []) ≡ indices n ps ++ ((n + length ps) % slot_count) ∷ []
indices-append n [] p = ap (λ k. (k % slot_count) ∷ []) (omega arith)
indices-append n (q ∷ ps) p = ap (◌∷◌ (n % slot_count)) (
    indices-append (suc n) ps p
    ∙ ap (λ k. indices (suc n) ps ++ (k % slot_count) ∷ []) (omega arith))

-- A copy into a slot that is not in use keeps the packets.
pub InSlots-blit :
    (buf : List ℕ) (n : ℕ) (ps : List (List ℕ)) (j : ℕ) (p : List ℕ)
    → length buf ≡ fifo_bytes
    → length p ≤ slot_size
    → j < slot_count
    → j ≡ (n + length ps) % slot_count
    → length ps < slot_count
    → InSlots buf n ps
    → InSlots (blit buf (j * slot_size) p) n ps
InSlots-blit buf n [] j p full small range e few h = tt
InSlots-blit buf n (q ∷ ps) j p full small range e few h = (
  h.0,
  ap (take (length q)) (slot-blit_ne buf (n % slot_count) j p (omega arith) small (omega arith))
      ∙ h.1,
  InSlots-blit buf (suc n) ps j p full small range (e ∙ omega arith) (omega arith) h.2,
)

pub InSlots-append :
    (buf : List ℕ) (n : ℕ) (ps : List (List ℕ)) (p : List ℕ)
    → InSlots buf n ps
    → length p ≤ slot_size
    → take (length p) (slot buf ((n + length ps) % slot_count)) ≡ p
    → InSlots buf n (ps ++ p ∷ [])
InSlots-append buf n [] p h small at =
    (small, ap (λ k. take (length p) (slot buf (k % slot_count))) (omega arith) ∙ at, tt)
InSlots-append buf n (q ∷ ps) p h small at = (
  h.0,
  h.1,
  InSlots-append buf (suc n) ps p h.2 small
      (ap (λ k. take (length p) (slot buf (k % slot_count))) (omega arith) ∙ at),
)

-- What `PushToQueue` leaves, for a packet of at most 512 bytes on top of fewer than 20.
pub pushed-Holds :
    (f : Fifo) (ps : List (List ℕ)) (p : List ℕ)
    → Holds f ps
    → length ps < slot_count
    → length p ≤ slot_size
    → Holds (pushed f p) (ps ++ p ∷ [])
pushed-Holds f ps p h room small = record {
  taken = h.taken;
  few = omega (arith, sizes);
  pointers = ap₂ (λ l c. l ++ c ∷ []) h.pointers h.counter ∙ sym (indices-append h.taken ps p);
  packets =
      InSlots-append _ h.taken ps p
        (InSlots-blit f.buf h.taken ps f.fifo_counter p h.full small range h.counter room h.packets)
        small
        (ap (λ k. take (length p) (slot (blit f.buf (f.fifo_counter * slot_size) p) k))
            (sym h.counter)
          ∙ slot-blit_self f.buf f.fifo_counter p (omega arith) small);
  counter = ground (arith, sizes, h.counter);
  posted = ground (arith, sizes, h.posted);
  full = length-blit f.buf (f.fifo_counter * slot_size) p (omega arith) ∙ h.full;
}
  where
    sizes : length (ps ++ p ∷ []) ≡ length ps + 1
    sizes = length-append ps (p ∷ [])

    range : f.fifo_counter < slot_count
    range = omega (arith, h.counter)

-- `PushToQueue` appends a packet of at most 512 bytes if the queue holds fewer than 20.
pub push_to_queue-Holds :
    (f : Fifo) (ps : List (List ℕ)) (p : List ℕ)
    → Holds f ps
    → length ps < slot_count
    → length p ≤ slot_size
    → (f' : Fifo) × (push_to_queue f p ≡ ok f') × Holds f' (ps ++ p ∷ [])
unfolding push_to_queue
push_to_queue-Holds f ps p h room small = (
  pushed f p,
  rw (le→leb (f.fifo_counter * slot_size + length p) fifo_bytes (omega (arith, h.counter))),
  pushed-Holds f ps p h room small,
)

-- What the lock's part of `TakeFromQueue` gives: 512 bytes that begin with the oldest packet. It does
-- not read the semaphore.
pub take_front-Holds :
    (f : Fifo) (n : ℕ) (p : List ℕ) (ps : List (List ℕ))
    → Holds (record f { sem = n }) (p ∷ ps)
    → (block : List ℕ) × (f' : Fifo) × (take_front f (pos 0) f.list ≡ (pos 0, block, f'))
      × (take (length p) block ≡ p)
      × (length block ≡ slot_size)
      × Holds (record f' { sem = length ps }) ps
unfolding take_front
take_front-Holds f n p ps h = (
  slot f.buf (h.taken % slot_count),
  record f { list = indices (suc h.taken) ps },
  ap (take_front f (pos 0)) h.pointers,
  h.packets.1,
  length-take slot_size _ (omega (arith, length-drop (h.taken % slot_count * slot_size) f.buf)),
  record {
    taken = suc h.taken;
    few = omega (arith, h.few);
    pointers = refl;
    packets = h.packets.2;
    counter = h.counter ∙ omega arith;
    posted = refl;
    full = h.full;
  },
)

-- On a queue that holds a packet, `TakeFromQueue` returns 0 and 512 bytes that begin with the
-- oldest one, and removes it.
pub take_from_queue-Holds :
    (f : Fifo) (p : List ℕ) (ps : List (List ℕ)) (w : Waited)
    → Holds f (p ∷ ps)
    → (block : List ℕ) × (f' : Fifo) × (take_from_queue f w ≡ (pos 0, block, f'))
      × (take (length p) block ≡ p)
      × (length block ≡ slot_size)
      × Holds f' ps
unfolding take_from_queue
take_from_queue-Holds f p ps w h = (
  slot f.buf (h.taken % slot_count),
  record f { sem = length ps; list = indices (suc h.taken) ps },
  rw (h.posted, h.pointers),
  h.packets.1,
  length-take slot_size _ (omega (arith, length-drop (h.taken % slot_count * slot_size) f.buf)),
  record {
    taken = suc h.taken;
    few = omega (arith, h.few);
    pointers = refl;
    packets = h.packets.2;
    counter = h.counter ∙ omega arith;
    posted = refl;
    full = h.full;
  },
)

-- The queue that the constructor makes holds nothing.
pub empty-Holds : Holds empty_fifo []
empty-Holds = record {
  taken = 0;
  few = omega arith;
  pointers = refl;
  packets = tt;
  counter = refl;
  posted = refl;
  full = length-replicate {A = ℕ} fifo_bytes 0;
}

-- What `SemWait` returns when the count stays zero.
abbrev pub wait_code : Waited → ℤ
wait_code wait_timeout = pos 258
wait_code wait_abandoned = negsuc 0
wait_code wait_failed = negsuc 0

-- On an empty queue `TakeFromQueue` returns the code of the wait, 258 after the time or -1 if the
-- wait fails; nothing is copied and nothing changes.
pub take_from_queue-empty :
    (f : Fifo) (w : Waited) → Holds f [] → take_from_queue f w ≡ (wait_code w, [], f)
unfolding take_from_queue
take_from_queue-empty f wait_timeout h = ground arith
take_from_queue-empty f wait_abandoned h = ground arith
take_from_queue-empty f wait_failed h = ground arith
