-- ===== src/Fifo/Order.antt =====
-- The order of the packets of FifoQueue/fifoqueue.cpp, with any number of threads that push and take.
use console_master_rtpvoice.Prelude.{
  ℕ, suc, ◌+◌, ◌*◌, ◌≤◌, ◌<◌, ◌≡◌, refl, ap, sym, subst, ◌∙◌, List, [], ◌∷◌, ◌++◌, append_assoc, ℤ,
  pos, length, take, arith,
}
use console_master_rtpvoice.Fifo.{Fifo, fifo_bytes, slot_size, slot_count, take_front}
use console_master_rtpvoice.Fifo.Bounded.{
  Holds, indices, empty-Holds, pushed-Holds, take_front-Holds,
}
use console_master_rtpvoice.Fifo.Interleaving.{
  Busy, append, post, pass, take_out, Reach, here, next, idle_queue, Reach-IsCounted,
}

-- The list and the slots hold the packets `ps`, oldest first, whatever the semaphore is.
abbrev pub Queued : Fifo → List (List ℕ) → Type 0
Queued f ps = Holds (record f { sem = length ps }) ps

-- The packets that the steps put into the list, in order.
unfoldable pub puts : {b c : Busy} → Reach b c → List (List ℕ)
puts here = []
puts (next r (append f a t packet fits)) = puts r ++ packet ∷ []
puts (next r (post f a t)) = puts r
puts (next r (pass f a t w e)) = puts r
puts (next r (take_out f a t)) = puts r

-- What the takes returned, with the bytes that they copied, in order.
unfoldable pub gets : {b c : Busy} → Reach b c → List (ℤ × List ℕ)
gets here = []
gets (next r (append f a t packet fits)) = gets r
gets (next r (post f a t)) = gets r
gets (next r (pass f a t w e)) = gets r
gets (next r (take_out f a t)) =
    gets r ++ ((take_front f (pos 0) f.list).0, (take_front f (pos 0) f.list).1) ∷ []

-- No packet has more than 512 bytes, and none is put on top of 20.
abbrev pub AllWithin : {b c : Busy} → Reach b c → Type 0
AllWithin here = Unit {0}
AllWithin (next r (append f a t packet fits)) =
    (length f.list < slot_count) × (length packet ≤ slot_size) × AllWithin r
AllWithin (next r (post f a t)) = AllWithin r
AllWithin (next r (pass f a t w e)) = AllWithin r
AllWithin (next r (take_out f a t)) = AllWithin r

-- Each take returned 0 and 512 bytes that begin with the packet.
abbrev pub Delivers : List (ℤ × List ℕ) → List (List ℕ) → Type 0
Delivers [] [] = Unit {0}
Delivers ((ret, block) ∷ rs) (p ∷ ps) =
    (ret ≡ pos 0) × (take (length p) block ≡ p) × (length block ≡ slot_size) × Delivers rs ps
Delivers _ _ = ⊥

Delivers-append :
    (rs : List (ℤ × List ℕ)) (ps : List (List ℕ)) (ret : ℤ) (block p : List ℕ)
    → Delivers rs ps
    → (ret ≡ pos 0) × (take (length p) block ≡ p) × (length block ≡ slot_size)
    → Delivers (rs ++ (ret, block) ∷ []) (ps ++ p ∷ [])
Delivers-append [] [] ret block p h (zero', front, full) = (zero', front, full, tt)
Delivers-append (r ∷ rs) (q ∷ ps) ret block p (e, front, full, more) k =
    (e, front, full, Delivers-append rs ps ret block p more k)
Delivers-append [] (q ∷ ps) ret block p h k = absurd h
Delivers-append (r ∷ rs) [] ret block p h k = absurd h

length-indices : (n : ℕ) (ps : List (List ℕ)) → length (indices n ps) ≡ length ps
length-indices n [] = refl
length-indices n (p ∷ ps) = ap suc (length-indices (suc n) ps)

Queued-length : (f : Fifo) (ps : List (List ℕ)) → Queued f ps → length f.list ≡ length ps
Queued-length f ps h = ap length h.pointers ∙ length-indices h.taken ps

-- The packets that no take has taken yet are in the list, behind the taken ones.
unfoldable Sorted : {b c : Busy} → Reach b c → Type 0
Sorted {c} r =
    (ds : List (List ℕ)) × (ps : List (List ℕ)) × (puts r ≡ ds ++ ps)
    × Delivers (gets r) ds
    × Queued c.queue ps

append-Sorted :
    {b : Busy} (f : Fifo) (a t : ℕ) (packet : List ℕ)
    (r : Reach b (record { queue = f; pushing = a; taking = t }))
    (fits : f.fifo_counter * slot_size + length packet ≤ fifo_bytes)
    → length f.list < slot_count
    → length packet ≤ slot_size
    → Sorted r
    → Sorted (next r (append f a t packet fits))
unfolding Sorted puts gets
append-Sorted f a t packet r fits room small (ds, ps, e, given, held) =
    let k =
      pushed-Holds (record f { sem = length ps }) ps packet held
        (omega (arith, room, Queued-length f ps held)) small in
    (
      ds,
      ps ++ packet ∷ [],
      ap (λ l. l ++ packet ∷ []) e ∙ append_assoc ds ps (packet ∷ []),
      given,
      record {
        taken = k.taken;
        few = k.few;
        pointers = k.pointers;
        packets = k.packets;
        counter = k.counter;
        posted = refl;
        full = k.full;
      },
    )

take_out-Sorted :
    {b : Busy} (f : Fifo) (a t : ℕ)
    (r : Reach b (record { queue = f; pushing = a; taking = suc t }))
    → 0 < length f.list
    → Sorted r
    → Sorted (next r (take_out f a t))
unfolding Sorted puts gets
take_out-Sorted f a t r some (ds, [], e, given, held) =
    absurd (omega (arith, some, Queued-length f [] held))
take_out-Sorted f a t r some (ds, p ∷ ps, e, given, held) =
    let (block, f', same, front, full, rest) = take_front-Holds f (suc (length ps)) p ps held in
    (
      ds ++ p ∷ [],
      ps,
      e ∙ sym (append_assoc ds (p ∷ []) ps),
      subst (λ z. Delivers (gets r ++ (z.0, z.1) ∷ []) (ds ++ p ∷ [])) (sym same)
          (Delivers-append (gets r) ds (pos 0) block p given (refl, front, full)),
      subst (λ z. Queued z.2 ps) (sym same) rest,
    )

Reach-Sorted : {b : Busy} (r : Reach idle_queue b) → AllWithin r → Sorted r
unfolding Sorted puts gets
Reach-Sorted here h = ([], [], refl, tt, empty-Holds)
Reach-Sorted (next r (append f a t packet fits)) (room, small, h) =
    append-Sorted f a t packet r fits room small (Reach-Sorted r h)
Reach-Sorted (next r (post f a t)) h = Reach-Sorted r h
Reach-Sorted (next r (pass f a t w e)) h = Reach-Sorted r h
Reach-Sorted (next r (take_out f a t)) h =
    let counted = Reach-IsCounted r (omega arith) in
    take_out-Sorted f a t r (omega (arith, counted)) (Reach-Sorted r h)

-- However the steps of any number of threads that push and take are interleaved, from an empty queue
-- and with no call of `ClearQueue`, as long as no packet has more than 512 bytes and none is put on
-- top of 20: the takes return 0 and, one after the other, the packets in the order in which they were
-- put into the list, each with 512 bytes that begin with the packet. The other packets are in the
-- queue, in their order: none is lost, none comes twice and none overtakes another.
pub gets-Delivers :
    (b : Busy) (r : Reach idle_queue b)
    → AllWithin r
    → (ds : List (List ℕ)) × (ps : List (List ℕ)) × (puts r ≡ ds ++ ps)
      × Delivers (gets r) ds
      × Queued b.queue ps
unfolding Sorted
gets-Delivers b r h = Reach-Sorted r h
