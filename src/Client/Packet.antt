-- ===== src/Client/Packet.antt =====
-- The queue of a client as the sink of its framing: `PushRecvBuffToQueue` of clientobj.cpp.
use console_master_rtpvoice.Prelude.{
  ℕ, zero, suc, ◌+◌, ◌≤◌, ◌<◌, ◌≡◌, refl, ap, sym, ◌∙◌, false, List, [], ◌∷◌, ◌++◌, pos, ltb_ℤ,
  length, take, take-append, append-nil, arith, ◌==◌, ok,
}
use console_master_rtpvoice.Common.{invalid_socket, sizeof_h_socket}
use console_master_rtpvoice.Fifo.{Fifo, pushed}
use console_master_rtpvoice.Fifo.Range.{InRange, push_to_queue-InRange}
use console_master_rtpvoice.Fifo.Bounded.{Holds, push_to_queue-Holds}
use console_master_rtpvoice.Frame.Interface.{Sink}
use console_master_rtpvoice.Client.{packet_buffer, push_recv_buff_to_queue, push_frame}

take_all : (xs : List ℕ) → take (length xs) xs ≡ xs
take_all xs = ap (take (length xs)) (sym (append-nil xs)) ∙ take-append xs []

-- A push looks at no byte behind the payload.
pub push_frame-append :
    (fd : ℕ) (q : Fifo) (p rest : List ℕ)
    → push_frame fd q (p ++ rest) (pos (length p)) ≡ push_frame fd q p (pos (length p))
unfolding push_frame push_recv_buff_to_queue
push_frame-append fd q p rest = rw (take-append p rest, take_all p) refl

-- The queue of the client `fd`.
abbrev pub client_sink : ℕ → Sink Fifo
client_sink fd = record {
  push = push_frame fd;
  deliver = λ q p. push_frame fd q p (pos (length p));
  push-deliver = push_frame-append fd;
}

-- The packet that a payload goes into the queue as.
abbrev pub packet : ℕ → List ℕ → List ℕ
packet fd p = take (length p + sizeof_h_socket) (packet_buffer fd p)

length-take_le : (n : ℕ) (xs : List ℕ) → length (take n xs) ≤ n
length-take_le zero xs = omega arith
length-take_le (suc n) [] = omega arith
length-take_le (suc n) (x ∷ xs) = let ih = length-take_le n xs in omega (arith, ih)

fits : (n : ℕ) → n ≤ 508 → ltb_ℤ (pos 512) (pos n) ≡ false
fits n h = ground arith

-- A payload of at most 508 bytes of a client whose socket is valid goes behind the messages that the
-- queue holds, as the packet of the socket and the payload, while fewer than 20 are waiting.
pub push_frame-Holds :
    (fd : ℕ) (q : Fifo) (held : List (List ℕ)) (p : List ℕ)
    → (fd == invalid_socket) ≡ false
    → length p ≤ 508
    → Holds q held
    → length held < 20
    → (q' : Fifo) × (push_frame fd q p (pos (length p)) ≡ ok q')
      × Holds q' (held ++ packet fd p ∷ [])
unfolding push_frame push_recv_buff_to_queue
push_frame-Holds fd q held p valid small h room =
    let (q', e, h') =
      push_to_queue-Holds q held (packet fd p) h room
        (omega (arith, length-take_le (length p + sizeof_h_socket) (packet_buffer fd p))) in
    (q', rw (fits (length p) small, valid, take_all p, e) refl, h')

-- Such a payload also goes into a queue where more are waiting, whose next slot is one of the 20.
pub push_frame-InRange :
    (fd : ℕ) (q : Fifo) (p : List ℕ)
    → (fd == invalid_socket) ≡ false
    → length p ≤ 508
    → InRange q
    → (q' : Fifo) × (push_frame fd q p (pos (length p)) ≡ ok q') × InRange q'
unfolding push_frame push_recv_buff_to_queue
push_frame-InRange fd q p valid small range =
    let (e, range') =
      push_to_queue-InRange q (packet fd p) range
        (omega (arith, length-take_le (length p + sizeof_h_socket) (packet_buffer fd p))) in
    (pushed q (packet fd p), rw (fits (length p) small, valid, take_all p, e) refl, range')
