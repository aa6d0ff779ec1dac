-- ===== src/Client/Stream.antt =====
-- From the socket to the queue: a client's receiving thread with its own queue.
use console_master_rtpvoice.Prelude.{
  ℕ, ◌+◌, ◌≤◌, ◌≡◌, refl, ap, sym, ◌∙◌, subst, false, List, [], ◌∷◌, ◌++◌, append_assoc, append-nil,
  map, ℤ, pos, length, length-append, arith, ◌==◌, ok, ◌>>=◌, each,
}
use console_master_rtpvoice.Common.{invalid_socket}
use console_master_rtpvoice.Text.Digits.{NoDigit}
use console_master_rtpvoice.Fifo.{Fifo}
use console_master_rtpvoice.Fifo.Bounded
use console_master_rtpvoice.Frame.{Options}
use console_master_rtpvoice.Frame.Stream.{Wait, IsWait}
use console_master_rtpvoice.Frame.Stream
use console_master_rtpvoice.Client.{push_frame}
use console_master_rtpvoice.Client.Loop.{process_client_req}
use console_master_rtpvoice.Client.Packet.{client_sink, packet, push_frame-Holds}
use console_master_rtpvoice.Client.Receive.{Cuts, received, stopped, process_client_req-Cuts}

-- Each payload fits into a packet.
abbrev pub AllSmall : List (List ℕ) → Type 0
AllSmall [] = Unit {0}
AllSmall (p ∷ ps) = (length p ≤ 508) × AllSmall ps

each-push_frame :
    (fd : ℕ) (q : Fifo) (held ps : List (List ℕ))
    → (fd == invalid_socket) ≡ false
    → AllSmall ps
    → Bounded.Holds q held
    → length held + length ps ≤ 20
    → (q' : Fifo) × (each (λ r p. push_frame fd r p (pos (length p))) q ps ≡ ok q')
      × Bounded.Holds q' (held ++ map (packet fd) ps)
each-push_frame fd q held [] valid small h room =
    (q, refl, subst (λ l. Bounded.Holds q l) (sym (append-nil held)) h)
each-push_frame fd q held (p ∷ ps) valid small h room =
    let (q1, e1, h1) = push_frame-Holds fd q held p valid small.0 h (omega arith) in
    let (q2, e2, h2) =
      each-push_frame fd q1 (held ++ packet fd p ∷ []) ps valid small.1 h1
        (omega (arith, length-append held (packet fd p ∷ []))) in
    (
      q2,
      rw (e1, e2) refl,
      subst (λ l. Bounded.Holds q2 l) (append_assoc held (packet fd p ∷ []) (map (packet fd) ps))
          h2,
    )

-- A stream of frames, whose payloads have at most 508 bytes and end in `}`, comes into a client
-- whose socket is valid, cut into chunks of 1 to 512 bytes that split no header and are no lone
-- `Q`; what `sscanf` meets behind four digits does not begin with a digit. If no more than 20
-- messages are waiting in all, the loop returns when the exit flag is set, its state stands for
-- what is pending then, and the queue holds what it held and then the packet of each payload, in
-- order.
pub process_client_req-queued :
    (fd : ℕ) (junk : List ℕ) (w w' : Wait) (chunks ps held : List (List ℕ)) (o : Options) (q : Fifo)
    → (fd == invalid_socket) ≡ false
    → NoDigit junk
    → Cuts w chunks ps w'
    → Stream.Holds w o
    → IsWait w
    → AllSmall ps
    → Bounded.Holds q held
    → length held + length ps ≤ 20
    → (ret : ℤ) × (o' : Options) × (q' : Fifo) × (process_client_req
          (client_sink fd)
          junk
          (map received chunks ++ stopped ∷ [])
          (pos 0)
          o
          q
        ≡ ok (ret, o', q'))
      × Stream.Holds w' o'
      × Bounded.Holds q' (held ++ map (packet fd) ps)
process_client_req-queued fd junk w w' chunks ps held o q valid clean cuts h start small hq room =
    let (o', ret, h', run) =
      process_client_req-Cuts (client_sink fd) junk clean w w' chunks ps o (pos 0) cuts h start in
    let (q', e, hq') = each-push_frame fd q held ps valid small hq room in
    (ret, o', q', run q ∙ ap (λ r. r >>= λ q'. ok (ret, o', q')) e, h', hq')
