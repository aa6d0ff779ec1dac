-- ===== src/Client/Termination.antt =====
-- That the receiving thread of ClientObj/clientobj.cpp ends once its exit flag is set.
use console_master_rtpvoice.Prelude.{
  ℕ, ◌+◌, ◌*◌, leb, length, ◌≡◌, true, false, ◌&&◌, ◌||◌, ◌==◌, List, [], ◌∷◌, ◌++◌, ℤ, pos, negsuc,
  ltb_ℤ, eqb_ℤ, IsDone, bind-IsDone, if-IsDone, pos_part, take,
}
use console_master_rtpvoice.Common.{invalid_socket}
use console_master_rtpvoice.Fifo.{Fifo, fifo_bytes, slot_size, push_to_queue}
use console_master_rtpvoice.Socket.{socket_recv}
use console_master_rtpvoice.Frame.{Options, stick_dismantle}
use console_master_rtpvoice.Frame.Interface.{Sink}
use console_master_rtpvoice.Frame.Draining.{RunsDry, drains-IsDone}
use console_master_rtpvoice.Frame.Termination.{Ends, stick_dismantle-IsDone}
use console_master_rtpvoice.Client.{push_frame, push_recv_buff_to_queue}
use console_master_rtpvoice.Client.Loop.{Event, recv_size, is_quit, process_client_req}
use console_master_rtpvoice.Client.Packet.{client_sink}

push_to_queue-IsDone : (f : Fifo) (packet : List ℕ) → IsDone (push_to_queue f packet)
unfolding push_to_queue
push_to_queue-IsDone f packet =
    if-IsDone (leb (f.fifo_counter * slot_size + length packet) fifo_bytes) _ _ (λ _. tt) (λ _. tt)

push_frame-IsDone :
    (fd : ℕ) (q : Fifo) (buff : List ℕ) (len : ℤ) → IsDone (push_frame fd q buff len)
unfolding push_frame push_recv_buff_to_queue
push_frame-IsDone fd q buff (negsuc n) =
    bind-IsDone (push_recv_buff_to_queue fd q buff (negsuc n)) _
      (if-IsDone (ltb_ℤ (pos 512) (negsuc n) || fd == invalid_socket) _ _ (λ _. tt) (λ _. tt))
      (λ _. tt)
push_frame-IsDone fd q buff (pos n) =
    bind-IsDone (push_recv_buff_to_queue fd q buff (pos n)) _
      (if-IsDone (ltb_ℤ (pos 512) (pos n) || fd == invalid_socket) _ _ (λ _. tt)
        (λ _. bind-IsDone (push_to_queue q _) _ (push_to_queue-IsDone q _) (λ _. tt)))
      (λ _. tt)

-- In each round, the loop that empties the socket would end.
abbrev pub AllDrained : List Event → Type 0
AllDrained [] = Unit {0}
AllDrained (e ∷ es) = RunsDry e.drained × AllDrained es

module _ {Q : Type 0} (s : Sink Q) (junk : List ℕ) (ends : Ends s) where
  loop-IsDone :
      (es more : List Event) (e : Event) (ret : ℤ) (o : Options) (q : Q)
      → AllDrained es
      → e.exit_flag ≡ true
      → IsDone (process_client_req s junk (es ++ e ∷ more) ret o q)
  unfolding process_client_req
  loop-IsDone [] more e ret o q dry h =
      if-IsDone e.exit_flag _ _ (λ _. tt) (λ k. absurd (cc (h, k)))
  loop-IsDone (x ∷ es) more e ret o q (dry_one, dry) h =
      let rt = socket_recv false (pos recv_size) x.out in
      let on = loop-IsDone es more e ret o q dry h in
      if-IsDone x.exit_flag _ _ (λ _. tt)
        (λ _.
          if-IsDone (ltb_ℤ (pos 0) rt.nbytes) _ _
            (λ _.
              if-IsDone (is_quit x.bytes && eqb_ℤ rt.nbytes (pos 1)) _ _ (λ _. tt)
                (λ _.
                  bind-IsDone
                    (stick_dismantle s junk x.drained o (take (pos_part rt.nbytes) x.bytes) q) _
                    (stick_dismantle-IsDone s junk x.drained ends (drains-IsDone x.drained dry_one)
                      o (take (pos_part rt.nbytes) x.bytes) q)
                    (λ (ret', o', q'). loop-IsDone es more e ret' o' q' dry h)))
            (λ _.
              if-IsDone (eqb_ℤ rt.nbytes (negsuc 0) && eqb_ℤ rt.nresult (pos 1)) _ _ (λ _. on)
                (λ _. if-IsDone (eqb_ℤ rt.nresult (negsuc 0)) _ _ (λ _. tt) (λ _. on))))

-- Whatever the network gives before, well-formed or not, and whatever state the framing and the queue
-- are in, the receiving thread ends at the latest in the round that meets the exit flag: it returns, or
-- the run is undefined before. Where the framing empties the socket, the socket runs dry: in each
-- round before, `select` or `recv` answers at some time that there is nothing, or an error.
pub process_client_req-IsDone :
    (fd : ℕ) (junk : List ℕ) (es more : List Event) (e : Event) (ret : ℤ) (o : Options) (q : Fifo)
    → AllDrained es
    → e.exit_flag ≡ true
    → IsDone (process_client_req (client_sink fd) junk (es ++ e ∷ more) ret o q)
process_client_req-IsDone fd junk es more e ret o q dry h =
    loop-IsDone (client_sink fd) junk (push_frame-IsDone fd) es more e ret o q dry h
