-- ===== src/Client/Draining.antt =====
-- About the receiving thread of ClientObj/clientobj.cpp, where its framing empties the socket by
-- `SocketClearRecvBuffer` of SocketWrap/socketwrap.cpp.
use console_master_rtpvoice.Prelude.{
  ℕ, ◌≤◌, ◌<◌, ◌≡◌, refl, ap, ◌∙◌, false, List, ◌∷◌, ℤ, pos, eqb_ℤ, suc, ◌&&◌, length, running,
  ◌>>=◌, ◌==◌, arith,
}
use console_master_rtpvoice.Common.{protocol_head}
use console_master_rtpvoice.Socket.{Drain}
use console_master_rtpvoice.Frame.{Options, stick_dismantle}
use console_master_rtpvoice.Frame.Interface.{Sink}
use console_master_rtpvoice.Frame.Stream.{idle, Holds}
use console_master_rtpvoice.Frame.Draining.{AllFindBytes, stick_dismantle-running}
use console_master_rtpvoice.Client.Loop.{Event, is_quit, process_client_req}
use console_master_rtpvoice.Client.Receive.{received, event-round}

-- A round of the loop with a chunk, and what Winsock answers when the framing empties the socket.
abbrev pub received_and_drained : List ℕ → List Drain → Event
received_and_drained chunk drains = record (received chunk) { drained = drains }

-- From a state in which nothing is pending, a chunk of 5 to 512 bytes comes that does not begin with the
-- head byte. As long as the client goes on sending, so that `select` and `recv` find bytes in every
-- round of the loop that empties the socket, the receiving thread is in that loop, whatever the later
-- rounds of its own loop would meet, the exit flag included.
pub process_client_req-drains :
    {Q : Type 0} (s : Sink Q) (junk : List ℕ) (drains : List Drain) (c : ℕ) (rest : List ℕ)
    (es : List Event) (ret : ℤ) (o : Options) (q : Q)
    → Holds idle o
    → (c == protocol_head) ≡ false
    → 4 ≤ length rest
    → length rest < 512
    → AllFindBytes drains
    → process_client_req s junk (received_and_drained (c ∷ rest) drains ∷ es) ret o q ≡ running
process_client_req-drains s junk drains c rest es ret o q h other some few busy =
    event-round s junk (c ∷ rest) drains es ret o q (omega arith) (longer (length rest) some)
    ∙ ap
        (λ v. stick_dismantle s junk drains v (c ∷ rest) q >>= λ (ret', o', q').
          process_client_req s junk es ret' o' q')
        h.shape
    ∙ rw (stick_dismantle-running s junk drains h.len h.rest c rest q other some few busy) refl
  where
    longer : (n : ℕ) → 4 ≤ n → (is_quit (c ∷ rest) && eqb_ℤ (pos (suc n)) (pos 1)) ≡ false
    longer n big = ground arith
