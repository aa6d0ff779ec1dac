-- ===== src/Client/Loop.antt =====
-- ClientObj/clientobj.cpp: the loop of the receiving thread, `ProcessClientReqThreadFunc`.
use console_master_rtpvoice.Prelude.{
  ℕ, Bool, false, ◌&&◌, List, [], ◌∷◌, none, some, ℤ, pos, negsuc, pos_part, ltb_ℤ, eqb_ℤ, ◌==◌,
  if◌then◌else◌, get_elem?, take, Run, ok, running, ◌>>=◌,
}
use console_master_rtpvoice.Socket.{Outcome, socket_recv, Drain}
use console_master_rtpvoice.Frame.{Options, stick_dismantle}
use console_master_rtpvoice.Frame.Interface.{Sink}

-- What one round of `ProcessClientReqThreadFunc` meets: the exit flag, what `recv` answers, the
-- bytes that it put into `recvbuff`, and what Winsock answers if the framing comes to empty the socket.
pub record Event : Type 0 where
  pub exit_flag : Bool
  pub out : Outcome
  pub bytes : List ℕ
  pub drained : List Drain

-- The receive buffer is asked for this many bytes.
abbrev pub recv_size : ℕ
recv_size = 512

abbrev pub is_quit : List ℕ → Bool
is_quit bytes = elim (get_elem? bytes 0) [ some c ↦ c == b'Q' | none ↦ false ]

module _ {Q : Type 0} (s : Sink Q) (junk : List ℕ) where
  -- The loop of `ProcessClientReqThreadFunc`: its return value, the option state and the queue.
  -- With no event left it still waits in `recv`.
  unfoldable pub process_client_req : List Event → ℤ → Options → Q → Run (ℤ × Options × Q)
  process_client_req [] ret o q = running
  process_client_req (e ∷ es) ret o q =
      let rt = socket_recv false (pos recv_size) e.out in
      let on = process_client_req es ret o q in
      let framed =
        stick_dismantle s junk e.drained o (take (pos_part rt.nbytes) e.bytes) q
        >>= λ (ret', o', q'). process_client_req es ret' o' q' in
      if e.exit_flag
      then ok (ret, o, q)
      else if ltb_ℤ (pos 0) rt.nbytes
      then (if is_quit e.bytes && eqb_ℤ rt.nbytes (pos 1) then ok (pos 0, o, q) else framed)
      else if eqb_ℤ rt.nbytes (negsuc 0) && eqb_ℤ rt.nresult (pos 1)
      then on
      else if eqb_ℤ rt.nresult (negsuc 0)
      then ok (negsuc 0, o, q)
      else on
