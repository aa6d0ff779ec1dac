-- ===== src/Server/Recovery.antt =====
-- About the end of a client in MyProtocol/myprotocol.cpp: `NotifyDeleleClienObjFunc` and
-- `RecoveryClientObjThreadFunc`.
use console_master_rtpvoice.Prelude.{
  ℕ, ◌≡◌, refl, ap, sym, ◌∙◌, true, false, List, [], ◌∷◌, ◌++◌, none, some, arith, length, drop,
  take-append-drop, ok, if◌then◌else◌, pos,
}
use console_master_rtpvoice.Common.{SocketParams}
use console_master_rtpvoice.Fifo.{Fifo, Waited, take_from_queue}
use console_master_rtpvoice.Fifo.Bounded.{Holds, push_to_queue-Holds, take_from_queue-Holds}
use console_master_rtpvoice.Server.{
  Server, find, params_bytes, params_of_bytes, notify_delete, recover_client, recovery_round,
  recovery_step,
}
use console_master_rtpvoice.Server.ClientMap.{IsOrdered, same_client, find-erase, erase-IsOrdered}
use console_master_rtpvoice.Server.Key.{IsKey, length-params_bytes, params_of_bytes-params_bytes}

-- The recovery of a client that a map in order has: it is deleted once, its socket and port are
-- found no more, every other client is found as before, and the map stays in order.
pub recover_client_lem :
    (p i : SocketParams) (s : Server) (c : ℕ)
    → IsOrdered s.clientmap
    → find p s.clientmap ≡ some c
    → ((recover_client p s).deleted ≡ c ∷ s.deleted)
      × (find i (recover_client p s).clientmap
          ≡ (if same_client p i then none else find i s.clientmap))
      × IsOrdered (recover_client p s).clientmap
unfolding recover_client
recover_client_lem p i s c o e =
    rw (e, recover_client) (refl, find-erase p i s.clientmap o, erase-IsOrdered p s.clientmap o)

-- A round of the recovery thread for a block that the wait gave.
pub recovery_round_taken :
    (w : Waited) (s : Server) (block : List ℕ) (q' : Fifo)
    → take_from_queue s.clientqueue w ≡ (pos 0, block, q')
    → recovery_round w s ≡ (
        if s.set_thread_exit_flag
        then (record s { clientqueue = q' }, false)
        else (recover_client (params_of_bytes block) (record s { clientqueue = q' }), true))
unfolding recovery_round
recovery_round_taken w s block q' taken =
    ap (λ (ret, temp, q). recovery_step ret temp (record s { clientqueue = q })) taken

-- A client whose key fits its C types ends while the queue is empty: its key is queued and the map
-- is as before, and the next round of the recovery thread empties the queue, recovers that client
-- and goes on, unless the exit flag is set, which ends it.
pub notify-recovery_round :
    (p : SocketParams) (s : Server) (w : Waited)
    → IsKey p
    → Holds s.clientqueue []
    → (s' : Server) × (q : Fifo) × (notify_delete p s ≡ ok s')
      × Holds q []
      × (recovery_round w s' ≡ (
          if s.set_thread_exit_flag
          then (record s' { clientqueue = q }, false)
          else (recover_client p (record s' { clientqueue = q }), true)))
      × (s'.clientmap ≡ s.clientmap)
unfolding notify_delete
notify-recovery_round p s w k h =
    let (q, pushed, hq) =
      push_to_queue-Holds s.clientqueue [] (params_bytes p) h (omega arith)
        (omega (arith, length-params_bytes p)) in
    let (block, q', taken, front, size, hq') = take_from_queue-Holds q (params_bytes p) [] w hq in
    let n : ℕ = length (params_bytes p) in
    let key : params_of_bytes block ≡ p =
      ap params_of_bytes (sym (take-append-drop n block) ∙ ap (λ l. l ++ drop n block) front)
      ∙ params_of_bytes-params_bytes p (drop n block) k in
    (
      record s { clientqueue = q },
      q',
      rw pushed,
      hq',
      recovery_round_taken w (record s { clientqueue = q }) block q' taken
          ∙ ap
              (λ k.
                if s.set_thread_exit_flag
                then (record s { clientqueue = q' }, false)
                else (recover_client k (record s { clientqueue = q' }), true))
              key,
      refl,
    )
