-- ===== src/Server/Overwritten.antt =====
-- About more clients that end than the queue of MyProtocol/myprotocol.cpp has room for, before the
-- recovery thread comes to them.
use mathlib.Core.List.{map-append}
use console_master_rtpvoice.Prelude.{
  suc, ◌≡◌, refl, ap, sym, subst, ◌∙◌, true, false, List, [], ◌∷◌, ◌++◌, map, none, arith, length,
  length-append, ok, if◌then◌else◌,
}
use console_master_rtpvoice.Common.{SocketParams}
use console_master_rtpvoice.Fifo.{Fifo, Waited, slot_count}
use console_master_rtpvoice.Fifo.Bounded.{Holds}
use console_master_rtpvoice.Fifo.Faults.{push_full_overwrites}
use console_master_rtpvoice.Server.{
  Server, find, params_bytes, notify_delete, recover_client, recovery_rounds,
}
use console_master_rtpvoice.Server.ClientMap.{IsOrdered}
use console_master_rtpvoice.Server.Key.{IsKey, length-params_bytes}
use console_master_rtpvoice.Server.Notices.{
  with_queue, AllKeys, recover_all, among, recover_client-queue, recover_client-flag,
  recover_all-queue, round_key, recovery_rounds-recover_all, recover_all-find,
}

length-keys : (ps : List SocketParams) → length (map params_bytes ps) ≡ length ps
length-keys [] = refl
length-keys (p ∷ ps) = ap suc (length-keys ps)

AllKeys-append :
    (ps : List SocketParams) (p : SocketParams) → AllKeys ps → IsKey p → AllKeys (ps ++ p ∷ [])
AllKeys-append [] p h k = (k, tt)
AllKeys-append (i ∷ ps) p (h, hs) k = (h, AllKeys-append ps p hs k)

-- While the notices of 20 clients wait, one more client ends. Its notice takes the place of the
-- oldest: in 21 rounds the recovery thread, whose exit flag is not set, recovers the last client
-- first, the others after it and the last once more, and empties the queue; but the oldest client, if
-- it has another socket or port than those, is found in the map as before. The keys of the others
-- and of the last fit their C types, and the map is in order.
pub notify_delete-overwritten :
    (oldest : SocketParams) (ps : List SocketParams) (p : SocketParams) (w : Waited)
    (ws : List Waited) (s : Server)
    → AllKeys ps
    → IsKey p
    → length (oldest ∷ ps) ≡ slot_count
    → length ws ≡ slot_count
    → s.set_thread_exit_flag ≡ false
    → IsOrdered s.clientmap
    → Holds s.clientqueue (map params_bytes (oldest ∷ ps))
    → among (p ∷ (ps ++ p ∷ [])) oldest ≡ false
    → (s' : Server) × (q : Fifo) × (notify_delete p s ≡ ok s')
      × Holds q []
      × (recovery_rounds (w ∷ ws) s' ≡ (with_queue (recover_all (p ∷ (ps ++ p ∷ [])) s) q, true))
      × (find oldest (recover_all (p ∷ (ps ++ p ∷ [])) s).clientmap ≡ find oldest s.clientmap)
unfolding notify_delete recovery_rounds
notify_delete-overwritten oldest ps p w ws s keys k full size on o h other =
    let (q1, block, q2, e, taken, front, h2) =
      push_full_overwrites s.clientqueue (params_bytes oldest) (map params_bytes ps)
        (params_bytes p) w h (ap suc (length-keys ps) ∙ full)
        (omega (arith, length-params_bytes p)) in
    let (q, h', run) =
      recovery_rounds-recover_all (ps ++ p ∷ []) ws (with_queue (recover_client p s) q2)
        (AllKeys-append ps p keys k) (omega (arith, size, full, length-append ps (p ∷ [])))
        (recover_client-flag p s ∙ on)
        (subst (λ l. Holds q2 l) (sym (map-append params_bytes ps (p ∷ []))) h2) in
    (
      with_queue s q1,
      q,
      rw e,
      h',
      ap (λ (s', on'). if on' then recovery_rounds ws s' else (s', false))
            (round_key w (with_queue s q1) p block q2 k on taken front)
          ∙ ap (λ t. recovery_rounds ws (with_queue t q2)) (recover_client-queue p s q1)
          ∙ run
          ∙ ap (λ t. (with_queue t q, true))
              (recover_all-queue (ps ++ p ∷ []) (recover_client p s) q2),
      recover_all-find (p ∷ (ps ++ p ∷ [])) oldest s o
          ∙ ap (λ b. if b then none else find oldest s.clientmap) other,
    )
