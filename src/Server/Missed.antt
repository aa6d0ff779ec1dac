-- ===== src/Server/Missed.antt =====
-- About a client of MyProtocol/myprotocol.cpp that ends before `ListenThreadFunc` has put it into the
-- map.
use console_master_rtpvoice.Prelude.{
  ◌+◌, ◌<◌, ◌≡◌, ◌≢◌, refl, ap, sym, subst, subst₂, ◌∙◌, Bool, ℕ, Option, true, false, List, [],
  none, some, arith, ok, if◌then◌else◌,
}
use console_master_rtpvoice.Common.{invalid_socket, max_listening_count, SocketParams}
use console_master_rtpvoice.Fifo.{Waited, wait_timeout, wait_abandoned, wait_failed}
use console_master_rtpvoice.Fifo.Bounded.{Holds, wait_code, take_from_queue-empty}
use console_master_rtpvoice.Server.{
  Server, find, notify_delete, recover_client, recovery_step, recovery_round, create_listen_thread,
  accept_client, enter_client,
}
use console_master_rtpvoice.Server.ClientMap.{IsOrdered, same_client, find-assign}
use console_master_rtpvoice.Server.Key.{IsKey}
use console_master_rtpvoice.Server.Recovery.{notify-recovery_round}

recovery_step-idle : (w : Waited) (s : Server) → (recovery_step (wait_code w) [] s).0 ≡ s
unfolding recovery_step
recovery_step-idle wait_timeout s = ground arith
recovery_step-idle wait_abandoned s = refl
recovery_step-idle wait_failed s = refl

-- A round of the recovery thread on an empty queue leaves the server as it is.
recovery_round-idle :
    (w : Waited) (s : Server) → Holds s.clientqueue [] → (recovery_round w s).0 ≡ s
unfolding recovery_round
recovery_round-idle w s h =
    ap (λ (ret, temp, q). (recovery_step ret temp (record s { clientqueue = q })).0)
      (take_from_queue-empty s.clientqueue w h)
    ∙ recovery_step-idle w s

recover_unknown :
    (p : SocketParams) (s : Server) → find p s.clientmap ≡ none → recover_client p s ≡ s
unfolding recover_client
recover_unknown p s e = rw (recover_client, e) refl

accept-makes :
    (p : SocketParams) (s : Server)
    → p.socket_fd ≢ invalid_socket
    → s.listen_numb + 1 < max_listening_count
    → ((accept_client p s).2 ≡ some s.next_client)
      × ((accept_client p s).0.clientmap ≡ s.clientmap)
      × ((accept_client p s).0.deleted ≡ s.deleted)
      × ((accept_client p s).0.clientqueue ≡ s.clientqueue)
      × ((accept_client p s).0.set_thread_exit_flag ≡ s.set_thread_exit_flag)
unfolding accept_client create_listen_thread
accept-makes p s valid few = ground arith

notify-deleted :
    (p : SocketParams) (s s' : Server) → notify_delete p s ≡ ok s' → s'.deleted ≡ s.deleted
unfolding notify_delete
notify-deleted p s s' sent = ground arith

-- What is left when the client `o` enters the map after the round `r`: the thread goes on, the client
-- `c` is in the map, those that were deleted are `gone`, and a later round changes nothing.
abbrev pub IsLeft : SocketParams → ℕ → List ℕ → Waited → Option ℕ → Server × Bool → Type 0
IsLeft p c gone w' o r =
    (r.1 ≡ true)
    × (find p (enter_client p o r.0).clientmap ≡ some c)
    × ((enter_client p o r.0).deleted ≡ gone)
    × ((recovery_round w' (enter_client p o r.0)).0 ≡ enter_client p o r.0)

entered-IsLeft :
    (p : SocketParams) (c : ℕ) (w' : Waited) (u : Server)
    → IsOrdered u.clientmap
    → Holds u.clientqueue []
    → IsLeft p c u.deleted w' (some c) (u, true)
unfolding enter_client
entered-IsLeft p c w' u o h = (
  refl,
  find-assign p p c u.clientmap o ∙ same p,
  refl,
  recovery_round-idle w' (enter_client p (some c) u) h,
)
  where
    same : (p : SocketParams) → (if same_client p p then some c else find p u.clientmap) ≡ some c
    same p = ground arith

-- A server with an empty queue and a map in order, whose exit flag is not set and which made fewer
-- than 65534 listen threads, accepts a client that the map does not have, whose socket is valid
-- and whose key fits its C types; the client's own thread ends, and the recovery thread makes a
-- round, before the listen thread has put the client into the map. The round finds nothing; the
-- client then enters the map and stays there undeleted: the queue is empty, and a later round of
-- the recovery thread changes nothing.
pub recovery_round-IsLeft :
    (p : SocketParams) (s : Server) (w w' : Waited)
    → IsKey p
    → p.socket_fd ≢ invalid_socket
    → s.listen_numb + 1 < max_listening_count
    → s.set_thread_exit_flag ≡ false
    → Holds s.clientqueue []
    → IsOrdered s.clientmap
    → find p s.clientmap ≡ none
    → (s' : Server) × (notify_delete p (accept_client p s).0 ≡ ok s')
      × IsLeft p s.next_client s.deleted w' (accept_client p s).2 (recovery_round w s')
recovery_round-IsLeft p s w w' key valid few on h ordered new =
    let (made, m1, d1, q1, f1) = accept-makes p s valid few in
    let s1 = (accept_client p s).0 in
    let (s2, q, sent, hq, round, m2) =
      notify-recovery_round p s1 w key (subst (λ q. Holds q []) (sym q1) h) in
    let u = record s2 { clientqueue = q } in
    let same_map : u.clientmap ≡ s.clientmap = m2 ∙ m1 in
    let goes_on : recovery_round w s2 ≡ (u, true) =
      round
      ∙ ap (λ b. if b then (u, false) else (recover_client p u, true)) (f1 ∙ on)
      ∙ ap (λ t. (t, true)) (recover_unknown p u (ap (find p) same_map ∙ new)) in
    (
      s2,
      sent,
      subst₂ (λ o r. IsLeft p s.next_client s.deleted w' o r) (sym made) (sym goes_on)
          (subst (λ gone. IsLeft p s.next_client gone w' (some s.next_client) (u, true))
            (notify-deleted p s1 s2 sent ∙ d1)
            (entered-IsLeft p s.next_client w' u (subst IsOrdered (sym same_map) ordered) hq)),
    )
