-- ===== src/Server/Notices.antt =====
-- About several clients that end before the recovery thread of MyProtocol/myprotocol.cpp comes to
-- them: `NotifyDeleleClienObjFunc` and the loop of `RecoveryClientObjThreadFunc`.
use console_master_rtpvoice.Prelude.{
  ℕ, ◌+◌, ◌≤◌, ◌≡◌, refl, ap, sym, subst, ◌∙◌, Bool, true, false, ◌||◌, List, [], ◌∷◌, ◌++◌,
  append_assoc, append-nil, map, Option, none, some, arith, length, length-append, drop, take,
  take-append-drop, Run, ok, each, if◌then◌else◌, pos,
}
use console_master_rtpvoice.Common.{SocketParams}
use console_master_rtpvoice.Fifo.{Fifo, Waited, slot_count, take_from_queue}
use console_master_rtpvoice.Fifo.Bounded.{Holds, push_to_queue-Holds, take_from_queue-Holds}
use console_master_rtpvoice.Server.{
  Server, find, params_bytes, params_of_bytes, notify_delete, recover_client, recovery_round,
  recovery_rounds,
}
use console_master_rtpvoice.Server.ClientMap.{IsOrdered, same_client, find-same}
use console_master_rtpvoice.Server.Key.{IsKey, length-params_bytes, params_of_bytes-params_bytes}
use console_master_rtpvoice.Server.Recovery.{recover_client_lem, recovery_round_taken}

-- The server with another queue.
abbrev pub with_queue : Server → Fifo → Server
with_queue s q = record s { clientqueue = q }

abbrev pub AllKeys : List SocketParams → Type 0
AllKeys [] = Unit {0}
AllKeys (p ∷ ps) = IsKey p × AllKeys ps

abbrev pub notify_all : List SocketParams → Server → Run Server
notify_all ps s = each (λ t p. notify_delete p t) s ps

abbrev pub recover_all : List SocketParams → Server → Server
recover_all [] s = s
recover_all (p ∷ ps) s = recover_all ps (recover_client p s)

-- Whether a client is among those.
abbrev pub among : List SocketParams → SocketParams → Bool
among [] i = false
among (p ∷ ps) i = same_client p i || among ps i

pub recover_client-queue :
    (p : SocketParams) (s : Server) (q : Fifo)
    → recover_client p (with_queue s q) ≡ with_queue (recover_client p s) q
unfolding recover_client
recover_client-queue p s q = go (find p s.clientmap) refl
  where
    go :
        (r : Option ℕ)
        → find p s.clientmap ≡ r
        → recover_client p (with_queue s q) ≡ with_queue (recover_client p s) q
    go none e = rw (e, recover_client) refl
    go (some c) e = rw (e, recover_client) refl

pub recover_client-flag :
    (p : SocketParams) (s : Server)
    → (recover_client p s).set_thread_exit_flag ≡ s.set_thread_exit_flag
unfolding recover_client
recover_client-flag p s = go (find p s.clientmap) refl
  where
    go :
        (r : Option ℕ)
        → find p s.clientmap ≡ r
        → (recover_client p s).set_thread_exit_flag ≡ s.set_thread_exit_flag
    go none e = rw (e, recover_client) refl
    go (some c) e = rw (e, recover_client) refl

pub recover_all-queue :
    (ps : List SocketParams) (s : Server) (q : Fifo)
    → recover_all ps (with_queue s q) ≡ with_queue (recover_all ps s) q
recover_all-queue [] s q = refl
recover_all-queue (p ∷ ps) s q =
    ap (recover_all ps) (recover_client-queue p s q) ∙ recover_all-queue ps (recover_client p s) q

block_key :
    (p : SocketParams) (block : List ℕ)
    → IsKey p
    → take (length (params_bytes p)) block ≡ params_bytes p
    → params_of_bytes block ≡ p
block_key p block k front =
    ap params_of_bytes (
      sym (take-append-drop (length (params_bytes p)) block)
      ∙ ap (λ l. l ++ drop (length (params_bytes p)) block) front)
    ∙ params_of_bytes-params_bytes p (drop (length (params_bytes p)) block) k

-- A round whose take gives the bytes of a key.
pub round_key :
    (w : Waited) (s : Server) (p : SocketParams) (block : List ℕ) (q : Fifo)
    → IsKey p
    → s.set_thread_exit_flag ≡ false
    → take_from_queue s.clientqueue w ≡ (pos 0, block, q)
    → take (length (params_bytes p)) block ≡ params_bytes p
    → recovery_round w s ≡ (with_queue (recover_client p s) q, true)
round_key w s p block q k on taken front =
    recovery_round_taken w s block q taken
    ∙ ap
        (λ b.
          if b
          then (with_queue s q, false)
          else (recover_client (params_of_bytes block) (with_queue s q), true))
        on
    ∙ ap (λ i. (recover_client i (with_queue s q), true)) (block_key p block k front)
    ∙ ap (λ t. (t, true)) (recover_client-queue p s q)

notify_all-Holds :
    (ps : List SocketParams) (s : Server) (held : List (List ℕ))
    → Holds s.clientqueue held
    → length held + length ps ≤ slot_count
    → (q : Fifo) × (notify_all ps s ≡ ok (with_queue s q)) × Holds q (held ++ map params_bytes ps)
unfolding notify_delete
notify_all-Holds [] s held h room =
    (s.clientqueue, refl, subst (λ l. Holds s.clientqueue l) (sym (append-nil held)) h)
notify_all-Holds (p ∷ ps) s held h room =
    let (q1, e1, h1) =
      push_to_queue-Holds s.clientqueue held (params_bytes p) h (omega arith)
        (omega (arith, length-params_bytes p)) in
    let (q, e, h') =
      notify_all-Holds ps (with_queue s q1) (held ++ params_bytes p ∷ []) h1
        (omega (arith, length-append held (params_bytes p ∷ []))) in
    (
      q,
      rw e1 e,
      subst (λ l. Holds q l) (append_assoc held (params_bytes p ∷ []) (map params_bytes ps)) h',
    )

-- As many rounds as keys wait recover all of them, in order.
pub recovery_rounds-recover_all :
    (ps : List SocketParams) (ws : List Waited) (s : Server)
    → AllKeys ps
    → length ws ≡ length ps
    → s.set_thread_exit_flag ≡ false
    → Holds s.clientqueue (map params_bytes ps)
    → (q : Fifo) × Holds q [] × (recovery_rounds ws s ≡ (with_queue (recover_all ps s) q, true))
unfolding recovery_rounds
recovery_rounds-recover_all [] [] s keys size on h = (s.clientqueue, h, refl)
recovery_rounds-recover_all [] (w ∷ ws) s keys size on h = absurd (omega (arith, size))
recovery_rounds-recover_all (p ∷ ps) [] s keys size on h = absurd (omega (arith, size))
recovery_rounds-recover_all (p ∷ ps) (w ∷ ws) s (k, keys) size on h =
    let (block, q1, taken, front, _, h1) =
      take_from_queue-Holds s.clientqueue (params_bytes p) (map params_bytes ps) w h in
    let (q, h', rest) =
      recovery_rounds-recover_all ps ws (with_queue (recover_client p s) q1) keys
        (omega (arith, size)) (recover_client-flag p s ∙ on) h1 in
    (
      q,
      h',
      ap (λ (s', on'). if on' then recovery_rounds ws s' else (s', false))
            (round_key w s p block q1 k on taken front)
          ∙ rest
          ∙ ap (λ t. (with_queue t q, true)) (recover_all-queue ps (recover_client p s) q1),
    )

recover_client-find :
    (p i : SocketParams) (s : Server)
    → IsOrdered s.clientmap
    → (find i (recover_client p s).clientmap
        ≡ (if same_client p i then none else find i s.clientmap))
      × IsOrdered (recover_client p s).clientmap
unfolding recover_client
recover_client-find p i s o = go (find p s.clientmap) refl
  where
    missing :
        (b : Bool)
        → same_client p i ≡ b
        → find p s.clientmap ≡ none
        → find i s.clientmap ≡ (if b then none else find i s.clientmap)
    missing true same e = find-same p i s.clientmap same ∙ e
    missing false same e = refl

    go :
        (r : Option ℕ)
        → find p s.clientmap ≡ r
        → (find i (recover_client p s).clientmap
            ≡ (if same_client p i then none else find i s.clientmap))
          × IsOrdered (recover_client p s).clientmap
    go none e = rw (e, recover_client) (missing (same_client p i) refl e, o)
    go (some c) e = let (deleted, found, o') = recover_client_lem p i s c o e in (found, o')

-- The map after several recoveries.
pub recover_all-find :
    (ps : List SocketParams) (i : SocketParams) (s : Server)
    → IsOrdered s.clientmap
    → find i (recover_all ps s).clientmap ≡ (if among ps i then none else find i s.clientmap)
recover_all-find [] i s o = refl
recover_all-find (p ∷ ps) i s o =
    let (here, o') = recover_client-find p i s o in
    recover_all-find ps i (recover_client p s) o'
    ∙ ap (λ r. if among ps i then none else r) here
    ∙ either (same_client p i) (among ps i) (find i s.clientmap)
  where
    either :
        (a b : Bool) (r : Option ℕ)
        → (if b then none else if a then none else r) ≡ (if a || b then none else r)
    either true true r = refl
    either true false r = refl
    either false true r = refl
    either false false r = refl

-- Up to 20 clients, whose keys fit their C types, end while the queue is empty, the map is in order
-- and the exit flag is not set. All their notices are queued, and as many rounds of the recovery
-- thread empty the queue, recover these clients in order, and go on: none of them is in the map then,
-- and every other client is found as before.
pub notify_all-recovery_rounds :
    (ps : List SocketParams) (ws : List Waited) (s : Server)
    → AllKeys ps
    → length ps ≤ slot_count
    → length ws ≡ length ps
    → s.set_thread_exit_flag ≡ false
    → IsOrdered s.clientmap
    → Holds s.clientqueue []
    → (s' : Server) × (q : Fifo) × (notify_all ps s ≡ ok s')
      × Holds q []
      × (recovery_rounds ws s' ≡ (with_queue (recover_all ps s) q, true))
      × ((i : SocketParams)
          → find i (recover_all ps s).clientmap ≡ (if among ps i then none else find i s.clientmap))
notify_all-recovery_rounds ps ws s keys few size on o h =
    let (q1, e, h1) = notify_all-Holds ps s [] h (omega (arith, few)) in
    let (q, h', run) = recovery_rounds-recover_all ps ws (with_queue s q1) keys size on h1 in
    (
      with_queue s q1,
      q,
      e,
      h',
      run ∙ ap (λ t. (with_queue t q, true)) (recover_all-queue ps s q1),
      λ i. recover_all-find ps i s o,
    )
