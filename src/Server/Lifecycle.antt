-- ===== src/Server/Lifecycle.antt =====
-- About the life of the clients of MyProtocol/myprotocol.cpp, under any order of the threads' steps.
use console_master_rtpvoice.Prelude.{
  ℕ, ℤ, pos, negsuc, ltb_ℤ, zero, suc, ◌+◌, ◌≡◌, refl, sym, subst, ◌⊎◌, inl, inr, Bool, true, false,
  List, [], ◌∷◌, ◌++◌, Option, none, some, arith, ltb, if◌then◌else◌, ok,
}
use console_master_rtpvoice.Common.{SocketParams}
use console_master_rtpvoice.Fifo.{Waited, take_from_queue}
use console_master_rtpvoice.Server.{
  Clients, Server, new_server, find, create_listen_thread, start, accept_client, enter_client,
  params_of_bytes, notify_delete, recover_client, recovery_round, recovery_step, init_socket,
  close_mater, stop, delete_clients, delete_server,
}
use console_master_rtpvoice.Server.ClientMap.{assign-IsOrdered, erase-IsOrdered}
use console_master_rtpvoice.Server.Steps.{
  State, with_made, Step, accept, enter, notify, recover, halt, Reach, here, next, count, ids,
  IsKept, count-ids_append, count-assign, count-erase,
}

-- The invariant speaks of the map, the clients that were deleted and the number of clients made.
IsKept-same :
    (s t : Server) (e : Clients)
    → t.clientmap ≡ s.clientmap
    → t.deleted ≡ s.deleted
    → t.next_client ≡ s.next_client
    → IsKept s e
    → IsKept t e
IsKept-same s t e m d n k = record {
  ordered = rw m (k.ordered);
  once = λ c. rw (m, d, n) (k.once c);
}

recover-IsKept :
    (p : SocketParams) (s : Server) (e : Clients) (o : Option ℕ)
    → find p s.clientmap ≡ o
    → IsKept s e
    → IsKept (recover_client p s) e
unfolding recover_client count
recover-IsKept p s e none found k = rw (recover_client, found) k
recover-IsKept p s e (some c) found k =
    rw (recover_client, found)
      (record {
        ordered = erase-IsOrdered p s.clientmap k.ordered;
        once = λ i. omega (arith, k.once i, count-erase i c p s.clientmap found);
      })

-- What `accept` does to those three: nothing, or a client is made.
accept_fields :
    (p : SocketParams) (s : Server)
    → ((accept_client p s).0.clientmap ≡ s.clientmap)
      × ((accept_client p s).0.deleted ≡ s.deleted)
      × ((((accept_client p s).2 ≡ none) × ((accept_client p s).0.next_client ≡ s.next_client))
          ⊎ (((accept_client p s).2 ≡ some s.next_client)
              × ((accept_client p s).0.next_client ≡ s.next_client + 1)))
unfolding accept_client create_listen_thread
accept_fields p s = ground arith

made-IsKept :
    (p : SocketParams) (s t : Server) (e : Clients)
    → t.clientmap ≡ s.clientmap
    → t.deleted ≡ s.deleted
    → t.next_client ≡ s.next_client + 1
    → IsKept s e
    → IsKept t ((p, s.next_client) ∷ e)
unfolding count
made-IsKept p s t e m d n k = record {
  ordered = rw m (k.ordered);
  once = λ c. rw (m, d, n) (ground (arith, k.once c));
}

accept-IsKept :
    (p : SocketParams) (s : Server) (e : Clients)
    → IsKept s e
    → IsKept (accept_client p s).0 (with_made p (accept_client p s).2 e)
accept-IsKept p s e k =
    let (m, d, made) = accept_fields p s in
    elim made [
      | inl (o, n) ↦
          subst (λ o. IsKept (accept_client p s).0 (with_made p o e)) (sym o)
            (IsKept-same s (accept_client p s).0 e m d n k)
      | inr (o, n) ↦
          subst (λ o. IsKept (accept_client p s).0 (with_made p o e)) (sym o)
            (made-IsKept p s (accept_client p s).0 e m d n k)
    ]

-- A client that enters the map comes under a key that the map does not have.
enter-IsKept :
    (p : SocketParams) (c : ℕ) (s : Server) (before after : Clients)
    → find p s.clientmap ≡ none
    → IsKept s (before ++ (p, c) ∷ after)
    → IsKept (enter_client p (some c) s) (before ++ after)
unfolding enter_client count
enter-IsKept p c s before after new k = record {
  ordered = assign-IsOrdered p c s.clientmap k.ordered;
  once = λ i. omega (
    arith,
    k.once i,
    count-assign i c p s.clientmap new,
    count-ids_append i before ((p, c) ∷ after),
    count-ids_append i before after,
  );
}

notify-IsKept :
    (p : SocketParams) (s s' : Server) (e : Clients)
    → notify_delete p s ≡ ok s'
    → IsKept s e
    → IsKept s' e
unfolding notify_delete
notify-IsKept p s s' e sent k = IsKept-same s s' e (ground arith) (ground arith) (ground arith) k

either-IsKept :
    (b : Bool) (x y : Server × Bool) (e : Clients)
    → IsKept x.0 e
    → IsKept y.0 e
    → IsKept (if b then x else y).0 e
either-IsKept true x y e kx ky = kx
either-IsKept false x y e kx ky = ky

recovery_step-IsKept :
    (ret : ℤ) (temp : List ℕ) (s : Server) (e : Clients)
    → IsKept s e
    → IsKept (recovery_step ret temp s).0 e
unfolding recovery_step
recovery_step-IsKept ret temp s e k =
    either-IsKept (ltb_ℤ ret (pos 0)) _ _ e k
      (either-IsKept s.set_thread_exit_flag _ _ e k (by_code ret))
  where
    by_code :
        (ret : ℤ)
        → IsKept (elim ret [ pos zero ↦ recover_client (params_of_bytes temp) s | _ ↦ s ]) e
    by_code (pos zero) =
        recover-IsKept (params_of_bytes temp) s e (find (params_of_bytes temp) s.clientmap) refl k
    by_code (pos (suc n)) = k
    by_code (negsuc n) = k

recovery_round-IsKept :
    (w : Waited) (s : Server) (e : Clients) → IsKept s e → IsKept (recovery_round w s).0 e
unfolding recovery_round
recovery_round-IsKept w s e k =
    let (ret, temp, q) = take_from_queue s.clientqueue w in
    recovery_step-IsKept ret temp (record s { clientqueue = q }) e
      (IsKept-same s (record s { clientqueue = q }) e refl refl refl k)

Step-IsKept : {t u : State} → Step t u → IsKept t.0 t.1 → IsKept u.0 u.1
unfolding stop close_mater
Step-IsKept (accept p s e) k = accept-IsKept p s e k
Step-IsKept (enter p c s before after new) k = enter-IsKept p c s before after new k
Step-IsKept (notify p s s' e sent) k = notify-IsKept p s s' e sent k
Step-IsKept (recover w s e) k = recovery_round-IsKept w s e k
Step-IsKept (halt s e) k = IsKept-same s (stop s) e (ground arith) (ground arith) (ground arith) k

Reach-IsKept : {t u : State} → Reach t u → IsKept t.0 t.1 → IsKept u.0 u.1
Reach-IsKept here k = k
Reach-IsKept (next r st) k = Step-IsKept st (Reach-IsKept r k)

count-delete_clients :
    (c : ℕ) (m : Clients) (gone : List ℕ)
    → count c (delete_clients m gone) ≡ count c gone + count c (ids m)
unfolding count delete_clients
count-delete_clients c [] gone = omega arith
count-delete_clients c ((k, i) ∷ m) gone = omega (arith, count-delete_clients c m (i ∷ gone))

start_fields :
    (handle : ℕ) (binds listens : Bool) (s : Server)
    → ((start handle binds listens s).clientmap ≡ s.clientmap)
      × ((start handle binds listens s).deleted ≡ s.deleted)
      × ((start handle binds listens s).next_client ≡ s.next_client)
unfolding start init_socket create_listen_thread
start_fields handle true true s = ground arith
start_fields handle true false s = (refl, refl, refl)
start_fields handle false listens s = (refl, refl, refl)

start-IsKept :
    (handle : ℕ) (binds listens : Bool) → IsKept (start handle binds listens new_server) []
unfolding count
start-IsKept handle binds listens =
    let (m, d, n) = start_fields handle binds listens new_server in
    IsKept-same new_server (start handle binds listens new_server) [] m d n
      (record { ordered = tt; once = λ c. ground arith })

-- From the start of the server to its destructor, for any order of the threads' steps: once the
-- listen threads have ended, so that every client that was made has entered the map, each client that
-- was made has been deleted exactly once in the end, no other has been, and the map is empty. A client
-- that enters the map has a socket that none in the map still has open.
pub delete_server-once :
    (handle c : ℕ) (binds listens : Bool) (s : Server)
    → Reach (start handle binds listens new_server, []) (s, [])
    → (count c (delete_server s).deleted ≡ (if ltb c s.next_client then 1 else 0))
      × ((delete_server s).clientmap ≡ [])
unfolding delete_server count
delete_server-once handle c binds listens s r =
    let k = Reach-IsKept r (start-IsKept handle binds listens) in
    (omega (arith, count-delete_clients c s.clientmap s.deleted, k.once c), refl)
