-- ===== src/Tests/Notices.antt =====
-- Concrete clients that end for the theorems on the recovery thread.
use console_master_rtpvoice.Prelude.{
  ℕ, zero, suc, ◌+◌, ◌≡◌, ◌≤◌, ◌<◌, refl, subst, sym, append_assoc, append-nil, List, [], ◌∷◌, ◌++◌,
  map, replicate, length, none, arith, ok, true, if◌then◌else◌, length-append,
}
use console_master_rtpvoice.Common.{SocketParams}
use console_master_rtpvoice.Fifo.{Fifo, Waited, wait_timeout, empty_fifo, pushed, slot_count}
use console_master_rtpvoice.Fifo.Bounded.{Holds, empty-Holds, pushed-Holds}
use console_master_rtpvoice.Server.{Server, find, params_bytes, notify_delete, recovery_rounds}
use console_master_rtpvoice.Server.Key.{IsKey, length-params_bytes}
use console_master_rtpvoice.Server.Notices.{
  with_queue, AllKeys, notify_all, recover_all, among, notify_all-recovery_rounds,
}
use console_master_rtpvoice.Server.Overwritten.{notify_delete-overwritten}
use console_master_rtpvoice.Tests.Serving.{client_at, two_clients-IsOrdered, running_server}

small-IsKey : (fd port : ℕ) → fd < 1000 → port < 1000 → IsKey (client_at fd port)
small-IsKey fd port h k = record {
  fd = omega arith;
  family = omega arith;
  port = omega arith;
  addr = omega arith;
}

-- Both clients of the map end.
abbrev both : List SocketParams
both = client_at 100 9 ∷ client_at 100 7 ∷ []

notify_all-recovery_rounds_example :
    (s' : Server) × (q : Fifo) × (notify_all both running_server ≡ ok s')
    × Holds q []
    × (recovery_rounds (wait_timeout ∷ wait_timeout ∷ []) s'
        ≡ (with_queue (recover_all both running_server) q, true))
    × ((i : SocketParams)
        → find i (recover_all both running_server).clientmap
          ≡ (if among both i then none else find i running_server.clientmap))
notify_all-recovery_rounds_example =
    notify_all-recovery_rounds both (wait_timeout ∷ wait_timeout ∷ []) running_server
      (
        small-IsKey 100 9 (omega arith) (omega arith),
        (small-IsKey 100 7 (omega arith) (omega arith), tt),
      )
      (omega arith) refl refl two_clients-IsOrdered empty-Holds

-- A queue after several notices.
abbrev push_keys : List SocketParams → Fifo → Fifo
push_keys [] q = q
push_keys (p ∷ ps) q = push_keys ps (pushed q (params_bytes p))

push_keys-Holds :
    (ps : List SocketParams) (q : Fifo) (held : List (List ℕ))
    → Holds q held
    → length held + length ps ≤ slot_count
    → Holds (push_keys ps q) (held ++ map params_bytes ps)
push_keys-Holds [] q held h room = subst (λ l. Holds q l) (sym (append-nil held)) h
push_keys-Holds (p ∷ ps) q held h room =
    subst (λ l. Holds (push_keys ps (pushed q (params_bytes p))) l)
      (append_assoc held (params_bytes p ∷ []) (map params_bytes ps))
      (push_keys-Holds ps (pushed q (params_bytes p)) (held ++ params_bytes p ∷ [])
        (pushed-Holds q held (params_bytes p) h (omega arith)
          (omega (arith, length-params_bytes p)))
        (omega (arith, length-append held (params_bytes p ∷ []))))

-- 19 clients that ended behind the second client of the map.
abbrev others : List SocketParams
others = replicate 19 (client_at 300 1)

others-AllKeys : (n : ℕ) → AllKeys (replicate n (client_at 300 1))
others-AllKeys zero = tt
others-AllKeys (suc n) = (small-IsKey 300 1 (omega arith) (omega arith), others-AllKeys n)

abbrev full_server : Server
full_server = with_queue running_server (push_keys (client_at 100 9 ∷ others) empty_fifo)

abbrev waits : List Waited
waits = replicate 20 wait_timeout

notify_delete-overwritten_example :
    (s' : Server) × (q : Fifo) × (notify_delete (client_at 100 7) full_server ≡ ok s')
    × Holds q []
    × (recovery_rounds (wait_timeout ∷ waits) s' ≡ (
      with_queue (recover_all (client_at 100 7 ∷ (others ++ client_at 100 7 ∷ [])) full_server) q,
      true,
    ))
    × (find
          (client_at 100 9)
          (recover_all (client_at 100 7 ∷ (others ++ client_at 100 7 ∷ [])) full_server).clientmap
        ≡ find (client_at 100 9) full_server.clientmap)
notify_delete-overwritten_example =
    notify_delete-overwritten (client_at 100 9) others (client_at 100 7) wait_timeout waits
      full_server (others-AllKeys 19) (small-IsKey 100 7 (omega arith) (omega arith)) refl refl refl
      two_clients-IsOrdered
      (push_keys-Holds (client_at 100 9 ∷ others) empty_fifo [] empty-Holds (omega arith)) refl
