-- ===== src/Server/Steps.antt =====
-- The steps of the threads of MyProtocol/myprotocol.cpp, in any order, and what they keep.
use console_master_rtpvoice.Prelude.{
  ℕ, ◌+◌, ◌≡◌, refl, List, [], ◌∷◌, ◌++◌, Option, none, some, arith, ltb, ◌==◌, if◌then◌else◌, ok,
}
use console_master_rtpvoice.Common.{SocketParams}
use console_master_rtpvoice.Fifo.{Waited}
use console_master_rtpvoice.Server.{
  Clients, Server, find, assign, erase, accept_client, enter_client, notify_delete, recovery_round,
  stop,
}
use console_master_rtpvoice.Server.ClientMap.{IsOrdered}

-- A server, and the clients that listen threads have made and not put into the map yet.
abbrev pub State : Type 0
State = Server × Clients

abbrev pub with_made : SocketParams → Option ℕ → Clients → Clients
with_made p none e = e
with_made p (some c) e = (p, c) ∷ e

-- What may happen to it, in any order: `accept` returns in a listen thread, which may make a client;
-- such a thread puts its client into the map; a client's thread says that it ended; the recovery
-- thread makes a round; the destructor stops the server. A client that enters the map has a socket
-- that none in the map still has open.
pub data Step : State → State → Type 0 where
  accept :
      (p : SocketParams) (s : Server) (e : Clients)
      → Step (s, e) ((accept_client p s).0, with_made p (accept_client p s).2 e)
  enter :
      (p : SocketParams) (c : ℕ) (s : Server) (before after : Clients)
      → find p s.clientmap ≡ none
      → Step (s, before ++ (p, c) ∷ after) (enter_client p (some c) s, before ++ after)
  notify :
      (p : SocketParams) (s s' : Server) (e : Clients)
      → notify_delete p s ≡ ok s'
      → Step (s, e) (s', e)
  recover : (w : Waited) (s : Server) (e : Clients) → Step (s, e) ((recovery_round w s).0, e)
  halt : (s : Server) (e : Clients) → Step (s, e) (stop s, e)

pub data Reach (t : State) : State → Type 0 where
  here : Reach t t
  next : {u v : State} → Reach t u → Step u v → Reach t v

unfoldable pub count : ℕ → List ℕ → ℕ
count c [] = 0
count c (x ∷ xs) = (if x == c then 1 else 0) + count c xs

-- The clients of the map.
abbrev pub ids : Clients → List ℕ
ids [] = []
ids ((k, c) ∷ m) = c ∷ ids m

-- Each client that was made is about to enter the map, is in it, or was deleted, once.
pub record IsKept (s : Server) (e : Clients) : Type 0 where
  pub ordered : IsOrdered s.clientmap
  pub once :
      (c : ℕ)
      → count c s.deleted + count c (ids s.clientmap) + count c (ids e)
        ≡ (if ltb c s.next_client then 1 else 0)

pub count-ids_append :
    (c : ℕ) (before after : Clients)
    → count c (ids (before ++ after)) ≡ count c (ids before) + count c (ids after)
unfolding count
count-ids_append c [] after = omega arith
count-ids_append c ((k, i) ∷ before) after = omega (arith, count-ids_append c before after)

pub count-assign :
    (c v : ℕ) (p : SocketParams) (m : Clients)
    → find p m ≡ none
    → count c (ids (assign p v m)) ≡ (if v == c then 1 else 0) + count c (ids m)
unfolding count assign find
count-assign c v p [] e = refl
count-assign c v p ((j, w) ∷ m) e = ground (arith, count-assign c v p m)

pub count-erase :
    (c v : ℕ) (p : SocketParams) (m : Clients)
    → find p m ≡ some v
    → count c (ids m) ≡ (if v == c then 1 else 0) + count c (ids (erase p m))
unfolding count erase find
count-erase c v p [] e = cc
count-erase c v p ((j, w) ∷ m) e = ground (arith, count-erase c v p m)
