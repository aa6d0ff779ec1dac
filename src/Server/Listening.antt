-- ===== src/Server/Listening.antt =====
-- About the listen threads of MyProtocol/myprotocol.cpp: `Start` and `ListenThreadFunc`.
use console_master_rtpvoice.Prelude.{ℕ, ◌+◌, ◌≤◌, ◌<◌, ◌≡◌, ◌≢◌, true, List, [], ◌∷◌, arith, length}
use console_master_rtpvoice.Common.{invalid_socket, max_listening_count, SocketParams}
use console_master_rtpvoice.Server.{
  Server, new_server, start, accept_client, enter_client, listen_thread_func,
}
use console_master_rtpvoice.Server.ClientMap.{IsOrdered, assign-IsOrdered}

-- An open server of which `n` listen threads were made.
pub record IsOpen (s : Server) : Type 0 where
  pub open_socket : s.serversoc ≢ invalid_socket
  pub made : s.listen_numb ≤ max_listening_count
  pub one_waits : s.waiting ≡ 1
  pub ordered : IsOrdered s.clientmap

-- All threads were used up.
pub record IsDeaf (s : Server) : Type 0 where
  pub open_socket : s.serversoc ≢ invalid_socket
  pub made : s.listen_numb ≡ max_listening_count
  pub none_waits : s.waiting ≡ 0
  pub ordered : IsOrdered s.clientmap

-- A server that starts with a socket that can be bound and listened on has one thread waiting.
start-IsOpen :
    (handle : ℕ)
    → handle ≢ invalid_socket
    → IsOpen (start handle true true new_server)
      × ((start handle true true new_server).startfunc_is_finished ≡ true)
      × ((start handle true true new_server).listen_numb ≡ 1)
unfolding start
start-IsOpen handle h = ground arith

-- The accepted connections, one after the other.
pub accept_all : List SocketParams → Server → Server
accept_all [] s = s
accept_all (p ∷ ps) s = accept_all ps (listen_thread_func p s).0

-- While threads may still be made, an accepted client enters the map, and another thread waits.
listen-IsOpen :
    (p : SocketParams) (s : Server)
    → IsOpen s
    → s.listen_numb < max_listening_count
    → IsOpen (listen_thread_func p s).0
      × ((listen_thread_func p s).0.listen_numb ≡ s.listen_numb + 1)
unfolding listen_thread_func accept_client enter_client
listen-IsOpen p s o h = ground (arith, assign-IsOrdered p s.next_client s.clientmap o.ordered)

-- An open server that made 65535 listen threads is deaf after the next connection: no thread waits
-- any more, and the client is not in the map.
pub listen-IsDeaf :
    (p : SocketParams) (s : Server)
    → IsOpen s
    → s.listen_numb ≡ max_listening_count
    → IsDeaf (listen_thread_func p s).0 × ((listen_thread_func p s).0.clientmap ≡ s.clientmap)
unfolding listen_thread_func accept_client enter_client
listen-IsDeaf p s o h = ground arith

accept_all-IsOpen :
    (ps : List SocketParams) (s : Server)
    → IsOpen s
    → s.listen_numb + length ps ≤ max_listening_count
    → IsOpen (accept_all ps s) × ((accept_all ps s).listen_numb ≡ s.listen_numb + length ps)
unfolding accept_all
accept_all-IsOpen [] s o h = (o, omega arith)
accept_all-IsOpen (p ∷ ps) s o h =
    let (o', n) = listen-IsOpen p s o (omega arith) in
    let (o'', n') = accept_all-IsOpen ps (listen_thread_func p s).0 o' (omega (arith, n)) in
    (o'', omega (arith, n, n'))

-- From the start, where the socket can be bound and listened on, through up to 65534 accepted
-- connections, the server stays open, with one thread that waits for the next, and one thread more
-- was made than connections were accepted.
pub accept_all-start :
    (handle : ℕ) (ps : List SocketParams)
    → handle ≢ invalid_socket
    → length ps + 1 ≤ max_listening_count
    → let s = accept_all ps (start handle true true new_server) in
      IsOpen s × (s.listen_numb ≡ length ps + 1)
accept_all-start handle ps h few =
    let (o, _, n) = start-IsOpen handle h in
    let (o', n') = accept_all-IsOpen ps (start handle true true new_server) o (omega (arith, n)) in
    (o', omega (arith, n, n'))
