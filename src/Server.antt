-- ===== src/Server.antt =====
-- MyProtocol/myprotocol.cpp: the server side of `JProtocol`. Listen threads accept clients into
-- `clientmap`; a client that ends puts its key into `clientqueue`, and the recovery thread erases
-- it. `clientmap_locker` covers each change of the map, so each is one step; a client is made before.
pub mod ClientMap
pub mod Key
pub mod Lifecycle
pub mod Listening
pub mod Missed
pub mod Notices
pub mod Overwritten
pub mod Recovery
pub mod Steps
use console_master_rtpvoice.Prelude.{
  ℕ, zero, ◌+◌, ◌-◌, ◌*◌, ◌/◌, ◌%◌, ◌^◌, Bool, true, false, List, [], ◌∷◌, ◌++◌, Option, none, some,
  ℤ, pos, negsuc, ltb, ◌==◌, ltb_ℤ, if◌then◌else◌, get_elem?, take, drop, Run, ok, undefined, ◌>>=◌,
  map_run,
}
use console_master_rtpvoice.Common.{
  invalid_socket, max_listening_count, SockaddrIn, SocketParams, lt_params,
}
use console_master_rtpvoice.Fifo.{Fifo, empty_fifo, push_to_queue, Waited, take_from_queue}

-- `std::map<SocketParams_t, ClientObj *>`: the pairs in the order of the keys. A `ClientObj *` is a
-- number.
abbrev pub Clients : Type 0
Clients = List (SocketParams × ℕ)

-- `clientmap.find`
unfoldable pub find : SocketParams → Clients → Option ℕ
find k [] = none
find k ((j, v) ∷ m) = if lt_params k j then none else if lt_params j k then find k m else some v

-- `clientmap[k] = v`: where the key is there, its value is replaced.
pub assign : SocketParams → ℕ → Clients → Clients
assign k v [] = (k, v) ∷ []
assign k v ((j, w) ∷ m) =
    if lt_params k j
    then (k, v) ∷ (j, w) ∷ m
    else if lt_params j k
    then (j, w) ∷ assign k v m
    else (j, v) ∷ m

-- `clientmap.erase` of what `find` found.
pub erase : SocketParams → Clients → Clients
erase k [] = []
erase k ((j, w) ∷ m) =
    if lt_params k j then (j, w) ∷ m else if lt_params j k then (j, w) ∷ erase k m else m

-- The members of `JProtocol` that change; `closed` are the sockets of the server that were closed,
-- newest first, `waiting` counts the threads that wait in `accept`, and
-- `deleted` the `ClientObj`s whose destructors ran, newest first.
pub record Server : Type 0 where
  pub serversoc : ℕ
  pub listen_numb : ℕ
  pub waiting : ℕ
  pub clientmap : Clients
  pub deleted : List ℕ
  pub next_client : ℕ
  pub clientqueue : Fifo
  pub set_thread_exit_flag : Bool
  pub startfunc_is_finished : Bool
  pub has_tcp_server : Bool
  pub has_callback : Bool
  pub has_recovery_thread : Bool
  pub closed : List ℕ

-- `InitProtocolData`
abbrev pub new_server : Server
new_server = record {
  serversoc = invalid_socket;
  listen_numb = 0;
  waiting = 0;
  clientmap = [];
  deleted = [];
  next_client = 0;
  clientqueue = empty_fifo;
  set_thread_exit_flag = false;
  startfunc_is_finished = false;
  has_tcp_server = false;
  has_callback = false;
  has_recovery_thread = false;
  closed = [];
}

-- `SetCallBackFunc` with a function; a client gets it when it is made.
unfoldable set_call_back_func : Server → Server
set_call_back_func s = record s { has_callback = true }

-- `CreateListenThread`
unfoldable pub create_listen_thread : Server → Server
create_listen_thread s =
    if ltb s.listen_numb max_listening_count
    then record s { listen_numb = s.listen_numb + 1; waiting = s.waiting + 1 }
    else s

-- `SocketClose` of the server's socket.
abbrev closing : ℕ → List ℕ → List ℕ
closing handle closed = if handle == invalid_socket then closed else handle ∷ closed

-- `InitSocket`, for the handle of the new socket and what `bind` and `listen` return (whether each
-- succeeds); the value says whether it succeeded.
unfoldable pub init_socket : ℕ → Bool → Bool → Server → Server × Bool
unfolding create_listen_thread
init_socket handle binds listens s =
    -- A server that is there is closed and opened again.
    let closed = if s.has_tcp_server then closing s.serversoc s.closed else s.closed in
    let opened = record s {
      has_tcp_server = true;
      serversoc = handle;
      closed = closed;
      has_recovery_thread = true;
    } in
    let failed = record s {
      has_tcp_server = false;
      serversoc = invalid_socket;
      closed = closing handle closed;
    } in
    if binds
    then (if listens then (create_listen_thread opened, true) else (failed, false))
    else (failed, false)

-- `Start`
unfoldable pub start : ℕ → Bool → Bool → Server → Server
unfolding init_socket
start handle binds listens s =
    let (s', status) = init_socket handle binds listens s in
    if status then record s' { startfunc_is_finished = true } else s'

-- `CloseMater`
unfoldable pub close_mater : Server → Server
close_mater s = if s.serversoc == invalid_socket then s else record s {
  serversoc = invalid_socket;
  has_tcp_server = false;
  closed = s.serversoc ∷ s.closed;
}

-- `ListenThreadFunc` from the return of `accept`, which gives a socket and an address, to the client
-- that it makes: the thread is no longer waiting, and another is made while the server is open.
unfoldable pub accept_client : SocketParams → Server → Server × ℤ × Option ℕ
unfolding create_listen_thread
accept_client socketparam s =
    let s1 = record s { waiting = s.waiting - 1 } in
    let s2 = if s1.serversoc == invalid_socket then s1 else create_listen_thread s1 in
    if socketparam.socket_fd == invalid_socket
    then (s2, negsuc 0, none)
    else if ltb s2.listen_numb max_listening_count
    then (record s2 { next_client = s2.next_client + 1 }, pos 0, some s2.next_client)
    else (s2, pos 0, none)

-- Its step under the lock: the client that was made, if one was, enters the map.
unfoldable pub enter_client : SocketParams → Option ℕ → Server → Server
enter_client socketparam none s = s
enter_client socketparam (some c) s = record s { clientmap = assign socketparam c s.clientmap }

-- Both, with no step of another thread in between, and the return value.
unfoldable pub listen_thread_func : SocketParams → Server → Server × ℤ
unfolding accept_client enter_client
listen_thread_func socketparam s =
    let (s', ret, made) = accept_client socketparam s in (enter_client socketparam made s', ret)

-- The bytes of a number, the lowest first.
abbrev pub le16 : ℕ → List ℕ
le16 n = (n % 256) ∷ (n / 256 % 256) ∷ []

abbrev pub le32 : ℕ → List ℕ
le32 n = (n % 256) ∷ (n / 256 % 256) ∷ (n / 65536 % 256) ∷ (n / 16777216 % 256) ∷ []

abbrev pub sizeof_socket_params : ℕ
sizeof_socket_params = 20

-- A packed `SocketParams_t` as bytes, `sin_zero` included.
unfoldable pub params_bytes : SocketParams → List ℕ
params_bytes p =
    le32 p.socket_fd
    ++ (le16 p.remote_addr.sin_family
        ++ (le16 p.remote_addr.sin_port
            ++ (le32 p.remote_addr.sin_addr ++ (0 ∷ 0 ∷ 0 ∷ 0 ∷ 0 ∷ 0 ∷ 0 ∷ 0 ∷ []))))

abbrev byte_at : List ℕ → ℕ → ℕ
byte_at bs i = elim (get_elem? bs i) [ some b ↦ b | none ↦ 0 ]

-- `memcpy(&clientsocket_temp, temp, sizeof(SocketParams_t))`
unfoldable pub params_of_bytes : List ℕ → SocketParams
params_of_bytes bs = record {
  socket_fd = byte_at bs 0 + byte_at bs 1 * 256 + byte_at bs 2 * 65536 + byte_at bs 3 * 16777216;
  remote_addr = record {
    sin_family = byte_at bs 4 + byte_at bs 5 * 256;
    sin_port = byte_at bs 6 + byte_at bs 7 * 256;
    sin_addr = byte_at bs 8 + byte_at bs 9 * 256 + byte_at bs 10 * 65536 + byte_at bs 11 * 16777216;
  };
}

-- `NotifyDeleleClienObjFunc`
unfoldable pub notify_delete : SocketParams → Server → Run Server
notify_delete p s =
    map_run (λ q. record s { clientqueue = q }) (push_to_queue s.clientqueue (params_bytes p))

-- What the recovery thread does under the lock for a key that it took.
unfoldable pub recover_client : SocketParams → Server → Server
recover_client p s = elim (find p s.clientmap) [
  | none ↦ s
  | some c ↦ record s { clientmap = erase p s.clientmap; deleted = c ∷ s.deleted }
]

-- The body of the loop of `RecoveryClientObjThreadFunc` for what `TakeFromQueue` gave; the value says
-- whether the loop goes on.
unfoldable pub recovery_step : ℤ → List ℕ → Server → Server × Bool
recovery_step ret temp s =
    if ltb_ℤ ret (pos 0)
    then (s, false)
    else if s.set_thread_exit_flag
    then (s, false)
    else (elim ret [ pos zero ↦ recover_client (params_of_bytes temp) s | _ ↦ s ], true)

-- One round of that loop.
unfoldable pub recovery_round : Waited → Server → Server × Bool
unfolding recovery_step
recovery_round w s =
    let (ret, temp, q) = take_from_queue s.clientqueue w in
    recovery_step ret temp (record s { clientqueue = q })

-- The loop, for what the semaphore's waits give: the server and whether the thread is still in it.
unfoldable pub recovery_rounds : List Waited → Server → Server × Bool
recovery_rounds [] s = (s, true)
recovery_rounds (w ∷ ws) s =
    let (s', on) = recovery_round w s in
    let rest = recovery_rounds ws s' in if on then rest else (s', false)

-- The loop of the destructor: the client at the front is deleted and taken out, until none is left.
pub delete_clients : Clients → List ℕ → List ℕ
delete_clients [] gone = gone
delete_clients ((k, c) ∷ m) gone = delete_clients m (c ∷ gone)

-- `~JProtocol`, first part: no connection is accepted any more, and the threads are told to end.
unfoldable pub stop : Server → Server
unfolding close_mater
stop s = record (close_mater s) { set_thread_exit_flag = true }

-- `~JProtocol`, last part, once the threads have ended.
unfoldable pub delete_server : Server → Server
unfolding delete_clients
delete_server s = record s {
  has_recovery_thread = false;
  clientmap = [];
  deleted = delete_clients s.clientmap s.deleted;
}
