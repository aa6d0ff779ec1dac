-- ===== src/Socket.antt =====
-- SocketWrap/socketwrap.cpp (WIN32 branches). A call into Winsock is its outcome, an argument: the
-- value that it returns and, where that is an error, what `WSAGetLastError` says then.
pub mod Contract
use console_master_rtpvoice.Prelude.{
  ℕ, zero, suc, ◌+◌, ◌*◌, Bool, true, false, not, ◌&&◌, ◌||◌, List, [], ◌∷◌, ℤ, pos, negsuc, ltb,
  leb, ◌==◌, ltb_ℤ, eqb_ℤ, if◌then◌else◌, Run, ok, running, map_run, ◌%◌, ◌/◌, ◌^◌,
}
use console_master_rtpvoice.Common.{invalid_socket, SockaddrIn}

pub record Transresult : Type 0 where
  pub nbytes : ℤ
  pub nresult : ℤ

-- What `send` or `recv` returned, and the error code.
pub record Outcome : Type 0 where
  pub ret : ℤ
  pub last_error : ℕ

-- `ETRYAGAIN`: WSAEWOULDBLOCK, WSAETIMEDOUT, EAGAIN or EINTR.
abbrev pub is_try_again : ℕ → Bool
is_try_again x = x == 10035 || x == 10060 || x == 11 || x == 4

-- `ISSOCKHANDLE`
abbrev pub is_sock_handle : ℕ → Bool
is_sock_handle x = not (x == invalid_socket)

unfoldable is_valid_socket_handle : ℕ → Bool
is_valid_socket_handle handle = is_sock_handle handle

abbrev pub error_result : ℕ → ℤ
error_result code = if is_try_again code then pos 1 else negsuc 0

-- `SocketSend` of `nbytes` bytes from a pointer that may be null.
unfoldable pub socket_send : Bool → ℤ → Outcome → Transresult
socket_send is_null nbytes out =
    if is_null || ltb_ℤ nbytes (pos 1)
    then record { nbytes = pos 0; nresult = pos 0 }
    else if ltb_ℤ (pos 0) out.ret
    then record { nbytes = out.ret; nresult = if eqb_ℤ out.ret nbytes then pos 0 else pos 1 }
    else if eqb_ℤ out.ret (pos 0)
    then record { nbytes = pos 0; nresult = negsuc 0 }
    else record { nbytes = out.ret; nresult = error_result out.last_error }

-- `SocketRecv` into a buffer of `nbytes` bytes.
unfoldable pub socket_recv : Bool → ℤ → Outcome → Transresult
socket_recv is_null nbytes out =
    if is_null || ltb_ℤ nbytes (pos 1)
    then record { nbytes = pos 0; nresult = pos 0 }
    else if ltb_ℤ (pos 0) out.ret
    then record { nbytes = out.ret; nresult = pos 0 }
    else if eqb_ℤ out.ret (pos 0)
    then record { nbytes = pos 0; nresult = negsuc 0 }
    else record { nbytes = out.ret; nresult = error_result out.last_error }

-- One round of the loop of `SocketClearRecvBuffer`: what `select` and, if that is positive, `recv`
-- returned.
pub record Drain : Type 0 where
  pub selected : ℤ
  pub received : ℤ

-- How many bytes `SocketClearRecvBuffer` throws away, chunk by chunk; the list is what Winsock answers
-- round by round. With no answer left it is still in its loop.
unfoldable pub socket_clear_recv_buffer : List Drain → Run (List ℤ)
socket_clear_recv_buffer [] = running
socket_clear_recv_buffer (d ∷ ds) =
    let rest = socket_clear_recv_buffer ds in
    if ltb_ℤ (pos 0) d.selected
    then (if ltb_ℤ (pos 0) d.received then map_run (◌∷◌ d.received) rest else ok [])
    else ok []

-- `SocketBlock`: the return value, for what `ioctlsocket` returns.
unfoldable socket_block : ℕ → Bool → (ℕ → ℤ) → ℤ
socket_block hs bblock ioctl =
    if is_sock_handle hs then ioctl (if bblock then 0 else 1) else negsuc 0

-- Whether each `setsockopt` of `SocketTimeOut` succeeds.
pub record TimeoutOptions : Type 0 where
  pub linger_set : Bool
  pub recv_set : Bool
  pub send_set : Bool

-- `SocketTimeOut`: -1 for no socket, else 0 or a bit for the option that was refused; after a
-- refusal no further option is set.
unfoldable pub socket_timeout : ℕ → ℤ → ℤ → ℤ → TimeoutOptions → ℤ
socket_timeout hs recvtimeout sendtimeout lingertimeout set =
    if is_sock_handle hs
    then (let linger : ℤ =
          if ltb_ℤ (negsuc 0) lingertimeout
          then (if set.linger_set then pos 0 else pos 1)
          else pos 0 in
        let recv : ℤ =
          if ltb_ℤ (pos 0) recvtimeout && eqb_ℤ linger (pos 0)
          then (if set.recv_set then linger else pos 2)
          else linger in
        if ltb_ℤ (pos 0) sendtimeout && eqb_ℤ recv (pos 0)
        then (if set.send_set then recv else pos 4)
        else recv)
    else negsuc 0

-- `htons` swaps the bytes of the low 16 bits.
abbrev htons : ℕ → ℕ
htons port = port % 2 ^ 8 * 2 ^ 8 + port / 2 ^ 8 % 2 ^ 8

-- `GetAddressFrom`, for the address that `inet_addr` makes of `ip` (`INADDR_ANY` is 0).
unfoldable get_address_from : Bool → ℕ → ℕ → SockaddrIn
get_address_from has_ip inet port = record {
  sin_family = 2;
  sin_port = htons port;
  sin_addr = if has_ip then inet else 0;
}

-- `SetBufferSize`, for what the first `setsockopt` returns and whether the second succeeds: the
-- result of the first is 0 or -1, and -1 with any bit set is -1.
unfoldable pub set_buffer_size : ℕ → ℤ → ℤ → ℤ → Bool → ℤ
set_buffer_size hs recvbuffersize sendbuffersize recv_ret send_set =
    let rt : ℤ = if ltb_ℤ (negsuc 0) recvbuffersize then recv_ret else negsuc 0 in
    if is_sock_handle hs
    then (if ltb_ℤ (negsuc 0) sendbuffersize && eqb_ℤ rt (pos 0)
        then (if send_set then pos 0 else pos 2)
        else rt)
    else negsuc 0

-- `CSockWrap`: the handle, the kind, the address, and the handles that were closed so far.
pub record SockWrap : Type 0 where
  pub handle : ℕ
  pub st_addr : SockaddrIn
  pub tcpudp : ℕ
  pub closed : List ℕ

-- `SocketClose(m_hSocket)`
unfoldable pub socket_close : SockWrap → SockWrap
socket_close s =
    if is_sock_handle s.handle
    then record s { handle = invalid_socket; closed = s.handle ∷ s.closed }
    else s

unfoldable pub close : SockWrap → SockWrap
unfolding socket_close
close s = record (socket_close s) { handle = invalid_socket }

-- `Reopen`, with the handle that `socket` returns.
unfoldable pub reopen : SockWrap → Bool → ℕ → SockWrap
unfolding socket_close
reopen s force_close opened =
    let s' = if is_sock_handle s.handle && force_close then socket_close s else s in
    if is_sock_handle s'.handle then s' else record s' { handle = opened }

-- The constructor.
unfoldable sock_wrap : ℕ → ℕ → SockWrap
unfolding reopen
sock_wrap tcpudp opened =
    reopen
      (record {
        handle = invalid_socket;
        st_addr = record { sin_family = 0; sin_port = 0; sin_addr = 0 };
        tcpudp = tcpudp;
        closed = [];
      })
      false opened

-- The destructor.
unfoldable delete_sock_wrap : SockWrap → SockWrap
unfolding socket_close
delete_sock_wrap s = socket_close s

-- `SetAddress` by an address and a port, and by a `sockaddr_in`.
unfoldable set_address : SockWrap → Bool → ℕ → ℕ → SockWrap
unfolding get_address_from
set_address s has_ip inet port = record s { st_addr = get_address_from has_ip inet port }

unfoldable set_address_of : SockWrap → SockaddrIn → SockWrap
set_address_of s addr = record s { st_addr = addr }
