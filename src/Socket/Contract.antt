-- ===== src/Socket/Contract.antt =====
-- About `SocketSend`, `SocketRecv`, `SocketTimeOut` and `CSockWrap` of SocketWrap/socketwrap.cpp.
use console_master_rtpvoice.Prelude.{
  ℕ, zero, suc, inl, inr, ◌↔◌, ◌<◌, ◌≤◌, ◌≡◌, ◌≢◌, ◌⊎◌, Bool, true, false, ltb_ℤ, ◌∷◌, ℤ, pos,
  negsuc, arith,
}
use console_master_rtpvoice.Common.{invalid_socket}
use console_master_rtpvoice.Socket.{
  Transresult, Outcome, is_try_again, socket_send, socket_recv, TimeoutOptions, socket_timeout,
  set_buffer_size, SockWrap, close, reopen,
}

-- A Winsock answer to a request for `n` bytes: -1, or a count of at most `n`.
abbrev pub IsAnswer : ℕ → ℤ → Type 0
IsAnswer n (pos k) = k ≤ n
IsAnswer n (negsuc k) = k ≡ 0

-- The peer is gone, or the call failed and may be tried again or not.
abbrev pub NoBytes : Outcome → Transresult → Type 0
NoBytes out rt =
    ((rt.nbytes ≡ pos 0) × (rt.nresult ≡ negsuc 0))
    ⊎ ((rt.nbytes ≡ negsuc 0)
        × (((rt.nresult ≡ pos 1) × (is_try_again out.last_error ≡ true))
            ⊎ ((rt.nresult ≡ negsuc 0) × (is_try_again out.last_error ≡ false))))

abbrev answer : ℤ → ℕ → Outcome
answer ret code = record { ret = ret; last_error = code }

recv_at :
    (n : ℕ) (ret : ℤ) (code : ℕ)
    → 1 ≤ n
    → IsAnswer n ret
    → let rt = socket_recv false (pos n) (answer ret code) in
      ((k : ℕ) × (1 ≤ k) × (k ≤ n) × (rt.nbytes ≡ pos k) × (rt.nresult ≡ pos 0))
      ⊎ NoBytes (answer ret code) rt
unfolding socket_recv
recv_at n (pos zero) code h a = inr (ground arith)
recv_at n (pos (suc k)) code h a = inl (suc k, omega arith, a, ground arith, ground arith)
recv_at n (negsuc zero) code h a = inr (ground arith)
recv_at n (negsuc (suc k)) code h a = absurd (omega arith)

-- `SocketRecv` of 1 byte or more, where `recv` returns -1 or a count of at most what was asked for:
-- a count of 1 to `n` with result 0; or 0 with -1 when the peer is gone; or -1 with 1 for a code
-- that says try again, -1 for any other.
socket_recv_contract :
    (n : ℕ) (out : Outcome)
    → 1 ≤ n
    → IsAnswer n out.ret
    → let rt = socket_recv false (pos n) out in
      ((k : ℕ) × (1 ≤ k) × (k ≤ n) × (rt.nbytes ≡ pos k) × (rt.nresult ≡ pos 0)) ⊎ NoBytes out rt
socket_recv_contract n out h a = recv_at n out.ret out.last_error h a

send_at :
    (n : ℕ) (ret : ℤ) (code : ℕ)
    → 1 ≤ n
    → IsAnswer n ret
    → let rt = socket_send false (pos n) (answer ret code) in
      ((k : ℕ) × (1 ≤ k)
        × (k ≤ n)
        × (rt.nbytes ≡ pos k)
        × (((k ≡ n) × (rt.nresult ≡ pos 0)) ⊎ ((k < n) × (rt.nresult ≡ pos 1))))
      ⊎ NoBytes (answer ret code) rt
unfolding socket_send
send_at n (pos zero) code h a = inr (ground arith)
send_at n (pos (suc k)) code h a = inl (suc k, omega arith, a, ground arith, ground arith)
send_at n (negsuc zero) code h a = inr (ground arith)
send_at n (negsuc (suc k)) code h a = absurd (omega arith)

-- `SocketSend` of 1 byte or more, where `send` returns -1 or a count of at most what was asked for:
-- a count of 1 to `n`, with result 0 if all was sent and 1 if only a part was; or 0 with -1 when
-- the peer is gone; or -1 with 1 for a code that says try again, -1 for any other.
socket_send_contract :
    (n : ℕ) (out : Outcome)
    → 1 ≤ n
    → IsAnswer n out.ret
    → let rt = socket_send false (pos n) out in
      ((k : ℕ) × (1 ≤ k)
        × (k ≤ n)
        × (rt.nbytes ≡ pos k)
        × (((k ≡ n) × (rt.nresult ≡ pos 0)) ⊎ ((k < n) × (rt.nresult ≡ pos 1))))
      ⊎ NoBytes out rt
socket_send_contract n out h a = send_at n out.ret out.last_error h a

-- `SocketTimeOut` with two times above 0 and a linger time that is not negative returns 0 exactly
-- when there is a socket and the three options were set.
socket_timeout-eq-zero :
    (hs r s l : ℕ) (set : TimeoutOptions)
    → (socket_timeout hs (pos (suc r)) (pos (suc s)) (pos l) set ≡ pos 0) ↔ (
        (hs ≢ invalid_socket)
        × (set.linger_set ≡ true)
        × (set.recv_set ≡ true)
        × (set.send_set ≡ true))
unfolding socket_timeout
socket_timeout-eq-zero hs r s l set = (λ e. ground arith, λ e. ground arith)

-- `SetBufferSize` returns 0 exactly when there is a socket, a size for the receive buffer was asked
-- for and set, and one for the send buffer, if it was asked for, set too: a call for the send buffer
-- alone never returns 0.
set_buffer_size-eq-zero :
    (hs : ℕ) (r s ret : ℤ) (send_set : Bool)
    → (set_buffer_size hs r s ret send_set ≡ pos 0) ↔ (
        (hs ≢ invalid_socket)
        × (ltb_ℤ (negsuc 0) r ≡ true)
        × (ret ≡ pos 0)
        × ((ltb_ℤ (negsuc 0) s ≡ false) ⊎ (send_set ≡ true)))
unfolding set_buffer_size
set_buffer_size-eq-zero hs r s ret send_set = (λ e. ground arith, λ e. ground arith)

-- On a handle that is open, `Reopen(true)`, where the new socket opens, closes it once and takes
-- the new one; `Close` after it leaves no handle and has closed the new one.
reopen-close :
    (s : SockWrap) (opened : ℕ)
    → s.handle ≢ invalid_socket
    → opened ≢ invalid_socket
    → ((reopen s true opened).handle ≡ opened)
      × ((reopen s true opened).closed ≡ s.handle ∷ s.closed)
      × ((close (reopen s true opened)).handle ≡ invalid_socket)
      × ((close (reopen s true opened)).closed ≡ opened ∷ s.handle ∷ s.closed)
unfolding reopen close
reopen-close s opened h k = ground arith
