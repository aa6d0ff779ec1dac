-- ===== src/Frame.antt =====
-- ClientObj/clientobj.cpp, `ClientObj::StickDismantleProtocol`: frames are put together from the
-- chunks that a TCP socket hands over. A frame is the head byte 1, four decimal digits with the
-- length of the payload, and the payload.
-- `goto Start` is recursion on fuel. `memcpy` moves the bytes as if there were no overlap, which is
-- what the Visual C++ runtime does. A copy beyond `data[BUFLENGTH]`, or with a negative length, is
-- undefined behaviour.
pub mod Interface
pub mod Stream
pub mod Reassembly
pub mod Rounds
pub mod Continuation
pub mod Chunks
pub mod Draining
pub mod Overflow
pub mod SplitHeader
pub mod Termination
use Interface.{Sink}
use console_master_rtpvoice.Prelude.{
  pos_part, ℕ, zero, suc, ◌+◌, ◌-◌, ◌%◌, ◌^◌, Bool, true, false, ◌&&◌, List, ◌++◌, Option, none,
  some, ℤ, pos, negsuc, ◌+ℤ◌, ◌-ℤ◌, eqb_ℤ, ltb, leb, ◌==◌, if◌then◌else◌, length, get_elem?, take,
  drop, replicate, blit, Run, ok, undefined, running, ◌>>=◌,
}
use mathlib.Core.Option
use console_master_rtpvoice.Common.{buf_length, protocol_head, protocol_package_length_size}
use console_master_rtpvoice.Text.{scan_int}
use console_master_rtpvoice.Socket.{Drain, socket_clear_recv_buffer}

-- `StickDismantleOptions_t`; `buf` is its `data`.
pub record Options : Type 0 where
  pub bytes_remained : ℤ
  pub count : ℕ
  pub pro_length : ℤ
  pub buf : List ℕ

-- As `InitProtocolData` leaves it.
abbrev pub fresh : Options
fresh = record {
  bytes_remained = pos 0;
  count = 0;
  pro_length = pos 0;
  buf = replicate buf_length 0;
}

-- `uint32_t` addition.
abbrev pub add_u32 : ℕ → ℕ → ℕ
add_u32 a b = (a + b) % 2 ^ 32

-- `memcpy(&data[0], &data[off], n)` and `memset(&data[n], 0x00, BUFLENGTH - n)`.
unfoldable pub shift : List ℕ → ℕ → ℕ → Run (List ℕ)
shift buf off n =
    if leb (off + n) buf_length
    then ok (take n (drop off buf) ++ replicate (buf_length - n) 0)
    else undefined

abbrev pub is_head : List ℕ → Bool
is_head buf = elim (get_elem? buf 0) [ some b ↦ b == protocol_head | none ↦ false ]

-- The length field is copied into an empty string's own buffer and scanned there; `junk` is what
-- that buffer holds behind the four bytes.
abbrev pub read_length : List ℕ → Options → ℤ
read_length junk o =
    Option.get_or (scan_int (take protocol_package_length_size (drop 1 o.buf) ++ junk)) o.pro_length

-- Everything cleared, as after a frame that ends with the chunk.
abbrev pub cleared : Options → Options
cleared o = record o {
  bytes_remained = pos 0;
  count = 0;
  pro_length = pos 0;
  buf = replicate buf_length 0;
}

-- The first `n` bytes of the buffer start afresh, the rest is zero.
abbrev pub restarted : Options → List ℕ → Options
restarted o buf = record o { bytes_remained = pos 0; count = 0; buf = buf }

-- `PushRecvBuffToQueue(clientfd, &option.data[5], option.pro_length)` goes to the sink. `drains` is what
-- Winsock answers in `SocketClearRecvBuffer`, which one call of the function comes to once at most.
module _ {Q : Type 0} (s : Sink Q) (junk : List ℕ) (drains : List Drain) where
  abbrev pub Again : Type 0
  Again = Options → ℕ → Q → Run (Options × Q)

  -- The frame at the front is passed on, and the `m` bytes behind it come to the front. The
  -- length, as the size of a copy, must not be negative.
  pub dismantle : Again → ℤ → Options → ℕ → Q → Run (Options × Q)
  dismantle again (pos n) o m q = do
    q' ← s.push q (drop 5 o.buf) (pos n)
    buf' ← shift o.buf (n + 5) m
    again (restarted o buf') m q'
  dismantle again (negsuc n) o m q = s.push q (drop 5 o.buf) (negsuc n) >>= λ _. undefined

  -- A header at the front of the buffer: by the sign of `bytes_remained`, the frame ends with the
  -- chunk, has to wait for more, or is followed by another.
  pub at_header : Again → ℤ → Options → ℕ → Q → Run (Options × Q)
  unfolding dismantle
  at_header again (pos zero) o recv q = do
    q' ← s.push q (drop 5 o.buf) o.pro_length
    ok (cleared o, q')
  at_header again (pos (suc k)) o recv q = ok (record o { count = add_u32 o.count recv }, q)
  at_header again (negsuc k) o recv q =
      dismantle again o.pro_length o (recv - 5 - pos_part o.pro_length) q

  -- More bytes than the frame still wants: its last byte has to be a `}`, else a packet was lost
  -- and the chunk alone is looked at.
  pub at_overrun : Again → ℤ → Options → ℕ → Q → Run (Options × Q)
  unfolding dismantle
  at_overrun again (negsuc i) o recv q = undefined
  at_overrun again (pos i) o recv q = elim (get_elem? o.buf i) [
    | none ↦ undefined
    | some c ↦
        if c == b'}'
        then (if leb (pos_part o.pro_length + 5) (add_u32 o.count recv)
            then dismantle again o.pro_length o (add_u32 o.count recv - (pos_part o.pro_length + 5))
                q
            else undefined)
        else (shift o.buf o.count recv >>= λ buf'. again (restarted o buf') recv q)
  ]

  -- No header, or a frame that waits for bytes, by what `bytes_remained` is.
  pub at_rest : Again → ℤ → Options → ℕ → Q → Run (Options × Q)
  unfolding at_overrun
  at_rest again (pos (suc k)) o recv q =
      if suc k == recv
      then (s.push q (drop 5 o.buf) o.pro_length >>= λ q'. ok (cleared o, q'))
      else if ltb recv (suc k)
      then ok (record o { bytes_remained = pos (suc k - recv); count = add_u32 o.count recv }, q)
      else at_overrun again (o.pro_length +ℤ pos protocol_package_length_size) o recv q
  at_rest again _ o recv q =
      if ltb recv 5
      then ok (record o { count = add_u32 o.count recv }, q)
      else (socket_clear_recv_buffer drains >>= λ thrown_away. ok (cleared o, q))

  -- One pass from the label `Start`.
  pub round : Again → Options → ℕ → Q → Run (Options × Q)
  unfolding at_header at_rest
  round again o recv q =
      if is_head o.buf && leb 5 recv && eqb_ℤ o.bytes_remained (pos 0)
      then (let len = read_length junk o in
          let left = len -ℤ pos (recv - 5) in
          at_header again left (record o { pro_length = len; bytes_remained = left }) recv q)
      else at_rest again o.bytes_remained o recv q

  pub rounds : ℕ → Again
  unfolding round
  rounds zero o recv q = running
  rounds (suc fuel) o recv q = round (λ o' recv' q'. rounds fuel o' recv' q') o recv q

  -- The whole function, for a chunk `&recvbuff[0]` of `length chunk` bytes, with its return value.
  unfoldable pub stick_dismantle : Options → List ℕ → Q → Run (ℤ × Options × Q)
  stick_dismantle o chunk q =
      if ltb buf_length (length chunk)
      then ok (negsuc 0, o, q)
      else if leb (o.count + length chunk) buf_length
      then (rounds (buf_length + 2) (record o { buf = blit o.buf o.count chunk }) (length chunk) q
          >>= λ (o', q'). ok (pos 0, o', q'))
      else undefined
