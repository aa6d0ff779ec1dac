-- ===== src/Client/Overflow.antt =====
-- About headers that `StickDismantleProtocol` of ClientObj/clientobj.cpp believes: the length of a
-- frame is not compared with the size of the buffer, and not with 0.
use console_master_rtpvoice.Prelude.{
  ℕ, zero, suc, ◌+◌, ◌-◌, ◌≤◌, ◌<◌, ◌≡◌, refl, ap, ◌∙◌, false, ◌&&◌, List, [], ◌∷◌, ◌++◌, map, ℤ,
  pos, negsuc, eqb_ℤ, length, drop, blit, undefined, ◌>>=◌, arith,
}
use native.Mathlib.Decide.{dec_lt}
use console_master_rtpvoice.Common.{buf_length, protocol_head}
use console_master_rtpvoice.Text.Digits.{NoDigit}
use console_master_rtpvoice.Text.Minus.{minus3}
use console_master_rtpvoice.Fifo.{Fifo}
use console_master_rtpvoice.Frame.{Options, stick_dismantle}
use console_master_rtpvoice.Frame.Interface.{Sink}
use console_master_rtpvoice.Frame.Stream.{idle, header, state, Holds}
use console_master_rtpvoice.Frame.Chunks.{max_chunk}
use console_master_rtpvoice.Frame.Overflow.{
  stick_dismantle-full, stick_dismantle-under, stick_dismantle-announced, stick_dismantle-minus,
}
use console_master_rtpvoice.Client.{push_frame, push_recv_buff_to_queue}
use console_master_rtpvoice.Client.Loop.{Event, is_quit, process_client_req}
use console_master_rtpvoice.Client.Packet.{client_sink}
use console_master_rtpvoice.Client.Receive.{received, received-round}

-- Chunks that `recv` may give, none of them a lone `Q`.
abbrev pub AreChunks : List (List ℕ) → Type 0
AreChunks [] = Unit {0}
AreChunks (c ∷ cs) =
    (0 < length c)
    × (length c ≤ max_chunk)
    × ((is_quit c && eqb_ℤ (pos (length c)) (pos 1)) ≡ false)
    × AreChunks cs

abbrev pub total : List (List ℕ) → ℕ
total [] = 0
total (c ∷ cs) = length c + total cs

module _ {Q : Type 0} (s : Sink Q) (junk : List ℕ) (clean : NoDigit junk) where
  -- A frame that wants more than the buffer has room for.
  rest-undefined :
      (chunks : List (List ℕ)) (r c : ℕ) (l ret : ℤ) (buf : List ℕ) (es : List Event) (q : Q)
      → AreChunks chunks
      → buf_length < r + c
      → c ≤ buf_length
      → buf_length < c + total chunks
      → process_client_req s junk (map received chunks ++ es) ret (state (pos r) c l buf) q
        ≡ undefined
  rest-undefined [] r c l ret buf es q good wants fits much = absurd (omega arith)
  rest-undefined (chunk ∷ chunks) r c l ret buf es q (some_left, small, other, good) wants fits
        much =
      received-round s junk clean chunk (map received chunks ++ es) ret (state (pos r) c l buf) q
        some_left other
      ∙ elim (dec_lt buf_length (c + length chunk)) [
        | yes full ↦
            rw (stick_dismantle-full s junk [] clean (pos r) l c buf chunk q small full) refl
        | no room ↦
            rw
              (stick_dismantle-under s junk [] clean r c l buf chunk q small (omega arith)
                (omega arith))
              (rest-undefined chunks (r - length chunk) (c + length chunk) l (pos 0)
                (blit buf c chunk) es q good (omega arith) (omega arith) (omega arith))
      ]

  -- From a state in which nothing is pending, a header comes, at the front of a chunk, that announces
  -- 2044 bytes or more, and further chunks, all of 1 to 512 bytes and none a lone `Q`. As soon as
  -- more than 2048 bytes have come, whatever they are, the receiving thread has written behind its
  -- buffer, which is undefined behaviour. What `sscanf` meets behind four digits does not begin with a
  -- digit.
  pub process_client_req-announced :
      (n : ℕ) (body : List ℕ) (chunks : List (List ℕ)) (es : List Event) (ret : ℤ) (o : Options)
      (q : Q)
      → 2044 ≤ n
      → n < 10000
      → length body + 5 ≤ max_chunk
      → AreChunks chunks
      → buf_length < length body + 5 + total chunks
      → Holds idle o
      → process_client_req s junk (map received ((header n ++ body) ∷ chunks) ++ es) ret o q
        ≡ undefined
  process_client_req-announced n body chunks es ret o q long fits small good much h =
      received-round s junk clean (header n ++ body) (map received chunks ++ es) ret o q
        (omega arith) refl
      ∙ ap
          (λ v. stick_dismantle s junk [] v (header n ++ body) q >>= λ (ret', o', q').
            process_client_req s junk (map received chunks ++ es) ret' o' q')
          h.shape
      ∙ rw
          (stick_dismantle-announced s junk [] clean n h.len h.rest body q fits (omega arith) small)
          (rest-undefined chunks (n - length body) (length body + 5) (pos n) (pos 0) _ es q good
            (omega arith) (omega arith) much)

push_frame-minus :
    (fd : ℕ) (q : Fifo) (buff : List ℕ) (n : ℕ)
    → ◌>>=◌ {B = ℤ × Options × Fifo} (push_frame fd q buff (negsuc n)) (λ q'. undefined) ≡ undefined
unfolding push_frame push_recv_buff_to_queue
push_frame-minus fd q buff n = ground arith

-- From a state in which nothing is pending, a chunk comes of 5 to 512 bytes that begins with the head
-- byte, a minus sign and three digits that are not all 0. `sscanf` reads a negative length, no test
-- refuses it, and the copies are called with it as their size, which is undefined behaviour. What
-- `sscanf` meets behind four characters does not begin with a digit.
pub process_client_req-minus :
    (fd : ℕ) (junk : List ℕ) (n : ℕ) (body : List ℕ) (es : List Event) (ret : ℤ) (o : Options)
    (q : Fifo)
    → NoDigit junk
    → 0 < n
    → n < 1000
    → length body + 5 ≤ max_chunk
    → Holds idle o
    → process_client_req
        (client_sink fd)
        junk
        (received (protocol_head ∷ (minus3 n ++ body)) ∷ es)
        ret
        o
        q
      ≡ undefined
process_client_req-minus fd junk zero body es ret o q clean some fits small h = elim some [ ]
process_client_req-minus fd junk (suc n) body es ret o q clean some fits small h =
    received-round (client_sink fd) junk clean (protocol_head ∷ (minus3 (suc n) ++ body)) es ret o q
      (omega arith) refl
    ∙ ap
        (λ v.
          stick_dismantle (client_sink fd) junk [] v (protocol_head ∷ (minus3 (suc n) ++ body)) q
          >>= λ (ret', o', q'). process_client_req (client_sink fd) junk es ret' o' q')
        h.shape
    ∙ rw
        (
          stick_dismantle-minus (client_sink fd) junk [] clean n h.len h.rest body q (omega arith)
              small,
          push_frame-minus fd q (body ++ drop (length body + 5) h.rest) n,
        )
        refl
