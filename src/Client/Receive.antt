-- ===== src/Client/Receive.antt =====
-- The receiving thread of a client, `ProcessClientReqThreadFunc`, over a stream cut into chunks.
use mathlib.Core.Path.{fun_ext}
use console_master_rtpvoice.Prelude.{
  append-nil, take-append, ltb_ℤ, eqb_ℤ, ℕ, ◌≤◌, ◌<◌, ◌≡◌, refl, ap, sym, ◌∙◌, true, false, ◌&&◌,
  List, [], ◌∷◌, ◌++◌, ℤ, pos, length, take, map, arith, ok, ◌>>=◌, each, each-append, >>=_assoc,
}
use console_master_rtpvoice.Socket.{socket_recv, Drain}
use console_master_rtpvoice.Text.Digits.{NoDigit}
use console_master_rtpvoice.Frame.{Options, stick_dismantle}
use console_master_rtpvoice.Frame.Interface.{Sink}
use console_master_rtpvoice.Frame.Stream.{Wait, IsWait, pending, frames, ArePayloads, Holds}
use console_master_rtpvoice.Frame.Chunks.{max_chunk, stick_dismantle-Handles}
use console_master_rtpvoice.Client.Loop.{Event, recv_size, is_quit, process_client_req}

-- How a stream of frames comes in: chunks of 1 to 512 bytes that end between frames or in the body
-- of one. A lone `Q` is not among them.
pub data Cuts : Wait → List (List ℕ) → List (List ℕ) → Wait → Type 0 where
  done : (w : Wait) → Cuts w [] [] w
  cut :
      (w w' w'' : Wait) (chunk : List ℕ) (ps : List (List ℕ)) (chunks qs : List (List ℕ))
      → IsWait w'
      → ArePayloads ps
      → 0 < length chunk
      → length chunk ≤ max_chunk
      → pending w ++ chunk ≡ frames ps ++ pending w'
      → (is_quit chunk && eqb_ℤ (pos (length chunk)) (pos 1)) ≡ false
      → Cuts w' chunks qs w''
      → Cuts w (chunk ∷ chunks) (ps ++ qs) w''

-- The round in which `recv` gives a chunk, and the one that sees the exit flag. Winsock gives no answer
-- to an attempt to empty the socket, so a round that comes to it is still running.
abbrev pub received : List ℕ → Event
received chunk = record {
  exit_flag = false;
  out = record { ret = pos (length chunk); last_error = 0 };
  bytes = chunk;
  drained = [];
}

abbrev pub stopped : Event
stopped = record {
  exit_flag = true;
  out = record { ret = pos 0; last_error = 0 };
  bytes = [];
  drained = [];
}

recv_some :
    (n : ℕ)
    → 0 < n
    → socket_recv false (pos recv_size) (record { ret = pos n; last_error = 0 })
      ≡ record { nbytes = pos n; nresult = pos 0 }
unfolding socket_recv
recv_some n h = ground arith

take_all : (xs : List ℕ) → take (length xs) xs ≡ xs
take_all xs = ap (take (length xs)) (sym (append-nil xs)) ∙ take-append xs []

positive : (n : ℕ) → 0 < n → ltb_ℤ (pos 0) (pos n) ≡ true
positive n h = ground arith

-- A chunk that is not a lone `Q` goes to the framing, whatever Winsock answers there.
pub event-round :
    {Q : Type 0} (s : Sink Q) (junk chunk : List ℕ) (drains : List Drain) (es : List Event)
    (ret : ℤ) (o : Options) (q : Q)
    → 0 < length chunk
    → (is_quit chunk && eqb_ℤ (pos (length chunk)) (pos 1)) ≡ false
    → process_client_req s junk (record (received chunk) { drained = drains } ∷ es) ret o q ≡ (
        stick_dismantle s junk drains o chunk q >>= λ (ret', o', q').
        process_client_req s junk es ret' o' q')
unfolding process_client_req
event-round s junk chunk drains es ret o q some_left other =
    rw
      (recv_some (length chunk) some_left, positive (length chunk) some_left, other, take_all chunk)
      refl

module _ {Q : Type 0} (s : Sink Q) (junk : List ℕ) (clean : NoDigit junk) where
  -- One chunk that is not a lone `Q` goes to the framing, and the loop goes on.
  pub received-round :
      (chunk : List ℕ) (es : List Event) (ret : ℤ) (o : Options) (q : Q)
      → 0 < length chunk
      → (is_quit chunk && eqb_ℤ (pos (length chunk)) (pos 1)) ≡ false
      → process_client_req s junk (received chunk ∷ es) ret o q ≡ (
          stick_dismantle s junk [] o chunk q >>= λ (ret', o', q').
          process_client_req s junk es ret' o' q')
  received-round chunk es ret o q some_left other =
      event-round s junk chunk [] es ret o q some_left other

  -- From a state that stands for what is pending, none or a whole header and a part of its body,
  -- the loop delivers the payloads of the stream in order, however the stream is cut into chunks
  -- that split no header, until the exit flag ends it; its state stands for what is pending then.
  -- The chunks have 1 to 512 bytes and none is a lone `Q`, the payloads have at most 1019 bytes and
  -- end in `}`, and what `sscanf` meets behind four digits does not begin with a digit.
  pub process_client_req-Cuts :
      (w w' : Wait) (chunks qs : List (List ℕ)) (o : Options) (ret : ℤ)
      → Cuts w chunks qs w'
      → Holds w o
      → IsWait w
      → (o' : Options) × (ret' : ℤ) × Holds w' o'
        × ((q : Q)
            → process_client_req s junk (map received chunks ++ stopped ∷ []) ret o q
              ≡ (each s.deliver q qs >>= λ q'. ok (ret', o', q')))
  unfolding process_client_req
  process_client_req-Cuts _ _ _ _ o ret (done w) h start = (o, ret, h, λ q. refl)
  process_client_req-Cuts _ _ _ _ o ret
        (cut w w' w'' chunk ps chunks qs wait good some_left hc e other more) h start =
      let (o1, h1, run) =
        stick_dismantle-Handles s junk [] clean w w' o chunk ps h start wait good some_left hc e in
      let (o2, ret2, h2, rest) = process_client_req-Cuts w' w'' chunks qs o1 (pos 0) more h1 wait in
      (
        o2,
        ret2,
        h2,
        λ q.
            received-round chunk (map received chunks ++ stopped ∷ []) ret o q some_left other
            ∙ ap
                (λ r. r >>= λ (ret', o', q').
                  process_client_req s junk (map received chunks ++ stopped ∷ []) ret' o' q')
                (run q)
            ∙ >>=_assoc (each s.deliver q ps) _ _
            ∙ ap (λ k. each s.deliver q ps >>= k) (fun_ext rest)
            ∙ sym (>>=_assoc (each s.deliver q ps) _ _)
            ∙ ap (λ r. r >>= λ q'. ok (ret2, o2, q')) (sym (each-append s.deliver q ps qs)),
      )
