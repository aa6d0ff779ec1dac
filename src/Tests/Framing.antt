-- ===== src/Tests/Framing.antt =====
-- Concrete frames and chunks for the theorems on the way in.
use console_master_rtpvoice.Prelude.{
  ℕ, ap, take, drop, take-append, pos_part, ◌≡◌, refl, List, [], ◌∷◌, ◌++◌, map, ℤ, pos, replicate,
  arith, ok, ◌>>=◌,
}
use console_master_rtpvoice.Common.{protocol_head}
use console_master_rtpvoice.Fifo.{Fifo, empty_fifo}
use console_master_rtpvoice.Fifo.Bounded
use console_master_rtpvoice.Frame.{Options, fresh, stick_dismantle}
use console_master_rtpvoice.Frame.Interface.{Sink}
use console_master_rtpvoice.Frame.Stream
use console_master_rtpvoice.Frame.Stream.{fresh-Holds, idle, mid, IsPayload, frame}
use console_master_rtpvoice.Frame.Chunks.{Handles, stick_dismantle-Handles}
use console_master_rtpvoice.Frame.SplitHeader.{stick_dismantle-split_header}
use console_master_rtpvoice.Client.Loop.{process_client_req}
use console_master_rtpvoice.Client.Packet.{client_sink, packet}
use console_master_rtpvoice.Client.Receive.{Cuts, done, cut, received, stopped}
use console_master_rtpvoice.Client.Loop.{Event}
use console_master_rtpvoice.Client.Termination.{AllDrained, process_client_req-IsDone}
use console_master_rtpvoice.Client.Draining.{received_and_drained, process_client_req-drains}
use console_master_rtpvoice.Socket.{Drain}
use console_master_rtpvoice.Prelude.{IsDone, inl, inr, running}
use console_master_rtpvoice.Client.Stream.{process_client_req-queued}
use console_master_rtpvoice.Sender.{fragment}
use console_master_rtpvoice.Sender.Fragment.{NoNul, NoNul-append}
use console_master_rtpvoice.Sender.Roundtrip.{fragment-process_client_req}
use console_master_rtpvoice.Fifo.Bounded.{empty-Holds}
use console_master_rtpvoice.Tests.Sending.{replicate-NoNul}

-- A sink that keeps the payloads.
abbrev log_sink : Sink (List (List ℕ))
log_sink = record {
  push = λ q p n. ok (q ++ take (pos_part n) p ∷ []);
  deliver = λ q p. ok (q ++ p ∷ []);
  push-deliver = λ q p rest. ap (λ l. ok (q ++ l ∷ [])) (take-append p rest);
}

-- `{7}` and `{8}`.
abbrev first_payload : List ℕ
first_payload = b'{' ∷ b'7' ∷ b'}' ∷ []

abbrev second_payload : List ℕ
second_payload = b'{' ∷ b'8' ∷ b'}' ∷ []

first-IsPayload : IsPayload first_payload
first-IsPayload = record { front = b'{' ∷ b'7' ∷ []; closes = refl; small = omega arith }

second-IsPayload : IsPayload second_payload
second-IsPayload = record { front = b'{' ∷ b'8' ∷ []; closes = refl; small = omega arith }

-- A frame and the next one's header with one byte of its body; then the rest.
abbrev first_chunk : List ℕ
first_chunk = frame first_payload ++ protocol_head ∷ b'0' ∷ b'0' ∷ b'0' ∷ b'3' ∷ b'{' ∷ []

stick_dismantle-Handles_example :
    Handles log_sink (0 ∷ []) [] refl fresh first_chunk (first_payload ∷ []) (mid 3 (b'{' ∷ []))
stick_dismantle-Handles_example =
    stick_dismantle-Handles log_sink (0 ∷ []) [] refl idle (mid 3 (b'{' ∷ [])) fresh first_chunk
      (first_payload ∷ []) fresh-Holds tt (omega arith, omega arith) (first-IsPayload, tt)
      (omega arith) (omega arith) refl

stick_dismantle-split_header_example :
    (o1 : Options) × (o2 : Options) × (o3 : Options) × (stick_dismantle log_sink
        (0 ∷ [])
        []
        fresh
        (take 2 (frame first_payload))
        []
      ≡ ok (pos 0, o1, []))
    × (stick_dismantle log_sink (0 ∷ []) [] o1 (drop 2 (frame first_payload)) []
        ≡ ok (pos 0, o2, []))
    × (o2.bytes_remained ≡ pos 2)
    × (stick_dismantle log_sink (0 ∷ []) [] o2 (take 2 (frame second_payload)) []
        ≡ (log_sink.deliver [] first_payload >>= λ q'. ok (pos 0, o3, q')))
    × Stream.Holds idle o3
stick_dismantle-split_header_example =
    stick_dismantle-split_header log_sink (0 ∷ []) [] refl fresh first_payload
      (take 2 (frame first_payload)) (drop 2 (frame first_payload)) (take 2 (frame second_payload))
      [] fresh-Holds refl (omega arith) (omega arith) (omega arith) (omega arith) refl

two-Cuts :
    Cuts idle (first_chunk ∷ (b'8' ∷ b'}' ∷ []) ∷ []) (first_payload ∷ second_payload ∷ []) idle
two-Cuts =
    cut idle (mid 3 (b'{' ∷ [])) idle first_chunk (first_payload ∷ []) _ (second_payload ∷ [])
      (omega arith, omega arith) (first-IsPayload, tt) (omega arith) (omega arith) refl refl
      (cut (mid 3 (b'{' ∷ [])) idle idle (b'8' ∷ b'}' ∷ []) (second_payload ∷ []) [] [] tt
        (second-IsPayload, tt) (omega arith) (omega arith) refl refl (done idle))

process_client_req-queued_example :
    (ret : ℤ) × (o' : Options) × (q' : Fifo) × (process_client_req
        (client_sink 321)
        (0 ∷ [])
        (map received (first_chunk ∷ (b'8' ∷ b'}' ∷ []) ∷ []) ++ stopped ∷ [])
        (pos 0)
        fresh
        empty_fifo
      ≡ ok (ret, o', q'))
    × Stream.Holds idle o'
    × Bounded.Holds q' (packet 321 first_payload ∷ packet 321 second_payload ∷ [])
process_client_req-queued_example =
    process_client_req-queued 321 (0 ∷ []) idle idle (first_chunk ∷ (b'8' ∷ b'}' ∷ []) ∷ [])
      (first_payload ∷ second_payload ∷ []) [] fresh empty_fifo refl refl two-Cuts fresh-Holds tt
      (omega arith, (omega arith, tt)) empty-Holds (omega arith)

-- 99 bytes and a brace.
abbrev long_payload : List ℕ
long_payload = replicate 99 7 ++ b'}' ∷ []

long-IsPayload : IsPayload long_payload
long-IsPayload = record { front = replicate 99 7; closes = refl; small = omega arith }

long-NoNul : NoNul long_payload
long-NoNul = NoNul-append (replicate 99 7) (b'}' ∷ []) (replicate-NoNul 99) (omega arith, tt)

fragment-process_client_req_example :
    (bytes : List ℕ) × (o' : Options) × (ret' : ℤ) × (fragment [] long_payload ≡ ok bytes)
    × Stream.Holds idle o'
    × ((q : List (List ℕ))
        → process_client_req log_sink (0 ∷ []) (received bytes ∷ stopped ∷ []) (pos 0) fresh q
          ≡ (log_sink.deliver q long_payload >>= λ q'. ok (ret', o', q')))
fragment-process_client_req_example =
    fragment-process_client_req log_sink (0 ∷ []) [] long_payload fresh (pos 0) refl (omega arith)
      (omega arith) long-NoNul long-IsPayload fresh-Holds

-- Winsock has 100 bytes, then 3, and then none.
abbrev two_rests : List Drain
two_rests =
    record { selected = pos 1; received = pos 100 }
    ∷ record { selected = pos 1; received = pos 3 }
    ∷ record { selected = pos 0; received = pos 0 }
    ∷ []

-- Bytes that are no frame, after which the socket is emptied, and a header whose length has no end.
abbrev noise : List Event
noise =
    received_and_drained (replicate 6 b'x') two_rests
    ∷ received_and_drained (protocol_head ∷ b'9' ∷ b'-' ∷ b'1' ∷ b'0' ∷ []) two_rests
    ∷ []

noise-AllDrained : AllDrained noise
noise-AllDrained = (inr (inr (inl refl)), (inr (inr (inl refl)), tt))

process_client_req-IsDone_example :
    IsDone (
      process_client_req
        (client_sink 321)
        (0 ∷ [])
        (noise ++ stopped ∷ [])
        (pos 0)
        fresh
        empty_fifo)
process_client_req-IsDone_example =
    process_client_req-IsDone 321 (0 ∷ []) noise [] stopped (pos 0) fresh empty_fifo
      noise-AllDrained refl

process_client_req-drains_example :
    process_client_req
      (client_sink 321)
      (0 ∷ [])
      (received_and_drained (b'x' ∷ replicate 5 b'x') (take 2 two_rests) ∷ stopped ∷ [])
      (pos 0)
      fresh
      empty_fifo
    ≡ running
process_client_req-drains_example =
    process_client_req-drains (client_sink 321) (0 ∷ []) (take 2 two_rests) b'x' (replicate 5 b'x')
      (stopped ∷ []) (pos 0) fresh empty_fifo fresh-Holds refl (omega arith) (omega arith)
      (refl, (refl, tt))
