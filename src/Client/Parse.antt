-- ===== src/Client/Parse.antt =====
-- ClientObj/clientobj.cpp: the loop of `ProtocolParseThreadFunc`, and its turns with the thread that
-- receives.
use console_master_rtpvoice.Prelude.{
  ℕ, zero, Bool, true, false, List, [], ◌∷◌, ◌++◌, Option, none, some, ℤ, pos, ltb_ℤ, if◌then◌else◌,
  length, Run, ok, ◌>>=◌, map_run,
}
use console_master_rtpvoice.Common.{ResponeData, ProtocolNames, ProtocolCtrlr}
use console_master_rtpvoice.Fifo.{
  Fifo, Waited, wait_timeout, wait_abandoned, wait_failed, take_from_queue,
}
use console_master_rtpvoice.Client.{Json, push_frame, process_packet, process_value}

-- A call of the handler: the command and what it is given.
abbrev pub Call : Type 0
Call = ProtocolNames × ResponeData

abbrev pub with_call : Option Call → List Call → List Call
with_call none calls = calls
with_call (some c) calls = c ∷ calls

-- A turn of one of a client's threads: the framing pushes a payload, or the parse thread makes a
-- round and meets the exit flag.
pub data Turn : Type 0 where
  receive : List ℕ → Turn
  parse : Bool → Waited → Turn

module _ (json : Json) (has_callback : Bool) (fd : ℕ) where
  -- The test and the body of the loop, for what `TakeFromQueue` gave: a call of the handler, and how
  -- the thread goes on. A round that ends the loop makes no call.
  unfoldable pub parse_round :
      Bool
      → ℤ × List ℕ × Fifo
      → ProtocolCtrlr
      → (ProtocolCtrlr → Fifo → Run (List Call))
      → Run (List Call)
  parse_round exit (ret, block, q) c next =
      if ltb_ℤ ret (pos 0) then ok [] else if exit then ok [] else elim ret [
        | pos zero ↦ process_packet json has_callback block c >>= λ (c', call).
            map_run (with_call call) (next c' q)
        | _ ↦ next c q
      ]

  -- The calls that the turns lead to.
  unfoldable pub client_turns : List Turn → ProtocolCtrlr → Fifo → Run (List Call)
  unfolding parse_round
  client_turns [] c q = ok []
  client_turns (receive p ∷ turns) c q =
      push_frame fd q p (pos (length p)) >>= λ q'. client_turns turns c q'
  client_turns (parse exit w ∷ turns) c q =
      parse_round exit (take_from_queue q w) c (λ c' q'. client_turns turns c' q')

  -- What a payload alone makes the parse thread do.
  unfoldable pub message : List ℕ → ProtocolCtrlr → Run (ProtocolCtrlr × Option Call)
  message p c = elim (json.parse p) [
    | none ↦ ok (c, none)
    | some val ↦ process_value json has_callback fd val c
  ]

  -- The calls of the turns where the payloads wait in a plain queue.
  unfoldable pub plain_turns : List Turn → ProtocolCtrlr → List (List ℕ) → Run (List Call)
  unfolding message
  plain_turns [] c ps = ok []
  plain_turns (receive p ∷ turns) c ps = plain_turns turns c (ps ++ p ∷ [])
  plain_turns (parse true w ∷ turns) c ps = ok []
  plain_turns (parse false w ∷ turns) c (p ∷ ps) =
      message p c >>= λ (c', call). map_run (with_call call) (plain_turns turns c' ps)
  plain_turns (parse false wait_timeout ∷ turns) c [] = plain_turns turns c []
  plain_turns (parse false wait_abandoned ∷ turns) c [] = ok []
  plain_turns (parse false wait_failed ∷ turns) c [] = ok []
