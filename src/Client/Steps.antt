-- ===== src/Client/Steps.antt =====
-- The two threads of a client of ClientObj/clientobj.cpp, input by input: the state that they share,
-- and the calls of the handler that an input leads to.
use console_master_rtpvoice.Prelude.{
  ℕ, zero, Bool, true, false, List, [], ◌∷◌, ◌++◌, ℤ, pos, ltb_ℤ, if◌then◌else◌, Run, ok, ◌>>=◌,
  map_run,
}
use console_master_rtpvoice.Common.{ProtocolCtrlr}
use console_master_rtpvoice.Fifo.{Fifo, take_from_queue}
use console_master_rtpvoice.Frame.{Options, stick_dismantle}
use console_master_rtpvoice.Client.{Json, process_packet}
use console_master_rtpvoice.Client.Object.{ClientObj}
use console_master_rtpvoice.Client.Packet.{client_sink}
use console_master_rtpvoice.Client.Parse.{Call, with_call}
use console_master_rtpvoice.Client.Wire.{Input, chunk, parse_turn}

-- `temp_option`, `thePROTOCOL_Ctrlr` and `jqueue`, and whether the parse thread has left its loop.
pub record Threads : Type 0 where
  pub option : Options
  pub ctrlr : ProtocolCtrlr
  pub queue : Fifo
  pub ended : Bool

abbrev pub new_threads : ClientObj → Threads
new_threads c = record {
  option = c.temp_option;
  ctrlr = c.the_protocol_ctrlr;
  queue = c.jqueue;
  ended = false;
}

-- A round of the parse thread, for what `TakeFromQueue` gave.
unfoldable pub parse_step :
    Json → Bool → Bool → ℤ × List ℕ × Fifo → Threads → Run (Threads × List Call)
parse_step json has_callback exit (ret, block, q) t =
    if ltb_ℤ ret (pos 0)
    then ok (record t { queue = q; ended = true }, [])
    else if exit
    then ok (record t { queue = q; ended = true }, [])
    else elim ret [
      | pos zero ↦ process_packet json has_callback block t.ctrlr >>= λ (c', call).
          ok (record t { ctrlr = c'; queue = q }, with_call call [])
      | _ ↦ ok (record t { queue = q }, [])
    ]

-- One input of the client `fd`. The receiving thread goes on when the parse thread has left its loop,
-- whose rounds are then none. A
-- chunk that makes the framing empty the socket gets no answer of Winsock there and is still running.
unfoldable pub input_step : Json → Bool → ℕ → List ℕ → Input → Threads → Run (Threads × List Call)
unfolding parse_step
input_step json has_callback fd junk (chunk bytes) t =
    stick_dismantle (client_sink fd) junk [] t.option bytes t.queue >>= λ (ret, o', q').
    ok (record t { option = o'; queue = q' }, [])
input_step json has_callback fd junk (parse_turn exit w) t =
    if t.ended then ok (t, []) else parse_step json has_callback exit (take_from_queue t.queue w) t

-- The inputs in order, and the calls that they lead to.
unfoldable pub client_run :
    Json → Bool → ℕ → List ℕ → List Input → Threads → Run (Threads × List Call)
client_run json has_callback fd junk [] t = ok (t, [])
client_run json has_callback fd junk (x ∷ xs) t =
    input_step json has_callback fd junk x t >>= λ (t', calls).
    map_run (λ (t'', more). (t'', calls ++ more)) (client_run json has_callback fd junk xs t')
