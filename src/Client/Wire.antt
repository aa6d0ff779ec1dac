-- ===== src/Client/Wire.antt =====
-- From the bytes of a client's socket to the calls of the handler: both threads of
-- ClientObj/clientobj.cpp, with the framing and the queue between them.
use mathlib.Core.Path.{fun_ext}
use console_master_rtpvoice.Prelude.{
  ℕ, ◌≤◌, ◌<◌, ◌≡◌, ap, sym, ◌∙◌, Bool, false, List, [], ◌∷◌, ◌++◌, map, pos, length, ◌==◌, ◌&&◌,
  eqb_ℤ, refl, Run, ok, ◌>>=◌, >>=_assoc, each,
}
use console_master_rtpvoice.Common.{invalid_socket, ProtocolCtrlr}
use console_master_rtpvoice.Text.Digits.{NoDigit}
use console_master_rtpvoice.Fifo.{Fifo, Waited, take_from_queue}
use console_master_rtpvoice.Fifo.Bounded
use console_master_rtpvoice.Frame.{Options, stick_dismantle}
use console_master_rtpvoice.Frame.Stream.{Wait, pending, frames, ArePayloads, IsWait}
use console_master_rtpvoice.Frame.Stream
use console_master_rtpvoice.Frame.Chunks.{max_chunk, stick_dismantle-Handles}
use console_master_rtpvoice.Client.{Json, push_frame}
use console_master_rtpvoice.Client.Loop.{is_quit}
use console_master_rtpvoice.Client.Packet.{client_sink, packet}
use console_master_rtpvoice.Client.Parse.{
  Call, parse_round, Turn, receive, parse, client_turns, plain_turns,
}
use console_master_rtpvoice.Client.Threads.{AllFit, AllMessages, client_turns-eq-plain_turns}

-- A chunk, other than a lone `Q`, that the receiving thread gets and frames, or a round of the parse
-- thread, with what the exit flag is then and how its wait ends.
pub data Input : Type 0 where
  chunk : List ℕ → Input
  parse_turn : Bool → Waited → Input

-- A chunk that makes the framing empty the socket gets no answer of Winsock there and is still running.
-- The calls that the inputs lead to, from the framing's state, the parse thread's and the queue.
unfoldable pub wire_turns :
    Json → Bool → ℕ → List ℕ → List Input → Options → ProtocolCtrlr → Fifo → Run (List Call)
wire_turns json has_callback fd junk [] o c q = ok []
wire_turns json has_callback fd junk (chunk bytes ∷ inputs) o c q =
    stick_dismantle (client_sink fd) junk [] o bytes q >>= λ (ret, o', q').
    wire_turns json has_callback fd junk inputs o' c q'
wire_turns json has_callback fd junk (parse_turn exit w ∷ inputs) o c q =
    parse_round json has_callback fd exit (take_from_queue q w) c
      (λ c' q'. wire_turns json has_callback fd junk inputs o c' q')

abbrev pub receives : List (List ℕ) → List Turn → List Turn
receives [] turns = turns
receives (p ∷ ps) turns = receive p ∷ receives ps turns

-- How the bytes of a stream of frames come in, in chunks of 1 to 512 bytes that split no header and
-- are no lone `Q`, with rounds of the parse thread in between; and the turns that the payloads alone take.
pub data Feeds : Wait → List Input → List Turn → Type 0 where
  done : (w : Wait) → Feeds w [] []
  feed :
      (w w' : Wait) (bytes : List ℕ) (ps : List (List ℕ)) (inputs : List Input) (turns : List Turn)
      → IsWait w'
      → ArePayloads ps
      → 0 < length bytes
      → length bytes ≤ max_chunk
      → (is_quit bytes && eqb_ℤ (pos (length bytes)) (pos 1)) ≡ false
      → pending w ++ bytes ≡ frames ps ++ pending w'
      → Feeds w' inputs turns
      → Feeds w (chunk bytes ∷ inputs) (receives ps turns)
  parsed :
      (w : Wait) (exit : Bool) (how : Waited) (inputs : List Input) (turns : List Turn)
      → Feeds w inputs turns
      → Feeds w (parse_turn exit how ∷ inputs) (parse exit how ∷ turns)

module _ (json : Json) (has_callback : Bool) (fd : ℕ) (junk : List ℕ) (clean : NoDigit junk) where
  -- Payloads that are pushed one after the other.
  client_turns-receives :
      (ps : List (List ℕ)) (turns : List Turn) (c : ProtocolCtrlr) (q : Fifo)
      → client_turns json has_callback fd (receives ps turns) c q ≡ (
          each (client_sink fd).deliver q ps >>= λ q'. client_turns json has_callback fd turns c q')
  unfolding client_turns
  client_turns-receives [] turns c q = refl
  client_turns-receives (p ∷ ps) turns c q =
      ap (λ k. push_frame fd q p (pos (length p)) >>= k)
        (fun_ext λ q'. client_turns-receives ps turns c q')
      ∙ sym (
          >>=_assoc (push_frame fd q p (pos (length p))) (λ q'. each (client_sink fd).deliver q' ps)
            (λ q'. client_turns json has_callback fd turns c q'))

  wire_turns-eq-client_turns :
      (w : Wait) (inputs : List Input) (turns : List Turn) (o : Options) (c : ProtocolCtrlr)
      (q : Fifo)
      → Feeds w inputs turns
      → Stream.Holds w o
      → IsWait w
      → wire_turns json has_callback fd junk inputs o c q
        ≡ client_turns json has_callback fd turns c q
  unfolding wire_turns client_turns
  wire_turns-eq-client_turns _ _ _ o c q (done w) h start = refl
  wire_turns-eq-client_turns _ _ _ o c q
        (feed w w' bytes ps inputs turns wait good some_bytes few other e more) h start =
      let (o1, h1, run) =
        stick_dismantle-Handles (client_sink fd) junk [] clean w w' o bytes ps h start wait good
          some_bytes few e in
      ap (λ r. r >>= λ (ret, o', q'). wire_turns json has_callback fd junk inputs o' c q') (run q)
      ∙ >>=_assoc (each (client_sink fd).deliver q ps) (λ q'. ok (pos 0, o1, q'))
          (λ (ret, o', q'). wire_turns json has_callback fd junk inputs o' c q')
      ∙ ap (λ k. each (client_sink fd).deliver q ps >>= k)
          (fun_ext λ q'. wire_turns-eq-client_turns w' inputs turns o1 c q' more h1 wait)
      ∙ sym (client_turns-receives ps turns c q)
  wire_turns-eq-client_turns _ _ _ o c q (parsed w exit how inputs turns more) h start =
      ap (parse_round json has_callback fd exit (take_from_queue q how) c)
        (fun_ext λ c'. fun_ext λ q'. wire_turns-eq-client_turns w inputs turns o c' q' more h start)

  -- From the socket to the handler: a stream of frames comes in, cut into chunks that split no header
  -- and are no lone `Q`, with rounds of the parse thread in between, in any order; the handler is
  -- called as if the payloads themselves waited in a plain queue, with the same commands and data in
  -- the same order, and the run is undefined or throws only where that does. The socket is below
  -- 10000 and valid; the payloads end in `}`, have at most 508 bytes and no NUL, and the reader looks
  -- at nothing behind them; no more than 20 wait at once; the framing's state stands for what is
  -- pending, none or a whole header and a part of its body; and what `sscanf` meets behind four digits
  -- does not begin with a digit.
  pub wire_turns-eq-plain_turns :
      (w : Wait) (inputs : List Input) (turns : List Turn) (o : Options) (c : ProtocolCtrlr)
      (q : Fifo) (held : List (List ℕ))
      → fd < 10000
      → (fd == invalid_socket) ≡ false
      → Feeds w inputs turns
      → Stream.Holds w o
      → IsWait w
      → Bounded.Holds q (map (packet fd) held)
      → AllMessages json held
      → AllFit json turns held
      → wire_turns json has_callback fd junk inputs o c q
        ≡ plain_turns json has_callback fd turns c held
  wire_turns-eq-plain_turns w inputs turns o c q held small valid fed h start waiting all fit =
      wire_turns-eq-client_turns w inputs turns o c q fed h start
      ∙ client_turns-eq-plain_turns json has_callback fd small valid turns c q held waiting all fit
