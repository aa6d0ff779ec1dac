-- ===== src/Client/Runs.antt =====
-- About the two threads of a client of ClientObj/clientobj.cpp, where the receiving thread goes on when
-- the parse thread has left its loop.
use console_master_rtpvoice.Prelude.{
  ℕ, zero, suc, ◌+◌, ◌≤◌, le→ltb, lt→ltb, ◌≡◌, refl, ap, sym, subst, ◌∙◌, Bool, true, false, List,
  [], ◌∷◌, ◌++◌, Option, none, some, ℤ, pos, negsuc, length, ◌==◌, Run, ok, ok-same, bind-ok, each,
  ◌>>=◌, map_run, arith,
}
use console_master_rtpvoice.Common.{invalid_socket, ProtocolCtrlr}
use console_master_rtpvoice.Text.Digits.{NoDigit}
use console_master_rtpvoice.Fifo.{Fifo, take_from_queue}
use console_master_rtpvoice.Fifo.Range.{InRange, take_from_queue-InRange}
use console_master_rtpvoice.Frame.{Options, stick_dismantle}
use console_master_rtpvoice.Frame.Stream.{Wait, IsWait}
use console_master_rtpvoice.Frame.Stream
use console_master_rtpvoice.Frame.Chunks.{Handles, stick_dismantle-Handles}
use console_master_rtpvoice.Client.{Json, process_packet}
use console_master_rtpvoice.Client.Packet.{client_sink, push_frame-InRange}
use console_master_rtpvoice.Client.Parse.{Call, with_call, parse_round, Turn, receive, parse}
use console_master_rtpvoice.Client.Threads.{AllFit}
use console_master_rtpvoice.Client.Wire.{
  Input, chunk, wire_turns, receives, Feeds, done, feed, parsed,
}
use console_master_rtpvoice.Client.Steps.{Threads, parse_step, input_step, client_run}

-- Every payload leaves room for the socket in a packet.
abbrev pub AllShort : List Turn → Type 0
AllShort [] = Unit {0}
AllShort (receive p ∷ turns) = (length p ≤ 508) × AllShort turns
AllShort (parse exit w ∷ turns) = AllShort turns

pub AllFit-AllShort :
    (json : Json) (turns : List Turn) (ps : List (List ℕ)) → AllFit json turns ps → AllShort turns
AllFit-AllShort json [] ps h = tt
AllFit-AllShort json (receive p ∷ turns) ps (m, _, h) =
    (m.small, AllFit-AllShort json turns (ps ++ p ∷ []) h)
AllFit-AllShort json (parse exit w ∷ turns) [] h = AllFit-AllShort json turns [] h
AllFit-AllShort json (parse exit w ∷ turns) (p ∷ ps) h = AllFit-AllShort json turns ps h

module _ (json : Json) (has_callback : Bool) (fd : ℕ) (junk : List ℕ) (clean : NoDigit junk)
    (valid : (fd == invalid_socket) ≡ false) where
  delivers :
      (ps : List (List ℕ)) (turns : List Turn) (q : Fifo)
      → AllShort (receives ps turns)
      → InRange q
      → (q' : Fifo) × (each (client_sink fd).deliver q ps ≡ ok q') × InRange q' × AllShort turns
  delivers [] turns q h r = (q, refl, r, h)
  delivers (p ∷ ps) turns q (short, h) r =
      let (q1, e1, r1) = push_frame-InRange fd q p valid short r in
      let (q', e, r', h') = delivers ps turns q1 h r1 in (q', rw e1 e, r', h')

  -- A chunk is framed, whether the parse thread is in its loop or not.
  chunk_framed :
      (w' : Wait) (o : Options) (bytes : List ℕ) (ps : List (List ℕ)) (turns : List Turn) (q : Fifo)
      → Handles (client_sink fd) junk [] clean o bytes ps w'
      → AllShort (receives ps turns)
      → InRange q
      → (o' : Options) × (q' : Fifo) × (stick_dismantle (client_sink fd) junk [] o bytes q
          ≡ ok (pos 0, o', q'))
        × Stream.Holds w' o'
        × InRange q'
        × AllShort turns
  chunk_framed w' o bytes ps turns q (o', h, run) short r =
      let (q', e, r', short') = delivers ps turns q short r in
      (o', q', run q ∙ ap (λ m. m >>= λ q''. ok (pos 0, o', q'')) e, h, r', short')

  -- The threads, in the loop of the parse thread or after it.
  abbrev pub threads : Options → ProtocolCtrlr → Fifo → Bool → Threads
  threads o c q ended = record { option = o; ctrlr = c; queue = q; ended = ended }

  abbrev pub run_from : List Input → Threads → Run (Threads × List Call)
  run_from xs t = client_run json has_callback fd junk xs t

  abbrev go_on : List Input → Threads × List Call → Run (Threads × List Call)
  go_on xs (t', calls) = map_run (λ (t'', more). (t'', calls ++ more)) (run_from xs t')

  -- The run ends with these calls.
  abbrev pub Ends : Run (Threads × List Call) → List Call → Type 0
  Ends m calls = (t' : Threads) × (m ≡ ok (t', calls))

  Ends-chunk :
      (bytes : List ℕ) (xs : List Input) (o o' : Options) (c : ProtocolCtrlr) (q q' : Fifo)
      (ended : Bool) (calls : List Call)
      → stick_dismantle (client_sink fd) junk [] o bytes q ≡ ok (pos 0, o', q')
      → Ends (run_from xs (threads o' c q' ended)) calls
      → Ends (run_from (chunk bytes ∷ xs) (threads o c q ended)) calls
  unfolding client_run input_step
  Ends-chunk bytes xs o o' c q q' ended calls e (t', run) = (t', rw (e, run) refl)

  ended_run :
      (w : Wait) (xs : List Input) (turns : List Turn) (o : Options) (c : ProtocolCtrlr) (q : Fifo)
      → Feeds w xs turns
      → Stream.Holds w o
      → IsWait w
      → AllShort turns
      → InRange q
      → Ends (run_from xs (threads o c q true)) []
  unfolding client_run input_step
  ended_run _ _ _ o c q (done w) h start short r = (threads o c q true, refl)
  ended_run _ _ _ o c q (feed w w' bytes ps xs turns wait good some_bytes few other e more) h start
        short r =
      let (o', q', framed, h', r', short') =
        chunk_framed w' o bytes ps turns q
          (stick_dismantle-Handles (client_sink fd) junk [] clean w w' o bytes ps h start wait good
            some_bytes few e)
          short r in
      Ends-chunk bytes xs o o' c q q' true [] framed
        (ended_run w' xs turns o' c q' more h' wait short' r')
  ended_run _ _ _ o c q (parsed w exit how xs turns more) h start short r =
      let (t', run) = ended_run w xs turns o c q more h start short r in (t', rw run refl)

  with_call-append :
      (call : Option Call) (more : List Call) → with_call call [] ++ more ≡ with_call call more
  with_call-append none more = refl
  with_call-append (some d) more = refl

  Ends-step :
      (m : Run (Threads × List Call)) (t : Threads) (now more : List Call) (xs : List Input)
      → m ≡ ok (t, now)
      → Ends (run_from xs t) more
      → Ends (m >>= go_on xs) (now ++ more)
  Ends-step m t now more xs e (t', run) = (t', rw (e, run) refl)

  -- A round of the parse thread and what follows, as the loop has it and as a step.
  round_run :
      (exit : Bool) (r : ℤ × List ℕ × Fifo) (o : Options) (c : ProtocolCtrlr) (q : Fifo)
      (xs : List Input) (calls : List Call)
      → ((q' : Fifo) → InRange q' → Ends (run_from xs (threads o c q' true)) [])
      → ((c' : ProtocolCtrlr) (q' : Fifo) (calls' : List Call)
          → InRange q'
          → wire_turns json has_callback fd junk xs o c' q' ≡ ok calls'
          → Ends (run_from xs (threads o c' q' false)) calls')
      → InRange r.2
      → parse_round json has_callback fd exit r c
          (λ c' q'. wire_turns json has_callback fd junk xs o c' q')
        ≡ ok calls
      → Ends (parse_step json has_callback exit r (threads o c q false) >>= go_on xs) calls
  unfolding parse_round parse_step
  round_run exit (negsuc n, block, q') o c q xs calls over still range e =
      let below = lt→ltb 0 (0 + suc n) (omega arith) in
      subst
        (Ends (
          parse_step json has_callback exit (negsuc n, block, q') (threads o c q false)
          >>= go_on xs))
        (ok-same [] calls (sym (rw below refl) ∙ e))
        (Ends-step _ (threads o c q' true) [] [] xs (rw below refl) (over q' range))
  round_run true (pos n, block, q') o c q xs calls over still range e =
      let above = le→ltb (n + 0) 0 (omega arith) in
      subst
        (Ends
          (parse_step json has_callback true (pos n, block, q') (threads o c q false) >>= go_on xs))
        (ok-same [] calls (sym (rw above refl) ∙ e))
        (Ends-step _ (threads o c q' true) [] [] xs (rw above refl) (over q' range))
  round_run false (pos (suc n), block, q') o c q xs calls over still range e =
      let above = le→ltb (suc n + 0) 0 (omega arith) in
      Ends-step _ (threads o c q' false) [] calls xs (rw above refl)
        (still c q' calls range (sym (rw above refl) ∙ e))
  round_run false (pos zero, block, q') o c q xs calls over still range e =
      let ((c', call), parsed_one, rest) =
        bind-ok (process_packet json has_callback block c)
          (λ (c', call). map_run (with_call call) (wire_turns json has_callback fd junk xs o c' q'))
          calls e in
      let (more, run, same) =
        bind-ok (wire_turns json has_callback fd junk xs o c' q') (λ cs. ok (with_call call cs))
          calls rest in
      subst
        (Ends (
          parse_step json has_callback false (pos zero, block, q') (threads o c q false)
          >>= go_on xs))
        (with_call-append call more ∙ ok-same (with_call call more) calls same)
        (Ends-step _ (threads o c' q' false) (with_call call []) more xs (rw parsed_one refl)
          (still c' q' more range run))

  -- The calls of the inputs are those of the two threads.
  pub wire_turns-client_run :
      (w : Wait) (xs : List Input) (turns : List Turn) (o : Options) (c : ProtocolCtrlr) (q : Fifo)
      (calls : List Call)
      → Feeds w xs turns
      → Stream.Holds w o
      → IsWait w
      → AllShort turns
      → InRange q
      → wire_turns json has_callback fd junk xs o c q ≡ ok calls
      → Ends (run_from xs (threads o c q false)) calls
  unfolding wire_turns client_run input_step
  wire_turns-client_run _ _ _ o c q calls (done w) h start short r run =
      (threads o c q false, ap (λ m. m >>= λ cs. ok (threads o c q false, cs)) run)
  wire_turns-client_run _ _ _ o c q calls
        (feed w w' bytes ps xs turns wait good some_bytes few other e more) h start short r run =
      let (o', q', framed, h', r', short') =
        chunk_framed w' o bytes ps turns q
          (stick_dismantle-Handles (client_sink fd) junk [] clean w w' o bytes ps h start wait good
            some_bytes few e)
          short r in
      Ends-chunk bytes xs o o' c q q' false calls framed (
        wire_turns-client_run w' xs turns o' c q' calls more h' wait short' r' (
          sym (
            ap (λ m. m >>= λ (ret, o'', q''). wire_turns json has_callback fd junk xs o'' c q'')
              framed)
          ∙ run))
  wire_turns-client_run _ _ _ o c q calls (parsed w exit how xs turns more) h start short r run =
      round_run exit (take_from_queue q how) o c q xs calls
        (λ q' r'. ended_run w xs turns o c q' more h start short r')
        (λ c' q' calls' r' e.
          wire_turns-client_run w xs turns o c' q' calls' more h start short r' e)
        (take_from_queue-InRange q how r) run
