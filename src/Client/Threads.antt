-- ===== src/Client/Threads.antt =====
-- About the two threads of a client of ClientObj/clientobj.cpp, with any order of their turns.
use mathlib.Core.Path.{fun_ext}
use mathlib.Core.List.{map-append}
use console_master_rtpvoice.Prelude.{
  ℕ, suc, ◌≤◌, ◌<◌, ◌≡◌, refl, ap, sym, ◌∙◌, subst, Bool, true, false, List, [], ◌∷◌, ◌++◌, map,
  Option, none, some, pos, length, take, drop, take-append-drop, arith, ◌==◌, ok, ◌>>=◌, map_run,
}
use console_master_rtpvoice.Common.{invalid_socket, ProtocolCtrlr}
use console_master_rtpvoice.Fifo.{Fifo, Waited, wait_timeout, wait_abandoned, wait_failed}
use console_master_rtpvoice.Fifo.Bounded.{
  Holds, wait_code, take_from_queue-Holds, take_from_queue-empty,
}
use console_master_rtpvoice.Sender.Fragment.{NoNul}
use console_master_rtpvoice.Client.{Json, process_value, process_packet, read_fd}
use console_master_rtpvoice.Client.Packet.{packet, push_frame-Holds}
use console_master_rtpvoice.Client.Block.{Carries, read_fd-packet, read_json-packet}
use console_master_rtpvoice.Client.Parse.{
  with_call, parse_round, Turn, receive, parse, client_turns, message, plain_turns,
}

-- A payload that fits a packet, has no NUL in it, and is a whole text for the reader, which looks at
-- nothing behind it.
pub record IsMessage (json : Json) (p : List ℕ) : Type 0 where
  pub small : length p ≤ 508
  pub no_nul : NoNul p
  pub whole : (s : List ℕ) → json.parse (p ++ s) ≡ json.parse p

-- Every payload is such a message, and none is pushed on top of 20.
abbrev pub AllFit : Json → List Turn → List (List ℕ) → Type 0
AllFit json [] ps = Unit {0}
AllFit json (receive p ∷ turns) ps =
    IsMessage json p × (length ps < 20) × AllFit json turns (ps ++ p ∷ [])
AllFit json (parse exit w ∷ turns) [] = AllFit json turns []
AllFit json (parse exit w ∷ turns) (p ∷ ps) = AllFit json turns ps

abbrev pub AllMessages : Json → List (List ℕ) → Type 0
AllMessages json [] = Unit {0}
AllMessages json (p ∷ ps) = IsMessage json p × AllMessages json ps

AllMessages-append :
    (json : Json) (ps : List (List ℕ)) (p : List ℕ)
    → AllMessages json ps
    → IsMessage json p
    → AllMessages json (ps ++ p ∷ [])
AllMessages-append json [] p h m = (m, tt)
AllMessages-append json (q ∷ ps) p h m = (h.0, AllMessages-append json ps p h.1 m)

-- A block that begins with a packet is parsed as its payload.
process_packet-message :
    (json : Json) (has_callback : Bool) (fd : ℕ) (p block : List ℕ) (c : ProtocolCtrlr)
    → fd < 10000
    → IsMessage json p
    → Carries block fd p
    → process_packet json has_callback block c ≡ message json has_callback fd p c
unfolding process_packet message
process_packet-message json has_callback fd p block c small m k =
    ap
      (λ (v : Option json.Value). elim v [
        | none ↦ ok (c, none)
        | some val ↦ process_value json has_callback (read_fd block) val c
      ])
      (ap json.parse (read_json-packet fd p block k m.no_nul) ∙ m.whole _)
    ∙ ap
        (λ n. elim (json.parse p) [
          | none ↦ ok (c, none)
          | some val ↦ process_value json has_callback n val c
        ])
        (read_fd-packet fd p block small k)

module _ (json : Json) (has_callback : Bool) (fd : ℕ) (small : fd < 10000)
    (valid : (fd == invalid_socket) ≡ false) where
  length-map : (ps : List (List ℕ)) → length (map (packet fd) ps) ≡ length ps
  length-map [] = refl
  length-map (p ∷ ps) = ap suc (length-map ps)

  -- A round that finds no message.
  empty_round :
      (exit : Bool) (w : Waited) (turns : List Turn) (c : ProtocolCtrlr) (q : Fifo)
      → client_turns json has_callback fd turns c q ≡ plain_turns json has_callback fd turns c []
      → parse_round json has_callback fd exit
          (wait_code w, [], q)
          c
          (λ c' q'. client_turns json has_callback fd turns c' q')
        ≡ plain_turns json has_callback fd (parse exit w ∷ turns) c []
  unfolding parse_round plain_turns
  empty_round true wait_timeout turns c q ih = refl
  empty_round true wait_abandoned turns c q ih = refl
  empty_round true wait_failed turns c q ih = refl
  empty_round false wait_timeout turns c q ih = ih
  empty_round false wait_abandoned turns c q ih = refl
  empty_round false wait_failed turns c q ih = refl

  Carries-of :
      (block p : List ℕ)
      → take (length (packet fd p)) block ≡ packet fd p
      → length block ≡ 512
      → Carries block fd p
  Carries-of block p front full = record {
    stale = drop (length (packet fd p)) block;
    shape =
        sym (take-append-drop (length (packet fd p)) block)
        ∙ ap (λ l. l ++ drop (length (packet fd p)) block) front;
    full = full;
  }

  -- A round that takes a message.
  taken_round :
      (exit : Bool) (w : Waited) (turns : List Turn) (c : ProtocolCtrlr) (q : Fifo) (p : List ℕ)
      (ps : List (List ℕ)) (block : List ℕ)
      → Carries block fd p
      → IsMessage json p
      → ((c' : ProtocolCtrlr)
          → client_turns json has_callback fd turns c' q
            ≡ plain_turns json has_callback fd turns c' ps)
      → parse_round json has_callback fd exit
          (pos 0, block, q)
          c
          (λ c' q'. client_turns json has_callback fd turns c' q')
        ≡ plain_turns json has_callback fd (parse exit w ∷ turns) c (p ∷ ps)
  unfolding parse_round plain_turns
  taken_round true w turns c q p ps block k m ih = refl
  taken_round false w turns c q p ps block k m ih =
      ap
        (λ r. r >>= λ (c', call).
          map_run (with_call call) (client_turns json has_callback fd turns c' q))
        (process_packet-message json has_callback fd p block c small m k)
      ∙ ap (λ n. message json has_callback fd p c >>= n)
          (fun_ext λ (c', call). ap (map_run (with_call call)) (ih c'))

  -- For a client whose socket is below 10000: in whatever order the receiving thread and the parse
  -- thread take turns, with no more than 20 messages waiting, the handler is called as if the payloads
  -- waited whole in a plain queue, with the same commands and data in the same order, and the run is
  -- undefined or throws only where that does. Every payload has at most 508 bytes and no NUL, and the
  -- reader looks at nothing behind it.
  pub client_turns-eq-plain_turns :
      (turns : List Turn) (c : ProtocolCtrlr) (q : Fifo) (ps : List (List ℕ))
      → Holds q (map (packet fd) ps)
      → AllMessages json ps
      → AllFit json turns ps
      → client_turns json has_callback fd turns c q ≡ plain_turns json has_callback fd turns c ps
  unfolding client_turns plain_turns
  client_turns-eq-plain_turns [] c q ps h all fit = refl
  client_turns-eq-plain_turns (receive p ∷ turns) c q ps h all fit =
      let (q', e, h') =
        push_frame-Holds fd q (map (packet fd) ps) p valid fit.0.small h
          (omega (arith, length-map ps)) in
      rw e (
        client_turns-eq-plain_turns turns c q' (ps ++ p ∷ [])
          (subst (λ l. Holds q' l) (sym (map-append (packet fd) ps (p ∷ []))) h')
          (AllMessages-append json ps p all fit.0) fit.2)
  client_turns-eq-plain_turns (parse exit w ∷ turns) c q [] h all fit =
      ap
        (λ t.
          parse_round json has_callback fd exit t c
            (λ c' q'. client_turns json has_callback fd turns c' q'))
        (take_from_queue-empty q w h)
      ∙ empty_round exit w turns c q (client_turns-eq-plain_turns turns c q [] h all fit)
  client_turns-eq-plain_turns (parse exit w ∷ turns) c q (p ∷ ps) h all fit =
      let (block, q', e, front, full, h') =
        take_from_queue-Holds q (packet fd p) (map (packet fd) ps) w h in
      ap
        (λ t.
          parse_round json has_callback fd exit t c
            (λ c' q'. client_turns json has_callback fd turns c' q'))
        e
      ∙ taken_round exit w turns c q' p ps block (Carries-of block p front full) all.0
          (λ c'. client_turns-eq-plain_turns turns c' q' ps h' all.1 fit)
