-- ===== src/Gateway.antt =====
-- From the bytes of a client to the answers of the master: ClientObj/clientobj.cpp up to the call of
-- the handler, and `MasterOnDataFunc` of mymaster.cpp.
pub mod Asked
pub mod Clients
pub mod Groups
pub mod System
pub mod Tagged
pub mod World
use Prim.Native.String.{String}
use mathlib.Core.List.{map-append}
use console_master_rtpvoice.Prelude.{
  ℕ, ◌+◌, ◌<◌, ◌≡◌, refl, ap, ap₂, sym, subst, ◌∙◌, true, false, List, [], ◌∷◌, ◌++◌, append_assoc,
  map, Option, none, some, ◌==◌, if◌then◌else◌, Run, ok, ◌>>=◌, map_run, arith,
}
use console_master_rtpvoice.Common.{
  invalid_socket, ProtocolNames, ProtocolCtrlr, ResponeData, SocketParams,
}
use console_master_rtpvoice.Text.Digits.{NoDigit}
use console_master_rtpvoice.Fifo.{Fifo, empty_fifo, Waited, wait_timeout}
use console_master_rtpvoice.Fifo.Bounded
use console_master_rtpvoice.Fifo.Bounded.{empty-Holds}
use console_master_rtpvoice.Frame.{Options, fresh}
use console_master_rtpvoice.Frame.Stream.{Wait, idle, IsWait, fresh-Holds}
use console_master_rtpvoice.Frame.Stream
use console_master_rtpvoice.Client.{Json, process_value, find_state, statemap}
use console_master_rtpvoice.Client.Object.{init_ctrlr, client_obj}
use console_master_rtpvoice.Client.Packet.{packet}
use console_master_rtpvoice.Client.Requests.{IsHeader}
use console_master_rtpvoice.Client.Commands.{HasParams, process_value-command}
use console_master_rtpvoice.Client.Parse.{
  Call, with_call, Turn, receive, parse, message, plain_turns,
}
use console_master_rtpvoice.Client.Threads.{AllFit, AllMessages}
use console_master_rtpvoice.Client.Wire.{Input, wire_turns, Feeds, wire_turns-eq-plain_turns}
use console_master_rtpvoice.Master.{Action, Master, master_on_data}
use console_master_rtpvoice.Master.Session.{Request, serve}
use console_master_rtpvoice.Master.Answers.{
  replies, replies-append, AllTo, AllTo-append, is_request, master_on_data-replies,
}

-- A payload that is a request for a command.
pub record IsRequest (json : Json) (p : List ℕ) (cmd : ProtocolNames) : Type 0 where
  pub val : json.Value
  pub identifier : String
  pub name : String
  pub parsed : json.parse p ≡ some val
  pub header : IsHeader json val identifier "Request" name
  pub params : HasParams json val name cmd

-- The commands that the parse thread comes to in its turns, with the payloads that wait before them:
-- every payload it takes is a request, where none waits the time runs out, and a round that meets the
-- exit flag is its last.
pub data Serves (json : Json) : List Turn → List (List ℕ) → List ProtocolNames → Type 0 where
  done : (ps : List (List ℕ)) → Serves json [] ps []
  ended :
      (how : Waited) (turns : List Turn) (ps : List (List ℕ))
      → Serves json (parse true how ∷ turns) ps []
  received :
      (p : List ℕ) (turns : List Turn) (ps : List (List ℕ)) (cmds : List ProtocolNames)
      → Serves json turns (ps ++ p ∷ []) cmds
      → Serves json (receive p ∷ turns) ps cmds
  waited :
      (turns : List Turn) (cmds : List ProtocolNames)
      → Serves json turns [] cmds
      → Serves json (parse false wait_timeout ∷ turns) [] cmds
  handed :
      (how : Waited) (p : List ℕ) (turns : List Turn) (ps : List (List ℕ)) (cmd : ProtocolNames)
      (cmds : List ProtocolNames)
      → IsRequest json p cmd
      → Serves json turns ps cmds
      → Serves json (parse false how ∷ turns) (p ∷ ps) (cmd ∷ cmds)

-- The calls have these commands, and each has the socket `fd`.
abbrev pub AreFor : ℕ → List Call → List ProtocolNames → Type 0
AreFor fd [] [] = Unit {0}
AreFor fd [] (cmd ∷ cmds) = ⊥
AreFor fd (call ∷ calls) [] = ⊥
AreFor fd ((command, d) ∷ calls) (cmd ∷ cmds) =
    (command ≡ cmd) × (d.socket_fd ≡ fd) × AreFor fd calls cmds

message-command :
    (json : Json) (fd : ℕ) (p : List ℕ) (cmd : ProtocolNames) (c : ProtocolCtrlr)
    → IsRequest json p cmd
    → (c' : ProtocolCtrlr) × (d : ResponeData) × (message json true fd p c ≡ ok (c', some (cmd, d)))
      × (d.socket_fd ≡ fd)
unfolding message
message-command json fd p cmd c r =
    let (c', d, e, from, _) =
      process_value-command json fd r.val c r.identifier r.name cmd r.header r.params in
    (
      c',
      d,
      ap
            (λ (v : Option json.Value). elim v [
              | none ↦ ok (c, none)
              | some val ↦ process_value json true fd val c
            ])
            r.parsed
          ∙ e,
      from,
    )

pub plain_turns-AreFor :
    (json : Json) (fd : ℕ) (turns : List Turn) (ps : List (List ℕ)) (cmds : List ProtocolNames)
    (c : ProtocolCtrlr)
    → Serves json turns ps cmds
    → (calls : List Call) × (plain_turns json true fd turns c ps ≡ ok calls) × AreFor fd calls cmds
unfolding plain_turns
plain_turns-AreFor json fd _ _ _ c (done ps) = ([], refl, tt)
plain_turns-AreFor json fd _ _ _ c (ended how turns ps) = ([], refl, tt)
plain_turns-AreFor json fd _ _ _ c (received p turns ps cmds more) =
    plain_turns-AreFor json fd turns (ps ++ p ∷ []) cmds c more
plain_turns-AreFor json fd _ _ _ c (waited turns cmds more) =
    plain_turns-AreFor json fd turns [] cmds c more
plain_turns-AreFor json fd _ _ _ c (handed how p turns ps cmd cmds r more) =
    let (c', d, e, from) = message-command json fd p cmd c r in
    let (calls, run, rest) = plain_turns-AreFor json fd turns ps cmds c' more in
    ((cmd, d) ∷ calls, rw (e, run) refl, (refl, from, rest))

-- The master's side of the calls; `guids` are the ids that `CreateGuid` makes, two for each.
unfoldable pub requests_of : (ℕ → String) → List Call → List Request
requests_of guids [] = []
requests_of guids ((command, d) ∷ calls) =
    record { guid = guids 0; guid' = guids 1; command = command; data' = d }
    ∷ requests_of (λ i. guids (2 + i)) calls

-- The commands that are answered.
abbrev pub answered : List ProtocolNames → List (Option ProtocolNames)
answered [] = []
answered (cmd ∷ cmds) = (if is_request cmd then some cmd ∷ [] else []) ++ answered cmds
