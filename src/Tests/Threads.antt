-- ===== src/Tests/Threads.antt =====
-- Concrete clients and servers for the theorems on the order of the threads' steps.
use console_master_rtpvoice.Prelude.{
  ℕ, ◌/◌, ◌≡◌, refl, ap, true, false, List, [], ◌∷◌, ◌++◌, replicate, length, length-append,
  length-replicate, none, some, if◌then◌else◌, ltb, arith, ok,
}
use console_master_rtpvoice.Common.{SocketParams, lt_params}
use console_master_rtpvoice.Fifo.{empty_fifo, take_from_queue, wait_timeout}
use console_master_rtpvoice.Sender.Fragment.{NoNul}
use console_master_rtpvoice.Client.{c_string, read_fd, read_json}
use console_master_rtpvoice.Client.Packet.{packet}
use console_master_rtpvoice.Client.Block.{
  packet-append, length-fd_field, fd_field, Carries, read_fd-packet, read_fd-packet_cut,
  read_json-packet,
}
use console_master_rtpvoice.Client.Parse.{Turn, receive, parse, plain_turns}
use console_master_rtpvoice.Client.Threads.{IsMessage}
use console_master_rtpvoice.Client.Wire.{
  Input, chunk, parse_turn, wire_turns, Feeds, done, feed, parsed, wire_turns-eq-plain_turns,
}
use console_master_rtpvoice.Frame.{fresh}
use console_master_rtpvoice.Frame.Stream.{idle, mid, frame, header, IsPayload}
use console_master_rtpvoice.Frame.Stream.{fresh-Holds}
use console_master_rtpvoice.Server.{
  Server, notify_delete, new_server, find, start, init_socket, create_listen_thread, accept_client,
  enter_client, recovery_step, recovery_round, stop, delete_server,
}
use console_master_rtpvoice.Server.Steps.{Reach, here, next, accept, enter, recover, halt, count}
use console_master_rtpvoice.Server.Lifecycle.{delete_server-once}
use console_master_rtpvoice.Server.Missed.{IsLeft, recovery_round-IsLeft}
use console_master_rtpvoice.Fifo.Bounded.{empty-Holds}
use console_master_rtpvoice.Tests.Serving.{client_at, running_server, two_clients-IsOrdered}
use console_master_rtpvoice.Tests.Requests.{reader, fresh_ctrlr}

abbrev pub braces : List ℕ
braces = b'{' ∷ b'}' ∷ []

-- A slot with a packet of two bytes, and another message's bytes behind it.
abbrev slot_of : ℕ → List ℕ
slot_of fd = packet fd braces ++ replicate 506 b'x'

abbrev carried : (fd : ℕ) → Carries (slot_of fd) fd braces
carried fd = record {
  stale = replicate 506 b'x';
  shape = refl;
  full = omega (
    arith,
    length-append (packet fd braces) (replicate {A = ℕ} 506 b'x'),
    ap length (packet-append fd braces),
    length-append (fd_field fd) braces,
    length-fd_field fd,
    length-replicate {A = ℕ} 506 b'x',
  );
}

read_fd-packet_example : read_fd (slot_of 321) ≡ 321
read_fd-packet_example = read_fd-packet 321 braces (slot_of 321) (omega arith) (carried 321)

read_fd-packet_cut_example : read_fd (slot_of 12345) ≡ 12345 / 10
read_fd-packet_cut_example =
    read_fd-packet_cut 12345 braces (slot_of 12345) (omega arith) (omega arith) (carried 12345)

braces-NoNul : NoNul braces
braces-NoNul = (omega arith, (omega arith, tt))

read_json-packet_example : read_json (slot_of 321) ≡ braces ++ c_string (replicate 506 b'x')
read_json-packet_example = read_json-packet 321 braces (slot_of 321) (carried 321) braces-NoNul

pub braces-IsMessage : IsMessage (reader "CallRequest") braces
braces-IsMessage = record { small = omega arith; no_nul = braces-NoNul; whole = λ s. refl }

abbrev two_messages : List Turn
two_messages =
    receive braces
    ∷ parse false wait_timeout
    ∷ parse false wait_timeout
    ∷ receive braces
    ∷ parse true wait_timeout
    ∷ []

abbrev first_server : Server
first_server = start 4 true true new_server

abbrev accepted : Server
accepted = (accept_client (client_at 100 7) first_server).0

abbrev recovered : Server
recovered = (recovery_round wait_timeout accepted).0

abbrev entered : Server
entered = enter_client (client_at 100 7) (some 0) recovered

halted : Reach (first_server, []) (stop entered, [])
unfolding start init_socket create_listen_thread accept_client find recovery_round take_from_queue
    recovery_step
halted =
    next
      (next
        (next (next here (accept (client_at 100 7) first_server []))
          (recover wait_timeout accepted ((client_at 100 7, 0) ∷ [])))
        (enter (client_at 100 7) 0 recovered [] [] refl))
      (halt entered [])

delete_server-once_example :
    (count 0 (delete_server (stop entered)).deleted
      ≡ (if ltb 0 (stop entered).next_client then 1 else 0))
    × ((delete_server (stop entered)).clientmap ≡ [])
delete_server-once_example = delete_server-once 4 0 true true (stop entered) halted

abbrev port_11 : SocketParams
port_11 = client_at 104 11

port_11-unknown : find port_11 running_server.clientmap ≡ none
unfolding find lt_params
port_11-unknown = refl

recovery_round-IsLeft_example :
    (s' : Server) × (notify_delete port_11 (accept_client port_11 running_server).0 ≡ ok s')
    × IsLeft port_11 0 [] wait_timeout
        (accept_client port_11 running_server).2
        (recovery_round wait_timeout s')
recovery_round-IsLeft_example =
    recovery_round-IsLeft port_11 running_server wait_timeout wait_timeout
      (record { fd = omega arith; family = omega arith; port = omega arith; addr = omega arith })
      (omega arith) (omega arith) refl empty-Holds two_clients-IsOrdered port_11-unknown

pub braces-IsPayload : IsPayload braces
braces-IsPayload = record { front = b'{' ∷ []; closes = refl; small = omega arith }

-- A frame and a half, a round of the parse thread, the other half, and two rounds.
abbrev pub wire_inputs : List Input
wire_inputs =
    chunk (frame braces ++ header 2 ++ b'{' ∷ [])
    ∷ parse_turn false wait_timeout
    ∷ chunk (b'}' ∷ [])
    ∷ parse_turn false wait_timeout
    ∷ parse_turn true wait_timeout
    ∷ []

abbrev pub wire_payloads : List Turn
wire_payloads =
    receive braces
    ∷ parse false wait_timeout
    ∷ receive braces
    ∷ parse false wait_timeout
    ∷ parse true wait_timeout
    ∷ []

pub wire-Feeds : Feeds idle wire_inputs wire_payloads
wire-Feeds =
    feed idle (mid 2 (b'{' ∷ [])) _ (braces ∷ []) _ _ (omega arith, omega arith)
      (braces-IsPayload, tt) (omega arith) (omega arith) refl refl
      (parsed _ _ _ _ _ (
        feed _ idle _ (braces ∷ []) _ _ tt (braces-IsPayload, tt) (omega arith) (omega arith) refl
          refl (parsed _ _ _ _ _ (parsed _ _ _ _ _ (done idle)))))

wire_turns-eq-plain_turns_example :
    wire_turns (reader "CallRequest") true 321 (0 ∷ []) wire_inputs fresh fresh_ctrlr empty_fifo
    ≡ plain_turns (reader "CallRequest") true 321 wire_payloads fresh_ctrlr []
wire_turns-eq-plain_turns_example =
    wire_turns-eq-plain_turns (reader "CallRequest") true 321 (0 ∷ []) refl idle wire_inputs
      wire_payloads fresh fresh_ctrlr empty_fifo [] (omega arith) refl wire-Feeds fresh-Holds tt
      empty-Holds tt (braces-IsMessage, omega arith, (braces-IsMessage, omega arith, tt))
