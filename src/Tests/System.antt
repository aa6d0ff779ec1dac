-- ===== src/Tests/System.antt =====
-- Two concrete clients side by side, for the theorems on many clients and the master behind them.
use console_master_rtpvoice.Prelude.{
  ℕ, zero, suc, negsuc, pos, replicate, ◌≡◌, ◌≢◌, refl, subst, true, false, Bool-cases, inl, inr,
  List, [], ◌∷◌, ◌++◌, map, ◌==◌, ==_iff, if◌then◌else◌, arith, ok,
}
use console_master_rtpvoice.Common.{ProtocolNames, call_request, SockaddrIn}
use console_master_rtpvoice.Fifo.{wait_timeout}
use console_master_rtpvoice.Frame.Stream.{frame, header, idle}
use console_master_rtpvoice.Client.{find_state, statemap}
use console_master_rtpvoice.Client.Parse.{Turn, receive, parse, Call}
use console_master_rtpvoice.Client.Threads.{AllFit}
use console_master_rtpvoice.Client.Wire.{Input, chunk, parse_turn, Feeds, done, feed, parsed}
use console_master_rtpvoice.Client.Steps.{Threads}
use console_master_rtpvoice.Master.{Action, Master, new_master}
use console_master_rtpvoice.Master.Session.{serve}
use console_master_rtpvoice.Master.Answers.{replies}
use console_master_rtpvoice.Master.Transmit.{
  transmit, sends, AllTaken, messages_to, AllOne, framed, reply_names,
}
use console_master_rtpvoice.Replies.{JsonValue}
use console_master_rtpvoice.Socket.{Outcome}
use console_master_rtpvoice.Sender.Fragment.{NoNul}
use console_master_rtpvoice.Gateway.{Serves, received, handed, AreFor, requests_of, answered}
use console_master_rtpvoice.Gateway.World.{only, calls_of, world_run}
use console_master_rtpvoice.Gateway.Asked.{AllIn}
use console_master_rtpvoice.Gateway.Tagged.{IsClient, untagged}
use console_master_rtpvoice.Gateway.System.{
  new_world, AllClients, world_run-replies, world_run-sends,
}
use console_master_rtpvoice.Tests.Serving.{client_at}
use console_master_rtpvoice.Tests.Requests.{reader}
use console_master_rtpvoice.Tests.Threads.{
  braces, braces-IsMessage, braces-IsPayload, wire_payloads, wire-Feeds,
}
use console_master_rtpvoice.Tests.Answering.{braces-IsRequest, two-Serves}

-- The inputs of the client 321 are those of `wire_inputs`; the client 322 sends one frame in between.
abbrev events : List (ℕ × Input)
events =
    (321, chunk (frame braces ++ header 2 ++ b'{' ∷ []))
    ∷ (322, chunk (frame braces))
    ∷ (321, parse_turn false wait_timeout)
    ∷ (321, chunk (b'}' ∷ []))
    ∷ (322, parse_turn false wait_timeout)
    ∷ (321, parse_turn false wait_timeout)
    ∷ (321, parse_turn true wait_timeout)
    ∷ []

abbrev payloads : ℕ → List Turn
payloads fd =
    if 321 == fd
    then wire_payloads
    else if 322 == fd
    then receive braces ∷ parse false wait_timeout ∷ []
    else []

abbrev commands : ℕ → List ProtocolNames
commands fd =
    if 321 == fd
    then call_request ∷ call_request ∷ []
    else if 322 == fd
    then call_request ∷ []
    else []

abbrev address : ℕ → SockaddrIn
address fd = (client_at fd 7).remote_addr

abbrev rest_of_buffer : ℕ → List ℕ
rest_of_buffer fd = 0 ∷ []

-- What holds of 321, of 322, and of every other socket holds of all.
every_socket :
    (P : ℕ → Type 0)
    → P 321
    → P 322
    → ((fd : ℕ) → (321 == fd) ≡ false → (322 == fd) ≡ false → P fd)
    → (fd : ℕ) → P fd
every_socket P one two others fd = elim (Bool-cases (321 == fd)) [
  | inl own ↦ subst P ((==_iff 321 fd).0 own) one
  | inr not_one ↦ elim (Bool-cases (322 == fd)) [
    | inl own ↦ subst P ((==_iff 322 fd).0 own) two
    | inr not_two ↦ others fd not_one not_two
  ]
]

one-Feeds :
    Feeds idle
      (chunk (frame braces) ∷ parse_turn false wait_timeout ∷ [])
      (receive braces ∷ parse false wait_timeout ∷ [])
one-Feeds =
    feed idle idle _ (braces ∷ []) _ _ tt (braces-IsPayload, tt) (omega arith) (omega arith) refl
      refl (parsed _ _ _ _ _ (done idle))

events-Feeds : (fd : ℕ) → Feeds idle (only fd events) (payloads fd)
events-Feeds =
    every_socket (λ fd. Feeds idle (only fd events) (payloads fd)) wire-Feeds one-Feeds
      (λ fd one two. rw (one, two) (done idle))

payloads-AllFit : (fd : ℕ) → AllFit (reader "CallRequest") (payloads fd) []
payloads-AllFit =
    every_socket (λ fd. AllFit (reader "CallRequest") (payloads fd) [])
      (braces-IsMessage, omega arith, (braces-IsMessage, omega arith, tt))
      (braces-IsMessage, omega arith, tt) (λ fd one two. rw (one, two) tt)

commands-Serves : (fd : ℕ) → Serves (reader "CallRequest") (payloads fd) [] (commands fd)
commands-Serves =
    every_socket (λ fd. Serves (reader "CallRequest") (payloads fd) [] (commands fd)) two-Serves
      (received _ _ _ _ (handed _ _ _ _ _ _ braces-IsRequest (Serves.done [])))
      (λ fd one two. rw (one, two) (Serves.done []))

two-AllClients : AllClients events
two-AllClients = (is, (is', (is, (is, (is', (is, (is, tt)))))))
  where
    is : IsClient 321
    is = (omega arith, omega arith)

    is' : IsClient 322
    is' = (omega arith, omega arith)

world_run-replies_example :
    (w : ℕ → Threads) × (calls : List (ℕ × Call)) × (m' : Master) × (acts : List Action)
    × (world_run (reader "CallRequest") true rest_of_buffer events (new_world address)
        ≡ ok (w, calls))
    × ((fd : ℕ) → AreFor fd (calls_of fd calls) (commands fd))
    × (serve (requests_of (λ i. "a") (untagged calls)) new_master ≡ ok (m', acts))
    × AllOne (sends acts)
    × AllIn (λ fd. commands fd ≢ []) (sends acts)
    × ((fd : ℕ) → map (find_state statemap) (replies fd acts) ≡ answered (commands fd))
world_run-replies_example =
    world_run-replies (reader "CallRequest") address rest_of_buffer events payloads commands
      (λ fd. refl) two-AllClients events-Feeds payloads-AllFit commands-Serves (λ i. "a") new_master

-- The run of the two clients, and what the master does then.
abbrev both :
    (w : ℕ → Threads) × (calls : List (ℕ × Call)) × (m' : Master) × (acts : List Action)
    × (world_run (reader "CallRequest") true rest_of_buffer events (new_world address)
        ≡ ok (w, calls))
    × ((fd : ℕ) → AreFor fd (calls_of fd calls) (commands fd))
    × (serve (requests_of (λ i. "a") (untagged calls)) new_master ≡ ok (m', acts))
    × AllOne (sends acts)
    × AllIn (λ fd. commands fd ≢ []) (sends acts)
    × ((fd : ℕ) → map (find_state statemap) (replies fd acts) ≡ answered (commands fd))
both =
    world_run-replies (reader "CallRequest") address rest_of_buffer events payloads commands
      (λ fd. refl) two-AllClients events-Feeds payloads-AllFit commands-Serves (λ i. "a") new_master

-- A writer whose texts have 120 bytes, and a socket that takes 100 bytes, is busy, and takes the other
-- 25.
abbrev write : JsonValue → List ℕ
write v = replicate 120 b'{'

abbrev willing : ℕ → ℕ → List Outcome
willing i fd =
    record { ret = pos 100; last_error = 0 }
    ∷ record { ret = negsuc 0; last_error = 10035 }
    ∷ record { ret = pos 25; last_error = 0 }
    ∷ []

text-NoNul : (n : ℕ) → NoNul (replicate n b'{')
text-NoNul zero = tt
text-NoNul (suc n) = (omega arith, text-NoNul n)

all-AllTaken : (ms : List (ℕ × JsonValue)) → AllTaken write willing ms
all-AllTaken [] = tt
all-AllTaken ((fd, v) ∷ ms) = (
  omega arith,
  omega arith,
  text-NoNul 120,
  (omega arith, (omega arith, (omega arith, tt))),
  (ground arith, (ground arith, (ground arith, tt))),
  omega arith,
  all-AllTaken ms,
)

world_run-sends_example :
    (ms : List (ℕ × JsonValue)) × (transmit write [] (λ i. []) willing both.3
      ≡ ok (framed write ms))
    × AllIn (λ fd. commands fd ≢ []) ms
    × ((fd : ℕ)
        → map (find_state statemap) (reply_names (messages_to fd ms)) ≡ answered (commands fd))
world_run-sends_example =
    world_run-sends (reader "CallRequest") address rest_of_buffer events payloads commands
      (λ fd. refl) two-AllClients events-Feeds payloads-AllFit commands-Serves (λ i. "a") new_master
      both.2 both.0 both.1 both.3 write [] (λ i. []) willing both.4 both.6
      (all-AllTaken (sends both.3))
