-- ===== src/Gateway/System.antt =====
-- Many clients of ClientObj/clientobj.cpp and the master of mymaster.cpp behind them: from the bytes of
-- all sockets, in the order in which they come, to the answers.
use Prim.Native.String.{String}
use console_master_rtpvoice.Prelude.{
  ℕ, ◌<◌, ◌≡◌, ◌≢◌, refl, ap, sym, subst, ◌∙◌, ◌⊎◌, inl, inr, true, false, Bool-cases, List, [],
  ◌∷◌, map, ◌==◌, ==_iff, if◌then◌else◌, ok, ok-same, arith,
}
use console_master_rtpvoice.Common.{invalid_socket, ProtocolNames, SockaddrIn}
use console_master_rtpvoice.Text.Digits.{NoDigit}
use console_master_rtpvoice.Fifo.{empty_fifo}
use console_master_rtpvoice.Fifo.Bounded.{empty-Holds}
use console_master_rtpvoice.Frame.{fresh}
use console_master_rtpvoice.Frame.Stream.{Wait, idle, fresh-Holds}
use console_master_rtpvoice.Client.{Json, find_state, statemap}
use console_master_rtpvoice.Client.Object.{init_ctrlr, client_obj}
use console_master_rtpvoice.Client.Parse.{Call, Turn}
use console_master_rtpvoice.Client.Threads.{AllFit}
use console_master_rtpvoice.Client.Wire.{Input, Feeds, done, wire_turns-eq-plain_turns}
use console_master_rtpvoice.Client.Runs.{AllFit-AllShort, wire_turns-client_run}
use console_master_rtpvoice.Client.Steps.{Threads, new_threads, client_run}
use console_master_rtpvoice.Master.{Action, Master}
use console_master_rtpvoice.Master.Session.{serve}
use console_master_rtpvoice.Master.Answers.{replies}
use console_master_rtpvoice.Master.Transmit.{
  transmit, sends, messages_to, AllOne, AllTaken, framed, transmit-frames, reply_names,
  replies-sends,
}
use console_master_rtpvoice.Replies.{JsonValue}
use console_master_rtpvoice.Socket.{Outcome}
use console_master_rtpvoice.Gateway.{Serves, AreFor, plain_turns-AreFor, requests_of, answered}
use console_master_rtpvoice.Gateway.Clients.{commands_of, serve-commands}
use console_master_rtpvoice.Gateway.World.{only, calls_of, world_run, alone, world_run-alone}
use console_master_rtpvoice.Gateway.Tagged.{
  IsClient, Each, AreFor-Each, commands-AreFor, Each-Tagged, untagged, Tagged-AllSockets,
  commands_of-Tagged,
}
use console_master_rtpvoice.Gateway.Asked.{AllIn, AllIn-implies, serve-AllIn}

-- The clients as they are made, each with a handler, from the addresses that `accept` gave.
abbrev pub new_world : (ℕ → SockaddrIn) → ℕ → Threads
new_world addr fd = new_threads (client_obj (record { socket_fd = fd; remote_addr = addr fd }) true)

abbrev pub AllClients : List (ℕ × Input) → Type 0
AllClients [] = Unit {0}
AllClients ((fd, x) ∷ es) = IsClient fd × AllClients es

-- A socket that is none has no inputs.
only-AllClients : (fd : ℕ) (es : List (ℕ × Input)) → AllClients es → IsClient fd ⊎ (only fd es ≡ [])
only-AllClients fd [] h = inr refl
only-AllClients fd ((to, x) ∷ es) (one, h) = elim (Bool-cases (to == fd)) [
  | inl own ↦ inl (subst IsClient ((==_iff to fd).0 own) one)
  | inr other ↦ elim (only-AllClients fd es h) [
    | inl is ↦ inl is
    | inr none_left ↦ inr (ap (λ b. if b then x ∷ only fd es else only fd es) other ∙ none_left)
  ]
]

Feeds-nil : (w : Wait) (turns : List Turn) → Feeds w [] turns → turns ≡ []
Feeds-nil w turns (done w') = refl

Serves-nil : (json : Json) (cmds : List ProtocolNames) → Serves json [] [] cmds → cmds ≡ []
Serves-nil json cmds (Serves.done ps) = refl

valid : (fd : ℕ) → fd < 10000 → (fd == invalid_socket) ≡ false
valid fd h = ground arith

module _ (json : Json) (addr : ℕ → SockaddrIn) (junk : ℕ → List ℕ) (es : List (ℕ × Input))
    (turns : ℕ → List Turn) (cmds : ℕ → List ProtocolNames) (clean : (fd : ℕ) → NoDigit (junk fd))
    (clients : AllClients es) (fed : (fd : ℕ) → Feeds idle (only fd es) (turns fd))
    (fit : (fd : ℕ) → AllFit json (turns fd) [])
    (served : (fd : ℕ) → Serves json (turns fd) [] (cmds fd)) where
  -- What one client does when it is alone.
  abbrev Ends : ℕ → Type 0
  Ends fd =
      (t : Threads) × (calls : List Call) × (alone json true junk fd (only fd es)
          (new_world addr fd)
        ≡ ok (t, calls))
      × AreFor fd calls (cmds fd)
      × Each fd calls

  client-Ends : (fd : ℕ) → Ends fd
  unfolding client_run
  client-Ends fd = elim (only-AllClients fd es clients) [
    | inl is ↦
        let (calls, plain, are_for) =
          plain_turns-AreFor json fd (turns fd) [] (cmds fd) init_ctrlr (served fd) in
        let free = valid fd is.1 in
        let wired =
          wire_turns-eq-plain_turns json true fd (junk fd) (clean fd) idle (only fd es) (turns fd)
            fresh init_ctrlr empty_fifo [] is.1 free (fed fd) fresh-Holds tt empty-Holds tt
            (fit fd) in
        let (t, run) =
          wire_turns-client_run json true fd (junk fd) (clean fd) free idle (only fd es) (turns fd)
            fresh init_ctrlr empty_fifo calls (fed fd) fresh-Holds tt
            (AllFit-AllShort json (turns fd) [] (fit fd)) (omega arith) (wired ∙ plain) in
        (t, calls, run, are_for, AreFor-Each fd calls (cmds fd) is are_for)
    | inr none_left ↦
        let quiet =
          Feeds-nil idle (turns fd) (subst (λ xs. Feeds idle xs (turns fd)) none_left (fed fd)) in
        let no_cmds =
          Serves-nil json (cmds fd) (subst (λ ts. Serves json ts [] (cmds fd)) quiet (served fd)) in
        (
          new_world addr fd,
          [],
          ap (λ xs. alone json true junk fd xs (new_world addr fd)) none_left,
          subst (AreFor fd []) (sym no_cmds) tt,
          tt,
        )
  ]

  -- Any number of clients that were just made, each with a handler, on sockets below 10000 and not 0.
  -- Their inputs come mixed in any order. Those of each client are, taken alone, a stream of frames,
  -- cut into chunks that split no header and are no lone `Q`, with rounds of its parse thread in
  -- between, each of which finds a request, waits in vain, or meets the exit flag and is the last. Then
  -- the run is not undefined and ends; the handler is given from each client just the requests that
  -- these rounds find, in their order and with its socket; and the master behind it, which handles one
  -- call at a time and whose voice file opens, answers on each socket just its "Connect", "Listening", "Query",
  -- "CallRequest" and "CallRelease", with one message of type "Reply" each, under the name of the
  -- request, in their order. No message, notices included, goes to all clients, or to a client that
  -- requested nothing. The payloads end in `}`, have at most 508 bytes and no NUL, and the reader looks
  -- at nothing behind them; no more than 20 wait at once for a client; and what `sscanf` meets behind
  -- four digits does not begin with a digit.
  pub world_run-replies :
      (guids : ℕ → String) (m : Master)
      → (w : ℕ → Threads) × (calls : List (ℕ × Call)) × (m' : Master) × (acts : List Action)
        × (world_run json true junk es (new_world addr) ≡ ok (w, calls))
        × ((fd : ℕ) → AreFor fd (calls_of fd calls) (cmds fd))
        × (serve (requests_of guids (untagged calls)) m ≡ ok (m', acts))
        × AllOne (sends acts)
        × AllIn (λ fd. cmds fd ≢ []) (sends acts)
        × ((fd : ℕ) → map (find_state statemap) (replies fd acts) ≡ answered (cmds fd))
  world_run-replies guids m =
      let (w, calls, run, each_one) =
        world_run-alone json true junk es (new_world addr) (λ fd. (client-Ends fd).0)
          (λ fd. (client-Ends fd).1) (λ fd. (client-Ends fd).2) in
      let same : (fd : ℕ) → calls_of fd calls ≡ (client-Ends fd).1 = λ fd. (each_one fd).1 in
      let tags = Each-Tagged calls (λ fd. subst (Each fd) (sym (same fd)) (client-Ends fd).4) in
      let are_for : (fd : ℕ) → AreFor fd (calls_of fd calls) (cmds fd) =
        λ fd. subst (λ l. AreFor fd l (cmds fd)) (sym (same fd)) (client-Ends fd).3 in
      let (m', acts, serving, one, named) =
        serve-commands (requests_of guids (untagged calls)) m
          (Tagged-AllSockets guids calls tags) in
      let asks : (fd : ℕ) → commands_of fd (requests_of guids (untagged calls)) ≡ cmds fd = λ fd.
        commands_of-Tagged fd guids calls tags
        ∙ commands-AreFor fd (calls_of fd calls) (cmds fd) (are_for fd) in
      (
        w,
        calls,
        m',
        acts,
        run,
        are_for,
        serving,
        one,
        AllIn-implies (λ fd. commands_of fd (requests_of guids (untagged calls)) ≢ [])
            (λ fd. cmds fd ≢ []) (sends acts) (λ fd asked e. asked (asks fd ∙ e))
            (serve-AllIn (requests_of guids (untagged calls)) m m' acts serving),
        λ fd. named fd ∙ ap answered (asks fd),
      )

  -- The bytes that go back to these clients, whose inputs are as for `world_run-replies`; `calls` are
  -- the calls of the handler, and `acts` what the master does then. What is sent is, message by message,
  -- the frame of each, whole, to one socket, from which a request came; and on each socket the messages
  -- of type "Reply" answer just its "Connect", "Listening", "Query", "CallRequest" and "CallRelease",
  -- under their names and in their order. Each message is written as 100 to 1018 bytes with no NUL, and
  -- Winsock takes its frame: no answer counts more than what is left or fails for good, and together
  -- they take all of it.
  pub world_run-sends :
      (guids : ℕ → String) (m m' : Master) (w : ℕ → Threads) (calls : List (ℕ × Call))
      (acts : List Action) (write : JsonValue → List ℕ) (sockets : List ℕ) (junks : ℕ → List ℕ)
      (answers : ℕ → ℕ → List Outcome)
      → world_run json true junk es (new_world addr) ≡ ok (w, calls)
      → serve (requests_of guids (untagged calls)) m ≡ ok (m', acts)
      → AllTaken write answers (sends acts)
      → (ms : List (ℕ × JsonValue)) × (transmit write sockets junks answers acts
          ≡ ok (framed write ms))
        × AllIn (λ fd. cmds fd ≢ []) ms
        × ((fd : ℕ)
            → map (find_state statemap) (reply_names (messages_to fd ms)) ≡ answered (cmds fd))
  world_run-sends guids m m' w calls acts write sockets junks answers run serving h =
      let (w0, calls0, m0, acts0, run0, _, serving0, one0, to0, named0) =
        world_run-replies guids m in
      let same_run = ok-same (w0, calls0) (w, calls) (sym run0 ∙ run) in
      let same_acts =
        ok-same (m0, acts0) (m', acts)
          (sym serving0
            ∙ ap (λ r. serve (requests_of guids (untagged r.1)) m) same_run
            ∙ serving) in
      (
        sends acts,
        transmit-frames write sockets junks answers acts
            (subst (λ r. AllOne (sends r.1)) same_acts one0) h,
        subst (λ r. AllIn (λ fd. cmds fd ≢ []) (sends r.1)) same_acts to0,
        λ fd.
            ap (map (find_state statemap)) (sym (replies-sends fd acts))
            ∙ subst (λ r. map (find_state statemap) (replies fd r.1) ≡ answered (cmds fd)) same_acts
                (named0 fd),
      )
