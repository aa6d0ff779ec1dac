-- ===== src/Sender/Broadcast.antt =====
-- About the socket 0 of `SendDataToTheThirdParty` of MyProtocol/myprotocol.cpp: the frame goes to every
-- client of the map.
use console_master_rtpvoice.Prelude.{
  ℕ, ◌≤◌, ◌<◌, ◌≡◌, refl, List, [], ◌∷◌, ◌++◌, ℤ, pos, length, drop, Run, ok, undefined, thrown,
  running, IsDone,
}
use console_master_rtpvoice.Common.{protocol_head}
use console_master_rtpvoice.Socket.{Outcome}
use console_master_rtpvoice.Frame.Stream.{frame}
use console_master_rtpvoice.Sender.{
  Sent, payload_room, phy_socket_send_data, send_to_all, send_data_to_the_third_party,
}
use console_master_rtpvoice.Sender.Fragment.{NoNul, fragment-eq-frame}
use console_master_rtpvoice.Sender.Delivery.{
  Answers, IsSent, SendsRight, phy_socket_send_data-SendsRight,
}
use console_master_rtpvoice.Sender.Ending.{AllGone, phy_socket_send_data-gone}

-- For each client in turn: all bytes went to it, or it was lost with some bytes left.
abbrev pub AllSent : List ℕ → List ℕ → List (ℕ × List ℕ) → ℤ → ℤ → Type 0
AllSent element [] [] first ret = ret ≡ first
AllSent element (fd ∷ fds) ((to, bytes) ∷ log) first ret =
    (to ≡ fd)
    × ((one : ℤ) × IsSent element (record { ret = one; bytes = bytes })
        × AllSent element fds log one ret)
AllSent element _ _ first ret = ⊥

-- Winsock's answers on each client's socket, with which its loop ends.
abbrev pub AllAnswer : (ℕ → List Outcome) → List ℕ → List ℕ → Type 0
AllAnswer answers element [] = Unit {0}
AllAnswer answers element (fd ∷ fds) =
    Answers (answers fd) element
    × IsDone (phy_socket_send_data (answers fd) element)
    × AllAnswer answers element fds

ended :
    (answers : List Outcome) (element : List ℕ)
    → Answers answers element
    → IsDone (phy_socket_send_data answers element)
    → (r : Sent) × (phy_socket_send_data answers element ≡ ok r) × IsSent element r
ended answers element a d =
    go (phy_socket_send_data answers element) refl d
      (phy_socket_send_data-SendsRight answers element a)
  where
    go :
        (m : Run Sent)
        → phy_socket_send_data answers element ≡ m
        → IsDone m
        → SendsRight element m
        → (r : Sent) × (phy_socket_send_data answers element ≡ ok r) × IsSent element r
    go (ok r) e d' s = (r, e, s)
    go undefined e d' s = absurd s
    go thrown e d' s = absurd s
    go running e d' s = absurd d'

send_to_all-AllSent :
    (answers : ℕ → List Outcome) (element fds : List ℕ) (first : ℤ)
    → AllAnswer answers element fds
    → (ret : ℤ) × (log : List (ℕ × List ℕ)) × (send_to_all answers element fds first
        ≡ ok (ret, log))
      × AllSent element fds log first ret
unfolding send_to_all
send_to_all-AllSent answers element [] first h = (first, [], refl, refl)
send_to_all-AllSent answers element (fd ∷ fds) first (a, d, h) =
    let (r, e, sent) = ended (answers fd) element a d in
    let (ret, log, more, rest) = send_to_all-AllSent answers element fds r.ret h in
    (ret, (fd, r.bytes) ∷ log, rw (e, more) refl, (refl, (r.ret, sent, rest)))

-- A payload of 100 to 1018 bytes with no NUL that is sent to socket 0: if the loop of each client's
-- socket ends, its frame goes to every client of the map in order, whole, or in part to a client that
-- is lost meanwhile, which does not keep it from the next. The return value is that of the last client
-- alone, 0 or -1, and 0 with no client.
pub send_data_to_the_third_party-AllSent :
    (junk : List ℕ) (answers : ℕ → List Outcome) (clients payload : List ℕ)
    → 100 ≤ length payload
    → length payload < payload_room
    → NoNul payload
    → AllAnswer answers (frame payload) clients
    → (ret : ℤ) × (log : List (ℕ × List ℕ)) × (send_data_to_the_third_party junk answers clients 0
          payload
        ≡ ok (ret, log))
      × AllSent (frame payload) clients log (pos 0) ret
unfolding send_data_to_the_third_party
send_data_to_the_third_party-AllSent junk answers clients payload low high clean h =
    let (ret, log, e, sent) = send_to_all-AllSent answers (frame payload) clients (pos 0) h in
    (ret, log, rw (fragment-eq-frame junk payload low high clean, e) refl, sent)

send_to_all-gone :
    (answers : ℕ → List Outcome) (b : ℕ) (rest fds : List ℕ) (fd : ℕ) (after : List ℕ) (first : ℤ)
    → AllAnswer answers (b ∷ rest) fds
    → AllGone (answers fd)
    → send_to_all answers (b ∷ rest) (fds ++ fd ∷ after) first ≡ running
unfolding send_to_all
send_to_all-gone answers b rest [] fd after first h gone =
    rw (phy_socket_send_data-gone (answers fd) b rest gone) refl
send_to_all-gone answers b rest (to ∷ fds) fd after first (a, d, h) gone =
    let (r, e, sent) = ended (answers to) (b ∷ rest) a d in
    rw (e, send_to_all-gone answers b rest fds fd after r.ret h gone) refl

-- A payload of 100 to 1018 bytes with no NUL that is sent to socket 0 never gets past a client on
-- whose socket `send` answers 0 each time, which `SocketSend` takes for a closed connection: if the
-- loop of each client before it ends, the call does not return.
pub send_data_to_the_third_party-gone :
    (junk : List ℕ) (answers : ℕ → List Outcome) (before : List ℕ) (fd : ℕ) (after payload : List ℕ)
    → 100 ≤ length payload
    → length payload < payload_room
    → NoNul payload
    → AllAnswer answers (frame payload) before
    → AllGone (answers fd)
    → send_data_to_the_third_party junk answers (before ++ fd ∷ after) 0 payload ≡ running
unfolding send_data_to_the_third_party
send_data_to_the_third_party-gone junk answers before fd after payload low high clean h gone =
    rw
      (
        fragment-eq-frame junk payload low high clean,
        send_to_all-gone answers protocol_head (drop 1 (frame payload)) before fd after (pos 0) h
            gone,
      )
      refl
