-- ===== src/Sender.antt =====
-- MyProtocol/myprotocol.cpp, the way out: `SendDataToTheThirdParty` builds a frame in a
-- `phy_fragment_t` of 1024 bytes, and `PhySocketSendData` sends it.
pub mod Broadcast
pub mod Fragment
pub mod Delivery
pub mod Ending
pub mod Roundtrip
use console_master_rtpvoice.Prelude.{
  ℕ, zero, suc, ◌+◌, ◌-◌, Bool, true, false, ◌&&◌, List, [], ◌∷◌, ◌++◌, Option, none, some, ℤ, pos,
  negsuc, pos_part, ltb, leb, ◌==◌, ltb_ℤ, eqb_ℤ, if◌then◌else◌, length, take, drop, replicate, Run,
  ok, undefined, running, ◌>>=◌, map_run,
}
use mathlib.Core.Option
use console_master_rtpvoice.Common.{invalid_socket, protocol_head, protocol_package_length_size}
use console_master_rtpvoice.Text.{decimal}
use console_master_rtpvoice.Socket.{Transresult, Outcome, socket_send}

-- `json_payload[1019]` of `transport_protocol_t`, and the 1024 bytes of the union.
abbrev pub payload_room : ℕ
payload_room = 1019

abbrev pub fragment_size : ℕ
fragment_size = 1024

-- `payload_len`: `junk` is what stands behind the closing NUL of the text of the size.
abbrev pub length_field : List ℕ → ℕ → List ℕ
length_field junk size =
    if ltb size 1000
    then b'0' ∷ take (protocol_package_length_size - 1) (decimal size ++ (0 ∷ junk))
    else take protocol_package_length_size (decimal size ++ (0 ∷ junk))

-- `strlen`: where the first NUL stands.
strlen : List ℕ → Option ℕ
strlen [] = none
strlen (c ∷ r) = if c == 0 then some 0 else Option.map suc (strlen r)

-- The union's bytes after the copies.
abbrev pub element : List ℕ → List ℕ → List ℕ
element junk payload =
    (protocol_head ∷ length_field junk (length payload))
    ++ (payload ++ replicate (payload_room - length payload) 0)

until_nul : List ℕ → Run (List ℕ)
unfolding strlen
until_nul s = elim (strlen s) [ some n ↦ ok (take n s) | none ↦ undefined ]

-- The bytes that are handed to `PhySocketSendData`. A payload that does not fit, and a union with
-- no NUL in it, are undefined behaviour.
pub fragment : List ℕ → List ℕ → Run (List ℕ)
fragment junk payload =
    if leb (length payload) payload_room then until_nul (element junk payload) else undefined

-- The bytes that a socket took, and the return value.
pub record Sent : Type 0 where
  pub ret : ℤ
  pub bytes : List ℕ

abbrev pub more_sent : List ℕ → Sent → Sent
more_sent bs r = record { ret = r.ret; bytes = bs ++ r.bytes }

-- The loop of `PhySocketSendData` over the bytes that are still to be sent, for what Winsock
-- answers to the calls of `send`; with no answer left the loop is still running. A count beyond
-- what was asked for makes `send_len - count` negative, and the loop never ends.
unfoldable pub phy_socket_send_data : List Outcome → List ℕ → Run Sent
phy_socket_send_data answers [] = ok (record { ret = pos 0; bytes = [] })
phy_socket_send_data [] (b ∷ rest) = running
phy_socket_send_data (out ∷ answers) (b ∷ rest) =
    let rt = socket_send false (pos (length (b ∷ rest))) out in
    let n = pos_part rt.nbytes in
    let on = phy_socket_send_data answers (drop n (b ∷ rest)) in
    let again = phy_socket_send_data answers (b ∷ rest) in
    if ltb_ℤ (pos 0) rt.nbytes
    then (if ltb (length (b ∷ rest)) n then running else map_run (more_sent (take n (b ∷ rest))) on)
    else if eqb_ℤ rt.nbytes (negsuc 0) && eqb_ℤ rt.nresult (pos 1)
    then again
    else if eqb_ℤ rt.nbytes (negsuc 0) && eqb_ℤ rt.nresult (negsuc 0)
    then ok (record { ret = negsuc 0; bytes = [] })
    else again

-- To every client, in the order of the map; the return value is that of the last.
send_to_all : (ℕ → List Outcome) → List ℕ → List ℕ → ℤ → Run (ℤ × List (ℕ × List ℕ))
send_to_all answers element [] ret = ok (ret, [])
send_to_all answers element (fd ∷ fds) ret = phy_socket_send_data (answers fd) element >>= λ r.
    map_run (λ (last, log). (last, (fd, r.bytes) ∷ log)) (send_to_all answers element fds r.ret)

-- `SendDataToTheThirdParty`: the return value, and what went to which socket. Socket 0 stands for
-- all clients, whose sockets are `clients`.
unfoldable pub send_data_to_the_third_party :
    List ℕ → (ℕ → List Outcome) → List ℕ → ℕ → List ℕ → Run (ℤ × List (ℕ × List ℕ))
unfolding until_nul fragment phy_socket_send_data send_to_all
send_data_to_the_third_party junk answers clients fd buff = fragment junk buff >>= λ element.
    if fd == invalid_socket
    then ok (pos 0, [])
    else if fd == 0
    then send_to_all answers element clients (pos 0)
    else map_run (λ r. (r.ret, (fd, r.bytes) ∷ [])) (phy_socket_send_data (answers fd) element)
