-- ===== src/Tests/Sending.antt =====
-- Concrete payloads, chunks of bytes and answers of Winsock for the theorems on the way out.
use console_master_rtpvoice.Prelude.{
  ℕ, zero, suc, ◌≡◌, refl, List, [], ◌∷◌, ℤ, pos, negsuc, length, replicate, ◌++◌, if◌then◌else◌,
  ◌==◌, arith, ok, undefined, running,
}
use console_master_rtpvoice.Common.{protocol_head}
use console_master_rtpvoice.Text.{decimal}
use console_master_rtpvoice.Sender.{fragment, phy_socket_send_data, send_data_to_the_third_party}
use console_master_rtpvoice.Frame.Stream.{frame}
use console_master_rtpvoice.Sender.Fragment.{NoNul, fragment_short, fragment_undefined}
use console_master_rtpvoice.Sender.Broadcast.{
  AllSent, AllAnswer, send_data_to_the_third_party-AllSent, send_data_to_the_third_party-gone,
}
use console_master_rtpvoice.Sender.Delivery.{SendsRight, phy_socket_send_data-SendsRight}
use console_master_rtpvoice.Sender.Ending.{phy_socket_send_data-ends}
use console_master_rtpvoice.Socket.{Outcome, socket_send}

abbrev answer : ℤ → ℕ → Outcome
answer ret code = record { ret = ret; last_error = code }

pub replicate-NoNul : (n : ℕ) → NoNul (replicate n 7)
replicate-NoNul zero = tt
replicate-NoNul (suc n) = (λ e. absurd (omega (arith, e)), replicate-NoNul n)

fragment_short_example :
    fragment [] (replicate 12 7)
    ≡ ok (protocol_head ∷ b'0' ∷ decimal (length {A = ℕ} (replicate 12 7)))
fragment_short_example = fragment_short [] (replicate 12 7) (omega arith) (omega arith)

fragment_undefined_example : fragment [] (replicate 1019 7) ≡ undefined
fragment_undefined_example =
    fragment_undefined [] (replicate 1019 7) (omega arith) (replicate-NoNul 1019)

-- Two bytes go out, a call is tried again, the third byte goes out.
abbrev three_answers : List Outcome
three_answers = answer (pos 2) 0 ∷ answer (negsuc 0) 10035 ∷ answer (pos 1) 0 ∷ []

phy_socket_send_data-SendsRight_example :
    SendsRight (5 ∷ 6 ∷ 7 ∷ []) (phy_socket_send_data three_answers (5 ∷ 6 ∷ 7 ∷ []))
phy_socket_send_data-SendsRight_example =
    phy_socket_send_data-SendsRight three_answers (5 ∷ 6 ∷ 7 ∷ [])
      (omega arith, (refl, (omega arith, tt)))

phy_socket_send_data-ends_example :
    phy_socket_send_data three_answers (5 ∷ 6 ∷ 7 ∷ [])
    ≡ ok (record { ret = pos 0; bytes = 5 ∷ 6 ∷ 7 ∷ [] })
phy_socket_send_data-ends_example =
    phy_socket_send_data-ends three_answers (5 ∷ 6 ∷ 7 ∷ [])
      (omega arith, (refl, (omega arith, tt)))
      (λ e. ground arith, (λ e. refl, (λ e. ground arith, tt))) (omega arith)

-- A client that takes all, one that is lost after two bytes, and one that takes all.
abbrev three_clients : ℕ → List Outcome
three_clients fd =
    if fd == 2 then answer (pos 2) 0 ∷ answer (negsuc 0) 10054 ∷ [] else answer (pos 105) 0 ∷ []

three_clients-AllAnswer : AllAnswer three_clients (frame (replicate 100 7)) (1 ∷ 2 ∷ 3 ∷ [])
unfolding phy_socket_send_data socket_send
three_clients-AllAnswer =
    ((omega arith, tt), tt, ((omega arith, (refl, tt)), tt, ((omega arith, tt), tt, tt)))

send_data_to_the_third_party-AllSent_example :
    (ret : ℤ) × (log : List (ℕ × List ℕ)) × (send_data_to_the_third_party [] three_clients
        (1 ∷ 2 ∷ 3 ∷ [])
        0
        (replicate 100 7)
      ≡ ok (ret, log))
    × AllSent (frame (replicate 100 7)) (1 ∷ 2 ∷ 3 ∷ []) log (pos 0) ret
send_data_to_the_third_party-AllSent_example =
    send_data_to_the_third_party-AllSent [] three_clients (1 ∷ 2 ∷ 3 ∷ []) (replicate 100 7)
      (omega arith) (omega arith) (replicate-NoNul 100) three_clients-AllAnswer

-- The second client is gone.
abbrev one_gone : ℕ → List Outcome
one_gone fd = if fd == 2 then answer (pos 0) 0 ∷ [] else answer (pos 105) 0 ∷ []

one_gone-AllAnswer : AllAnswer one_gone (frame (replicate 100 7)) (1 ∷ [])
unfolding phy_socket_send_data socket_send
one_gone-AllAnswer = ((omega arith, tt), tt, tt)

send_data_to_the_third_party-gone_example :
    send_data_to_the_third_party [] one_gone ((1 ∷ []) ++ 2 ∷ 3 ∷ []) 0 (replicate 100 7) ≡ running
send_data_to_the_third_party-gone_example =
    send_data_to_the_third_party-gone [] one_gone (1 ∷ []) 2 (3 ∷ []) (replicate 100 7)
      (omega arith) (omega arith) (replicate-NoNul 100) one_gone-AllAnswer (refl, tt)
