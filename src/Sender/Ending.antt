-- ===== src/Sender/Ending.antt =====
-- When `PhySocketSendData` of MyProtocol/myprotocol.cpp ends, for the answers of Winsock.
use console_master_rtpvoice.Prelude.{
  ℕ, suc, ◌+◌, ◌≤◌, ◌≡◌, refl, subst, ap, ◌∙◌, ◌⊎◌, inl, inr, true, List, [], ◌∷◌, pos, negsuc,
  pos_part, length, length-drop, drop, take-append-drop, ok, running, arith,
}
use console_master_rtpvoice.Socket.{Outcome, is_try_again}
use console_master_rtpvoice.Socket.Contract.{IsAnswer}
use console_master_rtpvoice.Sender.{phy_socket_send_data}
use console_master_rtpvoice.Sender.Delivery.{
  Answers, took, retry, lost, outcome-Kind, step_took, step_retry, phy_nil, drop_retry,
}

-- A call that did not fail for good.
abbrev pub IsWilling : Outcome → Type 0
IsWilling o = (o.ret ≡ negsuc 0) → is_try_again o.last_error ≡ true

abbrev pub AllWilling : List Outcome → Type 0
AllWilling [] = Unit {0}
AllWilling (o ∷ os) = IsWilling o × AllWilling os

-- How many bytes the calls took together.
abbrev pub taken : List Outcome → ℕ
taken [] = 0
taken (o ∷ os) = pos_part o.ret + taken os

took_count : (o : Outcome) (k : ℕ) → o.ret ≡ pos (suc k) → pos_part o.ret ≡ suc k
took_count o k e = rw e refl

retry_count :
    (o : Outcome)
    → ((o.ret ≡ pos 0) ⊎ ((o.ret ≡ negsuc 0) × (is_try_again o.last_error ≡ true)))
    → pos_part o.ret ≡ 0
retry_count o (inl e) = rw e refl
retry_count o (inr (e, t)) = rw e refl

-- If Winsock never answers with a count beyond what it was asked to send, no call fails for good,
-- and the calls take as many bytes together as there are, the loop ends with 0, and all bytes went
-- out.
pub phy_socket_send_data-ends :
    (answers : List Outcome) (rest : List ℕ)
    → Answers answers rest
    → AllWilling answers
    → length rest ≤ taken answers
    → phy_socket_send_data answers rest ≡ ok (record { ret = pos 0; bytes = rest })
phy_socket_send_data-ends answers [] a w h = phy_nil answers
phy_socket_send_data-ends [] (b ∷ rest) a w h = elim h [ ]
phy_socket_send_data-ends (o ∷ os) (b ∷ rest) a w h =
    elim (outcome-Kind (length (b ∷ rest)) o a.0) [
      | took k e ↦
          rw
            (
              step_took o os b rest k e (subst (λ z. IsAnswer (length (b ∷ rest)) z) e a.0),
              phy_socket_send_data-ends os (drop (suc k) (b ∷ rest))
                  (subst (λ z. Answers os (drop (pos_part z) (b ∷ rest))) e a.1) w.1
                  (omega (arith, length-drop k rest, took_count o k e)),
            )
            (ap (λ l. ok (record { ret = pos 0; bytes = l })) (take-append-drop (suc k) (b ∷ rest)))
      | retry e ↦
          step_retry o os b rest e
          ∙ phy_socket_send_data-ends os (b ∷ rest)
              (subst (λ l. Answers os l) (drop_retry o (b ∷ rest) e) a.1) w.1
              (omega (arith, retry_count o e))
      | lost e t ↦ absurd (cc (w.0 e, t))
    ]

abbrev pub AllGone : List Outcome → Type 0
AllGone [] = Unit {0}
AllGone (o ∷ os) = (o.ret ≡ pos 0) × AllGone os

-- If `send` answers 0 each time, as it does once the peer has closed the connection, the loop with
-- bytes to send never ends.
pub phy_socket_send_data-gone :
    (answers : List Outcome) (b : ℕ) (rest : List ℕ)
    → AllGone answers
    → phy_socket_send_data answers (b ∷ rest) ≡ running
phy_socket_send_data-gone [] b rest g = unfold phy_socket_send_data in refl
phy_socket_send_data-gone (o ∷ os) b rest g =
    step_retry o os b rest (inl g.0) ∙ phy_socket_send_data-gone os b rest g.1
