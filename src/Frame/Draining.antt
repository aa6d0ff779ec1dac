-- ===== src/Frame/Draining.antt =====
-- About `SocketClearRecvBuffer` of SocketWrap/socketwrap.cpp, which `StickDismantleProtocol` of
-- ClientObj/clientobj.cpp calls when it is out of step.
use console_master_rtpvoice.Prelude.{
  ℕ, suc, ◌+◌, ◌≤◌, ◌<◌, ◌≡◌, refl, ap₂, ◌⊎◌, inl, inr, Bool, true, false, ◌&&◌, ltb_ℤ, List, [],
  ◌∷◌, ◌++◌, drop, ℤ, pos, length, le→ltb, le→leb, running, ◌==◌, IsDone, bind-IsDone, if-IsDone,
  arith,
}
use console_master_rtpvoice.Common.{protocol_head}
use console_master_rtpvoice.Socket.{Drain, socket_clear_recv_buffer}
use console_master_rtpvoice.Frame.{round, rounds, at_rest, stick_dismantle}
use console_master_rtpvoice.Frame.Interface.{Sink}
use console_master_rtpvoice.Frame.Stream.{state}

-- A round of the loop that finds bytes, after which it makes another.
abbrev pub finds_bytes : Drain → Bool
finds_bytes d = ltb_ℤ (pos 0) d.selected && ltb_ℤ (pos 0) d.received

-- One of the rounds finds no bytes, or an error.
abbrev pub RunsDry : List Drain → Type 0
RunsDry [] = ⊥
RunsDry (d ∷ ds) = (finds_bytes d ≡ false) ⊎ RunsDry ds

pub drains-IsDone : (ds : List Drain) → RunsDry ds → IsDone (socket_clear_recv_buffer ds)
unfolding socket_clear_recv_buffer
drains-IsDone [] h = absurd h
drains-IsDone (d ∷ ds) h =
    if-IsDone (ltb_ℤ (pos 0) d.selected) _ _
      (λ some.
        if-IsDone (ltb_ℤ (pos 0) d.received) _ _
          (λ more.
            bind-IsDone (socket_clear_recv_buffer ds) _
              (elim h [
                | inl dry ↦ absurd (cc (ap₂ (λ a b. a && b) some more, dry))
                | inr later ↦ drains-IsDone ds later
              ])
              (λ _. tt))
          (λ _. tt))
      (λ _. tt)

-- Every round so far found bytes.
abbrev pub AllFindBytes : List Drain → Type 0
AllFindBytes [] = Unit {0}
AllFindBytes (d ∷ ds) = (finds_bytes d ≡ true) × AllFindBytes ds

drains-running : (ds : List Drain) → AllFindBytes ds → socket_clear_recv_buffer ds ≡ running
unfolding socket_clear_recv_buffer
drains-running [] h = refl
drains-running (d ∷ ds) (some, h) = let e = drains-running ds h in ground (arith, some, e)

module _ {Q : Type 0} (s : Sink Q) (junk : List ℕ) (drains : List Drain) where
  rounds-running :
      (fuel c : ℕ) (l : ℤ) (tail : List ℕ) (recv : ℕ) (q : Q)
      → (c == protocol_head) ≡ false
      → 5 ≤ recv
      → AllFindBytes drains
      → rounds s junk drains (suc fuel) (state (pos 0) 0 l (c ∷ tail)) recv q ≡ running
  unfolding rounds round at_rest
  rounds-running fuel c l tail recv q other some h =
      rw (other, le→ltb recv 5 some, drains-running drains h) refl

  -- With nothing pending and no head byte in front, five bytes or more make it empty the socket.
  pub stick_dismantle-running :
      (l : ℤ) (buf : List ℕ) (c : ℕ) (rest : List ℕ) (q : Q)
      → (c == protocol_head) ≡ false
      → 4 ≤ length rest
      → length rest < 512
      → AllFindBytes drains
      → stick_dismantle s junk drains (state (pos 0) 0 l buf) (c ∷ rest) q ≡ running
  unfolding stick_dismantle
  stick_dismantle-running l buf c rest q other some few h =
      rw
        (
          le→ltb 2048 (length (c ∷ rest)) (omega arith),
          le→leb (0 + length (c ∷ rest)) 2048 (omega arith),
          rounds-running 2049 c l (rest ++ drop (0 + length (c ∷ rest)) buf) (length (c ∷ rest)) q
              other (omega arith) h,
        )
        refl
