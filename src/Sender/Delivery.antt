-- ===== src/Sender/Delivery.antt =====
-- About `PhySocketSendData` of MyProtocol/myprotocol.cpp, for the answers of Winsock.
use console_master_rtpvoice.Prelude.{
  ℕ, zero, suc, ◌+◌, ◌≤◌, ◌≡◌, ◌≢◌, refl, subst, ap, sym, ◌∙◌, ◌⊎◌, inl, inr, true, false, List, [],
  ◌∷◌, ◌++◌, append_assoc, ℤ, pos, negsuc, pos_part, length, take, drop, take-append-drop,
  Bool-cases, Run, ok, undefined, thrown, running, map_run, arith, lt→ltb, le→ltb,
}
use console_master_rtpvoice.Socket.{Outcome, is_try_again, socket_send}
use console_master_rtpvoice.Socket.Contract.{IsAnswer}
use console_master_rtpvoice.Sender.{Sent, more_sent, phy_socket_send_data}

-- Every answer is one that Winsock may give for the bytes that are left then.
abbrev pub Answers : List Outcome → List ℕ → Type 0
Answers [] rest = Unit {0}
Answers (o ∷ os) rest = IsAnswer (length rest) o.ret × Answers os (drop (pos_part o.ret) rest)

-- All bytes went out, or the socket was lost with some bytes left.
abbrev pub IsSent : List ℕ → Sent → Type 0
IsSent rest r =
    ((r.ret ≡ pos 0) × (r.bytes ≡ rest))
    ⊎ ((r.ret ≡ negsuc 0) × ((left : List ℕ) × (rest ≡ r.bytes ++ left) × (left ≢ [])))

abbrev pub SendsRight : List ℕ → Run Sent → Type 0
SendsRight rest (ok r) = IsSent rest r
SendsRight rest undefined = ⊥
SendsRight rest thrown = ⊥
SendsRight rest running = Unit {0}

-- A call that took `k + 1` bytes, one to try again, and one that failed.
pub data Kind (o : Outcome) : Type 0 where
  took : (k : ℕ) → o.ret ≡ pos (suc k) → Kind o
  retry : ((o.ret ≡ pos 0) ⊎ ((o.ret ≡ negsuc 0) × (is_try_again o.last_error ≡ true))) → Kind o
  lost : o.ret ≡ negsuc 0 → is_try_again o.last_error ≡ false → Kind o

pub outcome-Kind : (n : ℕ) (o : Outcome) → IsAnswer n o.ret → Kind o
outcome-Kind n o a = go o.ret refl a (Bool-cases (is_try_again o.last_error))
  where
    go :
        (z : ℤ)
        → o.ret ≡ z
        → IsAnswer n z
        → (is_try_again o.last_error ≡ true) ⊎ (is_try_again o.last_error ≡ false)
        → Kind o
    go (pos zero) e a t = retry (inl e)
    go (pos (suc k)) e a t = took k e
    go (negsuc zero) e a (inl t) = retry (inr (e, t))
    go (negsuc zero) e a (inr t) = lost e t
    go (negsuc (suc k)) e a t = absurd (omega arith)

nbytes_took :
    (o : Outcome) (n k : ℕ)
    → o.ret ≡ pos (suc k)
    → (socket_send false (pos (suc n)) o).nbytes ≡ pos (suc k)
unfolding socket_send
nbytes_took o n k e = rw e (ground arith)

send_retry :
    (o : Outcome) (n : ℕ)
    → o.ret ≡ negsuc 0
    → is_try_again o.last_error ≡ true
    → socket_send false (pos (suc n)) o ≡ record { nbytes = negsuc 0; nresult = pos 1 }
unfolding socket_send
send_retry o n e t = ground arith

send_gone :
    (o : Outcome) (n : ℕ)
    → o.ret ≡ pos 0
    → socket_send false (pos (suc n)) o ≡ record { nbytes = pos 0; nresult = negsuc 0 }
unfolding socket_send
send_gone o n e = ground arith

send_lost :
    (o : Outcome) (n : ℕ)
    → o.ret ≡ negsuc 0
    → is_try_again o.last_error ≡ false
    → socket_send false (pos (suc n)) o ≡ record { nbytes = negsuc 0; nresult = negsuc 0 }
unfolding socket_send
send_lost o n e t = ground arith

module _ (o : Outcome) (os : List Outcome) (b : ℕ) (rest : List ℕ) where
  pub step_took :
      (k : ℕ)
      → o.ret ≡ pos (suc k)
      → suc k ≤ length (b ∷ rest)
      → phy_socket_send_data (o ∷ os) (b ∷ rest)
        ≡ map_run
            (more_sent (take (suc k) (b ∷ rest)))
            (phy_socket_send_data os (drop (suc k) (b ∷ rest)))
  unfolding phy_socket_send_data
  step_took k e h = rw (
    nbytes_took o (length rest) k e,
    lt→ltb 0 (suc k + 0) (omega arith),
    le→ltb (length (b ∷ rest)) (suc k) h,
  )

  pub step_retry :
      ((o.ret ≡ pos 0) ⊎ ((o.ret ≡ negsuc 0) × (is_try_again o.last_error ≡ true)))
      → phy_socket_send_data (o ∷ os) (b ∷ rest) ≡ phy_socket_send_data os (b ∷ rest)
  unfolding phy_socket_send_data
  step_retry (inl e) = rw (send_gone o (length rest) e)
  step_retry (inr (e, t)) = rw (send_retry o (length rest) e t)

  pub step_lost :
      o.ret ≡ negsuc 0
      → is_try_again o.last_error ≡ false
      → phy_socket_send_data (o ∷ os) (b ∷ rest) ≡ ok (record { ret = negsuc 0; bytes = [] })
  unfolding phy_socket_send_data
  step_lost e t = rw (send_lost o (length rest) e t)

pub phy_nil :
    (os : List Outcome) → phy_socket_send_data os [] ≡ ok (record { ret = pos 0; bytes = [] })
unfolding phy_socket_send_data
phy_nil [] = refl
phy_nil (o ∷ os) = refl

pub drop_retry :
    (o : Outcome) (l : List ℕ)
    → ((o.ret ≡ pos 0) ⊎ ((o.ret ≡ negsuc 0) × (is_try_again o.last_error ≡ true)))
    → drop (pos_part o.ret) l ≡ l
drop_retry o l (inl e) = rw e
drop_retry o l (inr (e, t)) = rw e

more-SendsRight :
    (n : ℕ) (rest : List ℕ) (m : Run Sent)
    → SendsRight (drop n rest) m
    → SendsRight rest (map_run (more_sent (take n rest)) m)
more-SendsRight n rest (ok r) (inl (e, f)) =
    inl (e, ap (λ l. take n rest ++ l) f ∙ take-append-drop n rest)
more-SendsRight n rest (ok r) (inr (e, (left, f, ne))) = inr (
  e,
  (
    left,
    sym (take-append-drop n rest)
        ∙ ap (λ l. take n rest ++ l) f
        ∙ sym (append_assoc (take n rest) r.bytes left),
    ne,
  ),
)
more-SendsRight n rest undefined h = h
more-SendsRight n rest thrown h = h
more-SendsRight n rest running h = h

-- If Winsock never answers with a count beyond what it was asked to send, or below -1,
-- `PhySocketSendData` has no undefined behaviour, and if it returns, it returns 0 with exactly the
-- bytes it was given sent in order, or -1 with a proper front of them.
pub phy_socket_send_data-SendsRight :
    (answers : List Outcome) (rest : List ℕ)
    → Answers answers rest
    → SendsRight rest (phy_socket_send_data answers rest)
phy_socket_send_data-SendsRight [] [] a = rw (phy_nil []) (inl (refl, refl))
phy_socket_send_data-SendsRight [] (b ∷ rest) a = unfold phy_socket_send_data in tt
phy_socket_send_data-SendsRight (o ∷ os) [] a = rw (phy_nil (o ∷ os)) (inl (refl, refl))
phy_socket_send_data-SendsRight (o ∷ os) (b ∷ rest) a =
    elim (outcome-Kind (length (b ∷ rest)) o a.0) [
      | took k e ↦
          rw (step_took o os b rest k e (subst (λ z. IsAnswer (length (b ∷ rest)) z) e a.0)) (
            more-SendsRight (suc k) (b ∷ rest) _ (
              phy_socket_send_data-SendsRight os (drop (suc k) (b ∷ rest))
                (subst (λ z. Answers os (drop (pos_part z) (b ∷ rest))) e a.1)))
      | retry e ↦ rw (step_retry o os b rest e) (
          phy_socket_send_data-SendsRight os (b ∷ rest)
            (subst (λ l. Answers os l) (drop_retry o (b ∷ rest) e) a.1))
      | lost e t ↦ rw (step_lost o os b rest e t) (inr (refl, (b ∷ rest, refl, λ none_left. cc)))
    ]
