-- ===== src/Frame/Overflow.antt =====
-- About the headers that `StickDismantleProtocol` of ClientObj/clientobj.cpp believes: the length of a
-- frame is not compared with the size of the buffer, and not with 0.
use console_master_rtpvoice.Prelude.{
  ℕ, suc, ◌+◌, ◌-◌, ◌≤◌, ◌<◌, ◌≡◌, refl, ap, ◌∙◌, List, [], ◌∷◌, ◌++◌, ℤ, pos, negsuc, ◌-ℤ◌, length,
  drop, blit, ok, undefined, ◌>>=◌, >>=_assoc, le→leb, le→ltb, arith,
}
use console_master_rtpvoice.Common.{buf_length, protocol_head}
use console_master_rtpvoice.Text.Digits.{NoDigit}
use console_master_rtpvoice.Text.Minus.{minus3, scan_int-minus3}
use console_master_rtpvoice.Frame.{Again, rounds, round, at_header, dismantle, stick_dismantle}
use console_master_rtpvoice.Socket.{Drain}
use console_master_rtpvoice.Frame.Interface.{Sink}
use console_master_rtpvoice.Frame.Stream.{header, state}
use console_master_rtpvoice.Frame.Chunks.{max_chunk}
use console_master_rtpvoice.Frame.Rounds.{round-stick}
use console_master_rtpvoice.Frame.SplitHeader.{stick_dismantle-rounds}
use console_master_rtpvoice.Frame.Continuation.{rest-under}

module _ {Q : Type 0} (s : Sink Q) (junk : List ℕ) (drains : List Drain)
    (clean : NoDigit junk) where
  -- A chunk that has no room.
  pub stick_dismantle-full :
      (r l : ℤ) (c : ℕ) (buf chunk : List ℕ) (q : Q)
      → length chunk ≤ max_chunk
      → buf_length < c + length chunk
      → stick_dismantle s junk drains (state r c l buf) chunk q ≡ undefined
  unfolding stick_dismantle
  stick_dismantle-full r l c buf chunk q small full = ground arith

  -- A chunk that does not end the frame.
  pub stick_dismantle-under :
      (r c : ℕ) (l : ℤ) (buf chunk : List ℕ) (q : Q)
      → length chunk ≤ max_chunk
      → c + length chunk ≤ buf_length
      → length chunk < r
      → stick_dismantle s junk drains (state (pos r) c l buf) chunk q
        ≡ ok (pos 0, state (pos (r - length chunk)) (c + length chunk) l (blit buf c chunk), q)
  unfolding stick_dismantle rounds
  stick_dismantle-under r c l buf chunk q small fits less =
      rw
        (
          le→ltb 2048 (length chunk) (omega arith),
          le→leb (c + length chunk) 2048 fits,
          rest-under s junk drains clean (λ o' recv' q'. rounds s junk drains 2049 o' recv' q') r c
              l (blit buf c chunk) (length chunk) q less (omega arith),
        )
        refl

  -- A header whose frame does not end with the chunk.
  pub stick_dismantle-announced :
      (n : ℕ) (l : ℤ) (rest body : List ℕ) (q : Q)
      → n < 10000
      → length body < n
      → length body + 5 ≤ max_chunk
      → stick_dismantle s junk drains (state (pos 0) 0 l rest) (header n ++ body) q
        ≡ ok (
          pos 0,
          state
              (pos (n - length body))
              (length body + 5)
              (pos n)
              (header n ++ (body ++ drop (length body + 5) rest)),
          q,
        )
  unfolding rounds
  stick_dismantle-announced n l rest body q fits less small =
      stick_dismantle-rounds s junk drains clean (pos 0) 0 l [] rest (header n ++ body) q refl
        (omega arith) (omega arith)
      ∙ ap
          (λ k.
            rounds s junk drains 2050 (state (pos 0) 0 l (header n ++ (body ++ drop k rest))) k q
            >>= λ (o', q'). ok (pos 0, o', q'))
          size
      ∙ ap (λ r. r >>= λ (o', q'). ok (pos 0, o', q'))
          (round-stick s junk drains clean (λ o' recv' q'. rounds s junk drains 2049 o' recv' q') n
            0 l body (drop (length body + 5) rest) q fits less)
    where
      size : length (header n ++ body) ≡ length body + 5
      size = omega arith

  -- A header whose length is negative.
  round-minus :
      (again : Again s junk drains) (n : ℕ) (l : ℤ) (tail : List ℕ) (recv : ℕ) (q : Q)
      → n < 999
      → 5 ≤ recv
      → round s junk drains again
          (state (pos 0) 0 l ((protocol_head ∷ minus3 (suc n)) ++ tail))
          recv
          q
        ≡ (s.push q tail (negsuc n) >>= λ q'. undefined)
  unfolding round at_header dismantle
  round-minus again n l tail recv q fits whole =
      rw (le→leb 5 recv whole, scan_int-minus3 n junk fits clean, left) refl
    where
      left : negsuc n -ℤ pos (recv - 5) ≡ negsuc (n + (recv - 5))
      left = ground arith

  -- The frame is pushed with that length, and the copies have it too.
  pub stick_dismantle-minus :
      (n : ℕ) (l : ℤ) (rest body : List ℕ) (q : Q)
      → n < 999
      → length body + 5 ≤ max_chunk
      → stick_dismantle s junk drains
          (state (pos 0) 0 l rest)
          (protocol_head ∷ (minus3 (suc n) ++ body))
          q
        ≡ (s.push q (body ++ drop (length body + 5) rest) (negsuc n) >>= λ q'. undefined)
  unfolding rounds
  stick_dismantle-minus n l rest body q fits small =
      stick_dismantle-rounds s junk drains clean (pos 0) 0 l [] rest
        (protocol_head ∷ (minus3 (suc n) ++ body)) q refl (omega arith) (omega arith)
      ∙ ap
          (λ k.
            rounds s junk drains 2050
              (state (pos 0) 0 l ((protocol_head ∷ minus3 (suc n)) ++ (body ++ drop k rest))) k q
            >>= λ (o', q'). ok (pos 0, o', q'))
          size
      ∙ ap (λ r. r >>= λ (o', q'). ok (pos 0, o', q'))
          (round-minus (λ o' recv' q'. rounds s junk drains 2049 o' recv' q') n l
            (body ++ drop (length body + 5) rest) (length body + 5) q fits (omega arith))
      ∙ >>=_assoc (s.push q (body ++ drop (length body + 5) rest) (negsuc n)) (λ q'. undefined)
          (λ (o', q'). ok (pos 0, o', q'))
    where
      size : length (protocol_head ∷ (minus3 (suc n) ++ body)) ≡ length body + 5
      size = omega arith
