-- ===== src/Frame/Rounds.antt =====
-- About the rounds of `StickDismantleProtocol` of ClientObj/clientobj.cpp that start at a header.
use console_master_rtpvoice.Prelude.{
  ℕ, suc, ◌+◌, ◌-◌, ◌≤◌, ◌<◌, ◌≡◌, ap, ◌∙◌, List, ◌++◌, ℤ, pos, negsuc, ◌-ℤ◌, ok, ◌>>=◌, length,
  length-append, length-replicate, replicate, take-append, drop-append, arith, le→leb,
}
use console_master_rtpvoice.Common.{buf_length}
use console_master_rtpvoice.Text.Digits.{NoDigit, scan_int-dec4}
use console_master_rtpvoice.Socket.{Drain}
use console_master_rtpvoice.Frame.Interface.{Sink}
use console_master_rtpvoice.Frame.{Again, shift, at_header, dismantle, round}
use console_master_rtpvoice.Frame.Stream.{max_payload, header, state}

-- The bytes of `xs` move to the front when they stand behind `pre`.
shift-append :
    (pre xs rest : List ℕ)
    → length pre + length xs ≤ buf_length
    → shift (pre ++ (xs ++ rest)) (length pre) (length xs)
      ≡ ok (xs ++ replicate (buf_length - length xs) 0)
unfolding shift
shift-append pre xs rest h = rw (le→leb _ _ h, drop-append pre (xs ++ rest), take-append xs rest)

pub padded :
    (xs : List ℕ)
    → length xs ≤ buf_length
    → length (xs ++ replicate (buf_length - length xs) 0) ≡ buf_length
padded xs h = omega (
  arith,
  length-append xs (replicate (buf_length - length xs) 0),
  length-replicate {A = ℕ} (buf_length - length xs) 0,
)

module _ {Q : Type 0} (s : Sink Q) (junk : List ℕ) (drains : List Drain)
    (clean : NoDigit junk) where
  -- A header is read and decides the branch.
  pub round-header :
      (again : Again s junk drains) (n c : ℕ) (l : ℤ) (tail : List ℕ) (recv : ℕ) (q : Q)
      → n < 10000
      → 5 ≤ recv
      → round s junk drains again (state (pos 0) c l (header n ++ tail)) recv q
        ≡ at_header s junk drains again
            (pos n -ℤ pos (recv - 5))
            (state (pos n -ℤ pos (recv - 5)) c (pos n) (header n ++ tail))
            recv
            q
  unfolding round
  round-header again n c l tail recv q hn hr = rw (le→leb 5 recv hr, scan_int-dec4 n junk hn clean)

  pub dismantle-append :
      (again : Again s junk drains) (p : List ℕ) (r : ℤ) (c : ℕ) (xs rest : List ℕ) (q : Q)
      → length p + 5 + length xs ≤ buf_length
      → dismantle s junk drains again
          (pos (length p))
          (state r c (pos (length p)) (header (length p) ++ (p ++ (xs ++ rest))))
          (length xs)
          q
        ≡ (s.deliver q p
            >>= again
                (state (pos 0) 0 (pos (length p)) (xs ++ replicate (buf_length - length xs) 0))
                (length xs))
  unfolding dismantle
  dismantle-append again p r c xs rest q h = rw (s.push-deliver q p (xs ++ rest), moved)
    where
      moved :
          shift (header (length p) ++ (p ++ (xs ++ rest))) (length p + 5) (length xs)
          ≡ ok (xs ++ replicate (buf_length - length xs) 0)
      moved =
          ap (λ k. shift (header (length p) ++ (p ++ (xs ++ rest))) k (length xs)) (omega arith)
          ∙ shift-append (header (length p) ++ p) xs rest (omega arith)

  pub round-exact :
      (again : Again s junk drains) (p : List ℕ) (c : ℕ) (l : ℤ) (rest : List ℕ) (q : Q)
      → length p ≤ max_payload
      → round s junk drains again
          (state (pos 0) c l (header (length p) ++ (p ++ rest)))
          (length p + 5)
          q
        ≡ (s.deliver q p >>= λ q'. ok (state (pos 0) 0 (pos 0) (replicate buf_length 0), q'))
  unfolding at_header
  round-exact again p c l rest q h =
      rw
        (
          round-header again (length p) c l (p ++ rest) (length p + 5) q (omega arith)
              (omega arith),
          zero_left,
        )
        (rw (s.push-deliver q p rest))
    where
      zero_left : pos (length p) -ℤ pos (length p + 5 - 5) ≡ pos 0
      zero_left = ground arith

  pub round-more :
      (again : Again s junk drains) (p : List ℕ) (c : ℕ) (l : ℤ) (xs rest : List ℕ) (q : Q)
      → length p ≤ max_payload
      → 0 < length xs
      → length p + 5 + length xs ≤ buf_length
      → round s junk drains again
          (state (pos 0) c l (header (length p) ++ (p ++ (xs ++ rest))))
          (length p + 5 + length xs)
          q
        ≡ (s.deliver q p
            >>= again
                (state (pos 0) 0 (pos (length p)) (xs ++ replicate (buf_length - length xs) 0))
                (length xs))
  unfolding at_header
  round-more again p c l xs rest q h hx fits =
      rw
        (
          round-header again (length p) c l (p ++ (xs ++ rest)) (length p + 5 + length xs) q
              (omega arith) (omega arith),
          over,
          left_over,
        )
        (dismantle-append again p (negsuc (length xs - 1)) c xs rest q fits)
    where
      over : pos (length p) -ℤ pos (length p + 5 + length xs - 5) ≡ negsuc (length xs - 1)
      over = ground arith

      left_over : length p + 5 + length xs - 5 - length p ≡ length xs
      left_over = omega arith

  pub round-stick :
      (again : Again s junk drains) (n c : ℕ) (l : ℤ) (body rest : List ℕ) (q : Q)
      → n < 10000
      → length body < n
      → round s junk drains again
          (state (pos 0) 0 l (header n ++ (body ++ rest)))
          (length body + 5)
          q
        ≡ ok (
          state (pos (n - length body)) (length body + 5) (pos n) (header n ++ (body ++ rest)),
          q,
        )
  unfolding at_header
  round-stick again n c l body rest q h hb =
      rw
        (
          round-header again n 0 l (body ++ rest) (length body + 5) q (omega arith) (omega arith),
          under,
        )
        (ground arith)
    where
      under : pos n -ℤ pos (length body + 5 - 5) ≡ pos (suc (n - length body - 1))
      under = ground arith
