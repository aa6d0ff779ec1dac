-- ===== src/Frame/SplitHeader.antt =====
-- About a header that `StickDismantleProtocol` of ClientObj/clientobj.cpp gets in two chunks.
use console_master_rtpvoice.Prelude.{
  ℕ, suc, ◌+◌, ◌-◌, ◌≤◌, ◌<◌, ◌≡◌, refl, ap, ap₂, sym, ◌∙◌, List, [], ◌++◌, append_assoc, ℤ, pos,
  ◌-ℤ◌, ok, ◌>>=◌, >>=_assoc, length, length-append, drop, blit, replicate, le→leb, le→ltb, arith,
}
use console_master_rtpvoice.Common.{buf_length}
use console_master_rtpvoice.Text.Digits.{NoDigit}
use console_master_rtpvoice.Socket.{Drain}
use console_master_rtpvoice.Frame.Interface.{Sink}
use console_master_rtpvoice.Frame.{
  Options, add_u32, at_header, at_rest, round, rounds, stick_dismantle,
}
use console_master_rtpvoice.Frame.Stream.{header, frame, idle, state, Holds}
use console_master_rtpvoice.Frame.Reassembly.{idle-Holds}
use console_master_rtpvoice.Frame.Rounds.{round-header}
use console_master_rtpvoice.Frame.Continuation.{blit-append, rest-exact}
use console_master_rtpvoice.Frame.Chunks.{max_chunk}

module _ {Q : Type 0} (s : Sink Q) (junk : List ℕ) (drains : List Drain)
    (clean : NoDigit junk) where
  -- Fewer than five bytes only are counted.
  rounds-short :
      (fuel c : ℕ) (l : ℤ) (buf : List ℕ) (recv : ℕ) (q : Q)
      → recv < 5
      → rounds s junk drains (suc fuel) (state (pos 0) c l buf) recv q
        ≡ ok (state (pos 0) (add_u32 c recv) l buf, q)
  unfolding rounds round at_rest
  rounds-short fuel c l buf recv q h = ground arith

  -- With the header in the buffer, `k` of its bytes from an earlier chunk: `k` bytes are still wanted.
  rounds-late :
      (fuel n k c : ℕ) (l : ℤ) (tail : List ℕ) (recv : ℕ) (q : Q)
      → n < 10000
      → 0 < k
      → k ≤ n
      → recv ≡ n + 5 - k
      → c + recv < 10000
      → rounds s junk drains (suc fuel) (state (pos 0) c l (header n ++ tail)) recv q
        ≡ ok (state (pos k) (c + recv) (pos n) (header n ++ tail), q)
  unfolding rounds at_header
  rounds-late fuel n k c l tail recv q small some_early few e fits =
      round-header s junk drains clean (λ o' recv' q'. rounds s junk drains fuel o' recv' q') n c l
        tail recv q small (omega arith)
      ∙ rw left (ground arith)
    where
      left : pos n -ℤ pos (recv - 5) ≡ pos (suc (k - 1))
      left = ground arith

  rounds-last :
      (fuel : ℕ) (p : List ℕ) (k c : ℕ) (rest : List ℕ) (q : Q)
      → 0 < k
      → rounds s junk drains
          (suc fuel)
          (state (pos k) c (pos (length p)) (header (length p) ++ (p ++ rest)))
          k
          q
        ≡ (s.deliver q p >>= λ q'. ok (state (pos 0) 0 (pos 0) (replicate buf_length 0), q'))
  unfolding rounds
  rounds-last fuel p k c rest q h =
      rest-exact s junk drains clean (λ o' recv' q'. rounds s junk drains fuel o' recv' q') p k c
        rest q h

  -- One call, for what its rounds make of the buffer with the chunk in it.
  pub stick_dismantle-rounds :
      (r : ℤ) (c : ℕ) (l : ℤ) (pre rest chunk : List ℕ) (q : Q)
      → c ≡ length pre
      → length chunk ≤ max_chunk
      → c + length chunk ≤ buf_length
      → stick_dismantle s junk drains (state r c l (pre ++ rest)) chunk q ≡ (
          rounds s junk drains 2050
            (state r c l ((pre ++ chunk) ++ drop (length chunk) rest))
            (length chunk)
            q
          >>= λ (o', q'). ok (pos 0, o', q'))
  unfolding stick_dismantle
  stick_dismantle-rounds r c l pre rest chunk q e hc fits =
      rw (le→ltb 2048 (length chunk) (omega arith), le→leb (c + length chunk) 2048 fits)
        (ap
          (λ b. rounds s junk drains 2050 (state r c l b) (length chunk) q >>= λ (o', q').
            ok (pos 0, o', q'))
          (ap (λ n. blit (pre ++ rest) n chunk) e ∙ blit-append pre rest chunk))

  -- From a state in which nothing is pending, a frame comes in two chunks, the first with 1 to 4 bytes
  -- of its header, no more than the payload has, and the second with at most 512. Both calls return
  -- 0 and nothing is delivered, though the frame is whole: as many bytes as the first chunk had are
  -- wanted still. A third chunk of just so many bytes, whatever they are, is taken for the end of the
  -- frame: the payload is delivered, and these bytes are lost.
  pub stick_dismantle-split_header :
      (o : Options) (p first second third : List ℕ) (q : Q)
      → Holds idle o
      → frame p ≡ first ++ second
      → 0 < length first
      → length first ≤ 4
      → length first ≤ length p
      → length second ≤ max_chunk
      → length third ≡ length first
      → (o1 : Options) × (o2 : Options) × (o3 : Options) × (stick_dismantle s junk drains o first q
          ≡ ok (pos 0, o1, q))
        × (stick_dismantle s junk drains o1 second q ≡ ok (pos 0, o2, q))
        × (o2.bytes_remained ≡ pos (length first))
        × (stick_dismantle s junk drains o2 third q ≡ (s.deliver q p >>= λ q'. ok (pos 0, o3, q')))
        × Holds idle o3
  stick_dismantle-split_header o p first second third q h whole some_first short few hc same = (
    o1,
    o2,
    state (pos 0) 0 (pos 0) (replicate buf_length 0),
    ap (λ v. stick_dismantle s junk drains v first q) h.shape
        ∙ stick_dismantle-rounds (pos 0) 0 h.len [] h.rest first q refl (omega arith) (omega arith)
        ∙ ap (λ r. r >>= λ (o', q'). ok (pos 0, o', q'))
            (rounds-short 2049 0 h.len (first ++ rest1) (length first) q (omega arith)),
    stick_dismantle-rounds (pos 0) (add_u32 0 (length first)) h.len first rest1 second q
          (omega arith) hc (omega arith)
        ∙ ap (λ r. r >>= λ (o', q'). ok (pos 0, o', q'))
            (ap
                (λ b.
                  rounds s junk drains 2050 (state (pos 0) (add_u32 0 (length first)) h.len b)
                    (length second) q)
                (placed rest2)
              ∙ rounds-late 2049 (length p) (length first) (add_u32 0 (length first)) h.len
                  (p ++ rest2) (length second) q (omega (arith, sizes)) some_first few
                  (omega (arith, sizes)) (omega (arith, sizes))),
    refl,
    stick_dismantle-rounds (pos (length first)) (add_u32 0 (length first) + length second)
          (pos (length p)) (header (length p) ++ p) rest2 third q (omega (arith, sizes))
          (omega (arith, same)) (omega (arith, sizes, same))
        ∙ ap (λ r. r >>= λ (o', q'). ok (pos 0, o', q'))
            (ap₂ (λ b n. rounds s junk drains 2050 (last_state b) n q) (append_assoc p third rest3)
                same
              ∙ rounds-last 2049 p (length first) (add_u32 0 (length first) + length second)
                  (third ++ rest3) q some_first)
        ∙ >>=_assoc (s.deliver q p)
            (λ q'. ok (state (pos 0) 0 (pos 0) (replicate buf_length 0), q'))
            (λ (o', q'). ok (pos 0, o', q')),
    idle-Holds s junk drains clean,
  )
    where
      rest1 : List ℕ
      rest1 = drop (length first) h.rest

      rest2 : List ℕ
      rest2 = drop (length second) rest1

      rest3 : List ℕ
      rest3 = drop (length third) rest2

      o1 : Options
      o1 = state (pos 0) (add_u32 0 (length first)) h.len (first ++ rest1)

      o2 : Options
      o2 =
          state (pos (length first)) (add_u32 0 (length first) + length second) (pos (length p))
            (header (length p) ++ (p ++ rest2))

      last_state : List ℕ → Options
      last_state b =
          state (pos (length first)) (add_u32 0 (length first) + length second) (pos (length p))
            (header (length p) ++ b)

      sizes : length first + length second ≡ length p + 5
      sizes = omega (arith, ap length whole, length-append first second)

      placed : (rest : List ℕ) → (first ++ second) ++ rest ≡ header (length p) ++ (p ++ rest)
      placed rest = ap (λ l. l ++ rest) (sym whole)
