-- ===== src/Frame/Termination.antt =====
-- That `StickDismantleProtocol` of ClientObj/clientobj.cpp ends, whatever its state and its input are.
use console_master_rtpvoice.Prelude.{
  ℕ, zero, ◌==◌, suc, ◌+◌, ◌-◌, ◌≤◌, ◌≡◌, ◌≢◌, refl, Option, Bool, true, false, ◌&&◌, List, inl,
  inr, ◌⊎◌, ℤ, pos, negsuc, ◌-ℤ◌, pos_part, eqb_ℤ, leb, ltb, if◌then◌else◌, get_elem?, length, some,
  none, Run, ok, undefined, running, ◌>>=◌, IsDone, bind-IsDone, if-IsDone, arith,
}
use console_master_rtpvoice.Common.{buf_length}
use console_master_rtpvoice.Socket.{Drain, socket_clear_recv_buffer}
use console_master_rtpvoice.Frame.Interface.{Sink}
use console_master_rtpvoice.Frame.{
  Options, Again, shift, is_head, read_length, restarted, add_u32, dismantle, at_header, at_overrun,
  at_rest, round, rounds, stick_dismantle,
}

fits-IsDone :
    {A : Type 0} (b : Bool) (x : List ℕ) (f : List ℕ → Run A)
    → (b ≡ true → IsDone (f x))
    → IsDone ((if b then ok x else undefined) >>= f)
fits-IsDone true x f h = h refl
fits-IsDone false x f h = tt

leb→≤ : (a b : ℕ) → leb a b ≡ true → a ≤ b
leb→≤ a b h = ground arith

-- A move that fits moves no more than the buffer has.
shift-IsDone :
    {A : Type 0} (buf : List ℕ) (off n : ℕ) (f : List ℕ → Run A)
    → (n ≤ buf_length → (b : List ℕ) → IsDone (f b))
    → IsDone (shift buf off n >>= f)
unfolding shift
shift-IsDone buf off n f h =
    fits-IsDone (leb (off + n) buf_length) _ f
      (λ e. h (omega (arith, leb→≤ (off + n) buf_length e)) _)

-- A sink whose push ends.
abbrev pub Ends : {Q : Type 0} → Sink Q → Type 0
Ends {Q} s = (q : Q) (bytes : List ℕ) (n : ℤ) → IsDone (s.push q bytes n)

module _ {Q : Type 0} (s : Sink Q) (junk : List ℕ) (drains : List Drain) (ends : Ends s)
    (stops : IsDone (socket_clear_recv_buffer drains)) where
  dismantle-IsDone :
      (again : Again s junk drains) (l : ℤ) (o : Options) (m : ℕ) (q : Q)
      → (m ≤ buf_length → (b : List ℕ) (q' : Q) → IsDone (again (restarted o b) m q'))
      → IsDone (dismantle s junk drains again l o m q)
  unfolding dismantle
  dismantle-IsDone again (pos n) o m q h =
      bind-IsDone (s.push q _ (pos n)) _ (ends q _ (pos n))
        (λ q'. shift-IsDone o.buf (n + 5) m _ (λ fits b. h fits b q'))
  dismantle-IsDone again (negsuc n) o m q h =
      bind-IsDone (s.push q _ (negsuc n)) _ (ends q _ (negsuc n)) (λ _. tt)

  at_header-IsDone :
      (again : Again s junk drains) (left : ℤ) (o : Options) (recv : ℕ) (q : Q)
      → ((b : List ℕ) (m : ℕ) (q' : Q) → m + 5 ≤ recv → IsDone (again (restarted o b) m q'))
      → 5 ≤ recv
      → IsDone (at_header s junk drains again left o recv q)
  unfolding at_header
  at_header-IsDone again (pos zero) o recv q h some_header =
      bind-IsDone (s.push q _ o.pro_length) _ (ends q _ o.pro_length) (λ q'. tt)
  at_header-IsDone again (pos (suc k)) o recv q h some_header = tt
  at_header-IsDone again (negsuc k) o recv q h some_header =
      dismantle-IsDone again o.pro_length o _ q (λ fits b q'. h b _ q' (omega arith))

  at_overrun-IsDone :
      (again : Again s junk drains) (i : ℤ) (o : Options) (recv : ℕ) (q : Q)
      → ((b : List ℕ) (m : ℕ) (q' : Q) → m ≤ buf_length → IsDone (again (restarted o b) m q'))
      → IsDone (at_overrun s junk drains again i o recv q)
  unfolding at_overrun
  at_overrun-IsDone again (negsuc i) o recv q h = tt
  at_overrun-IsDone again (pos i) o recv q h = by_last (get_elem? o.buf i)
    where
      by_last :
          (x : Option ℕ)
          → IsDone (elim x [
            | none ↦ undefined
            | some c ↦
                if c == b'}'
                then (if leb (pos_part o.pro_length + 5) (add_u32 o.count recv)
                    then dismantle s junk drains again o.pro_length o
                        (add_u32 o.count recv - (pos_part o.pro_length + 5))
                        q
                    else undefined)
                else (shift o.buf o.count recv >>= λ buf'. again (restarted o buf') recv q)
          ])
      by_last none = tt
      by_last (some c) =
          if-IsDone (c == b'}') _ _
            (λ _.
              if-IsDone (leb (pos_part o.pro_length + 5) (add_u32 o.count recv)) _ _
                (λ _. dismantle-IsDone again o.pro_length o _ q (λ fits b q'. h b _ q' fits))
                (λ _. tt))
            (λ _. shift-IsDone o.buf o.count recv _ (λ fits b. h b recv q fits))

  at_rest-IsDone :
      (again : Again s junk drains) (left : ℤ) (o : Options) (recv : ℕ) (q : Q)
      → ((b : List ℕ) (m : ℕ) (q' : Q)
          → left ≢ pos 0
          → m ≤ buf_length
          → IsDone (again (restarted o b) m q'))
      → IsDone (at_rest s junk drains again left o recv q)
  unfolding at_rest
  at_rest-IsDone again (pos zero) o recv q h =
      if-IsDone (ltb recv 5) _ _ (λ _. tt)
        (λ _. bind-IsDone (socket_clear_recv_buffer drains) _ stops (λ _. tt))
  at_rest-IsDone again (negsuc k) o recv q h =
      if-IsDone (ltb recv 5) _ _ (λ _. tt)
        (λ _. bind-IsDone (socket_clear_recv_buffer drains) _ stops (λ _. tt))
  at_rest-IsDone again (pos (suc k)) o recv q h =
      if-IsDone (suc k == recv) _ _
        (λ _. bind-IsDone (s.push q _ o.pro_length) _ (ends q _ o.pro_length) (λ q'. tt))
        (λ _.
          if-IsDone (ltb recv (suc k)) _ _ (λ _. tt)
            (λ _. at_overrun-IsDone again _ o recv q (λ b m q'. h b m q' (ground arith))))

  -- A pass: either the bytes of a header are taken, or more was wanted from a chunk before.
  round-IsDone :
      (again : Again s junk drains) (o : Options) (recv : ℕ) (q : Q)
      → ((o' : Options) (m : ℕ) (q' : Q)
          → o'.bytes_remained ≡ pos 0
          → (m + 5 ≤ recv) ⊎ ((o.bytes_remained ≢ pos 0) × (m ≤ buf_length))
          → IsDone (again o' m q'))
      → IsDone (round s junk drains again o recv q)
  unfolding round
  round-IsDone again o recv q h =
      if-IsDone (is_head o.buf && leb 5 recv && eqb_ℤ o.bytes_remained (pos 0)) _ _
        (λ e.
          at_header-IsDone again (read_length junk o -ℤ pos (recv - 5))
            (record o {
              pro_length = read_length junk o;
              bytes_remained = read_length junk o -ℤ pos (recv - 5);
            })
            recv q (λ b m q' less. h _ m q' refl (inl less)) (ground arith))
        (λ _.
          at_rest-IsDone again o.bytes_remained o recv q
            (λ b m q' wanted fits. h _ m q' refl (inr (wanted, fits))))

  -- With nothing wanted, each further pass takes five bytes.
  rounds-fresh :
      (fuel : ℕ) (o : Options) (recv : ℕ) (q : Q)
      → o.bytes_remained ≡ pos 0
      → recv ≤ fuel
      → IsDone (rounds s junk drains (suc fuel) o recv q)
  unfolding rounds
  rounds-fresh zero o recv q none_wanted enough =
      round-IsDone (λ o' recv' q'. running) o recv q
        (λ o' m q' z e.
          absurd (elim e [ inl less ↦ omega arith | inr (wanted, _) ↦ wanted none_wanted ]))
  rounds-fresh (suc fuel) o recv q none_wanted enough =
      round-IsDone (λ o' recv' q'. rounds s junk drains (suc fuel) o' recv' q') o recv q
        (λ o' m q' z e.
          rounds-fresh fuel o' m q' z
            (elim e [ inl less ↦ omega arith | inr (wanted, _) ↦ absurd (wanted none_wanted) ]))

  rounds-IsDone :
      (fuel : ℕ) (o : Options) (recv : ℕ) (q : Q)
      → recv ≤ buf_length
      → buf_length ≤ fuel
      → IsDone (rounds s junk drains (suc (suc fuel)) o recv q)
  unfolding rounds
  rounds-IsDone fuel o recv q small enough =
      round-IsDone (λ o' recv' q'. rounds s junk drains (suc fuel) o' recv' q') o recv q
        (λ o' m q' z e.
          rounds-fresh fuel o' m q' z
            (elim e [ inl less ↦ omega arith | inr (_, fits) ↦ omega arith ]))

  -- From any state whatever, and for any chunk, well-formed or not, the function ends if the pushes
  -- that it makes end, and its loop that empties the socket: it returns, or it is undefined or throws.
  pub stick_dismantle-IsDone :
      (o : Options) (chunk : List ℕ) (q : Q) → IsDone (stick_dismantle s junk drains o chunk q)
  unfolding stick_dismantle
  stick_dismantle-IsDone o chunk q =
      if-IsDone (ltb buf_length (length chunk)) _ _ (λ _. tt)
        (λ short.
          if-IsDone (leb (o.count + length chunk) buf_length) _ _
            (λ _.
              bind-IsDone (rounds s junk drains 2050 _ (length chunk) q) _
                (rounds-IsDone 2048 _ (length chunk) q (ground arith) (omega arith)) (λ _. tt))
            (λ _. tt))
