-- ===== src/Frame/Continuation.antt =====
-- About the rounds of `StickDismantleProtocol` of ClientObj/clientobj.cpp that go on with a frame
-- whose header was read before.
use mathlib.Core.Path.{fun_ext}
use console_master_rtpvoice.Prelude.{
  ℕ, zero, suc, ◌+◌, ◌-◌, ◌≤◌, ◌<◌, ◌≡◌, refl, ap, sym, ap₂, subst, ◌∙◌, List, [], ◌∷◌, ◌++◌,
  append_assoc, ℤ, pos, ◌+ℤ◌, ok, ◌>>=◌, >>=_assoc, each, length, length-append, take, drop,
  replicate, blit, get_elem?, some, false, ◌==◌, le→leb, le→ltb, ==_refl, take-append,
  drop-append_add, arith,
}
use console_master_rtpvoice.Common.{buf_length}
use console_master_rtpvoice.Text.Digits.{dec4, NoDigit, scan_int-dec4}
use console_master_rtpvoice.Text.{scan_int}
use console_master_rtpvoice.Socket.{Drain}
use console_master_rtpvoice.Frame.Interface.{Sink}
use console_master_rtpvoice.Frame.{Again, add_u32, dismantle, at_overrun, at_rest, round, rounds}
use console_master_rtpvoice.Frame.Stream.{
  header, frames, IsPayload, ArePayloads, Wait, idle, mid, pending, IsWait, state,
}
use console_master_rtpvoice.Frame.Reassembly.{Settles, idle-Holds, mid-Holds, rounds-Settles}
use console_master_rtpvoice.Frame.Rounds.{padded, dismantle-append}

-- Two headers that begin the same bytes give the same length.
pub header-injective :
    (n m : ℕ) (xs ys : List ℕ)
    → n < 10000
    → m < 10000
    → header n ++ xs ≡ header m ++ ys
    → (n ≡ m) × (xs ≡ ys)
header-injective n m xs ys hn hm e = (same, ap (drop 5) e)
  where
    digits : scan_int (dec4 n ++ []) ≡ scan_int (dec4 m ++ [])
    digits = ap (λ l. scan_int (take 4 (drop 1 l))) e

    same : n ≡ m
    same = cc (digits, scan_int-dec4 n [] hn tt, scan_int-dec4 m [] hm tt)

pub blit-append :
    (pre rest chunk : List ℕ)
    → blit (pre ++ rest) (length pre) chunk ≡ (pre ++ chunk) ++ drop (length chunk) rest
blit-append pre rest chunk =
    ap₂ (λ a b. (a ++ chunk) ++ b) (take-append pre rest) (drop-append_add pre rest (length chunk))

-- The byte that stands behind `xs`.
get_elem?-append :
    (xs : List ℕ) (y : ℕ) (ys : List ℕ) → get_elem? (xs ++ (y ∷ ys)) (length xs) ≡ some y
get_elem?-append [] y ys = refl
get_elem?-append (x ∷ xs) y ys = get_elem?-append xs y ys

-- The last byte of a payload in the buffer, where the C code looks for it.
last_byte :
    (p : List ℕ) (ys : List ℕ)
    → IsPayload p
    → (pos (length p) +ℤ pos 4 ≡ pos (length p + 4))
      × (get_elem? (header (length p) ++ (p ++ ys)) (length p + 4) ≡ some b'}')
last_byte p ys good = (
  ground arith,
  subst (λ i. get_elem? (header (length p) ++ (p ++ ys)) i ≡ some b'}') (sym place)
      (subst (λ l. get_elem? (l ++ ys) (length good.front) ≡ some b'}') (sym good.closes)
        (rw append_assoc (get_elem?-append good.front b'}' ys))),
)
  where
    place : length p + 4 ≡ suc (suc (suc (suc (suc (length good.front)))))
    place = omega (arith, ap length good.closes, length-append good.front (b'}' ∷ []))

module _ {Q : Type 0} (s : Sink Q) (junk : List ℕ) (drains : List Drain)
    (clean : NoDigit junk) where
  -- With bytes still wanted, a pass goes by how many there are.
  round-rest :
      (again : Again s junk drains) (k c : ℕ) (l : ℤ) (buf : List ℕ) (recv : ℕ) (q : Q)
      → round s junk drains again (state (pos (suc k)) c l buf) recv q
        ≡ at_rest s junk drains again (pos (suc k)) (state (pos (suc k)) c l buf) recv q
  unfolding round
  round-rest again k c l buf recv q = ground arith

  -- The frame is still not whole.
  pub rest-under :
      (again : Again s junk drains) (r c : ℕ) (l : ℤ) (buf : List ℕ) (recv : ℕ) (q : Q)
      → recv < r
      → c + recv < 10000
      → round s junk drains again (state (pos r) c l buf) recv q
        ≡ ok (state (pos (r - recv)) (c + recv) l buf, q)
  unfolding at_rest
  rest-under again zero c l buf recv q h small = elim h [ ]
  rest-under again (suc k) c l buf recv q h small =
      rw (round-rest again k c l buf recv q) (ground arith)

  -- The chunk ends the frame.
  pub rest-exact :
      (again : Again s junk drains) (p : List ℕ) (r c : ℕ) (rest : List ℕ) (q : Q)
      → 0 < r
      → round s junk drains again
          (state (pos r) c (pos (length p)) (header (length p) ++ (p ++ rest)))
          r
          q
        ≡ (s.deliver q p >>= λ q'. ok (state (pos 0) 0 (pos 0) (replicate buf_length 0), q'))
  unfolding at_rest
  rest-exact again p zero c rest q h = elim h [ ]
  rest-exact again p (suc k) c rest q h =
      rw (
        round-rest again k c (pos (length p)) _ (suc k) q,
        ==_refl (suc k),
        s.push-deliver q p rest,
      )

  overrun_closes :
      (again : Again s junk drains) (i : ℕ) (r : ℤ) (c : ℕ) (p xs rest : List ℕ) (recv : ℕ) (q : Q)
      → add_u32 c recv ≡ length p + 5 + length xs
      → get_elem? (header (length p) ++ (p ++ (xs ++ rest))) i ≡ some b'}'
      → at_overrun s junk drains again
          (pos i)
          (state r c (pos (length p)) (header (length p) ++ (p ++ (xs ++ rest))))
          recv
          q
        ≡ dismantle s junk drains again
            (pos (length p))
            (state r c (pos (length p)) (header (length p) ++ (p ++ (xs ++ rest))))
            (length xs)
            q
  unfolding at_overrun
  overrun_closes again i r c p xs rest recv q whole close = rw (
    close,
    at_overrun,
    whole,
    le→leb (length p + 5) (length p + 5 + length xs) (omega arith),
    left_over,
  )
    where
      left_over : length p + 5 + length xs - (length p + 5) ≡ length xs
      left_over = omega arith

  -- The chunk ends the frame and goes on.
  rest-over :
      (again : Again s junk drains) (p : List ℕ) (r c : ℕ) (xs rest : List ℕ) (recv : ℕ) (q : Q)
      → IsPayload p
      → 0 < r
      → r < recv
      → c + recv ≡ length p + 5 + length xs
      → length p + 5 + length xs ≤ buf_length
      → round s junk drains again
          (state (pos r) c (pos (length p)) (header (length p) ++ (p ++ (xs ++ rest))))
          recv
          q
        ≡ (s.deliver q p
            >>= again
                (state (pos 0) 0 (pos (length p)) (xs ++ replicate (buf_length - length xs) 0))
                (length xs))
  unfolding at_rest
  rest-over again p zero c xs rest recv q good h over sizes fits = elim h [ ]
  rest-over again p (suc k) c xs rest recv q good h over sizes fits =
      let (index, close) = last_byte p (xs ++ rest) good in
      rw
        (
          round-rest again k c (pos (length p)) _ recv q,
          not_exact,
          le→ltb recv (suc k) (omega arith),
          index,
          overrun_closes again (length p + 4) (pos (suc k)) c p xs rest recv q whole close,
        )
        (dismantle-append s junk drains clean again p (pos (suc k)) c xs rest q fits)
    where
      not_exact : (suc k == recv) ≡ false
      not_exact = ground arith

      whole : add_u32 c recv ≡ length p + 5 + length xs
      whole = omega arith

  pub under-Settles :
      (fuel n c : ℕ) (body rest : List ℕ) (r recv : ℕ)
      → recv < r
      → n ≡ length body + (r - recv)
      → c + recv ≡ length body + 5
      → c + recv < 10000
      → length (header n ++ (body ++ rest)) ≡ buf_length
      → Settles s junk drains clean
          (suc fuel)
          []
          (mid n body)
          (state (pos r) c (pos n) (header n ++ (body ++ rest)))
          recv
  unfolding rounds
  under-Settles fuel n c body rest r recv h left sizes small full = (
    state (pos (n - length body)) (length body + 5) (pos n) (header n ++ (body ++ rest)),
    mid-Holds s junk drains clean n body rest full,
    λ q.
        rest-under (λ o' recv' q'. rounds s junk drains fuel o' recv' q') r c (pos n) _ recv q h
          small
        ∙ ap₂ (λ a b. ok (state (pos a) b (pos n) (header n ++ (body ++ rest)), q)) (omega arith)
            sizes,
  )

  pub exact-Settles :
      (fuel : ℕ) (p : List ℕ) (r c : ℕ) (rest : List ℕ)
      → 0 < r
      → Settles s junk drains clean
          (suc fuel)
          (p ∷ [])
          idle
          (state (pos r) c (pos (length p)) (header (length p) ++ (p ++ rest)))
          r
  unfolding rounds
  exact-Settles fuel p r c rest h = (
    state (pos 0) 0 (pos 0) (replicate buf_length 0),
    idle-Holds s junk drains clean,
    λ q.
        rest-exact (λ o' recv' q'. rounds s junk drains fuel o' recv' q') p r c rest q h
        ∙ sym (>>=_assoc (s.deliver q p) ok _),
  )

  pub over-Settles :
      (fuel : ℕ) (p : List ℕ) (ps : List (List ℕ)) (w : Wait) (r c : ℕ) (ys rest : List ℕ)
      (recv : ℕ)
      → ArePayloads (p ∷ ps)
      → IsWait w
      → 0 < r
      → r < recv
      → c + recv ≡ length p + 5 + length ys
      → ys ≡ frames ps ++ pending w
      → 0 < length ys
      → length p + 5 + length ys ≤ buf_length
      → length ys < fuel
      → Settles s junk drains clean
          (suc fuel)
          (p ∷ ps)
          w
          (state (pos r) c (pos (length p)) (header (length p) ++ (p ++ (ys ++ rest))))
          recv
  unfolding rounds
  over-Settles fuel p ps w r c ys rest recv good wait h over sizes e some_left fits enough =
      let (o, holds, run) =
        rounds-Settles s junk drains clean fuel ps w (pos (length p)) ys
          (replicate (buf_length - length ys) 0) good.1 wait e some_left (padded ys (omega arith))
          enough in
      (
        o,
        holds,
        λ q.
            rest-over (λ o' recv' q'. rounds s junk drains fuel o' recv' q') p r c ys rest recv q
              good.0 h over sizes fits
            ∙ ap (λ k. s.deliver q p >>= k) (fun_ext run)
            ∙ sym (>>=_assoc (s.deliver q p) (λ q'. each s.deliver q' ps) (λ q'. ok (o, q'))),
      )
