-- ===== src/Frame/Reassembly.antt =====
-- About `StickDismantleProtocol` of ClientObj/clientobj.cpp on a buffer that begins with whole frames.
use console_master_rtpvoice.Prelude.{
  ℕ, zero, suc, ◌+◌, ◌-◌, ◌≤◌, ◌<◌, ◌≡◌, refl, ap, sym, subst₂, append-nil, ◌∙◌, List, [], ◌∷◌,
  ◌++◌, append_assoc, ℤ, pos, ok, ◌>>=◌, >>=_assoc, each, length, length-append, replicate, arith,
}
use mathlib.Core.Path.{fun_ext}
use console_master_rtpvoice.Common.{buf_length}
use console_master_rtpvoice.Text.Digits.{NoDigit}
use console_master_rtpvoice.Socket.{Drain}
use console_master_rtpvoice.Frame.Interface.{Sink}
use console_master_rtpvoice.Frame.{Options, rounds}
use console_master_rtpvoice.Frame.Stream.{
  max_payload, header, frames, ArePayloads, Wait, idle, mid, pending, IsWait, state, Holds,
}
use console_master_rtpvoice.Frame.Rounds.{padded, round-exact, round-more, round-stick}

module _ {Q : Type 0} (s : Sink Q) (junk : List ℕ) (drains : List Drain)
    (clean : NoDigit junk) where
  -- From the label `Start`, with whole frames and then `w` in the buffer.
  abbrev pub Settles : ℕ → List (List ℕ) → Wait → Options → ℕ → Type 0
  Settles fuel ps w o recv =
      (o' : Options) × Holds w o'
      × ((q : Q) → rounds s junk drains fuel o recv q ≡ (each s.deliver q ps >>= λ q'. ok (o', q')))

  pub idle-Holds : Holds idle (state (pos 0) 0 (pos 0) (replicate buf_length 0))
  idle-Holds = record {
    len = pos 0;
    rest = replicate buf_length 0;
    shape = refl;
    full = refl;
    known = tt;
  }

  pub mid-Holds :
      (n : ℕ) (body rest : List ℕ)
      → length (header n ++ (body ++ rest)) ≡ buf_length
      → Holds
          (mid n body)
          (state (pos (n - length body)) (length body + 5) (pos n) (header n ++ (body ++ rest)))
  mid-Holds n body rest h = record {
    len = pos n;
    rest = rest;
    shape =
        ap (λ k. state (pos (n - length body)) k (pos n) (header n ++ (body ++ rest)))
          (omega arith);
    full = h;
    known = refl;
  }

  Settles-more :
      (fuel : ℕ) (p : List ℕ) (ps : List (List ℕ)) (w : Wait) (c : ℕ) (l : ℤ) (xs rest : List ℕ)
      → length p ≤ max_payload
      → 0 < length xs
      → length p + 5 + length xs ≤ buf_length
      → Settles fuel ps w
          (state (pos 0) 0 (pos (length p)) (xs ++ replicate (buf_length - length xs) 0))
          (length xs)
      → Settles
          (suc fuel)
          (p ∷ ps)
          w
          (state (pos 0) c l (header (length p) ++ (p ++ (xs ++ rest))))
          (length p + 5 + length xs)
  unfolding rounds
  Settles-more fuel p ps w c l xs rest h hx fits (o, holds, run) = (
    o,
    holds,
    λ q.
        round-more s junk drains clean (λ o' recv' q'. rounds s junk drains fuel o' recv' q') p c l
          xs rest q h hx fits
        ∙ ap (λ k. s.deliver q p >>= k) (fun_ext run)
        ∙ sym (>>=_assoc (s.deliver q p) (λ q'. each s.deliver q' ps) (λ q'. ok (o, q'))),
  )

  Settles-at :
      (fuel : ℕ) (ps : List (List ℕ)) (w : Wait) (l : ℤ) (buf buf' : List ℕ) (recv recv' : ℕ)
      → buf ≡ buf'
      → recv ≡ recv'
      → Settles fuel ps w (state (pos 0) 0 l buf') recv'
      → Settles fuel ps w (state (pos 0) 0 l buf) recv
  Settles-at fuel ps w l buf buf' recv recv' e f h =
      subst₂ (λ b n. Settles fuel ps w (state (pos 0) 0 l b) n) (sym e) (sym f) h

  -- Whatever frames stand in the buffer, one pass over each is enough.
  pub rounds-Settles :
      (fuel : ℕ) (ps : List (List ℕ)) (w : Wait) (l : ℤ) (xs rest : List ℕ)
      → ArePayloads ps
      → IsWait w
      → xs ≡ frames ps ++ pending w
      → 0 < length xs
      → length (xs ++ rest) ≡ buf_length
      → length xs < fuel
      → Settles fuel ps w (state (pos 0) 0 l (xs ++ rest)) (length xs)
  unfolding rounds
  rounds-Settles zero ps w l xs rest good wait e some_left full enough = elim enough [ ]
  rounds-Settles (suc fuel) [] idle l xs rest good wait e some_left full enough =
      absurd (omega (arith, ap length e))
  rounds-Settles (suc fuel) [] (mid n body) l xs rest good wait e some_left full enough =
      Settles-at (suc fuel) [] (mid n body) l _ (header n ++ (body ++ rest)) _ (length body + 5)
        (ap (λ b. b ++ rest) e) (ap length e ∙ omega arith)
        (
          state (pos (n - length body)) (length body + 5) (pos n) (header n ++ (body ++ rest)),
          mid-Holds n body rest (ap (λ b. length (b ++ rest)) (sym e) ∙ full),
          λ q.
              round-stick s junk drains clean (λ o' recv' q'. rounds s junk drains fuel o' recv' q')
                n 0 l body rest q (omega (arith, wait.1)) wait.0,
        )
  rounds-Settles (suc fuel) (p ∷ []) idle l xs rest good wait e some_left full enough =
      Settles-at (suc fuel) (p ∷ []) idle l _ (header (length p) ++ (p ++ rest)) _ (length p + 5)
        (ap (λ b. b ++ rest) e ∙ simp append-nil) (ap length e ∙ nil_size)
        (
          state (pos 0) 0 (pos 0) (replicate buf_length 0),
          idle-Holds,
          λ q.
              round-exact s junk drains clean (λ o' recv' q'. rounds s junk drains fuel o' recv' q')
                p 0 l rest q good.0.small
              ∙ sym (>>=_assoc (s.deliver q p) ok _),
        )
    where
      nil_size : length (frames (p ∷ []) ++ []) ≡ length p + 5
      nil_size = simp append-nil (omega arith)
  rounds-Settles (suc fuel) (p ∷ ps) w l xs rest good wait e some_left full enough =
      Settles-at (suc fuel) (p ∷ ps) w l _ (header (length p) ++ (p ++ (ys ++ rest))) _
        (length p + 5 + length ys) (ap (λ b. b ++ rest) shape ∙ simp append_assoc) sizes
        (Settles-more fuel p ps w 0 l ys rest good.0.small ys_some (omega (arith, fits)) (
          rounds-Settles fuel ps w (pos (length p)) ys (replicate (buf_length - length ys) 0) good.1
            wait refl ys_some (padded ys (omega (arith, fits))) (omega (arith, sizes))))
    where
      ys : List ℕ
      ys = frames ps ++ pending w

      shape : xs ≡ header (length p) ++ (p ++ ys)
      shape = e ∙ simp append_assoc

      sizes : length xs ≡ length p + 5 + length ys
      sizes = ap length shape ∙ omega (arith, length-append p ys)

      ys_some : 0 < length ys
      ys_some = omega arith

      fits : length p + 5 + length ys ≤ buf_length
      fits = omega (arith, sizes, full, length-append xs rest)
