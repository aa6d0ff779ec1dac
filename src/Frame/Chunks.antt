-- ===== src/Frame/Chunks.antt =====
-- About one call of `StickDismantleProtocol` of ClientObj/clientobj.cpp on a chunk of a stream.
use console_master_rtpvoice.Prelude.{
  ℕ, ◌+◌, ◌-◌, ◌≤◌, ◌<◌, ◌≡◌, refl, ap, sym, ap₂, subst, subst₂, ◌∙◌, List, [], ◌∷◌, ◌++◌,
  append_assoc, append-nil, ℤ, pos, ok, ◌>>=◌, >>=_assoc, each, length, length-append, length-drop,
  drop, blit, le→leb, le→ltb, arith,
}
use console_master_rtpvoice.Common.{buf_length}
use console_master_rtpvoice.Text.Digits.{NoDigit}
use console_master_rtpvoice.Socket.{Drain}
use console_master_rtpvoice.Frame.Interface.{Sink}
use console_master_rtpvoice.Frame.{Options, stick_dismantle}
use console_master_rtpvoice.Frame.Stream.{
  header, frames, ArePayloads, Wait, idle, mid, pending, IsWait, state, Holds,
}
use console_master_rtpvoice.Frame.Reassembly.{Settles, rounds-Settles}
use console_master_rtpvoice.Frame.Continuation.{
  header-injective, blit-append, under-Settles, exact-Settles, over-Settles,
}

-- The longest chunk that `SocketRecv` is asked for.
abbrev pub max_chunk : ℕ
max_chunk = 512

module _ {Q : Type 0} (s : Sink Q) (junk : List ℕ) (drains : List Drain)
    (clean : NoDigit junk) where
  -- What one call does with a chunk: it delivers `ps` in order and stands for `w` afterwards.
  abbrev pub Handles : Options → List ℕ → List (List ℕ) → Wait → Type 0
  Handles o chunk ps w =
      (o' : Options) × Holds w o'
      × ((q : Q)
          → stick_dismantle s junk drains o chunk q
            ≡ (each s.deliver q ps >>= λ q'. ok (pos 0, o', q')))

  Settles-Handles :
      (r : ℤ) (c : ℕ) (l : ℤ) (buf chunk : List ℕ) (ps : List (List ℕ)) (w : Wait)
      → length chunk ≤ max_chunk
      → c + length chunk ≤ buf_length
      → Settles s junk drains clean 2050 ps w (state r c l (blit buf c chunk)) (length chunk)
      → Handles (state r c l buf) chunk ps w
  unfolding stick_dismantle
  Settles-Handles r c l buf chunk ps w hc fits (o, holds, run) = (
    o,
    holds,
    λ q.
        rw (le→ltb 2048 (length chunk) (omega arith), le→leb (c + length chunk) 2048 fits, run q)
          (>>=_assoc (each s.deliver q ps) (λ q'. ok (o, q')) _),
  )

  -- A chunk that comes when nothing is pending.
  idle-Handles :
      (l : ℤ) (rest chunk : List ℕ) (ps : List (List ℕ)) (w : Wait)
      → ArePayloads ps
      → IsWait w
      → 0 < length chunk
      → length chunk ≤ max_chunk
      → chunk ≡ frames ps ++ pending w
      → length rest ≡ buf_length
      → Handles (state (pos 0) 0 l rest) chunk ps w
  idle-Handles l rest chunk ps w good wait some_left hc e full =
      Settles-Handles (pos 0) 0 l rest chunk ps w hc (omega arith) (
        rounds-Settles s junk drains clean 2050 ps w l chunk (drop (0 + length chunk) rest) good
          wait e some_left
          (omega (
            arith,
            length-append chunk (drop (0 + length chunk) rest),
            length-drop (0 + length chunk) rest,
          ))
          (omega arith))

  -- A chunk that comes in the middle of a frame.
  mid-Settles :
      (n : ℕ) (body rest chunk : List ℕ) (ps : List (List ℕ)) (w : Wait)
      → IsWait (mid n body)
      → ArePayloads ps
      → IsWait w
      → 0 < length chunk
      → length chunk ≤ max_chunk
      → header n ++ (body ++ chunk) ≡ frames ps ++ pending w
      → length (header n ++ ((body ++ chunk) ++ rest)) ≡ buf_length
      → Settles s junk drains clean 2050 ps w
          (state
            (pos (n - length body))
            (length body + 5)
            (pos n)
            (header n ++ ((body ++ chunk) ++ rest)))
          (length chunk)
  mid-Settles n body rest chunk [] idle start good wait some_left hc e full =
      absurd (omega (arith, ap length e))
  mid-Settles n body rest chunk [] (mid n' body') start good wait some_left hc e full =
      let (same, rest_same) =
        header-injective n n' (body ++ chunk) body' (omega arith) (omega arith) e in
      subst
        (λ v.
          Settles s junk drains clean 2050 [] v
            (state (pos (n - length body)) (length body + 5) (pos n)
              (header n ++ ((body ++ chunk) ++ rest)))
            (length chunk))
        (ap₂ mid same rest_same)
        (under-Settles s junk drains clean 2049 n (length body + 5) (body ++ chunk) rest
          (n - length body) (length chunk)
          (omega (arith, same, ap length rest_same, length-append body chunk))
          (omega (arith, same, ap length rest_same, length-append body chunk))
          (omega (arith, length-append body chunk)) (omega arith) full)
  mid-Settles n body rest chunk (p ∷ []) idle start good wait some_left hc e full =
      let (same, rest_same) =
        header-injective n (length p) (body ++ chunk) p (omega arith) (omega (arith, good.0.small))
          (e ∙ simp append-nil) in
      let ends : n - length body ≡ length chunk =
        omega (arith, same, ap length rest_same, length-append body chunk) in
      subst₂ (λ o recv. Settles s junk drains clean 2050 (p ∷ []) idle o recv)
        (ap₂
          (λ m b. state (pos (n - length body)) (length body + 5) (pos m) (header m ++ (b ++ rest)))
          (sym same) (sym rest_same))
        ends
        (exact-Settles s junk drains clean 2049 p (n - length body) (length body + 5) rest
          (omega arith))
  mid-Settles n body rest chunk (p ∷ ps) w start good wait some_left hc e full =
      let (same, rest_same) =
        header-injective n (length p) (body ++ chunk) (p ++ ys) (omega arith)
          (omega (arith, good.0.small)) (e ∙ simp append_assoc) in
      let sizes : length body + length chunk ≡ length p + length ys =
        sym (length-append body chunk) ∙ ap length rest_same ∙ length-append p ys in
      let fits = length-append (body ++ chunk) rest in
      subst (λ o. Settles s junk drains clean 2050 (p ∷ ps) w o (length chunk))
        (ap₂ (λ m b. state (pos (n - length body)) (length body + 5) (pos m) (header m ++ b))
          (sym same) (sym (append_assoc p ys rest) ∙ ap (λ b. b ++ rest) (sym rest_same)))
        (over-Settles s junk drains clean 2049 p ps w (n - length body) (length body + 5) ys rest
          (length chunk) good wait (omega arith) (omega (arith, same, sizes)) (omega (arith, sizes))
          refl some_ys (omega (arith, sizes, same)) (omega (arith, sizes)))
    where
      ys : List ℕ
      ys = frames ps ++ pending w

      some_ys : 0 < length ys
      some_ys = omega arith

  -- Where `o` stands for the bytes that are pending, none or a whole header and a part of its body,
  -- a chunk of 1 to 512 bytes that completes the frames `ps` and leaves the bytes of `w`, which
  -- again split no header, has the payloads all delivered, in order, with the return value 0, and
  -- leaves a state that stands for `w`. Every payload has at most 1019 bytes and ends in `}`, and
  -- what `sscanf` meets behind the four digits it is given does not begin with a digit.
  pub stick_dismantle-Handles :
      (w w' : Wait) (o : Options) (chunk : List ℕ) (ps : List (List ℕ))
      → Holds w o
      → IsWait w
      → IsWait w'
      → ArePayloads ps
      → 0 < length chunk
      → length chunk ≤ max_chunk
      → pending w ++ chunk ≡ frames ps ++ pending w'
      → Handles o chunk ps w'
  stick_dismantle-Handles idle w' o chunk ps h start wait good some_left hc e =
      subst (λ v. Handles v chunk ps w') (sym h.shape)
        (idle-Handles h.len h.rest chunk ps w' good wait some_left hc e h.full)
  stick_dismantle-Handles (mid n body) w' o chunk ps h start wait good some_left hc e =
      subst (λ v. Handles v chunk ps w') (sym (h.shape ∙ same))
        (Settles-Handles (pos (n - length body)) (length body + 5) (pos n)
          (header n ++ (body ++ h.rest)) chunk ps w' hc (omega arith)
          (subst
            (λ b.
              Settles s junk drains clean 2050 ps w'
                (state (pos (n - length body)) (length body + 5) (pos n) b) (length chunk))
            (sym placed)
            (mid-Settles n body (drop (length chunk) h.rest) chunk ps w' start good wait some_left
              hc e full)))
    where
      same :
          state
            (pos (n - length body))
            (length (header n ++ body))
            h.len
            (header n ++ (body ++ h.rest))
          ≡ state (pos (n - length body)) (length body + 5) (pos n) (header n ++ (body ++ h.rest))
      same =
          ap₂ (λ a b. state (pos (n - length body)) a b (header n ++ (body ++ h.rest)))
            (omega arith) h.known

      count : length body + 5 ≡ length (header n ++ body)
      count = omega arith

      placed :
          blit (header n ++ (body ++ h.rest)) (length body + 5) chunk
          ≡ header n ++ ((body ++ chunk) ++ drop (length chunk) h.rest)
      placed =
          ap (λ k. blit (header n ++ (body ++ h.rest)) k chunk) count
          ∙ blit-append (header n ++ body) h.rest chunk

      full : length (header n ++ ((body ++ chunk) ++ drop (length chunk) h.rest)) ≡ buf_length
      full = omega (
        arith,
        h.full,
        length-append (body ++ chunk) (drop (length chunk) h.rest),
        length-append body chunk,
        length-append body h.rest,
        length-drop (length chunk) h.rest,
      )
