-- ===== src/Rtp/Polling.antt =====
-- About the poll thread of MyRTP/myrtp.cpp and the voice that it hands on to mymaster.cpp.
use console_master_rtpvoice.Prelude.{
  ℕ, ◌≡◌, refl, ap, ap₂, sym, subst, ◌∙◌, Bool, true, false, List, [], ◌∷◌, ◌++◌, append_assoc,
  append-nil, ◌⊎◌, inl, inr, Bool-cases, some, ℤ, if◌then◌else◌, ok, arith,
}
use console_master_rtpvoice.Common.{ResponeRtpData}
use console_master_rtpvoice.Master.{Action, Master}
use console_master_rtpvoice.Rtp.{
  RtpPacket, RtpSource, MyRtp, Effect, end_access, delete_packet, poll, wait, bye_destroy,
  check_error, process_rtp_packet, process_packets, process_sources, Round, poll_round, poll_rounds,
  on_poll_thread_func, get_rtp_payload_data, get_rtp_payload_data_length, get_rtp_ssrc,
}
use console_master_rtpvoice.Rtp.Voice.{
  voice_of, voice_of_sources, voice_of_rounds, packets_of_sources, packets_of_rounds, picked,
  called, deleted, picked-append, file_bytes, hand_on, voice_bytes, hand_on-file_bytes,
}

-- What a part of the loop does: it calls back with `vs` in order, if a function is set, which stays,
-- and deletes `ps` in order.
abbrev Hands : MyRtp → MyRtp × List Effect → List ResponeRtpData → List RtpPacket → Type 0
Hands r t vs ps =
    (t.0.has_callback ≡ r.has_callback)
    × (picked called t.1 ≡ (if r.has_callback then vs else []))
    × (picked deleted t.1 ≡ ps)

if-append :
    {A : Type 0} (b : Bool) (xs ys : List A)
    → (if b then xs ++ ys else []) ≡ (if b then xs else []) ++ (if b then ys else [])
if-append true xs ys = refl
if-append false xs ys = refl

Hands-append :
    (r r1 r2 : MyRtp) (es more : List Effect) (vs ws : List ResponeRtpData) (ps qs : List RtpPacket)
    → Hands r (r1, es) vs ps
    → Hands r1 (r2, more) ws qs
    → Hands r (r2, es ++ more) (vs ++ ws) (ps ++ qs)
Hands-append r r1 r2 es more vs ws ps qs h k = (
  k.0 ∙ h.0,
  picked-append called es more
      ∙ ap₂ (λ a b. a ++ b) h.1 (k.1 ∙ ap (λ b. if b then ws else []) h.0)
      ∙ sym (if-append r.has_callback vs ws),
  picked-append deleted es more ∙ ap₂ (λ a b. a ++ b) h.2 k.2,
)

process_packet-Hands :
    (ssrc : ℕ) (p : RtpPacket) (r : MyRtp)
    → Hands r
        ((process_rtp_packet ssrc p r).0, (process_rtp_packet ssrc p r).1 ++ delete_packet p ∷ [])
        (voice_of ssrc (p ∷ []))
        (p ∷ [])
unfolding process_rtp_packet voice_of picked
process_packet-Hands ssrc p r = ground arith

process_packets-Hands :
    (ssrc : ℕ) (ps : List RtpPacket) (r : MyRtp)
    → Hands r (process_packets ssrc ps r) (voice_of ssrc ps) ps
unfolding process_packets voice_of picked
process_packets-Hands ssrc [] r = (refl, ground arith, refl)
process_packets-Hands ssrc (p ∷ ps) r =
    let r1 = (process_rtp_packet ssrc p r).0 in
    subst (λ es. Hands r ((process_packets ssrc ps r1).0, es) (voice_of ssrc (p ∷ ps)) (p ∷ ps))
      (append_assoc (process_rtp_packet ssrc p r).1 (delete_packet p ∷ [])
        (process_packets ssrc ps r1).1)
      (Hands-append r r1 (process_packets ssrc ps r1).0
        ((process_rtp_packet ssrc p r).1 ++ delete_packet p ∷ []) (process_packets ssrc ps r1).1
        (voice_of ssrc (p ∷ [])) (voice_of ssrc ps) (p ∷ []) ps (process_packet-Hands ssrc p r)
        (process_packets-Hands ssrc ps r1))

process_sources-Hands :
    (ss : List RtpSource) (r : MyRtp)
    → Hands r (process_sources ss r) (voice_of_sources ss) (packets_of_sources ss)
unfolding process_sources voice_of_sources packets_of_sources picked
process_sources-Hands [] r = (refl, ground arith, refl)
process_sources-Hands (s ∷ ss) r =
    let r1 = (process_packets s.ssrc s.packets r).0 in
    Hands-append r r1 (process_sources ss r1).0 (process_packets s.ssrc s.packets r).1
      (process_sources ss r1).1 (voice_of s.ssrc s.packets) (voice_of_sources ss) s.packets
      (packets_of_sources ss) (process_packets-Hands s.ssrc s.packets r)
      (process_sources-Hands ss r1)

-- The end of a round calls nobody back and deletes nothing.
quiet :
    (r : MyRtp) (status : ℤ)
    → Hands r (r, end_access ∷ poll status ∷ check_error status ++ wait ∷ []) [] []
unfolding picked
quiet r status = ground arith

poll_round-Hands :
    (m : Round) (r : MyRtp)
    → Hands r (poll_round m r) (voice_of_sources m.sources) (packets_of_sources m.sources)
unfolding poll_round picked
poll_round-Hands m r =
    let (h0, h1, h2) =
      Hands-append r (process_sources m.sources r).0 (process_sources m.sources r).0
        (process_sources m.sources r).1
        (end_access ∷ poll m.status ∷ check_error m.status ++ wait ∷ [])
        (voice_of_sources m.sources) [] (packets_of_sources m.sources) []
        (process_sources-Hands m.sources r) (quiet (process_sources m.sources r).0 m.status) in
    (
      h0,
      h1 ∙ ap (λ l. if r.has_callback then l else []) (append-nil (voice_of_sources m.sources)),
      h2 ∙ append-nil (packets_of_sources m.sources),
    )

-- A round that meets the exit flag.
abbrev pub HasExit : List Round → Type 0
HasExit [] = ⊥
HasExit (m ∷ ms) = (m.exit_flag ≡ true) ⊎ HasExit ms

poll_rounds-Hands :
    (ms : List Round) (r : MyRtp)
    → HasExit ms
    → (r' : MyRtp) × (es : List Effect) × (poll_rounds ms r ≡ ok (r', es))
      × Hands r (r', es) (voice_of_rounds ms) (packets_of_rounds ms)
unfolding poll_rounds voice_of_rounds packets_of_rounds picked
poll_rounds-Hands [] r h = absurd h
poll_rounds-Hands (m ∷ ms) r h = elim (Bool-cases m.exit_flag) [
  | inl last ↦ (
    (poll_round m r).0,
    (poll_round m r).1 ++ bye_destroy ∷ [],
    rw last refl,
    rw last (
        Hands-append r (poll_round m r).0 (poll_round m r).0 (poll_round m r).1 (bye_destroy ∷ [])
          (voice_of_sources m.sources) [] (packets_of_sources m.sources) [] (poll_round-Hands m r)
          (refl, ground arith, refl)),
  )
  | inr on ↦
      let (r2, more, e, hands) = poll_rounds-Hands ms (poll_round m r).0 (still m.exit_flag h on) in
      (
        r2,
        (poll_round m r).1 ++ more,
        rw (on, e) refl,
        rw on (
            Hands-append r (poll_round m r).0 r2 (poll_round m r).1 more
              (voice_of_sources m.sources) (voice_of_rounds ms) (packets_of_sources m.sources)
              (packets_of_rounds ms) (poll_round-Hands m r) hands),
      )
]
  where
    still : (b : Bool) → (b ≡ true) ⊎ HasExit ms → b ≡ false → HasExit ms
    still b (inl yes') no' = absurd (cc)
    still b (inr later) no' = later

-- Where the callback is set and the voice file is open, the poll thread that meets the exit flag in
-- some round ends, and calls back with the packets of all sources, in order, each with its source's
-- SSRC; the calls write just their payloads to the file, in order, and every packet that was taken is
-- deleted once.
pub on_poll_thread_func-file :
    (ms : List Round) (r : MyRtp) (m : Master)
    → HasExit ms
    → r.has_callback ≡ true
    → m.has_file ≡ true
    → (r' : MyRtp) × (es : List Effect) × (acts : List Action) × (on_poll_thread_func ms r
        ≡ ok (r', es))
      × (picked called es ≡ voice_of_rounds ms)
      × (hand_on (picked called es) m ≡ ok (m, acts))
      × (file_bytes acts ≡ voice_bytes (voice_of_rounds ms))
      × (picked deleted es ≡ packets_of_rounds ms)
unfolding on_poll_thread_func
on_poll_thread_func-file ms r m h callback file =
    let (r', es, e, (h0, h1, h2)) =
      poll_rounds-Hands ms (record r { poll_thread_isactive = true }) h in
    let all : picked called es ≡ voice_of_rounds ms =
      h1 ∙ ap (λ b. if b then voice_of_rounds ms else []) callback in
    let (acts, run, bytes) = hand_on-file_bytes (voice_of_rounds ms) m file in
    (r', es, acts, e, all, ap (λ vs. hand_on vs m) all ∙ run, bytes, h2)

-- After a source with some packets the channel's pointer is into the last of them, as the getters
-- give it, with its length and its source's SSRC; every one of them was deleted, this one too.
process_packets-dangling :
    (ssrc : ℕ) (ps : List RtpPacket) (p : RtpPacket) (r : MyRtp)
    → (get_rtp_payload_data (process_packets ssrc (ps ++ p ∷ []) r).0 ≡ some p)
      × (get_rtp_payload_data_length (process_packets ssrc (ps ++ p ∷ []) r).0 ≡ p.payload_length)
      × (get_rtp_ssrc (process_packets ssrc (ps ++ p ∷ []) r).0 ≡ ssrc)
      × (picked deleted (process_packets ssrc (ps ++ p ∷ []) r).1 ≡ ps ++ p ∷ [])
unfolding process_packets process_rtp_packet
process_packets-dangling ssrc ps p r =
    let (at, size, from) = last_packet ssrc ps p r in
    (at, size, from, (process_packets-Hands ssrc (ps ++ p ∷ []) r).2)
  where
    last_packet :
        (ssrc : ℕ) (ps : List RtpPacket) (p : RtpPacket) (r : MyRtp)
        → ((process_packets ssrc (ps ++ p ∷ []) r).0.payloaddata ≡ some p)
          × ((process_packets ssrc (ps ++ p ∷ []) r).0.payloaddatalength ≡ p.payload_length)
          × ((process_packets ssrc (ps ++ p ∷ []) r).0.ssrc ≡ ssrc)
    last_packet ssrc [] p r = (refl, refl, refl)
    last_packet ssrc (x ∷ ps) p r = last_packet ssrc ps p (process_rtp_packet ssrc x r).0
