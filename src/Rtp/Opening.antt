-- ===== src/Rtp/Opening.antt =====
-- About the opening of the first voice channel: `MasterOnDataFunc` of mymaster.cpp, which makes the
-- channel, against the poll thread of MyRTP/myrtp.cpp, which runs from `RtpParamsInit` on.
use console_master_rtpvoice.Prelude.{
  ℕ, ℤ, ◌≡◌, refl, ap, ◌∙◌, true, false, List, [], ◌∷◌, ◌++◌, Run, map_run, ok, undefined, thrown,
  running, ◌>>=◌, if◌then◌else◌, take,
}
use console_master_rtpvoice.Common.{
  ResponeRtpData, channel1_rtp_base_port, channel1_rtp_dest_port, channel1_rtp_ssrc,
}
use console_master_rtpvoice.Master.{Action, write_file, Master, rtp_channel1_on_data}
use console_master_rtpvoice.Rtp.{
  RtpPacket, call_back, MyRtp, my_rtp, set_call_back_func, process_rtp_packet, rtp_params_init,
}
use console_master_rtpvoice.Rtp.Voice.{called, picked, hand_on, file_bytes}

-- A turn: a packet of a source is processed by the poll thread, or the request's thread goes on to
-- `SetCallBackFunc`, or to `fopen`, which succeeds.
pub data Turn : Type 0 where
  packet : ℕ → RtpPacket → Turn
  set_call_back : Turn
  open_file : Turn

-- The channel, the master and what is written, turn by turn.
pub opening : List Turn → MyRtp → Master → Run (MyRtp × Master × List Action)
opening [] r m = ok (r, m, [])
opening (packet ssrc p ∷ turns) r m = do
  (m1, acts) ← hand_on (picked called (process_rtp_packet ssrc p r).1) m
  (r2, m2, more) ← opening turns (process_rtp_packet ssrc p r).0 m1
  ok (r2, m2, acts ++ more)
opening (set_call_back ∷ turns) r m = opening turns (set_call_back_func r) m
opening (open_file ∷ turns) r m = opening turns r (record m { has_file = true })

-- Packets, each with the SSRC of its source.
abbrev pub packets : List (ℕ × RtpPacket) → List Turn
packets [] = []
packets ((ssrc, p) ∷ ps) = packet ssrc p ∷ packets ps

-- The bytes of their payloads.
abbrev pub payloads : List (ℕ × RtpPacket) → List ℕ
payloads [] = []
payloads ((ssrc, p) ∷ ps) = take p.payload_length p.payload_data ++ payloads ps

abbrev voice : ℕ → RtpPacket → ResponeRtpData
voice ssrc p = record {
  payloaddatalength = p.payload_length;
  ssrc = ssrc;
  payloaddata = p.payload_data;
}

-- The channel once its thread runs: no function is set yet.
abbrev pub started : ℤ → ℤ → MyRtp
unfolding rtp_params_init
started created added =
    (rtp_params_init channel1_rtp_base_port channel1_rtp_dest_port channel1_rtp_ssrc created added
      my_rtp).0

with_none :
    (x : Run (MyRtp × Master × List Action)) → (x >>= λ (r, m, acts). ok (r, m, [] ++ acts)) ≡ x
with_none (ok (r, m, acts)) = refl
with_none undefined = refl
with_none thrown = refl
with_none running = refl

-- A packet that comes before the callback is set is lost.
opening_early :
    (ssrc : ℕ) (p : RtpPacket) (turns : List Turn) (r : MyRtp) (m : Master)
    → r.has_callback ≡ false
    → opening (packet ssrc p ∷ turns) r m ≡ opening turns (process_rtp_packet ssrc p r).0 m
unfolding opening hand_on picked process_rtp_packet
opening_early ssrc p turns r m h =
    ap
      (λ b.
        hand_on (picked called (if b then call_back (voice ssrc p) ∷ [] else [])) m
        >>= λ (m1, acts). opening turns (process_rtp_packet ssrc p r).0 m1 >>= λ (r2, m2, more).
            ok (r2, m2, acts ++ more))
      h
    ∙ with_none (opening turns (process_rtp_packet ssrc p r).0 m)

opening_all_early :
    (ps : List (ℕ × RtpPacket)) (turns : List Turn) (r : MyRtp) (m : Master)
    → r.has_callback ≡ false
    → (r' : MyRtp) × (opening (packets ps ++ turns) r m ≡ opening turns r' m)
unfolding process_rtp_packet
opening_all_early [] turns r m h = (r, refl)
opening_all_early ((ssrc, p) ∷ ps) turns r m h =
    let (r', e) = opening_all_early ps turns (process_rtp_packet ssrc p r).0 m h in
    (r', opening_early ssrc p (packets ps ++ turns) r m h ∙ e)

hand_open :
    (v : ResponeRtpData) (m : Master)
    → m.has_file ≡ true
    → hand_on (v ∷ []) m ≡ ok (m, write_file (take v.payloaddatalength v.payloaddata) ∷ [])
unfolding hand_on rtp_channel1_on_data
hand_open v m f = simp (f)

hand_closed :
    (v : ResponeRtpData) (m : Master) → m.has_file ≡ false → hand_on (v ∷ []) m ≡ undefined
unfolding hand_on rtp_channel1_on_data
hand_closed v m f = simp (f)

-- A packet that comes once the callback is set is handed on.
opening_called :
    (ssrc : ℕ) (p : RtpPacket) (turns : List Turn) (r : MyRtp) (m : Master)
    → r.has_callback ≡ true
    → opening (packet ssrc p ∷ turns) r m ≡ (do
      (m1, acts) ← hand_on (voice ssrc p ∷ []) m
      (r2, m2, more) ← opening turns (process_rtp_packet ssrc p r).0 m1
      ok (r2, m2, acts ++ more))
unfolding opening picked process_rtp_packet
opening_called ssrc p turns r m h =
    ap
      (λ b.
        hand_on (picked called (if b then call_back (voice ssrc p) ∷ [] else [])) m
        >>= λ (m1, acts). opening turns (process_rtp_packet ssrc p r).0 m1 >>= λ (r2, m2, more).
            ok (r2, m2, acts ++ more))
      h

-- With the file open it is written, and with no file the write is undefined behaviour.
opening_written :
    (ssrc : ℕ) (p : RtpPacket) (turns : List Turn) (r : MyRtp) (m : Master)
    → r.has_callback ≡ true
    → m.has_file ≡ true
    → opening (packet ssrc p ∷ turns) r m
      ≡ map_run
          (λ (r2, m2, more). (r2, m2, write_file (take p.payload_length p.payload_data) ∷ more))
          (opening turns (process_rtp_packet ssrc p r).0 m)
opening_written ssrc p turns r m h f =
    opening_called ssrc p turns r m h
    ∙ ap
        (λ x. x >>= λ (m1, acts).
          opening turns (process_rtp_packet ssrc p r).0 m1 >>= λ (r2, m2, more).
          ok (r2, m2, acts ++ more))
        (hand_open (voice ssrc p) m f)

opening_lost_file :
    (ssrc : ℕ) (p : RtpPacket) (turns : List Turn) (r : MyRtp) (m : Master)
    → r.has_callback ≡ true
    → m.has_file ≡ false
    → opening (packet ssrc p ∷ turns) r m ≡ undefined
opening_lost_file ssrc p turns r m h f =
    opening_called ssrc p turns r m h
    ∙ ap
        (λ x. x >>= λ (m1, acts).
          opening turns (process_rtp_packet ssrc p r).0 m1 >>= λ (r2, m2, more).
          ok (r2, m2, acts ++ more))
        (hand_closed (voice ssrc p) m f)

opening_late :
    (ps : List (ℕ × RtpPacket)) (r : MyRtp) (m : Master)
    → r.has_callback ≡ true
    → m.has_file ≡ true
    → (r' : MyRtp) × (acts : List Action) × (opening (packets ps) r m ≡ ok (r', m, acts))
      × (file_bytes acts ≡ payloads ps)
unfolding opening file_bytes process_rtp_packet
opening_late [] r m h f = (r, [], refl, refl)
opening_late ((ssrc, p) ∷ ps) r m h f =
    let (r', acts, e, bytes) = opening_late ps (process_rtp_packet ssrc p r).0 m h f in
    (
      r',
      write_file (take p.payload_length p.payload_data) ∷ acts,
      opening_written ssrc p (packets ps) r m h f
          ∙ ap
              (map_run (λ (r2, m2, more).
                (r2, m2, write_file (take p.payload_length p.payload_data) ∷ more)))
              e,
      ap (λ l. take p.payload_length p.payload_data ++ l) bytes,
    )

-- On the channel as `RtpParamsInit` leaves it, with the thread running: packets before
-- `SetCallBackFunc` are lost without a word, and where the file is opened before the next packet
-- comes, just the payloads of the packets that follow are written, in order.
pub opening-file :
    (created added : ℤ) (ps qs : List (ℕ × RtpPacket)) (m : Master)
    → (r' : MyRtp) × (acts : List Action) × (opening
          (packets ps ++ set_call_back ∷ open_file ∷ packets qs)
          (started created added)
          m
        ≡ ok (r', record m { has_file = true }, acts))
      × (file_bytes acts ≡ payloads qs)
unfolding opening rtp_params_init
opening-file created added ps qs m =
    let (r1, e1) =
      opening_all_early ps (set_call_back ∷ open_file ∷ packets qs) (started created added) m
        refl in
    let (r2, acts, e2, bytes) =
      opening_late qs (set_call_back_func r1) (record m { has_file = true }) refl refl in
    (r2, acts, e1 ∙ e2, bytes)

-- On the channel as `RtpParamsInit` leaves it, with the thread running and no voice file open: a
-- packet that comes between `SetCallBackFunc` and `fopen` is written to a null file, which is
-- undefined behaviour, whatever packets were lost before and whatever follows.
pub opening-undefined :
    (created added : ℤ) (ps : List (ℕ × RtpPacket)) (ssrc : ℕ) (p : RtpPacket) (turns : List Turn)
    (m : Master)
    → m.has_file ≡ false
    → opening (packets ps ++ set_call_back ∷ packet ssrc p ∷ turns) (started created added) m
      ≡ undefined
unfolding opening rtp_params_init
opening-undefined created added ps ssrc p turns m f =
    let (r1, e1) =
      opening_all_early ps (set_call_back ∷ packet ssrc p ∷ turns) (started created added) m refl in
    e1 ∙ opening_lost_file ssrc p turns (set_call_back_func r1) m refl f
