-- ===== src/Rtp/Voice.antt =====
-- The voice that the poll thread of MyRTP/myrtp.cpp hands on to mymaster.cpp, and what is written of it.
use console_master_rtpvoice.Prelude.{
  ℕ, ◌≡◌, refl, ap, sym, ◌∙◌, true, List, [], ◌∷◌, ◌++◌, append_assoc, if◌then◌else◌, take, Run, ok,
  ◌>>=◌,
}
use console_master_rtpvoice.Common.{ResponeRtpData}
use console_master_rtpvoice.Master.{
  Action, write_file, create, send, send_rtp, delete_rtp, close_file, open_file, Master,
  rtp_channel1_on_data,
}
use console_master_rtpvoice.Rtp.{RtpPacket, RtpSource, Effect, call_back, delete_packet, Round}

-- The voice of a source: each of its packets with its SSRC.
unfoldable pub voice_of : ℕ → List RtpPacket → List ResponeRtpData
voice_of ssrc [] = []
voice_of ssrc (p ∷ ps) =
    record { payloaddatalength = p.payload_length; ssrc = ssrc; payloaddata = p.payload_data }
    ∷ voice_of ssrc ps

unfoldable pub voice_of_sources : List RtpSource → List ResponeRtpData
unfolding voice_of
voice_of_sources [] = []
voice_of_sources (s ∷ ss) = voice_of s.ssrc s.packets ++ voice_of_sources ss

-- The voice of the rounds up to the one that meets the exit flag.
unfoldable pub voice_of_rounds : List Round → List ResponeRtpData
unfolding voice_of_sources
voice_of_rounds [] = []
voice_of_rounds (m ∷ ms) =
    voice_of_sources m.sources ++ (if m.exit_flag then [] else voice_of_rounds ms)

-- The packets of the rounds up to that one.
unfoldable pub packets_of_sources : List RtpSource → List RtpPacket
packets_of_sources [] = []
packets_of_sources (s ∷ ss) = s.packets ++ packets_of_sources ss

unfoldable pub packets_of_rounds : List Round → List RtpPacket
unfolding packets_of_sources
packets_of_rounds [] = []
packets_of_rounds (m ∷ ms) =
    packets_of_sources m.sources ++ (if m.exit_flag then [] else packets_of_rounds ms)

-- The effects in a list that `f` picks.
unfoldable pub picked : {A : Type 0} → (Effect → List A) → List Effect → List A
picked f [] = []
picked f (e ∷ es) = f e ++ picked f es

abbrev pub called : Effect → List ResponeRtpData
called e = elim e [ call_back v ↦ v ∷ [] | _ ↦ [] ]

abbrev pub deleted : Effect → List RtpPacket
deleted e = elim e [ delete_packet p ↦ p ∷ [] | _ ↦ [] ]

pub picked-append :
    {A : Type 0} (f : Effect → List A) (xs ys : List Effect)
    → picked f (xs ++ ys) ≡ picked f xs ++ picked f ys
unfolding picked
picked-append f [] ys = refl
picked-append f (x ∷ xs) ys =
    ap (λ l. f x ++ l) (picked-append f xs ys)
    ∙ sym (append_assoc (f x) (picked f xs) (picked f ys))

-- The bytes that the actions write to the voice file.
unfoldable pub file_bytes : List Action → List ℕ
file_bytes [] = []
file_bytes (a ∷ rest) =
    (elim a [
      | write_file bytes ↦ bytes
      | create _ _ _ _ ↦ []
      | send _ _ ↦ []
      | send_rtp _ _ ↦ []
      | delete_rtp _ ↦ []
      | close_file ↦ []
      | open_file ↦ []
    ])
    ++ file_bytes rest

-- The voice of the first channel, call by call.
unfoldable pub hand_on : List ResponeRtpData → Master → Run (Master × List Action)
hand_on [] m = ok (m, [])
hand_on (v ∷ vs) m = do
  (m1, acts) ← rtp_channel1_on_data v m
  (m2, more) ← hand_on vs m1
  ok (m2, acts ++ more)

unfoldable pub voice_bytes : List ResponeRtpData → List ℕ
voice_bytes [] = []
voice_bytes (v ∷ vs) = take v.payloaddatalength v.payloaddata ++ voice_bytes vs

pub hand_on-file_bytes :
    (vs : List ResponeRtpData) (m : Master)
    → m.has_file ≡ true
    → (acts : List Action) × (hand_on vs m ≡ ok (m, acts)) × (file_bytes acts ≡ voice_bytes vs)
unfolding hand_on file_bytes voice_bytes rtp_channel1_on_data
hand_on-file_bytes [] m h = ([], refl, refl)
hand_on-file_bytes (v ∷ vs) m h =
    let (acts, e, bytes) = hand_on-file_bytes vs m h in
    (
      write_file (take v.payloaddatalength v.payloaddata) ∷ acts,
      simp (h, e),
      ap (λ l. take v.payloaddatalength v.payloaddata ++ l) bytes,
    )
