-- ===== src/Tests/Voice.antt =====
-- Concrete packets for the theorems on `MyRTP`.
use console_master_rtpvoice.Prelude.{
  ℕ, ◌≡◌, refl, true, false, List, [], ◌∷◌, ◌++◌, inl, inr, pos, negsuc, ok, undefined,
}
use console_master_rtpvoice.Master.{Action, Master, new_master}
use console_master_rtpvoice.Rtp.{
  RtpPacket, MyRtp, my_rtp, set_call_back_func, Effect, Round, on_poll_thread_func,
}
use console_master_rtpvoice.Rtp.Voice.{
  voice_of_rounds, packets_of_rounds, picked, called, deleted, file_bytes, hand_on, voice_bytes,
}
use console_master_rtpvoice.Rtp.Polling.{on_poll_thread_func-file}
use console_master_rtpvoice.Rtp.Opening.{
  packet, set_call_back, open_file, opening, packets, payloads, started, opening-file,
  opening-undefined,
}
use console_master_rtpvoice.Tests.Serving.{with_one}

abbrev packet_of : ℕ → RtpPacket
packet_of b = record { payload_length = 2; payload_data = b ∷ 9 ∷ [] }

-- Two rounds: one with two sources, and one with a failed `Poll` that meets the exit flag.
abbrev two_rounds : List Round
two_rounds =
    record {
      sources =
          record { ssrc = 5; packets = packet_of 1 ∷ packet_of 2 ∷ [] }
          ∷ record { ssrc = 6; packets = packet_of 3 ∷ [] }
          ∷ [];
      status = pos 0;
      exit_flag = false;
    }
    ∷ record {
      sources = record { ssrc = 5; packets = packet_of 4 ∷ [] } ∷ [];
      status = negsuc 0;
      exit_flag = true;
    }
    ∷ []

abbrev with_callback : MyRtp
with_callback = set_call_back_func my_rtp

on_poll_thread_func-file_example :
    (r' : MyRtp) × (es : List Effect) × (acts : List Action) × (on_poll_thread_func two_rounds
        with_callback
      ≡ ok (r', es))
    × (picked called es ≡ voice_of_rounds two_rounds)
    × (hand_on (picked called es) with_one ≡ ok (with_one, acts))
    × (file_bytes acts ≡ voice_bytes (voice_of_rounds two_rounds))
    × (picked deleted es ≡ packets_of_rounds two_rounds)
on_poll_thread_func-file_example =
    on_poll_thread_func-file two_rounds with_callback with_one (inr (inl refl)) refl refl

abbrev one_made : Master
one_made = record new_master { has_channel1 = true }

opening-file_example :
    (r' : MyRtp) × (acts : List Action) × (opening
        (packets ((5, packet_of 1) ∷ [])
          ++ set_call_back ∷ open_file ∷ packets ((5, packet_of 2) ∷ (6, packet_of 3) ∷ []))
        (started (pos 0) (pos 0))
        one_made
      ≡ ok (r', record one_made { has_file = true }, acts))
    × (file_bytes acts ≡ payloads ((5, packet_of 2) ∷ (6, packet_of 3) ∷ []))
opening-file_example =
    opening-file (pos 0) (pos 0) ((5, packet_of 1) ∷ []) ((5, packet_of 2) ∷ (6, packet_of 3) ∷ [])
      one_made

opening-undefined_example :
    opening
      (packets ((5, packet_of 1) ∷ []) ++ set_call_back ∷ packet 5 (packet_of 2) ∷ open_file ∷ [])
      (started (pos 0) (pos 0))
      one_made
    ≡ undefined
opening-undefined_example =
    opening-undefined (pos 0) (pos 0) ((5, packet_of 1) ∷ []) 5 (packet_of 2) (open_file ∷ [])
      one_made refl
