-- ===== src/Gateway/Groups.antt =====
-- About the group ids of a `Listening`, which ClientObj/clientobj.cpp reads as 32 bits and hands to
-- mymaster.cpp as 16.
use Prim.Native.String.{String}
use console_master_rtpvoice.Prelude.{
  ℕ, ◌*◌, ◌^◌, ◌<◌, ◌≡◌, refl, ap, ◌∙◌, Bool, true, [], ◌∷◌, some, pos, arith, ok,
}
use console_master_rtpvoice.Common.{to_u32, to_i16, ResponeData, ProtocolCtrlr, listening}
use console_master_rtpvoice.Replies.{config_reply}
use console_master_rtpvoice.Client.{Json, process_value}
use console_master_rtpvoice.Client.Requests.{IsHeader}
use console_master_rtpvoice.Client.Commands.{IsListening, process_value-listening}
use console_master_rtpvoice.Master.{
  send, Master, master_on_data, set_channel1, set_channel2, make_channel1, make_channel2,
}

multiple-to_i16 : (k : ℕ) → k < 2 ^ 15 → to_i16 (to_u32 (pos (65536 * k))) ≡ pos 0
unfolding to_i16 to_u32
multiple-to_i16 k h = ground arith

no_channel :
    (g g' : String) (opens : Bool) (d : ResponeData) (m : Master)
    → d.channel1_group_id ≡ pos 0
    → d.channel2_group_id ≡ pos 0
    → master_on_data g g' opens listening d m
      ≡ ok (m, send d.socket_fd (config_reply g (pos 0) (pos 0)) ∷ [])
unfolding master_on_data set_channel1 set_channel2 make_channel1 make_channel2
no_channel g g' opens d m one two = rw (one, two) refl

-- A "Listening" request whose two group ids are multiples of 65536 within 32 bits is handed to the
-- master with the ids 0: no channel is made, the first as the second, nothing else changes, and the
-- reply confirms the ids 0.
pub listening-lost_groups :
    (json : Json) (fd : ℕ) (val : json.Value) (c : ProtocolCtrlr) (identifier : String) (i j : ℕ)
    (g g' : String) (opens : Bool) (m : Master)
    → IsHeader json val identifier "Request" "Listening"
    → IsListening json val (pos (65536 * i)) (pos (65536 * j))
    → i < 2 ^ 15
    → j < 2 ^ 15
    → (c' : ProtocolCtrlr) × (d : ResponeData) × (process_value json true fd val c
        ≡ ok (c', some (listening, d)))
      × (master_on_data g g' opens listening d m
          ≡ ok (m, send fd (config_reply g (pos 0) (pos 0)) ∷ []))
listening-lost_groups json fd val c identifier i j g g' opens m h l small small' =
    let (c', d, e, from, _, one, two) =
      process_value-listening json fd val c identifier (pos (65536 * i)) (pos (65536 * j)) h l in
    (
      c',
      d,
      e,
      no_channel g g' opens d m (one ∙ multiple-to_i16 i small) (two ∙ multiple-to_i16 j small')
          ∙ ap (λ n. ok (m, send n (config_reply g (pos 0) (pos 0)) ∷ [])) from,
    )
