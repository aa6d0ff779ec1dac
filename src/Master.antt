-- ===== src/Master.antt =====
-- mymaster.cpp: `MyMasterServer` answers the requests that a client's parse thread hands on. What it
-- does to the outside is a list of actions in order; MyRTP and the file are seen through them.
pub mod Answers
pub mod Session
pub mod Handler
pub mod Race
pub mod Transmit
use Prim.Native.String.{String}
use text.Mathlib.Text.{◌==◌ as str_eq}
use console_master_rtpvoice.Prelude.{
  ℕ, ◌+◌, Bool, true, false, not, ◌&&◌, List, [], ◌∷◌, ◌++◌, ℤ, pos, eqb_ℤ, if◌then◌else◌, take,
  Run, ok, undefined, ◌>>=◌, map_run,
}
use console_master_rtpvoice.Common.{
  ResponeData, ResponeRtpData, ProtocolNames, connect, listening, query, call_request, call_release,
  call_start, call_end, channel1_rtp_base_port, channel1_rtp_dest_port, channel1_rtp_ssrc,
  channel2_rtp_base_port, channel2_rtp_dest_port, channel2_rtp_ssrc,
}
use console_master_rtpvoice.Replies.{
  JsonValue, connect_reply, config_reply, query_reply, call_request_reply, call_release_reply,
  call_start_notify, call_end_notify,
}

pub data Channel : Type 0 where
  channel1 channel2 : Channel

pub data Action : Type 0 where
  -- `SendDataToTheThirdParty` to a socket
  send : ℕ → JsonValue → Action
  -- `new MyRTP` with `RtpParamsInit(portbase, destport, ssrc)` and `SetCallBackFunc`
  create : Channel → ℕ → ℕ → ℕ → Action
  -- `SendRTPPayloadData(buff, buff_length)`
  send_rtp : Channel → ℕ → Action
  -- `fwrite` of received voice to the file
  write_file : List ℕ → Action
  -- The destructors
  delete_rtp : Channel → Action
  close_file : Action
  -- `fopen` of the voice file, where it succeeds
  open_file : Action

-- Whether each channel's `MyRTP` exists, and whether `fp` is an open file.
pub record Master : Type 0 where
  pub has_channel1 : Bool
  pub has_channel2 : Bool
  pub has_file : Bool

-- The constructor.
abbrev pub new_master : Master
new_master = record { has_channel1 = false; has_channel2 = false; has_file = false }

-- A channel that is asked for, by a group id other than 0, is made once. The first channel opens the
-- voice file too; if that fails, `fseek` is called with a null pointer.
unfoldable pub make_channel1 : Bool → Bool → Master → Run (Master × List Action)
make_channel1 asked opens m =
    if asked && not m.has_channel1
    then (if opens
        then ok (
          record m { has_channel1 = true; has_file = true },
          create channel1 channel1_rtp_base_port channel1_rtp_dest_port channel1_rtp_ssrc
              ∷ open_file
              ∷ [],
        )
        else undefined)
    else ok (m, [])

unfoldable pub make_channel2 : Bool → Master → Master × List Action
make_channel2 asked m =
    if asked && not m.has_channel2
    then (
      record m { has_channel2 = true },
      create channel2 channel2_rtp_base_port channel2_rtp_dest_port channel2_rtp_ssrc ∷ [],
    )
    else (m, [])

unfoldable pub set_channel1 : Bool → ℤ → Master → Run (Master × List Action)
unfolding make_channel1
set_channel1 opens group m = make_channel1 (not (eqb_ℤ group (pos 0))) opens m

unfoldable pub set_channel2 : ℤ → Master → Master × List Action
unfolding make_channel2
set_channel2 group m = make_channel2 (not (eqb_ℤ group (pos 0))) m

-- The voice that goes out at the start of a call: 24 bytes of the buffer.
abbrev voice_length : ℕ
voice_length = 24

abbrev pub start_voice : String → Master → List Action
start_voice channel m =
    (if str_eq channel "channel1" && m.has_channel1
      then send_rtp channel1 voice_length ∷ []
      else [])
    ++ (if str_eq channel "channel2" && m.has_channel2
        then send_rtp channel2 voice_length ∷ []
        else [])

-- `MasterOnDataFunc`; `guid` and `guid'` are what `CreateGuid` returns for the messages in turn, and
-- `opens` says whether `fopen` succeeds. `c_status` is "success" throughout.
unfoldable pub master_on_data :
    String → String → Bool → ProtocolNames → ResponeData → Master → Run (Master × List Action)
unfolding set_channel1 set_channel2
master_on_data guid guid' opens connect d m =
    ok (m, send d.socket_fd (connect_reply guid "success" "fine!") ∷ [])
master_on_data guid guid' opens listening d m = do
  (m1, made1) ← set_channel1 opens d.channel1_group_id m
  let (m2, made2) = set_channel2 d.channel2_group_id m1
  ok (
    m2,
    made1
        ++ (made2
            ++ send d.socket_fd (config_reply guid d.channel1_group_id d.channel2_group_id) ∷ []),
  )
master_on_data guid guid' opens query d m =
    ok (m, send d.socket_fd (query_reply guid d.channel1_group_id d.channel2_group_id) ∷ [])
master_on_data guid guid' opens call_request d m = ok (
  m,
  send d.socket_fd (call_request_reply guid "fail" "Unconnect")
      ∷ send d.socket_fd (call_start_notify guid' d.src_id d.dst_id d.channel_id)
      ∷ start_voice d.channel_id m,
)
master_on_data guid guid' opens call_release d m = ok (
  m,
  send d.socket_fd (call_release_reply guid "fail" "Unconnect")
      ∷ send d.socket_fd (call_end_notify guid' d.src_id d.dst_id d.channel_id)
      ∷ [],
)
master_on_data guid guid' opens call_start d m = ok (m, [])
master_on_data guid guid' opens call_end d m = ok (m, [])

-- `RTPChannel1OnDataFunc`: `fwrite` of the payload's length needs an open file.
unfoldable pub rtp_channel1_on_data : ResponeRtpData → Master → Run (Master × List Action)
rtp_channel1_on_data data' m =
    if m.has_file
    then ok (m, write_file (take data'.payloaddatalength data'.payloaddata) ∷ [])
    else undefined

-- `RTPChannel2OnDataFunc` only counts.
unfoldable rtp_channel2_on_data : ResponeRtpData → Master → Run (Master × List Action)
rtp_channel2_on_data data' m = ok (m, [])

-- The destructor: the file is closed only along with the first channel.
unfoldable pub delete_master : Master → Master × List Action
delete_master m = (
  record {
    has_channel1 = false;
    has_channel2 = false;
    has_file = if m.has_channel1 then false else m.has_file;
  },
  (if m.has_channel1
        then delete_rtp channel1 ∷ (if m.has_file then close_file ∷ [] else [])
        else [])
      ++ (if m.has_channel2 then delete_rtp channel2 ∷ [] else []),
)
