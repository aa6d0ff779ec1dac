-- ===== src/Rtp.antt =====
-- MyRTP/myrtp.cpp: a voice channel on a session of jrtplib. What the session gives is an argument;
-- what the channel does is a list of effects in order.
pub mod Voice
pub mod Polling
pub mod Opening
use console_master_rtpvoice.Prelude.{
  ℕ, zero, suc, ◌+◌, Bool, true, false, List, [], ◌∷◌, ◌++◌, Option, none, some, ℤ, pos, ltb_ℤ,
  if◌then◌else◌, Run, ok, undefined, running, ◌>>=◌, map_run,
}
use console_master_rtpvoice.Common.{ResponeRtpData}

-- An `RTPPacket`: `GetPayloadLength` and the bytes that `GetPayloadData` points to.
pub record RtpPacket : Type 0 where
  pub payload_length : ℕ
  pub payload_data : List ℕ

-- A source that has data: `GetSSRC`, and what `GetNextPacket` returns until it returns null.
pub record RtpSource : Type 0 where
  pub ssrc : ℕ
  pub packets : List RtpPacket

-- The members of `MyRTP` that change. `payloaddata` is the packet that the pointer points into.
pub record MyRtp : Type 0 where
  pub has_callback : Bool
  pub poll_thread_isactive : Bool
  pub set_thread_exit_flag : Bool
  pub has_thread : Bool
  pub payloaddata : Option RtpPacket
  pub payloaddatalength : ℕ
  pub ssrc : ℕ

pub data Effect : Type 0 where
  -- `BeginDataAccess`, `EndDataAccess`
  begin_access end_access : Effect
  -- `RecvVoiceCallBackFunc`
  call_back : ResponeRtpData → Effect
  -- `DeletePacket`
  delete_packet : RtpPacket → Effect
  -- `Poll`, with its status
  poll : ℤ → Effect
  -- What `CheckError` prints
  report : ℤ → Effect
  -- `RTPTime::Wait`
  wait : Effect
  -- `BYEDestroy`
  bye_destroy : Effect
  -- `SetOwnTimestampUnit` of one in so many, `SetAcceptOwnPackets`
  own_timestamp_unit : ℕ → Effect
  accept_own_packets : Bool → Effect
  -- `Create` with the port base and the SSRC, `AddDestination` of a port at 127.0.0.1
  create_session : ℕ → ℕ → ℤ → Effect
  add_destination : ℕ → ℤ → Effect
  -- `new MyCreateThread(OnPollThread, this)`, and its destructor, which waits for the thread
  start_thread join_thread : Effect
  -- `SetDefaultPayloadType`, `SetDefaultMark`, `SetTimestampUnit` of one in so many, and
  -- `SetDefaultTimestampIncrement`
  default_payload_type timestamp_unit default_timestamp_increment : ℕ → Effect
  default_mark : Bool → Effect
  -- `SendPacket` of a length with payload type, marker and timestamp increment
  send_packet : ℕ → ℕ → Bool → ℕ → ℤ → Effect

-- The constructor.
abbrev pub my_rtp : MyRtp
my_rtp = record {
  has_callback = false;
  poll_thread_isactive = false;
  set_thread_exit_flag = false;
  has_thread = false;
  payloaddata = none;
  payloaddatalength = 0;
  ssrc = 0;
}

-- `SetCallBackFunc` with a function.
abbrev pub set_call_back_func : MyRtp → MyRtp
set_call_back_func r = record r { has_callback = true }

-- `CheckError`
abbrev pub check_error : ℤ → List Effect
check_error status = if ltb_ℤ status (pos 0) then report status ∷ [] else []

-- `ProcessRTPPacket`
unfoldable pub process_rtp_packet : ℕ → RtpPacket → MyRtp → MyRtp × List Effect
process_rtp_packet ssrc pack r = (
  record r { payloaddata = some pack; payloaddatalength = pack.payload_length; ssrc = ssrc },
  if r.has_callback
      then call_back (record {
        payloaddatalength = pack.payload_length;
        ssrc = ssrc;
        payloaddata = pack.payload_data;
      })
        ∷ []
      else [],
)

-- The inner loop of `OnPollThreadFunc`: the packets of one source, each deleted once it was processed.
pub process_packets : ℕ → List RtpPacket → MyRtp → MyRtp × List Effect
unfolding process_rtp_packet
process_packets ssrc [] r = (r, [])
process_packets ssrc (pack ∷ packs) r =
    let (r1, done) = process_rtp_packet ssrc pack r in
    let (r2, more) = process_packets ssrc packs r1 in (r2, done ++ delete_packet pack ∷ more)

-- The sources with data, by `GotoFirstSourceWithData` and `GotoNextSourceWithData`.
pub process_sources : List RtpSource → MyRtp → MyRtp × List Effect
unfolding process_packets
process_sources [] r = (r, [])
process_sources (s ∷ ss) r =
    let (r1, done) = process_packets s.ssrc s.packets r in
    let (r2, more) = process_sources ss r1 in (r2, done ++ more)

-- What one round of `OnPollThreadFunc` meets: the sources with data, the status of `Poll`, and
-- whether the exit flag is set at its end.
pub record Round : Type 0 where
  pub sources : List RtpSource
  pub status : ℤ
  pub exit_flag : Bool

pub poll_round : Round → MyRtp → MyRtp × List Effect
unfolding process_sources
poll_round m r =
    let (r', done) = process_sources m.sources r in
    (r', begin_access ∷ done ++ (end_access ∷ poll m.status ∷ check_error m.status ++ wait ∷ []))

-- The rounds of `OnPollThreadFunc`. With no round left the thread is still running.
pub poll_rounds : List Round → MyRtp → Run (MyRtp × List Effect)
unfolding poll_round
poll_rounds [] r = running
poll_rounds (m ∷ ms) r =
    let (r', done) = poll_round m r in
    let on = map_run (λ (r2, more). (r2, done ++ more)) (poll_rounds ms r') in
    if m.exit_flag then ok (r', done ++ bye_destroy ∷ []) else on

-- `OnPollThreadFunc`
unfoldable pub on_poll_thread_func : List Round → MyRtp → Run (MyRtp × List Effect)
unfolding poll_rounds
on_poll_thread_func ms r = poll_rounds ms (record r { poll_thread_isactive = true })

-- `RtpParamsInit(portbase, destport, ssrc)`, for what `Create` and `AddDestination` return; the SSRC
-- is the session's. The thread starts whatever they return.
unfoldable pub rtp_params_init : ℕ → ℕ → ℕ → ℤ → ℤ → MyRtp → MyRtp × List Effect
rtp_params_init portbase destport ssrc created added r = (
  record r { has_thread = true },
  own_timestamp_unit 8000
        ∷ accept_own_packets true
        ∷ create_session portbase ssrc created
        ∷ check_error created
      ++ (add_destination destport added ∷ check_error added ++ start_thread ∷ []),
)

-- `SetParamsForSender`
unfoldable set_params_for_sender : List Effect
set_params_for_sender =
    default_payload_type 96
    ∷ default_mark false
    ∷ timestamp_unit 8000
    ∷ default_timestamp_increment 160
    ∷ []

-- `SendRTPPayloadData(buff, buff_length)`, for a pointer that may be null and what `SendPacket`
-- returns.
unfoldable send_rtp_payload_data : Bool → ℕ → ℤ → List Effect
send_rtp_payload_data is_null buff_length status =
    if is_null then [] else send_packet buff_length 0 false 160 status ∷ check_error status

-- The destructor.
unfoldable delete_my_rtp : MyRtp → MyRtp × List Effect
delete_my_rtp r = (
  record r { set_thread_exit_flag = true; has_thread = false },
  if r.has_thread then join_thread ∷ [] else [],
)

-- `GetRTPPayloadData`, `GetRTPPayloadDataLength` and `GetRTPSSRC`
abbrev pub get_rtp_payload_data : MyRtp → Option RtpPacket
get_rtp_payload_data r = r.payloaddata

abbrev pub get_rtp_payload_data_length : MyRtp → ℕ
get_rtp_payload_data_length r = r.payloaddatalength

abbrev pub get_rtp_ssrc : MyRtp → ℕ
get_rtp_ssrc r = r.ssrc
