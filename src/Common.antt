-- ===== src/Common.antt =====
-- Common/common.h: the constants and the data types that the components share. The build is Win32:
-- `HSocket` is the 32-bit `SOCKET`, and `INVALID_SOCKET` its largest value.
use Prim.Native.String.{String}
use console_master_rtpvoice.Prelude.{
  ℕ, ◌^◌, ◌%◌, ◌-◌, ◌*◌, List, ℤ, pos, negsuc, Bool, ltb, ◌==◌, if◌then◌else◌, true, false,
}

abbrev pub invalid_socket : ℕ
invalid_socket = 2 ^ 32 - 1

abbrev pub sizeof_h_socket : ℕ
sizeof_h_socket = 4

abbrev pub channel1_rtp_base_port : ℕ
channel1_rtp_base_port = 55500

abbrev pub channel1_rtp_dest_port : ℕ
channel1_rtp_dest_port = 57400

abbrev pub channel1_rtp_ssrc : ℕ
channel1_rtp_ssrc = 1973

abbrev pub channel2_rtp_base_port : ℕ
channel2_rtp_base_port = 55600

abbrev pub channel2_rtp_dest_port : ℕ
channel2_rtp_dest_port = 57500

abbrev pub channel2_rtp_ssrc : ℕ
channel2_rtp_ssrc = 2012

abbrev pub tcp_port : ℕ
tcp_port = 57000

abbrev pub buf_length : ℕ
buf_length = 2048

abbrev pub protocol_head : ℕ
protocol_head = 1

abbrev pub protocol_package_length_size : ℕ
protocol_package_length_size = 4

abbrev pub max_listening_count : ℕ
max_listening_count = 65535

abbrev pub timeout_value : ℕ
timeout_value = 10 * 1000

-- `sockaddr_in`: the fields that the program sets or reads.
pub record SockaddrIn : Type 0 where
  pub sin_family : ℕ
  pub sin_port : ℕ
  pub sin_addr : ℕ

pub record SocketParams : Type 0 where
  pub socket_fd : ℕ
  pub remote_addr : SockaddrIn

-- `operator<`, by which the map of clients finds a key.
unfoldable pub lt_params : SocketParams → SocketParams → Bool
lt_params a b =
    if ltb a.socket_fd b.socket_fd
    then true
    else if a.socket_fd == b.socket_fd
    then (if ltb a.remote_addr.sin_port b.remote_addr.sin_port then true else false)
    else false

-- An `int` kept in a `uint32_t`, and read back as `int32_t` and `int16_t`.
unfoldable pub to_u32 : ℤ → ℕ
to_u32 (pos n) = n % 2 ^ 32
to_u32 (negsuc n) = 2 ^ 32 - 1 - n % 2 ^ 32

unfoldable pub to_i32 : ℕ → ℤ
to_i32 n = if ltb (n % 2 ^ 32) (2 ^ 31) then pos (n % 2 ^ 32) else negsuc (2 ^ 32 - 1 - n % 2 ^ 32)

unfoldable pub to_i16 : ℕ → ℤ
to_i16 n = if ltb (n % 2 ^ 16) (2 ^ 15) then pos (n % 2 ^ 16) else negsuc (2 ^ 16 - 1 - n % 2 ^ 16)

-- What a request handler is given.
pub record ResponeData : Type 0 where
  pub socket_fd : ℕ
  pub identifier : String
  pub key : String
  pub channel_id : String
  pub channel1_group_id : ℤ
  pub channel2_group_id : ℤ
  pub src_id : ℤ
  pub dst_id : ℤ
  pub status : String
  pub reason : String

pub record ResponeRtpData : Type 0 where
  pub payloaddatalength : ℕ
  pub ssrc : ℕ
  pub payloaddata : List ℕ

pub data ProtocolNames : Type 0 where
  connect listening query call_request call_release call_start call_end : ProtocolNames

pub record ListeningChannelsGroups : Type 0 where
  pub channel1_group_id : ℕ
  pub channel2_group_id : ℕ

pub record ListeningReplyParamsChannelsParams : Type 0 where
  pub status : String
  pub reason : String
  pub listening_group_id : ℕ

pub record ListeningParamsChannelsParams : Type 0 where
  pub channel1 : ListeningReplyParamsChannelsParams
  pub channel2 : ListeningReplyParamsChannelsParams

pub record ProtocolParams : Type 0 where
  pub key : String
  pub status : String
  pub reason : String
  pub src : ℕ
  pub dst : ℕ
  pub channel : String
  pub listening_channels_group : ListeningChannelsGroups
  pub listening_params_channels_params : ListeningParamsChannelsParams

pub record ProtocolFixedHeader : Type 0 where
  pub identifier : String
  pub type : String
  pub name : String

pub record ProtocolCtrlr : Type 0 where
  pub clientfd : ℕ
  pub master_state : ProtocolNames
  pub protocol_fixed_header : ProtocolFixedHeader
  pub protocol_params : ProtocolParams
