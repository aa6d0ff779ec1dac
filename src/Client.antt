-- ===== src/Client.antt =====
-- ClientObj/clientobj.cpp: one connected client. `ProcessClientReqThreadFunc` receives and frames
-- (Client.Loop), `PushRecvBuffToQueue` queues, `ProtocolParseThreadFunc` takes a message from the
-- queue and hands a request on. The two threads share the queue alone.
pub mod Block
pub mod Commands
pub mod Draining
pub mod Loop
pub mod Object
pub mod Overflow
pub mod Packet
pub mod Parse
pub mod Receive
pub mod Requests
pub mod Runs
pub mod Steps
pub mod Stream
pub mod Termination
pub mod Threads
pub mod Wire
use Prim.Native.String.{String}
use text.Mathlib.Text.{◌==◌ as str_eq}
use mathlib.Core.Option
use console_master_rtpvoice.Prelude.{
  ℕ, zero, suc, ◌+◌, ◌-◌, ◌%◌, ◌^◌, Bool, true, false, ◌&&◌, ◌||◌, List, [], ◌∷◌, ◌++◌, Option,
  none, some, ℤ, pos, negsuc, pos_part, ltb_ℤ, eqb_ℤ, ltb, ◌==◌, if◌then◌else◌, length, get_elem?,
  take, drop, replicate, blit, Run, ok, undefined, thrown, running, ◌>>=◌, map_run, or_throw,
}
use console_master_rtpvoice.Common.{
  invalid_socket, sizeof_h_socket, buf_length, to_u32, to_i32, to_i16, ResponeData, ProtocolNames,
  connect, listening, query, call_request, call_release, call_start, call_end, ProtocolParams,
  ProtocolFixedHeader, ProtocolCtrlr, ListeningChannelsGroups,
}
use console_master_rtpvoice.Text.{decimal_signed, scan_int4}
use console_master_rtpvoice.Fifo.{Fifo, push_to_queue}
use console_master_rtpvoice.Socket.{Transresult, Outcome, socket_recv}
use console_master_rtpvoice.Frame.{Options, stick_dismantle}
use console_master_rtpvoice.Frame.Interface.{Sink}

-- `data[2048]` of `PushRecvBuffToQueue` after `sprintf` of the socket and the copy of the payload.
unfoldable pub packet_buffer : ℕ → List ℕ → List ℕ
packet_buffer fd payload =
    blit (blit (replicate buf_length 0) 0 (decimal_signed fd ++ 0 ∷ [])) sizeof_h_socket payload

-- `PushRecvBuffToQueue(clientfd, buff, buff_len)`: the return value and the queue. A negative
-- length passes the test and is then the size of a copy.
pub push_recv_buff_to_queue : ℕ → Fifo → List ℕ → ℤ → Run (ℤ × Fifo)
push_recv_buff_to_queue fd q buff len =
    if ltb_ℤ (pos 512) len || fd == invalid_socket then ok (negsuc 0, q) else elim len [
      | negsuc _ ↦ undefined
      | pos n ↦
          map_run (λ q'. (pos 0, q'))
            (push_to_queue q (take (n + sizeof_h_socket) (packet_buffer fd (take n buff))))
    ]

-- The framing ignores the return value.
pub push_frame : ℕ → Fifo → List ℕ → ℤ → Run Fifo
unfolding push_recv_buff_to_queue
push_frame fd q buff len = map_run (λ (ret, q'). q') (push_recv_buff_to_queue fd q buff len)

-- JsonCpp, which the program only calls: `Reader::parse` of a text, `Value::operator[]` with a key,
-- `asString` and `asInt`; `none` is a text that is refused, or an exception.
pub record Json : Type 1 where
  pub Value : Type 0
  pub parse : List ℕ → Option Value
  pub member : Value → String → Option Value
  pub as_string : Value → Option String
  pub as_int : Value → Option ℤ

-- `statemap`, as `InitProtocolData` fills it.
unfoldable pub statemap : List (String × ProtocolNames)
statemap =
    ("Connect", connect)
    ∷ ("Listening", listening)
    ∷ ("Query", query)
    ∷ ("CallRequest", call_request)
    ∷ ("CallRelease", call_release)
    ∷ ("CallStart", call_start)
    ∷ ("CallEND", call_end)
    ∷ []

unfoldable pub find_state : List (String × ProtocolNames) → String → Option ProtocolNames
find_state [] name = none
find_state ((k, v) ∷ m) name = if str_eq k name then some v else find_state m name

-- The aggregate that `DataProcessFunc` builds.
abbrev pub respone_data : ProtocolCtrlr → ResponeData
respone_data c = record {
  socket_fd = c.clientfd;
  identifier = c.protocol_fixed_header.identifier;
  key = c.protocol_params.key;
  channel_id = c.protocol_params.channel;
  channel1_group_id = to_i16 c.protocol_params.listening_channels_group.channel1_group_id;
  channel2_group_id = to_i16 c.protocol_params.listening_channels_group.channel2_group_id;
  src_id = to_i32 c.protocol_params.src;
  dst_id = to_i32 c.protocol_params.dst;
  status = "";
  reason = "";
}

-- `DataProcessFunc`: the call of the handler, if one is set. A name that the map lacks gives the
-- map's end, which is then read.
unfoldable pub data_process_func : Bool → ProtocolCtrlr → Run (Option (ProtocolNames × ResponeData))
unfolding statemap find_state
data_process_func has_callback c = elim (find_state statemap c.protocol_fixed_header.name) [
  | none ↦ undefined
  | some command ↦ ok (if has_callback then some (command, respone_data c) else none)
]

-- The text that a `char` array holds.
pub c_string : List ℕ → List ℕ
c_string [] = []
c_string (c ∷ r) = if c == 0 then [] else c ∷ c_string r

-- `queue_data[1024]` after a packet of 512 bytes was taken.
abbrev pub queue_data : List ℕ → List ℕ
queue_data block = block ++ replicate 512 0

-- `sscanf(queue_data, "%4D", &client_fd)`, from `INVALID_SOCKET`.
unfoldable pub read_fd : List ℕ → ℕ
read_fd block = elim (scan_int4 (queue_data block)) [ some z ↦ to_u32 z | none ↦ invalid_socket ]

-- `json_data[512]`, as the text that the reader sees.
pub read_json : List ℕ → List ℕ
unfolding c_string
read_json block = c_string (take 512 (drop sizeof_h_socket (queue_data block)))

abbrev pub with_header : ProtocolCtrlr → ℕ → String → String → String → ProtocolCtrlr
with_header c fd identifier type name = record c {
  clientfd = fd;
  protocol_fixed_header = record { identifier = identifier; type = type; name = name };
}

abbrev pub with_key : ProtocolCtrlr → String → ProtocolCtrlr
with_key c key = record c { protocol_params = record (c.protocol_params) { key = key } }

abbrev pub with_groups : ProtocolCtrlr → ℕ → ℕ → ProtocolCtrlr
with_groups c g1 g2 = record c {
  protocol_params = record (c.protocol_params) {
    listening_channels_group = record { channel1_group_id = g1; channel2_group_id = g2 };
    listening_params_channels_params = record {
      channel1 = record (c.protocol_params.listening_params_channels_params.channel1) {
        listening_group_id = g1;
      };
      channel2 = record (c.protocol_params.listening_params_channels_params.channel2) {
        listening_group_id = g2;
      };
    };
  };
}

abbrev pub with_call : ProtocolCtrlr → ℕ → ℕ → String → ProtocolCtrlr
with_call c src dst channel = record c {
  protocol_params = record (c.protocol_params) { src = src; dst = dst; channel = channel };
}

-- Which parameters a message of a name carries.
pub data Params : Type 0 where
  key_param listening_params no_params call_params : Params

unfoldable pub params_of : String → Params
params_of name =
    if str_eq name "Connect"
    then key_param
    else if str_eq name "Listening"
    then listening_params
    else if str_eq name "Query"
    then no_params
    else if str_eq name "CallRequest"
        || str_eq name "CallRelease"
        || str_eq name "CallStart"
        || str_eq name "CallEnd"
    then call_params
    else no_params

module _ (json : Json) where
  open json use {Value, parse, member, as_string, as_int}

  abbrev string_at : Value → String → Run String
  string_at v k = or_throw (member v k) >>= λ w. or_throw (as_string w)

  abbrev int_at : Value → String → Run ℤ
  int_at v k = or_throw (member v k) >>= λ w. or_throw (as_int w)

  -- The parameters, read into `thePROTOCOL_Ctrlr`.
  unfoldable pub read_params : Params → Value → ProtocolCtrlr → Run ProtocolCtrlr
  read_params key_param val c = string_at val "key" >>= λ key. ok (with_key c key)
  read_params listening_params val c = do
    param ← or_throw (member val "param")
    groups ← or_throw (member param "listening")
    g1 ← int_at groups "channel1"
    g2 ← int_at groups "channel2"
    ok (with_groups c (to_u32 g1) (to_u32 g2))
  read_params no_params val c = ok c
  read_params call_params val c = do
    param ← or_throw (member val "param")
    src ← int_at param "src"
    dst ← int_at param "dst"
    channel ← string_at param "channel"
    ok (with_call c (to_u32 src) (to_u32 dst) channel)

  -- A text that was parsed: the header, the parameters, and for a request `DataProcessFunc`.
  unfoldable pub process_value :
      Bool → ℕ → Value → ProtocolCtrlr → Run (ProtocolCtrlr × Option (ProtocolNames × ResponeData))
  unfolding read_params params_of data_process_func
  process_value has_callback fd val c = do
    identifier ← string_at val "identifier"
    type ← string_at val "type"
    name ← string_at val "name"
    c' ← read_params (params_of name) val (with_header c fd identifier type name)
    if str_eq type "Request"
        then map_run (λ call. (c', call)) (data_process_func has_callback c')
        else ok (c', none)

  -- The body of the loop of `ProtocolParseThreadFunc` for a packet that was taken.
  pub process_packet :
      Bool → List ℕ → ProtocolCtrlr → Run (ProtocolCtrlr × Option (ProtocolNames × ResponeData))
  unfolding process_value
  process_packet has_callback block c = elim (parse (read_json block)) [
    | none ↦ ok (c, none)
    | some val ↦ process_value has_callback (read_fd block) val c
  ]
