-- ===== src/Client/Requests.antt =====
-- Which messages reach the handler: `statemap` and the aggregate of `DataProcessFunc`.
use Prim.Native.String.{String}
use console_master_rtpvoice.Prelude.{
  ℕ, ◌^◌, ◌<◌, ◌≡◌, refl, Bool, true, List, some, ℤ, pos, negsuc, arith, ok, undefined,
}
use console_master_rtpvoice.Common.{
  to_u32, to_i32, ResponeData, ProtocolCtrlr, ProtocolNames, call_request, call_release, call_start,
}
use console_master_rtpvoice.Client.{
  Json, data_process_func, find_state, statemap, process_packet, respone_data, process_value,
  with_call, with_header, read_params, params_of, call_params, read_json, read_fd,
}

-- The member of a value that is a text, or a number.
abbrev pub TextAt : (json : Json) → json.Value → String → String → Type 0
TextAt json val k s = (v : json.Value) × (json.member val k ≡ some v) × (json.as_string v ≡ some s)

abbrev pub IntAt : (json : Json) → json.Value → String → ℤ → Type 0
IntAt json val k z = (v : json.Value) × (json.member val k ≡ some v) × (json.as_int v ≡ some z)

-- The header of a message.
pub record IsHeader (json : Json) (val : json.Value) (identifier type name : String) : Type 0 where
  pub identifier_at : TextAt json val "identifier" identifier
  pub type_at : TextAt json val "type" type
  pub name_at : TextAt json val "name" name

-- The parameters of a call.
pub record IsCall (json : Json) (val : json.Value) (src dst : ℤ) (channel : String) : Type 0 where
  pub param : json.Value
  pub param_at : json.member val "param" ≡ some param
  pub src_at : IntAt json param "src" src
  pub dst_at : IntAt json param "dst" dst
  pub channel_at : TextAt json param "channel" channel

-- An `int` of 32 bits.
abbrev pub IsInt32 : ℤ → Type 0
IsInt32 (pos n) = n < 2 ^ 31
IsInt32 (negsuc n) = n < 2 ^ 31

to_i32-to_u32 : (z : ℤ) → IsInt32 z → to_i32 (to_u32 z) ≡ z
unfolding to_i32 to_u32
to_i32-to_u32 (pos n) l = ground arith
to_i32-to_u32 (negsuc n) l = ground arith

-- The names of the messages that carry a call, and which the table of requests has.
pub data CallName : String → ProtocolNames → Type 0 where
  is_request : CallName "CallRequest" call_request
  is_release : CallName "CallRelease" call_release
  is_start : CallName "CallStart" call_start

pub known :
    (name : String) (cmd : ProtocolNames)
    → CallName name cmd
    → (params_of name ≡ call_params) × (find_state statemap name ≡ some cmd)
unfolding params_of find_state statemap
known _ _ is_request = (refl, refl)
known _ _ is_release = (refl, refl)
known _ _ is_start = (refl, refl)

-- With a handler set, a message that parses, of type "Request" and the name "CallRequest",
-- "CallRelease" or "CallStart", with its header and call parameters present and the numbers within
-- 32 bits, reaches the handler as the command of its name, with the socket in front of the packet,
-- the identifier and the channel of the message, and its source and destination, whatever was read
-- before.
pub process_packet-call :
    (json : Json) (block : List ℕ) (c : ProtocolCtrlr) (val : json.Value)
    (identifier name channel : String) (cmd : ProtocolNames) (src dst : ℤ)
    → json.parse (read_json block) ≡ some val
    → IsHeader json val identifier "Request" name
    → CallName name cmd
    → IsCall json val src dst channel
    → IsInt32 src
    → IsInt32 dst
    → (c' : ProtocolCtrlr) × (d : ResponeData) × (process_packet json true block c
        ≡ ok (c', some (cmd, d)))
      × (d.socket_fd ≡ read_fd block)
      × (d.identifier ≡ identifier)
      × (d.channel_id ≡ channel)
      × (d.src_id ≡ src)
      × (d.dst_id ≡ dst)
unfolding process_packet process_value read_params data_process_func
process_packet-call json block c val identifier name channel cmd src dst parsed h is_call a hs hd =
    let (carries, finds) = known name cmd is_call in
    let c' =
      with_call (with_header c (read_fd block) identifier "Request" name) (to_u32 src) (to_u32 dst)
        channel in
    (
      c',
      respone_data c',
      rw
          (
            process_packet, parsed, h.identifier_at.1, h.identifier_at.2, h.type_at.1, h.type_at.2,
            h.name_at.1, h.name_at.2, carries, a.param_at, a.src_at.1, a.src_at.2, a.dst_at.1,
            a.dst_at.2, a.channel_at.1, a.channel_at.2, data_process_func, finds,
          )
          refl,
      refl,
      refl,
      refl,
      to_i32-to_u32 src hs,
      to_i32-to_u32 dst hd,
    )

-- A message that parses, of type "Request" and the name "CallEnd", with its header and call
-- parameters present, makes the parse thread read behind the table of requests, which lacks that
-- name: undefined behaviour.
pub process_packet-call_end :
    (json : Json) (has_callback : Bool) (block : List ℕ) (c : ProtocolCtrlr) (val : json.Value)
    (identifier channel : String) (src dst : ℤ)
    → json.parse (read_json block) ≡ some val
    → IsHeader json val identifier "Request" "CallEnd"
    → IsCall json val src dst channel
    → process_packet json has_callback block c ≡ undefined
unfolding process_packet process_value read_params data_process_func params_of find_state statemap
process_packet-call_end json has_callback block c val identifier channel src dst parsed h a =
    rw
      (
        process_packet, parsed, h.identifier_at.1, h.identifier_at.2, h.type_at.1, h.type_at.2,
        h.name_at.1, h.name_at.2, a.param_at, a.src_at.1, a.src_at.2, a.dst_at.1, a.dst_at.2,
        a.channel_at.1, a.channel_at.2,
      )
      refl
