-- ===== src/Tests/Requests.antt =====
-- Concrete messages for the theorems on `ProtocolParseThreadFunc`.
use Prim.Native.String.{String}
use package.text.Mathlib.Text.{◌==◌ as str_eq}
use console_master_rtpvoice.Prelude.{
  ℕ, ◌≡◌, refl, true, List, [], ◌∷◌, Option, none, some, ℤ, pos, ok, undefined, if◌then◌else◌,
  arith,
}
use console_master_rtpvoice.Common.{ResponeData, connect, call_request, ProtocolCtrlr}
use console_master_rtpvoice.Replies.{JsonValue, text, number, array, object, Fields, end, field}
use console_master_rtpvoice.Client.{Json, read_fd, process_packet}
use console_master_rtpvoice.Client.Requests.{
  IsHeader, IsCall, is_request, process_packet-call, process_packet-call_end,
}

abbrev lookup : String → Fields → Option JsonValue
lookup k end = none
lookup k (field k' v more) = if str_eq k' k then some v else lookup k more

abbrev member_of : JsonValue → String → Option JsonValue
member_of v k = elim v [
  | object fs ↦ lookup k fs
  | text _ ↦ none
  | number _ ↦ none
  | array _ ↦ none
]

abbrev string_of : JsonValue → Option String
string_of v = elim v [ text t ↦ some t | number _ ↦ none | array _ ↦ none | object _ ↦ none ]

abbrev int_of : JsonValue → Option ℤ
int_of v = elim v [ number z ↦ some z | text _ ↦ none | array _ ↦ none | object _ ↦ none ]

abbrev pub call_message : String → JsonValue
call_message name = object (
    field "identifier" (text "7f") (
      field "type" (text "Request") (
        field "name" (text name) (
          field "param"
            (object (
              field "src" (number (pos 11))
                (field "dst" (number (pos 22)) (field "channel" (text "channel1") end))))
            end))))

-- A reader whose every text is one message.
abbrev pub reader : String → Json
reader name = record {
  Value = JsonValue;
  parse = λ t. some (call_message name);
  member = member_of;
  as_string = string_of;
  as_int = int_of;
}

abbrev a_block : List ℕ
a_block = b'1' ∷ b'2' ∷ b'3' ∷ 0 ∷ b'{' ∷ b'}' ∷ []

abbrev pub fresh_ctrlr : ProtocolCtrlr
fresh_ctrlr = record {
  clientfd = 0;
  master_state = connect;
  protocol_fixed_header = record { identifier = ""; type = ""; name = "" };
  protocol_params = record {
    key = "";
    status = "";
    reason = "";
    src = 0;
    dst = 0;
    channel = "";
    listening_channels_group = record { channel1_group_id = 0; channel2_group_id = 0 };
    listening_params_channels_params = record {
      channel1 = record { status = ""; reason = ""; listening_group_id = 0 };
      channel2 = record { status = ""; reason = ""; listening_group_id = 0 };
    };
  };
}

pub message-IsHeader :
    (name : String) → IsHeader (reader name) (call_message name) "7f" "Request" name
message-IsHeader name = record {
  identifier_at = (_, refl, refl);
  type_at = (_, refl, refl);
  name_at = (_, refl, refl);
}

pub message-IsCall :
    (name : String) → IsCall (reader name) (call_message name) (pos 11) (pos 22) "channel1"
message-IsCall name = record {
  param = _;
  param_at = refl;
  src_at = (_, refl, refl);
  dst_at = (_, refl, refl);
  channel_at = (_, refl, refl);
}

process_packet-call_example :
    (c' : ProtocolCtrlr) × (d : ResponeData) × (process_packet
        (reader "CallRequest")
        true
        a_block
        fresh_ctrlr
      ≡ ok (c', some (call_request, d)))
    × (d.socket_fd ≡ read_fd a_block)
    × (d.identifier ≡ "7f")
    × (d.channel_id ≡ "channel1")
    × (d.src_id ≡ pos 11)
    × (d.dst_id ≡ pos 22)
process_packet-call_example =
    process_packet-call (reader "CallRequest") a_block fresh_ctrlr (call_message "CallRequest") "7f"
      "CallRequest" "channel1" call_request (pos 11) (pos 22) refl (message-IsHeader "CallRequest")
      is_request (message-IsCall "CallRequest") (omega arith) (omega arith)

process_packet-call_end_example :
    process_packet (reader "CallEnd") true a_block fresh_ctrlr ≡ undefined
process_packet-call_end_example =
    process_packet-call_end (reader "CallEnd") true a_block fresh_ctrlr (call_message "CallEnd")
      "7f" "channel1" (pos 11) (pos 22) refl (message-IsHeader "CallEnd") (message-IsCall "CallEnd")
