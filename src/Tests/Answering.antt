-- ===== src/Tests/Answering.antt =====
-- Concrete requests for the theorems on the way from the socket to the answers.
use console_master_rtpvoice.Prelude.{◌*◌, ◌≡◌, refl, true, [], ◌∷◌, some, pos, arith, ok}
use console_master_rtpvoice.Common.{ResponeData, call_request, listening, ProtocolCtrlr}
use console_master_rtpvoice.Replies.{JsonValue, text, number, object, end, field, config_reply}
use console_master_rtpvoice.Client.{process_value}
use console_master_rtpvoice.Client.Requests.{IsHeader, is_request}
use console_master_rtpvoice.Client.Commands.{IsListening, calls}
use console_master_rtpvoice.Master.{send, new_master, master_on_data}
use console_master_rtpvoice.Gateway.{IsRequest, Serves, ended, received, handed}
use console_master_rtpvoice.Gateway.Groups.{listening-lost_groups}
use console_master_rtpvoice.Tests.Requests.{
  reader, fresh_ctrlr, call_message, message-IsHeader, message-IsCall,
}
use console_master_rtpvoice.Tests.Threads.{braces, wire_payloads}

pub braces-IsRequest : IsRequest (reader "CallRequest") braces call_request
braces-IsRequest = record {
  val = call_message "CallRequest";
  identifier = "7f";
  name = "CallRequest";
  parsed = refl;
  header = message-IsHeader "CallRequest";
  params =
      calls "CallRequest" call_request (pos 11) (pos 22) "channel1" is_request
        (message-IsCall "CallRequest");
}

pub two-Serves : Serves (reader "CallRequest") wire_payloads [] (call_request ∷ call_request ∷ [])
two-Serves = received _ _ _ _ (
    handed _ _ _ _ _ _ braces-IsRequest
      (received _ _ _ _ (handed _ _ _ _ _ _ braces-IsRequest (ended _ _ _))))

abbrev listening_message : JsonValue
listening_message = object (
    field "identifier" (text "7f") (
      field "type" (text "Request") (
        field "name" (text "Listening") (
          field "param"
            (object (
              field "listening"
                (object (
                  field "channel1" (number (pos 65536))
                    (field "channel2" (number (pos 131072)) end)))
                end))
            end))))

listening_message-IsHeader :
    IsHeader (reader "Listening") listening_message "7f" "Request" "Listening"
listening_message-IsHeader = record {
  identifier_at = (_, refl, refl);
  type_at = (_, refl, refl);
  name_at = (_, refl, refl);
}

listening_message-IsListening :
    IsListening (reader "Listening") listening_message (pos (65536 * 1)) (pos (65536 * 2))
listening_message-IsListening = record {
  param = _;
  groups = _;
  param_at = refl;
  groups_at = refl;
  one_at = (_, refl, refl);
  two_at = (_, refl, refl);
}

listening-lost_groups_example :
    (c' : ProtocolCtrlr) × (d : ResponeData) × (process_value
        (reader "Listening")
        true
        321
        listening_message
        fresh_ctrlr
      ≡ ok (c', some (listening, d)))
    × (master_on_data "a" "b" true listening d new_master
        ≡ ok (new_master, send 321 (config_reply "a" (pos 0) (pos 0)) ∷ []))
listening-lost_groups_example =
    listening-lost_groups (reader "Listening") 321 listening_message fresh_ctrlr "7f" 1 2 "a" "b"
      true new_master listening_message-IsHeader listening_message-IsListening (omega arith)
      (omega arith)
