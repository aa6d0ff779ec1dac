-- ===== src/Replies.antt =====
-- MyProtocol/myprotocol.cpp: the replies and notices of `JProtocol`, as the JSON values that are
-- written. An object is its fields in the order of the assignments.
pub mod Contents
use Prim.Native.String.{String}
use console_master_rtpvoice.Prelude.{
  ℕ, zero, suc, ◌%◌, ◌+◌, ◌-◌, Bool, true, false, not, ◌&&◌, List, [], ◌∷◌, ℤ, pos, eqb_ℤ, ltb,
  if◌then◌else◌,
}

-- `Json::Value`: what the program builds.
mutual
  pub data JsonValue : Type 0 where
    text : String → JsonValue
    number : ℤ → JsonValue
    array : Items → JsonValue
    object : Fields → JsonValue

  pub data Items : Type 0 where
    nil : Items
    cons : JsonValue → Items → Items

  pub data Fields : Type 0 where
    end : Fields
    field : String → JsonValue → Fields → Fields

-- An array with one element, as `append` makes it of an empty value.
abbrev pub single : JsonValue → JsonValue
single v = array (cons v nil)

-- `send_root`
abbrev pub message : String → String → String → JsonValue → JsonValue
message guid type name param = object (
    field "identifier" (text guid)
      (field "type" (text type) (field "name" (text name) (field "param" param end))))

abbrev pub status_item : String → String → Fields → JsonValue
status_item status reason more =
    object (field "status" (text status) (field "reason" (text reason) more))

unfoldable pub connect_reply : String → String → String → JsonValue
connect_reply guid status reason =
    message guid "Reply" "Connect" (single (status_item status reason end))

-- The item of a channel in `ConfigReply`.
abbrev pub channel_item : ℤ → JsonValue
channel_item value =
    if not (eqb_ℤ value (pos 0))
    then status_item "success" "" (field "value" (number value) end)
    else status_item "fail" "unset" (field "value" (number value) end)

unfoldable pub config_reply : String → ℤ → ℤ → JsonValue
config_reply guid channel1 channel2 = message guid "Reply" "Listening" (
    single (
      object (
        field "channel1" (single (channel_item channel1))
          (field "channel2" (single (channel_item channel2)) end))))

-- Status and reason of `QueryReply`.
abbrev pub query_status : ℤ → ℤ → String
query_status channel1 channel2 =
    if not (eqb_ℤ channel1 (pos 0)) && not (eqb_ℤ channel2 (pos 0)) then "success" else "fail"

abbrev pub query_reason : ℤ → ℤ → String
query_reason channel1 channel2 =
    if not (eqb_ℤ channel1 (pos 0)) && not (eqb_ℤ channel2 (pos 0))
    then ""
    else if eqb_ℤ channel1 (pos 0) && eqb_ℤ channel2 (pos 0)
    then "channel1,2 is unset"
    else if eqb_ℤ channel1 (pos 0) && not (eqb_ℤ channel2 (pos 0))
    then "channel1 is unset"
    else "channel2 is unset"

unfoldable pub query_reply : String → ℤ → ℤ → JsonValue
query_reply guid channel1 channel2 = message guid "Reply" "Query" (
    single (
      object (
        field "listening"
          (single
            (object (field "channel1" (number channel1) (field "channel2" (number channel2) end))))
          (field "status" (text (query_status channel1 channel2))
            (field "reason" (text (query_reason channel1 channel2)) end)))))

unfoldable pub call_request_reply : String → String → String → JsonValue
call_request_reply guid status reason =
    message guid "Reply" "CallRequest" (single (status_item status reason end))

unfoldable pub call_release_reply : String → String → String → JsonValue
call_release_reply guid status reason =
    message guid "Reply" "CallRelease" (single (status_item status reason end))

abbrev call_item : ℤ → ℤ → String → JsonValue
call_item src dst channel =
    object
      (field "src" (number src) (field "dst" (number dst) (field "channel" (text channel) end)))

unfoldable pub call_start_notify : String → ℤ → ℤ → String → JsonValue
call_start_notify guid src dst channel =
    message guid "Noitify" "CallStart" (single (call_item src dst channel))

unfoldable pub call_end_notify : String → ℤ → ℤ → String → JsonValue
call_end_notify guid src dst channel =
    message guid "Noitify" "CallEnd" (single (call_item src dst channel))

-- `%0x` of a number below 16.
abbrev pub hex_digit : ℕ → ℕ
hex_digit n = if ltb n 10 then b'0' + n else b'a' + (n - 10)

-- `CreateGuid`, for what `rand` returns round by round; the loop makes 32 rounds.
guid_rounds : ℕ → (ℕ → ℕ) → ℕ → List ℕ
guid_rounds zero rand i = []
guid_rounds (suc n) rand i = hex_digit (rand i % 16) ∷ guid_rounds n rand (suc i)

unfoldable pub create_guid : (ℕ → ℕ) → List ℕ
unfolding guid_rounds
create_guid rand = guid_rounds 32 rand 0
