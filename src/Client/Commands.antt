-- ===== src/Client/Commands.antt =====
-- Which request of ClientObj/clientobj.cpp is handed on as which command, with what parameters.
use Prim.Native.String.{String}
use console_master_rtpvoice.Prelude.{ℕ, ◌≡◌, refl, true, some, ℤ, ok}
use console_master_rtpvoice.Common.{
  to_u32, to_i16, ResponeData, ProtocolCtrlr, ProtocolNames, connect, listening, query,
}
use console_master_rtpvoice.Client.{
  Json, data_process_func, find_state, statemap, process_value, respone_data, with_key, with_groups,
  with_call, with_header, read_params, params_of,
}
use console_master_rtpvoice.Client.Requests.{TextAt, IntAt, IsHeader, IsCall, CallName, known}

-- The parameters of a `Listening`.
pub record IsListening (json : Json) (val : json.Value) (one two : ℤ) : Type 0 where
  pub param : json.Value
  pub groups : json.Value
  pub param_at : json.member val "param" ≡ some param
  pub groups_at : json.member param "listening" ≡ some groups
  pub one_at : IntAt json groups "channel1" one
  pub two_at : IntAt json groups "channel2" two

-- The names of the requests that are handed on, and what each has to carry.
pub data HasParams (json : Json) (val : json.Value) : String → ProtocolNames → Type 0 where
  connects : (key : String) → TextAt json val "key" key → HasParams json val "Connect" connect
  listens : (one two : ℤ) → IsListening json val one two → HasParams json val "Listening" listening
  queries : HasParams json val "Query" query
  calls :
      (name : String) (cmd : ProtocolNames) (src dst : ℤ) (channel : String)
      → CallName name cmd
      → IsCall json val src dst channel
      → HasParams json val name cmd

-- A "Listening" is handed on with the low 16 bits of its group ids.
pub process_value-listening :
    (json : Json) (fd : ℕ) (val : json.Value) (c : ProtocolCtrlr) (identifier : String)
    (one two : ℤ)
    → IsHeader json val identifier "Request" "Listening"
    → IsListening json val one two
    → (c' : ProtocolCtrlr) × (d : ResponeData) × (process_value json true fd val c
        ≡ ok (c', some (listening, d)))
      × (d.socket_fd ≡ fd)
      × (d.identifier ≡ identifier)
      × (d.channel1_group_id ≡ to_i16 (to_u32 one))
      × (d.channel2_group_id ≡ to_i16 (to_u32 two))
unfolding process_value read_params data_process_func params_of find_state statemap
process_value-listening json fd val c identifier one two h l =
    let c' =
      with_groups (with_header c fd identifier "Request" "Listening") (to_u32 one) (to_u32 two) in
    (
      c',
      respone_data c',
      rw
          (
            h.identifier_at.1, h.identifier_at.2, h.type_at.1, h.type_at.2, h.name_at.1,
            h.name_at.2, l.param_at, l.groups_at, l.one_at.1, l.one_at.2, l.two_at.1, l.two_at.2,
          )
          refl,
      refl,
      refl,
      refl,
      refl,
    )

-- A request is handed on as the command of its name, with the socket and its identifier.
pub process_value-command :
    (json : Json) (fd : ℕ) (val : json.Value) (c : ProtocolCtrlr) (identifier name : String)
    (cmd : ProtocolNames)
    → IsHeader json val identifier "Request" name
    → HasParams json val name cmd
    → (c' : ProtocolCtrlr) × (d : ResponeData) × (process_value json true fd val c
        ≡ ok (c', some (cmd, d)))
      × (d.socket_fd ≡ fd)
      × (d.identifier ≡ identifier)
unfolding process_value read_params data_process_func params_of find_state statemap
process_value-command json fd val c identifier _ _ h (connects key k) =
    let c' = with_key (with_header c fd identifier "Request" "Connect") key in
    (
      c',
      respone_data c',
      rw
          (
            h.identifier_at.1, h.identifier_at.2, h.type_at.1, h.type_at.2, h.name_at.1,
            h.name_at.2, k.1, k.2,
          )
          refl,
      refl,
      refl,
    )
process_value-command json fd val c identifier _ _ h (listens one two l) =
    let (c', d, e, from, same, _, _) =
      process_value-listening json fd val c identifier one two h l in
    (c', d, e, from, same)
process_value-command json fd val c identifier _ _ h queries =
    let c' = with_header c fd identifier "Request" "Query" in
    (
      c',
      respone_data c',
      rw (h.identifier_at.1, h.identifier_at.2, h.type_at.1, h.type_at.2, h.name_at.1, h.name_at.2)
          refl,
      refl,
      refl,
    )
process_value-command json fd val c identifier _ _ h (calls name cmd src dst channel is_call a) =
    let (carries, finds) = known name cmd is_call in
    let c' =
      with_call (with_header c fd identifier "Request" name) (to_u32 src) (to_u32 dst) channel in
    (
      c',
      respone_data c',
      rw
          (
            h.identifier_at.1, h.identifier_at.2, h.type_at.1, h.type_at.2, h.name_at.1,
            h.name_at.2, carries, a.param_at, a.src_at.1, a.src_at.2, a.dst_at.1, a.dst_at.2,
            a.channel_at.1, a.channel_at.2, data_process_func, finds,
          )
          refl,
      refl,
      refl,
    )
