-- ===== src/Master/Answers.antt =====
-- The answers of `MasterOnDataFunc` of mymaster.cpp to the requests of a client.
use Prim.Native.String.{String}
use package.text.Mathlib.Text.{◌==◌ as str_eq}
use console_master_rtpvoice.Prelude.{
  ℕ, ◌==◌, append_assoc, ◌≡◌, refl, sym, Bool, true, false, not, List, [], ◌∷◌, ◌++◌, Option, some,
  none, ℤ, pos, eqb_ℤ, if◌then◌else◌, ok, arith, map,
}
use console_master_rtpvoice.Common.{
  ResponeData, ProtocolNames, connect, listening, query, call_request, call_release, call_start,
  call_end,
}
use console_master_rtpvoice.Client.{statemap, find_state}
use console_master_rtpvoice.Replies.{
  JsonValue, text, number, array, object, Fields, end, field, connect_reply, config_reply,
  query_reply, call_request_reply, call_release_reply, call_start_notify, call_end_notify,
}
use console_master_rtpvoice.Master.{
  Action, send, create, send_rtp, write_file, delete_rtp, close_file, open_file, Master,
  set_channel1, set_channel2, make_channel1, make_channel2, master_on_data, start_voice,
}

abbrev pub member_text : String → Fields → Option String
member_text k end = none
member_text k (field k' v more) =
    if str_eq k' k
    then elim v [ text t ↦ some t | number _ ↦ none | array _ ↦ none | object _ ↦ none ]
    else member_text k more

-- The names of the messages of type "Reply" that go to a socket.
abbrev pub reply_name : JsonValue → List String
reply_name v = elim v [
  | object fs ↦ elim (member_text "type" fs) [
    | some t ↦
        if str_eq t "Reply"
        then elim (member_text "name" fs) [ some n ↦ n ∷ [] | none ↦ [] ]
        else []
    | none ↦ []
  ]
  | text _ ↦ []
  | number _ ↦ []
  | array _ ↦ []
]

unfoldable pub replies : ℕ → List Action → List String
replies fd [] = []
replies fd (a ∷ rest) =
    (elim a [
      | send to v ↦ if to == fd then reply_name v else []
      | create _ _ _ _ ↦ []
      | send_rtp _ _ ↦ []
      | write_file _ ↦ []
      | delete_rtp _ ↦ []
      | close_file ↦ []
      | open_file ↦ []
    ])
    ++ replies fd rest

pub replies-append :
    (fd : ℕ) (xs ys : List Action) → replies fd (xs ++ ys) ≡ replies fd xs ++ replies fd ys
unfolding replies
replies-append fd [] ys = refl
replies-append fd (a ∷ xs) ys =
    rw (replies-append fd xs ys) (sym (append_assoc _ (replies fd xs) (replies fd ys)))

-- No message goes to another socket.
abbrev pub AllTo : ℕ → List Action → Type 0
AllTo fd [] = Unit {0}
AllTo fd (send to v ∷ acts) = (to ≡ fd) × AllTo fd acts
AllTo fd (create c b d s ∷ acts) = AllTo fd acts
AllTo fd (send_rtp c n ∷ acts) = AllTo fd acts
AllTo fd (write_file bs ∷ acts) = AllTo fd acts
AllTo fd (delete_rtp c ∷ acts) = AllTo fd acts
AllTo fd (close_file ∷ acts) = AllTo fd acts
AllTo fd (open_file ∷ acts) = AllTo fd acts

pub AllTo-append : (fd : ℕ) (xs ys : List Action) → AllTo fd xs → AllTo fd ys → AllTo fd (xs ++ ys)
AllTo-append fd [] ys h k = k
AllTo-append fd (send to v ∷ xs) ys (e, h) k = (e, AllTo-append fd xs ys h k)
AllTo-append fd (create c b d s ∷ xs) ys h k = AllTo-append fd xs ys h k
AllTo-append fd (send_rtp c n ∷ xs) ys h k = AllTo-append fd xs ys h k
AllTo-append fd (write_file bs ∷ xs) ys h k = AllTo-append fd xs ys h k
AllTo-append fd (delete_rtp c ∷ xs) ys h k = AllTo-append fd xs ys h k
AllTo-append fd (close_file ∷ xs) ys h k = AllTo-append fd xs ys h k
AllTo-append fd (open_file ∷ xs) ys h k = AllTo-append fd xs ys h k

start_voice-AllTo : (fd : ℕ) (name : String) (m : Master) → AllTo fd (start_voice name m)
start_voice-AllTo fd name m = ground arith

set_channel1-AllTo :
    (fd : ℕ) (z : ℤ) (m m' : Master) (acts : List Action)
    → set_channel1 true z m ≡ ok (m', acts)
    → AllTo fd acts
unfolding set_channel1 make_channel1
set_channel1-AllTo fd z m m' acts e = ground arith

set_channel2-AllTo : (fd : ℕ) (z : ℤ) (m : Master) → AllTo fd (set_channel2 z m).1
unfolding set_channel2 make_channel2
set_channel2-AllTo fd z m = ground arith

start_voice_silent : (fd : ℕ) (name : String) (m : Master) → replies fd (start_voice name m) ≡ []
unfolding replies
start_voice_silent fd name m = ground arith

set_channel1_silent :
    (fd : ℕ) (z : ℤ) (m m' : Master) (acts : List Action)
    → set_channel1 true z m ≡ ok (m', acts)
    → replies fd acts ≡ []
unfolding set_channel1 make_channel1 replies
set_channel1_silent fd z m m' acts e = ground arith

make_channel1_ok :
    (asked one two file : Bool)
    → (m' : Master) × (acts : List Action) × (make_channel1 asked true
          (record { has_channel1 = one; has_channel2 = two; has_file = file })
        ≡ ok (m', acts))
unfolding make_channel1
make_channel1_ok false one two file = (_, _, refl)
make_channel1_ok true true two file = (_, _, refl)
make_channel1_ok true false two file = (_, _, refl)

set_channel1_ok :
    (z : ℤ) (m : Master)
    → (m' : Master) × (acts : List Action) × (set_channel1 true z m ≡ ok (m', acts))
unfolding set_channel1
set_channel1_ok z m =
    make_channel1_ok (not (eqb_ℤ z (pos 0))) m.has_channel1 m.has_channel2 m.has_file

pub own_socket : (fd : ℕ) → (fd == fd) ≡ true
own_socket fd = ground arith

set_channel2_silent : (fd : ℕ) (z : ℤ) (m : Master) → replies fd (set_channel2 z m).1 ≡ []
unfolding set_channel2 make_channel2 replies
set_channel2_silent fd z m = ground arith

unfoldable pub is_request : ProtocolNames → Bool
is_request connect = true
is_request listening = true
is_request query = true
is_request call_request = true
is_request call_release = true
is_request call_start = false
is_request call_end = false

-- Where the voice file opens, each of the five requests is answered by exactly one message of type
-- "Reply" to the socket it came from, whose name is the one that the table of requests has for it;
-- a "CallStart" and a "CallEnd" are not answered. No message goes
-- to another socket.
pub master_on_data-replies :
    (g g' : String) (cmd : ProtocolNames) (d : ResponeData) (m : Master)
    → (m' : Master) × (acts : List Action) × (master_on_data g g' true cmd d m ≡ ok (m', acts))
      × AllTo d.socket_fd acts
      × (map (find_state statemap) (replies d.socket_fd acts)
          ≡ (if is_request cmd then some cmd ∷ [] else []))
unfolding master_on_data replies find_state statemap is_request connect_reply config_reply
    query_reply call_request_reply call_release_reply call_start_notify call_end_notify
master_on_data-replies g g' connect d m = (m, _, refl, (refl, tt), rw (own_socket d.socket_fd) refl)
master_on_data-replies g g' listening d m =
    let (m1, acts1, e1) = set_channel1_ok d.channel1_group_id m in
    let made2 = (set_channel2 d.channel2_group_id m1).1 in
    let reply = send d.socket_fd (config_reply g d.channel1_group_id d.channel2_group_id) ∷ [] in
    (
      (set_channel2 d.channel2_group_id m1).0,
      acts1 ++ (made2 ++ reply),
      rw e1 refl,
      AllTo-append d.socket_fd acts1 (made2 ++ reply)
          (set_channel1-AllTo d.socket_fd d.channel1_group_id m m1 acts1 e1)
          (AllTo-append d.socket_fd made2 reply
            (set_channel2-AllTo d.socket_fd d.channel2_group_id m1) (refl, tt)),
      rw
          (
            replies-append d.socket_fd acts1 (made2 ++ reply),
            set_channel1_silent d.socket_fd d.channel1_group_id m m1 acts1 e1,
            replies-append d.socket_fd made2 reply,
            set_channel2_silent d.socket_fd d.channel2_group_id m1,
            own_socket d.socket_fd,
          )
          refl,
    )
master_on_data-replies g g' query d m = (m, _, refl, (refl, tt), rw (own_socket d.socket_fd) refl)
master_on_data-replies g g' call_request d m = (
  m,
  _,
  refl,
  (refl, (refl, start_voice-AllTo d.socket_fd d.channel_id m)),
  rw (own_socket d.socket_fd, start_voice_silent d.socket_fd d.channel_id m) refl,
)
master_on_data-replies g g' call_release d m =
    (m, _, refl, (refl, (refl, tt)), rw (own_socket d.socket_fd) refl)
master_on_data-replies g g' call_start d m = (m, _, refl, tt, refl)
master_on_data-replies g g' call_end d m = (m, _, refl, tt, refl)
