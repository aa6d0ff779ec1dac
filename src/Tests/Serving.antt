-- ===== src/Tests/Serving.antt =====
-- Concrete clients and sessions for the theorems on the servers.
use console_master_rtpvoice.Prelude.{
  ℕ, ◌+◌, ◌≡◌, refl, true, false, List, [], ◌∷◌, ℤ, pos, arith, ok,
}
use console_master_rtpvoice.Common.{
  lt_params, SocketParams, ResponeData, ResponeRtpData, listening, max_listening_count,
}
use console_master_rtpvoice.Server.{Server, new_server, start, listen_thread_func}
use console_master_rtpvoice.Server.ClientMap.{IsOrdered}
use console_master_rtpvoice.Server.Key.{IsKey}
use console_master_rtpvoice.Server.Listening.{
  IsOpen, IsDeaf, accept_all, listen-IsDeaf, accept_all-start,
}
use console_master_rtpvoice.Master.{
  channel1, Action, Master, new_master, master_on_data, delete_master, set_channel1, set_channel2,
  make_channel1, make_channel2,
}
use console_master_rtpvoice.Master.Race
use console_master_rtpvoice.Master.Race.{
  Busy, idle_master, with_channel1, create_channel1, find_none, find_one, make, creates-Reach,
  creates-AllAlone,
}
use console_master_rtpvoice.Master.Session.{
  Request, serve, as_number, has, count, creates, deletes, closes, opens_file,
}
use console_master_rtpvoice.Master.Handler.{serve-delete_master}

abbrev pub client_at : ℕ → ℕ → SocketParams
client_at fd port = record {
  socket_fd = fd;
  remote_addr = record { sin_family = 2; sin_port = port; sin_addr = 16777343 };
}

abbrev two_clients : List (SocketParams × ℕ)
two_clients = (client_at 100 7, 0) ∷ (client_at 100 9, 1) ∷ []

pub two_clients-IsOrdered : IsOrdered two_clients
unfolding lt_params
two_clients-IsOrdered = ((refl, tt), (tt, tt))

client-IsKey : IsKey (client_at 100 7)
client-IsKey = record {
  fd = omega arith;
  family = omega arith;
  port = omega arith;
  addr = omega arith;
}

abbrev pub running_server : Server
running_server = record new_server { clientmap = two_clients }

accept_all-start_example :
    let s = accept_all (client_at 100 7 ∷ client_at 104 9 ∷ []) (start 4 true true new_server) in
    IsOpen s × (s.listen_numb ≡ 2 + 1)
accept_all-start_example =
    accept_all-start 4 (client_at 100 7 ∷ client_at 104 9 ∷ []) (omega arith) (omega arith)

abbrev used_up : Server
used_up = record new_server {
  serversoc = 4;
  listen_numb = max_listening_count;
  waiting = 1;
  clientmap = two_clients;
}

used_up-IsOpen : IsOpen used_up
used_up-IsOpen = record {
  open_socket = omega arith;
  made = omega arith;
  one_waits = refl;
  ordered = two_clients-IsOrdered;
}

listen-IsDeaf_example :
    IsDeaf (listen_thread_func (client_at 108 5) used_up).0
    × ((listen_thread_func (client_at 108 5) used_up).0.clientmap ≡ two_clients)
listen-IsDeaf_example = listen-IsDeaf (client_at 108 5) used_up used_up-IsOpen refl

abbrev groups : ℤ → ℤ → ResponeData
groups one two = record {
  socket_fd = 100;
  identifier = "7f";
  key = "";
  channel_id = "channel1";
  channel1_group_id = one;
  channel2_group_id = two;
  src_id = pos 11;
  dst_id = pos 22;
  status = "";
  reason = "";
}

abbrev session : List Request
session =
    record { guid = "a"; guid' = "b"; command = listening; data' = groups (pos 1) (pos 0) }
    ∷ record { guid = "c"; guid' = "d"; command = listening; data' = groups (pos 2) (pos 0) }
    ∷ []

serve-delete_master_example :
    (m : Master) × (acts : List Action) × (serve session new_master ≡ ok (m, acts))
    × (count (creates channel1) acts ≡ as_number (has channel1 m))
    × (count (deletes channel1) (delete_master m).1 ≡ count (creates channel1) acts)
    × (count closes (delete_master m).1 ≡ count (creates channel1) acts)
serve-delete_master_example = serve-delete_master session channel1

abbrev pub with_one : Master
with_one = record { has_channel1 = true; has_channel2 = false; has_file = true }

abbrev some_voice : ResponeRtpData
some_voice = record { payloaddatalength = 2; ssrc = 1; payloaddata = 3 ∷ 4 ∷ [] }

served_session : (acts : List Action) × (serve session new_master ≡ ok (with_one, acts))
unfolding serve master_on_data set_channel1 set_channel2 make_channel1 make_channel2
served_session = (_, refl)

creates-Reach_example :
    (m' : Master) × (acts : List Action) × Race.Reach
      (idle_master new_master)
      (record { master = m'; inside = 0; acts = acts })
    × (count (creates channel1) acts ≡ 2)
    × (count opens_file acts ≡ 2)
    × (count (deletes channel1) (delete_master m').1 ≡ 1)
    × (count closes (delete_master m').1 ≡ 1)
creates-Reach_example = creates-Reach 1 new_master refl

-- One client makes the channel, and another finds it.
abbrev made_one : Busy
made_one = record { master = with_channel1 new_master; inside = 0; acts = create_channel1 }

abbrev made_one-Reach : Race.Reach (idle_master new_master) made_one
made_one-Reach =
    Race.next
      (Race.next (Race.next Race.here (find_none new_master 0 [] refl)) (make new_master 0 []))
      (find_one (with_channel1 new_master) 0 create_channel1 refl)

creates-AllAlone_example :
    (count (creates channel1) create_channel1 + 0 ≡ 1)
    × (count (deletes channel1) (delete_master (with_channel1 new_master)).1
        ≡ count (creates channel1) create_channel1 + 0)
creates-AllAlone_example = creates-AllAlone new_master made_one made_one-Reach (refl, tt)
