-- ===== src/Client/Object.antt =====
-- ClientObj/clientobj.cpp: the constructor and the destructor of `ClientObj`.
use console_master_rtpvoice.Prelude.{ℕ, Bool, true, false, List, [], ◌∷◌, ◌++◌, ◌==◌, if◌then◌else◌}
use console_master_rtpvoice.Common.{
  invalid_socket, SocketParams, connect, ProtocolCtrlr, ListeningReplyParamsChannelsParams,
}
use console_master_rtpvoice.Fifo.{Fifo, empty_fifo, clear_queue}
use console_master_rtpvoice.Frame.{Options, fresh}

-- The members that the threads work with; `statemap` and the timeouts do not change.
pub record ClientObj : Type 0 where
  pub clientsocket : SocketParams
  pub has_callback : Bool
  pub temp_option : Options
  pub jqueue : Fifo
  pub the_protocol_ctrlr : ProtocolCtrlr
  pub set_thread_exit_flag : Bool
  pub has_process_client_thread : Bool
  pub has_parse_thread : Bool

abbrev timed_out : ListeningReplyParamsChannelsParams
timed_out = record { status = "fail"; reason = "timeout"; listening_group_id = 0 }

-- The defaults that `InitProtocolData` sets.
abbrev pub init_ctrlr : ProtocolCtrlr
init_ctrlr = record {
  clientfd = invalid_socket;
  master_state = connect;
  protocol_fixed_header = record { identifier = ""; type = "Request"; name = "Connect" };
  protocol_params = record {
    key = "";
    status = "fail";
    reason = "";
    src = 9;
    dst = 65536;
    channel = "";
    listening_channels_group = record { channel1_group_id = 0; channel2_group_id = 0 };
    listening_params_channels_params = record { channel1 = timed_out; channel2 = timed_out };
  };
}

-- The constructor, for the socket and whether a handler is given: both threads are started.
abbrev pub client_obj : SocketParams → Bool → ClientObj
client_obj socketparam has_callback = record {
  clientsocket = socketparam;
  has_callback = has_callback;
  temp_option = fresh;
  jqueue = empty_fifo;
  the_protocol_ctrlr = init_ctrlr;
  set_thread_exit_flag = false;
  has_process_client_thread = true;
  has_parse_thread = true;
}

data Effect : Type 0 where
  socket_close : ℕ → Effect
  join_parse_thread join_process_client_thread : Effect

-- The destructor: the socket is closed and its handle made invalid, and the flag set before the threads are waited for.
unfoldable delete_client_obj : ClientObj → ClientObj × List Effect
delete_client_obj c = (
  record c {
    clientsocket = record c.clientsocket { socket_fd = invalid_socket };
    set_thread_exit_flag = true;
    has_process_client_thread = false;
    has_parse_thread = false;
    jqueue = clear_queue c.jqueue;
  },
  (if c.clientsocket.socket_fd == invalid_socket
        then []
        else socket_close c.clientsocket.socket_fd ∷ [])
      ++ ((if c.has_parse_thread then join_parse_thread ∷ [] else [])
          ++ (if c.has_process_client_thread then join_process_client_thread ∷ [] else [])),
)
