-- ===== src/Server/Key.antt =====
-- About the key of a client that `NotifyDeleleClienObjFunc` of MyProtocol/myprotocol.cpp queues and
-- `RecoveryClientObjThreadFunc` reads.
use console_master_rtpvoice.Prelude.{
  ℕ, ◌+◌, ◌*◌, ◌/◌, ◌%◌, ◌^◌, ◌<◌, ◌≡◌, refl, List, ◌++◌, arith, length,
}
use console_master_rtpvoice.Common.{SocketParams}
use console_master_rtpvoice.Server.{params_bytes, params_of_bytes, sizeof_socket_params}

-- The fields of a key fit their C types.
pub record IsKey (p : SocketParams) : Type 0 where
  pub fd : p.socket_fd < 2 ^ 32
  pub family : p.remote_addr.sin_family < 2 ^ 16
  pub port : p.remote_addr.sin_port < 2 ^ 16
  pub addr : p.remote_addr.sin_addr < 2 ^ 32

pub length-params_bytes : (p : SocketParams) → length (params_bytes p) ≡ sizeof_socket_params
unfolding params_bytes
length-params_bytes p = refl

le32_value :
    (n : ℕ)
    → n < 2 ^ 32
    → n % 256 + n / 256 % 256 * 256 + n / 65536 % 256 * 65536 + n / 16777216 % 256 * 16777216 ≡ n
le32_value n h = omega arith

le16_value : (n : ℕ) → n < 2 ^ 16 → n % 256 + n / 256 % 256 * 256 ≡ n
le16_value n h = omega arith

-- The recovery thread reads a key, whose fields fit their C types, back as the client's thread
-- queued it, whatever bytes stand behind it.
pub params_of_bytes-params_bytes :
    (p : SocketParams) (rest : List ℕ) → IsKey p → params_of_bytes (params_bytes p ++ rest) ≡ p
unfolding params_bytes params_of_bytes
params_of_bytes-params_bytes p rest h = rw (
  le32_value p.socket_fd h.fd,
  le16_value p.remote_addr.sin_family h.family,
  le16_value p.remote_addr.sin_port h.port,
  le32_value p.remote_addr.sin_addr h.addr,
)
