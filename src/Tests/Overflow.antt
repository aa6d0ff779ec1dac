-- ===== src/Tests/Overflow.antt =====
-- Concrete chunks for the theorems on headers whose length is too large or negative.
use console_master_rtpvoice.Prelude.{
  ◌≡◌, List, [], ◌∷◌, ◌++◌, ℕ, map, pos, replicate, refl, undefined, arith,
}
use console_master_rtpvoice.Common.{protocol_head}
use console_master_rtpvoice.Text.Minus.{minus3}
use console_master_rtpvoice.Fifo.{empty_fifo}
use console_master_rtpvoice.Frame.{fresh}
use console_master_rtpvoice.Frame.Stream.{header, fresh-Holds}
use console_master_rtpvoice.Client.Loop.{process_client_req}
use console_master_rtpvoice.Client.Packet.{client_sink}
use console_master_rtpvoice.Client.Receive.{received, stopped}
use console_master_rtpvoice.Client.Overflow.{process_client_req-announced, process_client_req-minus}

-- `x` as many times as one call of `recv` may give it, and one time.
abbrev xs : List ℕ
xs = replicate 512 b'x'

process_client_req-announced_example :
    process_client_req
      (client_sink 321)
      (0 ∷ [])
      (map received ((header 2100 ++ replicate 507 b'x') ∷ xs ∷ xs ∷ xs ∷ (b'x' ∷ []) ∷ [])
        ++ stopped ∷ [])
      (pos 0)
      fresh
      empty_fifo
    ≡ undefined
process_client_req-announced_example =
    process_client_req-announced (client_sink 321) (0 ∷ []) refl 2100 (replicate 507 b'x')
      (xs ∷ xs ∷ xs ∷ (b'x' ∷ []) ∷ []) (stopped ∷ []) (pos 0) fresh empty_fifo (omega arith)
      (omega arith) (omega arith)
      (
        omega arith,
        omega arith,
        refl,
        (
          omega arith,
          omega arith,
          refl,
          (omega arith, omega arith, refl, (omega arith, omega arith, refl, tt)),
        ),
      )
      (omega arith) fresh-Holds

process_client_req-minus_example :
    process_client_req
      (client_sink 321)
      (0 ∷ [])
      (received (protocol_head ∷ (minus3 1 ++ b'}' ∷ [])) ∷ stopped ∷ [])
      (pos 0)
      fresh
      empty_fifo
    ≡ undefined
process_client_req-minus_example =
    process_client_req-minus 321 (0 ∷ []) 1 (b'}' ∷ []) (stopped ∷ []) (pos 0) fresh empty_fifo refl
      (omega arith) (omega arith) (omega arith) fresh-Holds
