-- ===== src/Frame/Stream.antt =====
-- What a stream of frames is, and which option state stands for which part of a frame.
use console_master_rtpvoice.Prelude.{
  ℕ, ◌-◌, ◌≤◌, ◌<◌, ◌≡◌, List, [], ◌∷◌, ◌++◌, ℤ, pos, length, refl, replicate, length-replicate,
}
use console_master_rtpvoice.Common.{buf_length, protocol_head}
use console_master_rtpvoice.Text.Digits.{dec4}
use console_master_rtpvoice.Frame.{Options, fresh}

-- The largest payload that `transport_protocol_t` has room for.
abbrev pub max_payload : ℕ
max_payload = 1019

abbrev pub header : ℕ → List ℕ
header n = protocol_head ∷ dec4 n

abbrev pub frame : List ℕ → List ℕ
frame p = header (length p) ++ p

abbrev pub frames : List (List ℕ) → List ℕ
frames [] = []
frames (p ∷ ps) = frame p ++ frames ps

-- A payload that ends in `}` and fits into a frame.
pub record IsPayload (p : List ℕ) : Type 0 where
  pub front : List ℕ
  pub closes : p ≡ front ++ b'}' ∷ []
  pub small : length p ≤ max_payload

abbrev pub ArePayloads : List (List ℕ) → Type 0
ArePayloads [] = Unit {0}
ArePayloads (p ∷ ps) = IsPayload p × ArePayloads ps

-- What the receiver is in the middle of: nothing, or a frame of `n` bytes of which a header and
-- `body` have come.
pub data Wait : Type 0 where
  idle : Wait
  mid : ℕ → List ℕ → Wait

abbrev pub pending : Wait → List ℕ
pending idle = []
pending (mid n body) = header n ++ body

abbrev pub IsWait : Wait → Type 0
IsWait idle = Unit {0}
IsWait (mid n body) = (length body < n) × (n ≤ max_payload)

abbrev pub remained : Wait → ℤ
remained idle = pos 0
remained (mid n body) = pos (n - length body)

abbrev pub Known : Wait → ℤ → Type 0
Known idle l = Unit {0}
Known (mid n body) l = l ≡ pos n

abbrev pub state : ℤ → ℕ → ℤ → List ℕ → Options
state r c l buf = record { bytes_remained = r; count = c; pro_length = l; buf = buf }

-- The option state `o` stands for `w`: the bytes of `w` stand at the front of the buffer.
pub record Holds (w : Wait) (o : Options) : Type 0 where
  pub len : ℤ
  pub rest : List ℕ
  pub shape : o ≡ state (remained w) (length (pending w)) len (pending w ++ rest)
  pub full : length (pending w ++ rest) ≡ buf_length
  pub known : Known w len

-- The state that `InitProtocolData` leaves stands for nothing.
pub fresh-Holds : Holds idle fresh
fresh-Holds = record {
  len = pos 0;
  rest = replicate buf_length 0;
  shape = refl;
  full = length-replicate {A = ℕ} buf_length 0;
  known = tt;
}
