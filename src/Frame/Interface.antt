-- ===== src/Frame/Interface.antt =====
-- What the framing needs of the queue that takes its frames: `PushRecvBuffToQueue`, given the
-- buffer from the payload on and the length as the C code passes it.
use console_master_rtpvoice.Prelude.{ℕ, ◌≡◌, List, ◌++◌, ℤ, pos, length, Run}

pub record Sink (Q : Type 0) : Type 0 where
  pub push : Q → List ℕ → ℤ → Run Q
  -- What a push of the payload alone does: no byte behind it is looked at.
  pub deliver : Q → List ℕ → Run Q
  pub push-deliver : (q : Q) (p rest : List ℕ) → push q (p ++ rest) (pos (length p)) ≡ deliver q p
