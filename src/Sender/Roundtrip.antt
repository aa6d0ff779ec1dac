-- ===== src/Sender/Roundtrip.antt =====
-- `SendDataToTheThirdParty` of MyProtocol/myprotocol.cpp together with
-- `ProcessClientReqThreadFunc` of ClientObj/clientobj.cpp.
use console_master_rtpvoice.Prelude.{
  ℕ, ◌≤◌, ◌≡◌, refl, sym, ◌∙◌, false, ◌&&◌, List, [], ◌∷◌, ◌++◌, append-nil, ℤ, pos, eqb_ℤ, length,
  arith, ok, ◌>>=◌, >>=_assoc,
}
use console_master_rtpvoice.Text.Digits.{NoDigit}
use console_master_rtpvoice.Frame.{Options}
use console_master_rtpvoice.Frame.Interface.{Sink}
use console_master_rtpvoice.Frame.Stream.{idle, frame, frames, IsPayload, Holds}
use console_master_rtpvoice.Client.Loop.{is_quit, process_client_req}
use console_master_rtpvoice.Client.Receive.{
  Cuts, done, cut, received, stopped, process_client_req-Cuts,
}
use console_master_rtpvoice.Sender.{fragment}
use console_master_rtpvoice.Sender.Fragment.{NoNul, fragment-eq-frame}

not_alone :
    (p : List ℕ)
    → 100 ≤ length p
    → (is_quit (frame p) && eqb_ℤ (pos (length (frame p))) (pos 1)) ≡ false
not_alone p h = refl

one_frame : (p : List ℕ) → frame p ≡ frames (p ∷ []) ++ []
one_frame p = sym (append-nil (frame p ++ []) ∙ append-nil (frame p))

one_cut :
    (p : List ℕ)
    → 100 ≤ length p
    → length p ≤ 507
    → IsPayload p
    → Cuts idle (frame p ∷ []) (p ∷ []) idle
one_cut p low high good =
    cut idle idle idle (frame p) (p ∷ []) [] [] tt (good, tt) (omega arith) (omega arith)
      (one_frame p) (not_alone p low) (done idle)

-- A payload of 100 to 507 bytes that ends in `}` and has no NUL in it is sent as bytes that, where
-- they come in as one chunk and nothing is pending, make the receiver deliver that payload once;
-- nothing is pending then. What the receiver's `sscanf` meets behind four digits does not begin
-- with a digit.
pub fragment-process_client_req :
    {Q : Type 0} (s : Sink Q) (junk junk' p : List ℕ) (o : Options) (ret : ℤ)
    → NoDigit junk
    → 100 ≤ length p
    → length p ≤ 507
    → NoNul p
    → IsPayload p
    → Holds idle o
    → (bytes : List ℕ) × (o' : Options) × (ret' : ℤ) × (fragment junk' p ≡ ok bytes)
      × Holds idle o'
      × ((q : Q)
          → process_client_req s junk (received bytes ∷ stopped ∷ []) ret o q
            ≡ (s.deliver q p >>= λ q'. ok (ret', o', q')))
fragment-process_client_req s junk junk' p o ret clean low high no_nul good h =
    let (o', ret', h', run) =
      process_client_req-Cuts s junk clean idle idle (frame p ∷ []) (p ∷ []) o ret
        (one_cut p low high good) h tt in
    (
      frame p,
      o',
      ret',
      fragment-eq-frame junk' p low (omega arith) no_nul,
      h',
      λ q. run q ∙ >>=_assoc (s.deliver q p) _ _,
    )
