-- ===== src/Master/Session.antt =====
-- A session of `MyMasterServer` of mymaster.cpp: requests in order, and what is counted of its actions.
use Prim.Native.String.{String}
use console_master_rtpvoice.Prelude.{
  ℕ, ◌+◌, ◌≡◌, Bool, true, false, List, [], ◌∷◌, ◌++◌, if◌then◌else◌, Run, ok, ◌>>=◌, arith,
}
use console_master_rtpvoice.Common.{ResponeData, ProtocolNames}
use console_master_rtpvoice.Master.{
  Channel, channel1, channel2, Action, send, create, send_rtp, write_file, delete_rtp, close_file,
  open_file, Master, master_on_data,
}

-- A request with the two ids that are made for its answers.
pub record Request : Type 0 where
  pub guid : String
  pub guid' : String
  pub command : ProtocolNames
  pub data' : ResponeData

-- The requests of a session in order, with the actions of all, where the voice file opens.
unfoldable pub serve : List Request → Master → Run (Master × List Action)
serve [] m = ok (m, [])
serve (r ∷ rs) m = do
  (m1, acts) ← master_on_data r.guid r.guid' true r.command r.data' m
  (m2, more) ← serve rs m1
  ok (m2, acts ++ more)

abbrev pub as_number : Bool → ℕ
as_number b = if b then 1 else 0

abbrev pub same_channel : Channel → Channel → Bool
same_channel channel1 channel1 = true
same_channel channel1 channel2 = false
same_channel channel2 channel1 = false
same_channel channel2 channel2 = true

abbrev pub has : Channel → Master → Bool
has channel1 m = m.has_channel1
has channel2 m = m.has_channel2

-- How many of the actions make or delete a channel, and close or open the file.
unfoldable pub count : (Action → Bool) → List Action → ℕ
count p [] = 0
count p (a ∷ rest) = as_number (p a) + count p rest

abbrev pub creates : Channel → Action → Bool
creates c a = elim a [
  | create c' _ _ _ ↦ same_channel c c'
  | send _ _ ↦ false
  | send_rtp _ _ ↦ false
  | write_file _ ↦ false
  | delete_rtp _ ↦ false
  | close_file ↦ false
  | open_file ↦ false
]

abbrev pub deletes : Channel → Action → Bool
deletes c a = elim a [
  | delete_rtp c' ↦ same_channel c c'
  | create _ _ _ _ ↦ false
  | send _ _ ↦ false
  | send_rtp _ _ ↦ false
  | write_file _ ↦ false
  | close_file ↦ false
  | open_file ↦ false
]

abbrev pub closes : Action → Bool
closes a = elim a [
  | close_file ↦ true
  | open_file ↦ false
  | create _ _ _ _ ↦ false
  | send _ _ ↦ false
  | send_rtp _ _ ↦ false
  | write_file _ ↦ false
  | delete_rtp _ ↦ false
]

abbrev pub opens_file : Action → Bool
opens_file a = elim a [
  | open_file ↦ true
  | close_file ↦ false
  | create _ _ _ _ ↦ false
  | send _ _ ↦ false
  | send_rtp _ _ ↦ false
  | write_file _ ↦ false
  | delete_rtp _ ↦ false
]

pub count-append :
    (p : Action → Bool) (xs ys : List Action) → count p (xs ++ ys) ≡ count p xs + count p ys
unfolding count
count-append p [] ys = omega arith
count-append p (a ∷ xs) ys = let ih = count-append p xs ys in omega (arith, ih)
