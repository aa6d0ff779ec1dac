-- ===== src/Master/Race.antt =====
-- The first channel of `MasterOnDataFunc` of mymaster.cpp, with the handlers of any number of clients
-- at once: `onData` of ClientObj/clientobj.cpp locks a lock that each client has for itself, so the test for the
-- channel and its making are two steps.
use console_master_rtpvoice.Prelude.{
  ℕ, zero, suc, ◌+◌, ◌≤◌, ◌≡◌, refl, ap, Bool, true, false, List, [], ◌∷◌, ◌++◌, ok, arith,
}
use console_master_rtpvoice.Common.{
  channel1_rtp_base_port, channel1_rtp_dest_port, channel1_rtp_ssrc,
}
use console_master_rtpvoice.Master.{
  channel1, Action, create, open_file, Master, make_channel1, delete_master,
}
use console_master_rtpvoice.Master.Session.{
  as_number, count, creates, deletes, closes, opens_file, count-append,
}

-- The master, how many handlers have found that there is no first channel and not made it yet, and
-- what was done.
pub record Busy : Type 0 where
  pub master : Master
  pub inside : ℕ
  pub acts : List Action

abbrev pub idle_master : Master → Busy
idle_master m = record { master = m; inside = 0; acts = [] }

-- The channel and its file, where `fopen` succeeds, and what is done for them.
abbrev pub with_channel1 : Master → Master
with_channel1 m = record m { has_channel1 = true; has_file = true }

abbrev pub create_channel1 : List Action
create_channel1 =
    create channel1 channel1_rtp_base_port channel1_rtp_dest_port channel1_rtp_ssrc ∷ open_file ∷ []

-- What the handler of a client that asks for the first channel may do next: find none, find one, make
-- the one that it found missing.
pub data Step : Busy → Busy → Type 0 where
  find_none :
      (m : Master) (i : ℕ) (acts : List Action)
      → m.has_channel1 ≡ false
      → Step
          (record { master = m; inside = i; acts = acts })
          (record { master = m; inside = suc i; acts = acts })
  find_one :
      (m : Master) (i : ℕ) (acts : List Action)
      → m.has_channel1 ≡ true
      → Step
          (record { master = m; inside = i; acts = acts })
          (record { master = m; inside = i; acts = acts })
  make :
      (m : Master) (i : ℕ) (acts : List Action)
      → Step
          (record { master = m; inside = suc i; acts = acts })
          (record { master = with_channel1 m; inside = i; acts = acts ++ create_channel1 })

pub data Reach (b : Busy) : Busy → Type 0 where
  here : Reach b b
  next : {c d : Busy} → Reach b c → Step c d → Reach b d

-- The whole part of the handler that makes the first channel is one or two of the steps.
make_channel1-Reach :
    (one two file : Bool)
    → let m : Master = record { has_channel1 = one; has_channel2 = two; has_file = file } in
      (m' : Master) × (acts : List Action) × (make_channel1 true true m ≡ ok (m', acts))
      × Reach (idle_master m) (record { master = m'; inside = 0; acts = acts })
unfolding make_channel1
make_channel1-Reach true two file = (_, _, refl, next here (find_one _ 0 [] refl))
make_channel1-Reach false two file =
    (_, _, refl, next (next here (find_none _ 0 [] refl)) (make _ 0 []))

-- Any number of handlers find no channel before one makes it.
find_all :
    (n : ℕ) (m : Master)
    → m.has_channel1 ≡ false
    → Reach (idle_master m) (record { master = m; inside = n; acts = [] })
find_all zero m h = here
find_all (suc n) m h = next (find_all n m h) (find_none m n [] h)

make_all :
    {b : Busy} (n : ℕ) (m : Master) (acts : List Action)
    → Reach b (record { master = with_channel1 m; inside = n; acts = acts })
    → (acts' : List Action) × Reach b
        (record { master = with_channel1 m; inside = 0; acts = acts' })
      × (count (creates channel1) acts' ≡ count (creates channel1) acts + n)
      × (count opens_file acts' ≡ count opens_file acts + n)
unfolding count
make_all zero m acts r = (acts, r, omega arith, omega arith)
make_all (suc n) m acts r =
    let (acts', r', e, opened) =
      make_all n m (acts ++ create_channel1) (next r (make (with_channel1 m) n acts)) in
    (
      acts',
      r',
      omega (arith, e, count-append (creates channel1) acts create_channel1),
      omega (arith, opened, count-append opens_file acts create_channel1),
    )

-- However many clients ask for the first channel while there is none, all of them may make it: then,
-- where `fopen` succeeds, as many channels are made, and the voice file is opened as often, but the
-- destructor deletes one and closes one file.
pub creates-Reach :
    (n : ℕ) (m : Master)
    → m.has_channel1 ≡ false
    → (m' : Master) × (acts : List Action) × Reach
        (idle_master m)
        (record { master = m'; inside = 0; acts = acts })
      × (count (creates channel1) acts ≡ suc n)
      × (count opens_file acts ≡ suc n)
      × (count (deletes channel1) (delete_master m').1 ≡ 1)
      × (count closes (delete_master m').1 ≡ 1)
unfolding delete_master count
creates-Reach n m h =
    let (acts, r, e, opened) =
      make_all n m create_channel1 (next (find_all (suc n) m h) (make m n [])) in
    (with_channel1 m, acts, r, omega (arith, e), omega (arith, opened), ground arith, ground arith)

-- No handler looks for the channel while another one has found none and not made it yet.
abbrev pub AllAlone : {b c : Busy} → Reach b c → Type 0
AllAlone here = Unit {0}
AllAlone (next r (find_none m i acts h)) = (i ≡ 0) × AllAlone r
AllAlone (next r (find_one m i acts h)) = AllAlone r
AllAlone (next r (make m i acts)) = AllAlone r

-- The channels that were made are the one that is there now, and no handler is about to make another.
abbrev Counts : Bool → Busy → Type 0
Counts first b =
    (count (creates channel1) b.acts + as_number first ≡ as_number b.master.has_channel1)
    × (b.inside + as_number b.master.has_channel1 ≤ 1)

Step-Counts_made :
    (first : Bool) (m : Master) (i : ℕ) (acts : List Action)
    → Counts first (record { master = m; inside = suc i; acts = acts })
    → Counts first (record { master = with_channel1 m; inside = i; acts = acts ++ create_channel1 })
unfolding count
Step-Counts_made first m i acts (n, few) = (
  omega (arith, n, few, count-append (creates channel1) acts create_channel1),
  omega (arith, few),
)

Reach-Counts :
    (m : Master) (b : Busy) (r : Reach (idle_master m) b) → AllAlone r → Counts m.has_channel1 b
unfolding count
Reach-Counts m _ here h = (omega arith, ground arith)
Reach-Counts m _ (next r (find_none k i acts e)) (alone, h) =
    let c = Reach-Counts m _ r h in (c.0, omega (arith, ap as_number e))
Reach-Counts m _ (next r (find_one k i acts e)) h = Reach-Counts m _ r h
Reach-Counts m _ (next r (make k i acts)) h =
    Step-Counts_made m.has_channel1 k i acts (Reach-Counts m _ r h)

-- However the handlers of the clients are interleaved, as long as none looks for the first channel
-- while another has found none and not made it yet: a channel is made only where there is none, so at
-- most once, and the destructor deletes as many as were there before and were made.
pub creates-AllAlone :
    (m : Master) (b : Busy) (r : Reach (idle_master m) b)
    → AllAlone r
    → (count (creates channel1) b.acts + as_number m.has_channel1 ≡ as_number b.master.has_channel1)
      × (count (deletes channel1) (delete_master b.master).1
          ≡ count (creates channel1) b.acts + as_number m.has_channel1)
unfolding delete_master count
creates-AllAlone m b r h = let (n, few) = Reach-Counts m b r h in (n, ground (arith, n))
