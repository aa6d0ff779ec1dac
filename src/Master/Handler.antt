-- ===== src/Master/Handler.antt =====
-- What `MasterOnDataFunc` of mymaster.cpp does to the channels and the file, over a whole session.
use Prim.Native.String.{String}
use console_master_rtpvoice.Prelude.{
  subst, ◌+◌, ◌≡◌, refl, ap, sym, ◌∙◌, Bool, true, false, not, List, [], ◌∷◌, ◌++◌, ℤ, pos, eqb_ℤ,
  take, Run, ok, undefined, thrown, running, ◌>>=◌, arith,
}
use console_master_rtpvoice.Common.{
  ResponeData, ResponeRtpData, ProtocolNames, connect, listening, query, call_request, call_release,
  call_start, call_end,
}
use console_master_rtpvoice.Replies.{config_reply}
use console_master_rtpvoice.Master.{
  Channel, channel1, channel2, Action, send, write_file, Master, new_master, set_channel1,
  set_channel2, make_channel1, make_channel2, master_on_data, rtp_channel1_on_data, start_voice,
  delete_master,
}
use console_master_rtpvoice.Master.Session.{
  Request, serve, as_number, same_channel, has, count, creates, deletes, closes, count-append,
}

-- What a request that is served leaves: the file is open exactly while the first channel exists, and
-- a channel is made only where there was none.
abbrev pub Served : Master → Run (Master × List Action) → Type 0
Served m r =
    (m' : Master) × (acts : List Action) × (r ≡ ok (m', acts))
    × (m'.has_file ≡ m'.has_channel1)
    × ((c : Channel) → count (creates c) acts + as_number (has c m) ≡ as_number (has c m'))

first_made :
    (two : Bool) (c : Channel)
    → as_number (same_channel c channel1)
        + 0
        + as_number (has c (record { has_channel1 = false; has_channel2 = two; has_file = false }))
      ≡ as_number (has c (record { has_channel1 = true; has_channel2 = two; has_file = true }))
first_made two channel1 = refl
first_made two channel2 = omega arith

second_made :
    (one : Bool) (c : Channel)
    → as_number (same_channel c channel2)
        + 0
        + as_number (has c (record { has_channel1 = one; has_channel2 = false; has_file = one }))
      ≡ as_number (has c (record { has_channel1 = one; has_channel2 = true; has_file = one }))
second_made one channel1 = omega arith
second_made one channel2 = refl

-- A channel is made when it is asked for and missing; the first one brings the voice file.
made_once1 :
    (asked one two : Bool)
    → Served
        (record { has_channel1 = one; has_channel2 = two; has_file = one })
        (make_channel1 asked true
          (record { has_channel1 = one; has_channel2 = two; has_file = one }))
unfolding make_channel1 count
made_once1 false one two = (_, _, refl, refl, λ c. omega arith)
made_once1 true true two = (_, _, refl, refl, λ c. omega arith)
made_once1 true false two = (_, _, refl, refl, first_made two)

made_once2 :
    (asked one two : Bool)
    → Served
        (record { has_channel1 = one; has_channel2 = two; has_file = one })
        (ok
          (make_channel2 asked (record { has_channel1 = one; has_channel2 = two; has_file = one })))
unfolding make_channel2 count
made_once2 false one two = (_, _, refl, refl, λ c. omega arith)
made_once2 true one true = (_, _, refl, refl, λ c. omega arith)
made_once2 true one false = (_, _, refl, refl, second_made one)

made_once1-Served :
    (z : ℤ) (m : Master) → m.has_file ≡ m.has_channel1 → Served m (set_channel1 true z m)
unfolding set_channel1
made_once1-Served z m h =
    subst
      (λ b. Served (record m { has_file = b }) (set_channel1 true z (record m { has_file = b })))
      (sym h) (made_once1 (not (eqb_ℤ z (pos 0))) m.has_channel1 m.has_channel2)

made_once2-Served :
    (z : ℤ) (m : Master) → m.has_file ≡ m.has_channel1 → Served m (ok (set_channel2 z m))
unfolding set_channel2
made_once2-Served z m h =
    subst
      (λ b. Served (record m { has_file = b }) (ok (set_channel2 z (record m { has_file = b }))))
      (sym h) (made_once2 (not (eqb_ℤ z (pos 0))) m.has_channel1 m.has_channel2)

voice_makes_none :
    (c : Channel) (name : String) (m : Master) → count (creates c) (start_voice name m) ≡ 0
unfolding count
voice_makes_none c name m = ground arith

-- A request leaves the file open exactly while the first channel exists.
master_on_data-Served :
    (g g' : String) (cmd : ProtocolNames) (d : ResponeData) (m : Master)
    → m.has_file ≡ m.has_channel1
    → Served m (master_on_data g g' true cmd d m)
unfolding master_on_data count
master_on_data-Served g g' connect d m h = (m, _, refl, h, λ c. omega arith)
master_on_data-Served g g' listening d m h =
    let (m1, acts1, e1, h1, n1) = made_once1-Served d.channel1_group_id m h in
    let (m2, acts2, e2, h2, n2) = made_once2-Served d.channel2_group_id m1 h1 in
    let reply = send d.socket_fd (config_reply g d.channel1_group_id d.channel2_group_id) ∷ [] in
    let made : (c : Channel)
        → count (creates c) (acts1 ++ (acts2 ++ reply)) + as_number (has c m)
          ≡ as_number (has c m2) =
      λ c. omega (
        arith,
        n1 c,
        n2 c,
        count-append (creates c) acts1 (acts2 ++ reply),
        count-append (creates c) acts2 reply,
      ) in
    (
      m2,
      acts1 ++ (acts2 ++ reply),
      rw e1 (ap (λ r. r >>= λ (m', made). ok (m', acts1 ++ (made ++ reply))) e2),
      h2,
      made,
    )
master_on_data-Served g g' query d m h = (m, _, refl, h, λ c. omega arith)
master_on_data-Served g g' call_request d m h =
    (m, _, refl, h, λ c. omega (arith, voice_makes_none c d.channel_id m))
master_on_data-Served g g' call_release d m h = (m, _, refl, h, λ c. omega arith)
master_on_data-Served g g' call_start d m h = (m, _, refl, h, λ c. omega arith)
master_on_data-Served g g' call_end d m h = (m, _, refl, h, λ c. omega arith)

serve-Served :
    (rs : List Request) (m : Master) → m.has_file ≡ m.has_channel1 → Served m (serve rs m)
unfolding serve count
serve-Served [] m h = (m, [], refl, h, λ c. omega arith)
serve-Served (r ∷ rs) m h =
    let (m1, acts1, e1, h1, n1) = master_on_data-Served r.guid r.guid' r.command r.data' m h in
    let (m2, acts2, e2, h2, n2) = serve-Served rs m1 h1 in
    (
      m2,
      acts1 ++ acts2,
      rw (e1, e2) refl,
      h2,
      λ c. omega (arith, n1 c, n2 c, count-append (creates c) acts1 acts2),
    )

deleted_all :
    (one two : Bool) (c : Channel)
    → (count
          (deletes c)
          (delete_master (record { has_channel1 = one; has_channel2 = two; has_file = one })).1
        ≡ as_number (has c (record { has_channel1 = one; has_channel2 = two; has_file = one })))
      × (count closes
            (delete_master (record { has_channel1 = one; has_channel2 = two; has_file = one })).1
          ≡ as_number one)
unfolding delete_master count
deleted_all true true channel1 = (refl, refl)
deleted_all true true channel2 = (refl, refl)
deleted_all true false channel1 = (refl, refl)
deleted_all true false channel2 = (refl, refl)
deleted_all false true channel1 = (refl, refl)
deleted_all false true channel2 = (refl, refl)
deleted_all false false channel1 = (refl, refl)
deleted_all false false channel2 = (refl, refl)

new_has_none : (c : Channel) → as_number (has c new_master) ≡ 0
new_has_none channel1 = refl
new_has_none channel2 = refl

-- What the run leaves, to be read off its result.
master_of : Run (Master × List Action) → Master
master_of r = elim r [
  | ok (m, acts) ↦ m
  | undefined ↦ new_master
  | thrown ↦ new_master
  | running ↦ new_master
]

-- A whole session, from the constructor to the destructor, whose requests are handled one at a time
-- and where the voice file opens: every request is served, each channel is made at most once and deleted as often as it was made, and the
-- file is closed as often as the first channel was made.
pub serve-delete_master :
    (rs : List Request) (c : Channel)
    → (m : Master) × (acts : List Action) × (serve rs new_master ≡ ok (m, acts))
      × (count (creates c) acts ≡ as_number (has c m))
      × (count (deletes c) (delete_master m).1 ≡ count (creates c) acts)
      × (count closes (delete_master m).1 ≡ count (creates channel1) acts)
serve-delete_master rs c =
    let (m, acts, e, h, n) = serve-Served rs new_master refl in
    let (d, f) =
      subst
        (λ b.
          (count (deletes c) (delete_master (record m { has_file = b })).1
            ≡ as_number (has c (record m { has_file = b })))
          × (count closes (delete_master (record m { has_file = b })).1 ≡ as_number m.has_channel1))
        (sym h) (deleted_all m.has_channel1 m.has_channel2 c) in
    (
      m,
      acts,
      e,
      omega (arith, n c, new_has_none c),
      omega (arith, d, n c, new_has_none c),
      omega (arith, f, n channel1, new_has_none channel1),
    )

-- After any session, where the voice file opens, voice that arrives on the first channel is written
-- to the file once the channel was made.
pub serve-rtp_channel1 :
    (rs : List Request) (v : ResponeRtpData) (m : Master) (acts : List Action)
    → serve rs new_master ≡ ok (m, acts)
    → m.has_channel1 ≡ true
    → rtp_channel1_on_data v m ≡ ok (m, write_file (take v.payloaddatalength v.payloaddata) ∷ [])
unfolding master_of rtp_channel1_on_data
serve-rtp_channel1 rs v m acts e made =
    let (m', acts', e', h, n) = serve-Served rs new_master refl in
    let same : m' ≡ m = ap master_of (sym e' ∙ e) in
    let file : m.has_file ≡ true =
      ap (λ k. k.has_file) (sym same) ∙ h ∙ ap (λ k. k.has_channel1) same ∙ made in
    rw file refl
