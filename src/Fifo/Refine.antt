-- ===== src/Fifo/Refine.antt =====
-- About the calls of FifoQueue/fifoqueue.cpp in any order, and a plain queue of packets.
use console_master_rtpvoice.Prelude.{
  ℕ, ◌≤◌, ◌<◌, ◌≡◌, refl, List, [], ◌∷◌, ◌++◌, Option, none, some, ℤ, pos, length, take, Run, ok,
  ◌>>=◌, map_run,
}
use console_master_rtpvoice.Fifo.{
  Fifo, slot_size, slot_count, push_to_queue, Waited, take_from_queue,
}
use console_master_rtpvoice.Fifo.Bounded.{
  Holds, wait_code, push_to_queue-Holds, take_from_queue-Holds, take_from_queue-empty,
}

pub data Op : Type 0 where
  put : List ℕ → Op
  get : Waited → Op

-- What `TakeFromQueue` returns, with the bytes that it copied.
pub record Reply : Type 0 where
  pub ret : ℤ
  pub block : List ℕ

-- The replies to the `get`s among the calls.
pub run : Fifo → List Op → Run (List Reply)
run f [] = ok []
run f (put p ∷ ops) = push_to_queue f p >>= λ f'. run f' ops
run f (get w ∷ ops) =
    let (ret, block, f') = take_from_queue f w in
    map_run (λ rs. record { ret = ret; block = block } ∷ rs) (run f' ops)

-- A plain queue answers with its oldest packet, or with none.
abbrev pub serve : List (List ℕ) → List Op → List (Waited × Option (List ℕ))
serve ps [] = []
serve ps (put p ∷ ops) = serve (ps ++ p ∷ []) ops
serve [] (get w ∷ ops) = (w, none) ∷ serve [] ops
serve (p ∷ ps) (get w ∷ ops) = (w, some p) ∷ serve ps ops

-- No packet is too long and none is pushed on top of 20.
abbrev pub Admits : List (List ℕ) → List Op → Type 0
Admits ps [] = Unit {0}
Admits ps (put p ∷ ops) =
    (length ps < slot_count) × (length p ≤ slot_size) × Admits (ps ++ p ∷ []) ops
Admits [] (get w ∷ ops) = Admits [] ops
Admits (p ∷ ps) (get w ∷ ops) = Admits ps ops

abbrev pub Agrees : Reply → Waited × Option (List ℕ) → Type 0
Agrees r (w, some p) =
    (r.ret ≡ pos 0) × (take (length p) r.block ≡ p) × (length r.block ≡ slot_size)
Agrees r (w, none) = (r.ret ≡ wait_code w) × (r.block ≡ [])

abbrev pub AllAgree : List Reply → List (Waited × Option (List ℕ)) → Type 0
AllAgree [] [] = Unit {0}
AllAgree (r ∷ rs) (a ∷ as') = Agrees r a × AllAgree rs as'
AllAgree _ _ = ⊥

-- Calls that never queue more than 20 packets, nor one of more than 512 bytes, run without
-- undefined behaviour, and each `TakeFromQueue` answers as the plain queue does: 0 and 512 bytes
-- that begin with the oldest packet, or the code of the wait and no bytes.
pub run-AllAgree :
    (ops : List Op) (f : Fifo) (ps : List (List ℕ))
    → Holds f ps
    → Admits ps ops
    → (rs : List Reply) × (run f ops ≡ ok rs) × AllAgree rs (serve ps ops)
unfolding run
run-AllAgree [] f ps h a = ([], refl, tt)
run-AllAgree (put p ∷ ops) f ps h a =
    let (f', e, h') = push_to_queue-Holds f ps p h a.0 a.1 in
    let (rs, e', agree) = run-AllAgree ops f' (ps ++ p ∷ []) h' a.2 in (rs, rw (e, e'), agree)
run-AllAgree (get w ∷ ops) f [] h a =
    let (rs, e, agree) = run-AllAgree ops f [] h a in
    (
      record { ret = wait_code w; block = [] } ∷ rs,
      rw (take_from_queue-empty f w h, e),
      ((refl, refl), agree),
    )
run-AllAgree (get w ∷ ops) f (p ∷ ps) h a =
    let (block, f', e, front, size, h') = take_from_queue-Holds f p ps w h in
    let (rs, e', agree) = run-AllAgree ops f' ps h' a in
    (record { ret = pos 0; block = block } ∷ rs, rw (e, e'), ((refl, front, size), agree))
