-- ===== src/Sync.antt =====
-- SynInterface/syninterface.cpp (WIN32 branch): `MySynCond`, an event that one wait resets. The
-- semaphore stands with the queue in Fifo.
use console_master_rtpvoice.Prelude.{
  ◌≡◌, refl, Bool, true, false, List, [], ◌∷◌, ap, if◌then◌else◌, ℤ, pos,
}
use console_master_rtpvoice.Fifo.{Waited}
use console_master_rtpvoice.Fifo.Bounded.{wait_code}

record SynCond : Type 0 where
  signalled : Bool

-- The constructor, by `CreateEvent(NULL, FALSE, FALSE, NULL)`.
abbrev syn_cond : SynCond
syn_cond = record { signalled = false }

-- `CondWait`: 0 if the event is signalled, which it then is no more; else how the wait ends.
unfoldable cond_wait : Waited → SynCond → ℤ × SynCond
cond_wait w c = if c.signalled then (pos 0, record { signalled = false }) else (wait_code w, c)

-- `CondTrigger(isbroadcast)`: the argument is not read.
unfoldable cond_trigger : Bool → SynCond → SynCond
cond_trigger isbroadcast c = record { signalled = true }

unfoldable triggers : List Bool → SynCond → SynCond
unfolding cond_trigger
triggers [] c = c
triggers (b ∷ bs) c = triggers bs (cond_trigger b c)

triggers-signalled :
    (bs : List Bool) (c : SynCond) → c.signalled ≡ true → (triggers bs c).signalled ≡ true
unfolding triggers cond_trigger
triggers-signalled [] c h = h
triggers-signalled (b ∷ bs) c h = triggers-signalled bs (cond_trigger b c) refl

woken :
    (w : Waited) (t : SynCond)
    → t.signalled ≡ true
    → cond_wait w t ≡ (pos 0, record { signalled = false })
unfolding cond_wait
woken w t h = simp (h)

-- However often the event was triggered since the last wait, as a broadcast or not, just one wait is
-- woken: the next one ends as a wait does that nobody wakes.
triggers-cond_wait :
    (b : Bool) (bs : List Bool) (c : SynCond) (w w' : Waited)
    → ((cond_wait w (triggers (b ∷ bs) c)).0 ≡ pos 0)
      × ((cond_wait w' (cond_wait w (triggers (b ∷ bs) c)).1).0 ≡ wait_code w')
unfolding cond_wait triggers cond_trigger
triggers-cond_wait b bs c w w' =
    let e =
      woken w (triggers bs (cond_trigger b c)) (triggers-signalled bs (cond_trigger b c) refl) in
    (ap (λ t. t.0) e, ap (λ t. (cond_wait w' t.1).0) e)
