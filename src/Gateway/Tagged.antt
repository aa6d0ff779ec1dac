-- ===== src/Gateway/Tagged.antt =====
-- The calls of the handler of many clients of ClientObj/clientobj.cpp, each with the socket that it
-- came from.
use Prim.Native.String.{String}
use console_master_rtpvoice.Prelude.{
  ℕ, ◌+◌, ◌<◌, ◌≡◌, ◌≢◌, refl, ap, sym, subst, ◌∙◌, inl, inr, Bool, true, false, Bool-cases, List,
  [], ◌∷◌, ◌++◌, map, ◌==◌, ==_refl, if◌then◌else◌,
}
use console_master_rtpvoice.Common.{ProtocolNames}
use console_master_rtpvoice.Client.Parse.{Call}
use console_master_rtpvoice.Gateway.{AreFor, requests_of}
use console_master_rtpvoice.Gateway.Clients.{commands_of, AllSockets}
use console_master_rtpvoice.Gateway.World.{calls_of}

-- A socket of a client.
abbrev pub IsClient : ℕ → Type 0
IsClient fd = (fd ≢ 0) × (fd < 10000)

-- The calls are for this socket, which is a client's.
abbrev pub Each : ℕ → List Call → Type 0
Each fd [] = Unit {0}
Each fd ((cmd, d) ∷ calls) = (d.socket_fd ≡ fd) × IsClient fd × Each fd calls

pub AreFor-Each :
    (fd : ℕ) (calls : List Call) (cmds : List ProtocolNames)
    → IsClient fd
    → AreFor fd calls cmds
    → Each fd calls
AreFor-Each fd [] [] is h = tt
AreFor-Each fd [] (cmd ∷ cmds) is h = tt
AreFor-Each fd (call ∷ calls) [] is h = absurd h
AreFor-Each fd ((c, d) ∷ calls) (cmd ∷ cmds) is (same, from, h) =
    (from, is, AreFor-Each fd calls cmds is h)

pub commands-AreFor :
    (fd : ℕ) (calls : List Call) (cmds : List ProtocolNames)
    → AreFor fd calls cmds
    → map (λ (cmd, d). cmd) calls ≡ cmds
commands-AreFor fd [] [] h = refl
commands-AreFor fd [] (cmd ∷ cmds) h = absurd h
commands-AreFor fd (call ∷ calls) [] h = absurd h
commands-AreFor fd ((c, d) ∷ calls) (cmd ∷ cmds) (same, from, h) =
    cc (same, commands-AreFor fd calls cmds h)

-- The tags of the calls are their sockets.
abbrev pub Tagged : List (ℕ × Call) → Type 0
Tagged [] = Unit {0}
Tagged ((fd, (cmd, d)) ∷ calls) = (d.socket_fd ≡ fd) × IsClient fd × Tagged calls

pub Each-Tagged :
    (calls : List (ℕ × Call)) → ((fd : ℕ) → Each fd (calls_of fd calls)) → Tagged calls
Each-Tagged [] h = tt
Each-Tagged ((fd, (cmd, d)) ∷ calls) h =
    let (from, is, _) =
      subst (λ b. Each fd (if b then (cmd, d) ∷ calls_of fd calls else calls_of fd calls))
        (==_refl fd) (h fd) in
    (
      from,
      is,
      Each-Tagged calls (λ i. elim (Bool-cases (fd == i)) [
        | inl own ↦
            (subst (λ b. Each i (if b then (cmd, d) ∷ calls_of i calls else calls_of i calls)) own
              (h i)).2
        | inr other ↦
            subst (λ b. Each i (if b then (cmd, d) ∷ calls_of i calls else calls_of i calls)) other
              (h i)
      ]),
    )

-- The calls in order, without their tags.
abbrev pub untagged : List (ℕ × Call) → List Call
untagged calls = map (λ (fd, call). call) calls

pub Tagged-AllSockets :
    (guids : ℕ → String) (calls : List (ℕ × Call))
    → Tagged calls
    → AllSockets (requests_of guids (untagged calls))
unfolding requests_of
Tagged-AllSockets guids [] h = tt
Tagged-AllSockets guids ((fd, (cmd, d)) ∷ calls) (from, (one, small), h) = (
  subst (λ n. n ≢ 0) (sym from) one,
  subst (λ n. n < 10000) (sym from) small,
  Tagged-AllSockets (λ i. guids (2 + i)) calls h,
)

pub commands_of-Tagged :
    (fd : ℕ) (guids : ℕ → String) (calls : List (ℕ × Call))
    → Tagged calls
    → commands_of fd (requests_of guids (untagged calls))
      ≡ map (λ (cmd, d). cmd) (calls_of fd calls)
unfolding requests_of
commands_of-Tagged fd guids [] h = refl
commands_of-Tagged fd guids ((to, (cmd, d)) ∷ calls) (from, _, h) =
    ap
      (λ n.
        (if n == fd then cmd ∷ [] else [])
        ++ commands_of fd (requests_of (λ i. guids (2 + i)) (untagged calls)))
      from
    ∙ tag (to == fd) (commands_of-Tagged fd (λ i. guids (2 + i)) calls h)
  where
    tag :
        (b : Bool) {l : List ProtocolNames}
        → l ≡ map (λ (c, d'). c) (calls_of fd calls)
        → (if b then cmd ∷ [] else []) ++ l
          ≡ map (λ (c, d'). c) (if b then (cmd, d) ∷ calls_of fd calls else calls_of fd calls)
    tag true e = ap (λ l. cmd ∷ l) e
    tag false e = e
