-- ===== src/Gateway/Clients.antt =====
-- The answers of `MasterOnDataFunc` of mymaster.cpp to the requests of several clients.
use console_master_rtpvoice.Prelude.{
  ℕ, ◌<◌, ◌≡◌, ◌≢◌, refl, ap, ap₂, sym, subst, ◌∙◌, inl, inr, true, false, Bool-cases, List, [],
  ◌∷◌, ◌++◌, append_assoc, append-nil, map, some, ◌==◌, if◌then◌else◌, ok, arith,
}
use mathlib.Core.List.{map-append}
use console_master_rtpvoice.Common.{ProtocolNames}
use console_master_rtpvoice.Replies.{JsonValue}
use console_master_rtpvoice.Client.{find_state, statemap}
use console_master_rtpvoice.Master.{Action, Master}
use console_master_rtpvoice.Master.Session.{Request, serve}
use console_master_rtpvoice.Master.Answers.{
  AllTo, replies, replies-append, is_request, master_on_data-replies,
}
use console_master_rtpvoice.Master.Transmit.{
  sends, messages_to, AllOne, reply_names, replies-sends, sends-AllTo, map-AllOne, fd_other,
  sends-append,
}
use console_master_rtpvoice.Gateway.{answered}

-- The commands of the requests that came from a socket.
abbrev pub commands_of : ℕ → List Request → List ProtocolNames
commands_of fd [] = []
commands_of fd (r ∷ rs) =
    (if r.data'.socket_fd == fd then r.command ∷ [] else []) ++ commands_of fd rs

abbrev pub AllSockets : List Request → Type 0
AllSockets [] = Unit {0}
AllSockets (r ∷ rs) = (r.data'.socket_fd ≢ 0) × (r.data'.socket_fd < 10000) × AllSockets rs

AllTo-silent :
    (to fd : ℕ) (acts : List Action) → AllTo to acts → (to == fd) ≡ false → replies fd acts ≡ []
AllTo-silent to fd acts h other =
    replies-sends fd acts
    ∙ ap (λ ms. reply_names (messages_to fd ms)) (sends-AllTo to acts h)
    ∙ silent (messages_to to (sends acts))
  where
    silent : (vs : List JsonValue) → reply_names (messages_to fd (map (λ v. (to, v)) vs)) ≡ []
    silent [] = refl
    silent (v ∷ vs) = rw other (silent vs)

answered-append : (xs ys : List ProtocolNames) → answered (xs ++ ys) ≡ answered xs ++ answered ys
answered-append [] ys = refl
answered-append (x ∷ xs) ys =
    rw (answered-append xs ys) (sym (append_assoc _ (answered xs) (answered ys)))

AllOne-append : (ms ns : List (ℕ × JsonValue)) → AllOne ms → AllOne ns → AllOne (ms ++ ns)
AllOne-append [] ns h k = k
AllOne-append ((fd, v) ∷ ms) ns (one, h) k = (one, AllOne-append ms ns h k)

-- What one request adds to the answers to a socket.
pub same_socket : (a b : ℕ) → (a == b) ≡ true → a ≡ b
same_socket a b e = ground arith

one_request :
    (fd : ℕ) (r : Request) (acts : List Action)
    → AllTo r.data'.socket_fd acts
    → map (find_state statemap) (replies r.data'.socket_fd acts)
      ≡ (if is_request r.command then some r.command ∷ [] else [])
    → map (find_state statemap) (replies fd acts)
      ≡ answered (if r.data'.socket_fd == fd then r.command ∷ [] else [])
one_request fd r acts to named = elim (Bool-cases (r.data'.socket_fd == fd)) [
  | inl own ↦
      ap (λ n. map (find_state statemap) (replies n acts))
        (sym (same_socket r.data'.socket_fd fd own))
      ∙ named
      ∙ sym (append-nil _)
      ∙ ap (λ b. answered (if b then r.command ∷ [] else [])) (sym own)
  | inr other ↦ rw (AllTo-silent r.data'.socket_fd fd acts to other, other) refl
]

pub serve-commands :
    (rs : List Request) (m : Master)
    → AllSockets rs
    → (m' : Master) × (acts : List Action) × (serve rs m ≡ ok (m', acts))
      × AllOne (sends acts)
      × ((fd : ℕ) → map (find_state statemap) (replies fd acts) ≡ answered (commands_of fd rs))
unfolding serve replies
serve-commands [] m h = (m, [], refl, tt, λ fd. refl)
serve-commands (r ∷ rs) m (one, small, h) =
    let (m1, acts1, e1, to1, named1) = master_on_data-replies r.guid r.guid' r.command r.data' m in
    let (m2, acts2, e2, one2, named2) = serve-commands rs m1 h in
    (
      m2,
      acts1 ++ acts2,
      rw (e1, e2) refl,
      subst AllOne (sym (sends-append acts1 acts2)) (
          AllOne-append (sends acts1) (sends acts2)
            (subst AllOne (sym (sends-AllTo r.data'.socket_fd acts1 to1))
              (map-AllOne r.data'.socket_fd _ (fd_other r.data'.socket_fd one small)))
            one2),
      λ fd.
          ap (map (find_state statemap)) (replies-append fd acts1 acts2)
          ∙ map-append (find_state statemap) (replies fd acts1) (replies fd acts2)
          ∙ ap₂ (λ a b. a ++ b) (one_request fd r acts1 to1 named1) (named2 fd)
          ∙ sym (
              answered-append (if r.data'.socket_fd == fd then r.command ∷ [] else [])
                (commands_of fd rs)),
    )
