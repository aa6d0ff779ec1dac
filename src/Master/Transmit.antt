-- ===== src/Master/Transmit.antt =====
-- The answers of `MasterOnDataFunc` of mymaster.cpp on their way out: each is written as JSON and
-- handed to `SendDataToTheThirdParty` of MyProtocol/myprotocol.cpp.
use Prim.Native.String.{String}
use console_master_rtpvoice.Prelude.{
  ℕ, suc, ◌≤◌, ◌<◌, ◌≡◌, ◌≢◌, refl, ap, ap₂, sym, ◌∙◌, Bool, true, false, List, [], ◌∷◌, ◌++◌,
  append_assoc, append-nil, map, length, ◌==◌, if◌then◌else◌, pos, Run, ok, ◌>>=◌, map_run, arith,
}
use console_master_rtpvoice.Common.{invalid_socket}
use console_master_rtpvoice.Socket.{Outcome}
use console_master_rtpvoice.Frame.Stream.{frame}
use console_master_rtpvoice.Replies.{JsonValue}
use console_master_rtpvoice.Sender.{payload_room, send_data_to_the_third_party}
use console_master_rtpvoice.Sender.Fragment.{NoNul, fragment-eq-frame}
use console_master_rtpvoice.Sender.Delivery.{Answers}
use console_master_rtpvoice.Sender.Ending.{AllWilling, taken, phy_socket_send_data-ends}
use console_master_rtpvoice.Master.{
  Action, send, create, send_rtp, write_file, delete_rtp, close_file, open_file,
}
use console_master_rtpvoice.Master.Answers.{AllTo, replies, reply_name, own_socket}

-- What goes to which socket, in order, when the messages among the actions are sent. `write` is
-- `StyledWriter::write`; `junk i` and `answers i` are what the `i`-th message meets behind the text
-- of its size and what Winsock answers on each socket then; `clients` are the sockets of the map.
unfoldable pub transmit :
    (JsonValue → List ℕ)
    → List ℕ
    → (ℕ → List ℕ)
    → (ℕ → ℕ → List Outcome)
    → List Action
    → Run (List (ℕ × List ℕ))
transmit write clients junk answers [] = ok []
transmit write clients junk answers (send fd v ∷ acts) =
    let rest = transmit write clients (λ i. junk (suc i)) (λ i. answers (suc i)) acts in
    send_data_to_the_third_party (junk 0) (answers 0) clients fd (write v) >>= λ (ret, log).
    map_run (λ more. log ++ more) rest
transmit write clients junk answers (create c b d s ∷ acts) =
    transmit write clients junk answers acts
transmit write clients junk answers (send_rtp c n ∷ acts) = transmit write clients junk answers acts
transmit write clients junk answers (write_file bs ∷ acts) =
    transmit write clients junk answers acts
transmit write clients junk answers (delete_rtp c ∷ acts) = transmit write clients junk answers acts
transmit write clients junk answers (close_file ∷ acts) = transmit write clients junk answers acts
transmit write clients junk answers (open_file ∷ acts) = transmit write clients junk answers acts

-- The messages among the actions, with their sockets.
abbrev pub sends : List Action → List (ℕ × JsonValue)
sends [] = []
sends (send fd v ∷ acts) = (fd, v) ∷ sends acts
sends (create c b d s ∷ acts) = sends acts
sends (send_rtp c n ∷ acts) = sends acts
sends (write_file bs ∷ acts) = sends acts
sends (delete_rtp c ∷ acts) = sends acts
sends (close_file ∷ acts) = sends acts
sends (open_file ∷ acts) = sends acts

pub sends-append : (xs ys : List Action) → sends (xs ++ ys) ≡ sends xs ++ sends ys
sends-append [] ys = refl
sends-append (send fd v ∷ xs) ys = ap (λ ms. (fd, v) ∷ ms) (sends-append xs ys)
sends-append (create c b d s ∷ xs) ys = sends-append xs ys
sends-append (send_rtp c n ∷ xs) ys = sends-append xs ys
sends-append (write_file bs ∷ xs) ys = sends-append xs ys
sends-append (delete_rtp c ∷ xs) ys = sends-append xs ys
sends-append (close_file ∷ xs) ys = sends-append xs ys
sends-append (open_file ∷ xs) ys = sends-append xs ys

-- Each message is written as 100 to 1018 bytes with no NUL, and Winsock takes its frame: no answer
-- counts more than what is left or fails for good, and together they take all of it.
abbrev pub AllTaken : (JsonValue → List ℕ) → (ℕ → ℕ → List Outcome) → List (ℕ × JsonValue) → Type 0
AllTaken write answers [] = Unit {0}
AllTaken write answers ((fd, v) ∷ ms) =
    (100 ≤ length (write v))
    × (length (write v) < payload_room)
    × NoNul (write v)
    × Answers (answers 0 fd) (frame (write v))
    × AllWilling (answers 0 fd)
    × (length (frame (write v)) ≤ taken (answers 0 fd))
    × AllTaken write (λ i. answers (suc i)) ms

-- A socket that is neither the sign for all clients nor the invalid one.
abbrev pub IsOne : ℕ → Type 0
IsOne fd = ((fd == 0) ≡ false) × ((fd == invalid_socket) ≡ false)

abbrev pub AllOne : List (ℕ × JsonValue) → Type 0
AllOne [] = Unit {0}
AllOne ((fd, v) ∷ ms) = IsOne fd × AllOne ms

send_data_to_the_third_party-frame :
    (junk : List ℕ) (answers : ℕ → List Outcome) (clients : List ℕ) (fd : ℕ) (p : List ℕ)
    → (fd == 0) ≡ false
    → (fd == invalid_socket) ≡ false
    → 100 ≤ length p
    → length p < payload_room
    → NoNul p
    → Answers (answers fd) (frame p)
    → AllWilling (answers fd)
    → length (frame p) ≤ taken (answers fd)
    → send_data_to_the_third_party junk answers clients fd p ≡ ok (pos 0, (fd, frame p) ∷ [])
unfolding send_data_to_the_third_party
send_data_to_the_third_party-frame junk answers clients fd p one valid low high clean fits willing
      enough =
    rw
      (
        fragment-eq-frame junk p low high clean,
        valid,
        one,
        phy_socket_send_data-ends (answers fd) (frame p) fits willing enough,
      )
      refl

-- The frames that the messages go out as.
abbrev pub framed : (JsonValue → List ℕ) → List (ℕ × JsonValue) → List (ℕ × List ℕ)
framed write ms = map (λ (fd, v). (fd, frame (write v))) ms

-- Where each message goes to one socket and is taken, its frame goes out there, whole and in order, and
-- nothing else.
pub transmit-frames :
    (write : JsonValue → List ℕ) (clients : List ℕ) (junk : ℕ → List ℕ)
    (answers : ℕ → ℕ → List Outcome) (acts : List Action)
    → AllOne (sends acts)
    → AllTaken write answers (sends acts)
    → transmit write clients junk answers acts ≡ ok (framed write (sends acts))
unfolding transmit
transmit-frames write clients junk answers [] one h = refl
transmit-frames write clients junk answers (send fd v ∷ acts) ((single, valid), one)
      (low, high, clean, fits, willing, enough, h) =
    rw
      (
        send_data_to_the_third_party-frame (junk 0) (answers 0) clients fd (write v) single valid
            low high clean fits willing enough,
        transmit-frames write clients (λ i. junk (suc i)) (λ i. answers (suc i)) acts one h,
      )
      refl
transmit-frames write clients junk answers (create c b d s ∷ acts) one h =
    transmit-frames write clients junk answers acts one h
transmit-frames write clients junk answers (send_rtp c n ∷ acts) one h =
    transmit-frames write clients junk answers acts one h
transmit-frames write clients junk answers (write_file bs ∷ acts) one h =
    transmit-frames write clients junk answers acts one h
transmit-frames write clients junk answers (delete_rtp c ∷ acts) one h =
    transmit-frames write clients junk answers acts one h
transmit-frames write clients junk answers (close_file ∷ acts) one h =
    transmit-frames write clients junk answers acts one h
transmit-frames write clients junk answers (open_file ∷ acts) one h =
    transmit-frames write clients junk answers acts one h

-- The names of the messages of type "Reply".
abbrev pub reply_names : List JsonValue → List String
reply_names [] = []
reply_names (v ∷ vs) = reply_name v ++ reply_names vs

-- The messages to one socket.
abbrev pub messages_to : ℕ → List (ℕ × JsonValue) → List JsonValue
messages_to fd [] = []
messages_to fd ((to, v) ∷ ms) = (if to == fd then v ∷ [] else []) ++ messages_to fd ms

reply_names-append :
    (vs ws : List JsonValue) → reply_names (vs ++ ws) ≡ reply_names vs ++ reply_names ws
reply_names-append [] ws = refl
reply_names-append (v ∷ vs) ws =
    rw (reply_names-append vs ws)
      (sym (append_assoc (reply_name v) (reply_names vs) (reply_names ws)))

names_of_one :
    (b : Bool) (v : JsonValue)
    → reply_names (if b then v ∷ [] else []) ≡ (if b then reply_name v else [])
names_of_one true v = append-nil (reply_name v)
names_of_one false v = refl

pub replies-sends :
    (fd : ℕ) (acts : List Action) → replies fd acts ≡ reply_names (messages_to fd (sends acts))
unfolding replies
replies-sends fd [] = refl
replies-sends fd (send to v ∷ acts) =
    ap₂ (λ a b. a ++ b) (sym (names_of_one (to == fd) v)) (replies-sends fd acts)
    ∙ sym (reply_names-append (if to == fd then v ∷ [] else []) (messages_to fd (sends acts)))
replies-sends fd (create c b d s ∷ acts) = replies-sends fd acts
replies-sends fd (send_rtp c n ∷ acts) = replies-sends fd acts
replies-sends fd (write_file bs ∷ acts) = replies-sends fd acts
replies-sends fd (delete_rtp c ∷ acts) = replies-sends fd acts
replies-sends fd (close_file ∷ acts) = replies-sends fd acts
replies-sends fd (open_file ∷ acts) = replies-sends fd acts

-- With one socket alone, that is the messages themselves.
pub sends-AllTo :
    (fd : ℕ) (acts : List Action)
    → AllTo fd acts
    → sends acts ≡ map (λ v. (fd, v)) (messages_to fd (sends acts))
sends-AllTo fd [] to = refl
sends-AllTo fd (send fd' v ∷ acts) (same, to) =
    ap₂ (λ n ms. (n, v) ∷ ms) same (sends-AllTo fd acts to)
    ∙ ap (λ b. map (λ w. (fd, w)) ((if b then v ∷ [] else []) ++ messages_to fd (sends acts)))
        (sym (ap (λ n. n == fd) same ∙ own_socket fd))
sends-AllTo fd (create c b d s ∷ acts) to = sends-AllTo fd acts to
sends-AllTo fd (send_rtp c n ∷ acts) to = sends-AllTo fd acts to
sends-AllTo fd (write_file bs ∷ acts) to = sends-AllTo fd acts to
sends-AllTo fd (delete_rtp c ∷ acts) to = sends-AllTo fd acts to
sends-AllTo fd (close_file ∷ acts) to = sends-AllTo fd acts to
sends-AllTo fd (open_file ∷ acts) to = sends-AllTo fd acts to

pub map-AllOne : (fd : ℕ) (vs : List JsonValue) → IsOne fd → AllOne (map (λ v. (fd, v)) vs)
map-AllOne fd [] one = tt
map-AllOne fd (v ∷ vs) one = (one, map-AllOne fd vs one)

pub fd_other : (fd : ℕ) → fd ≢ 0 → fd < 10000 → IsOne fd
fd_other fd one h = ground arith
