-- ===== src/Gateway/Asked.antt =====
-- To which sockets the messages of `MasterOnDataFunc` of mymaster.cpp go.
use console_master_rtpvoice.Prelude.{
  ℕ, ◌≡◌, ◌≢◌, sym, subst, ◌∙◌, true, List, [], ◌∷◌, ◌++◌, map, ◌==◌, ==_refl, if◌then◌else◌, ok,
  ok-same, bind-ok, ◌>>=◌,
}
use console_master_rtpvoice.Replies.{JsonValue}
use console_master_rtpvoice.Master.{Action, Master, master_on_data}
use console_master_rtpvoice.Master.Session.{Request, serve}
use console_master_rtpvoice.Master.Answers.{master_on_data-replies}
use console_master_rtpvoice.Master.Transmit.{sends, sends-AllTo, sends-append}
use console_master_rtpvoice.Gateway.Clients.{commands_of}

-- Each message goes to a socket with this property.
abbrev pub AllIn : (ℕ → Type 0) → List (ℕ × JsonValue) → Type 0
AllIn P [] = Unit {0}
AllIn P ((fd, v) ∷ ms) = P fd × AllIn P ms

AllIn-append :
    (P : ℕ → Type 0) (ms ns : List (ℕ × JsonValue)) → AllIn P ms → AllIn P ns → AllIn P (ms ++ ns)
AllIn-append P [] ns h k = k
AllIn-append P ((fd, v) ∷ ms) ns (one, h) k = (one, AllIn-append P ms ns h k)

AllIn-map : (P : ℕ → Type 0) (fd : ℕ) (vs : List JsonValue) → P fd → AllIn P (map (λ v. (fd, v)) vs)
AllIn-map P fd [] one = tt
AllIn-map P fd (v ∷ vs) one = (one, AllIn-map P fd vs one)

pub AllIn-implies :
    (P Q : ℕ → Type 0) (ms : List (ℕ × JsonValue))
    → ((fd : ℕ) → P fd → Q fd)
    → AllIn P ms
    → AllIn Q ms
AllIn-implies P Q [] f h = tt
AllIn-implies P Q ((fd, v) ∷ ms) f (one, h) = (f fd one, AllIn-implies P Q ms f h)

append_other : {A : Type 0} (xs ys : List A) → ys ≢ [] → xs ++ ys ≢ []
append_other [] ys h e = h e
append_other (x ∷ xs) ys h e = absurd (cc)

-- A socket from which a request came.
abbrev pub HasAsked : List Request → ℕ → Type 0
HasAsked rs fd = commands_of fd rs ≢ []

own_request : (r : Request) (rs : List Request) → HasAsked (r ∷ rs) r.data'.socket_fd
own_request r rs e =
    let one =
      subst (λ b. (if b then r.command ∷ [] else []) ++ commands_of r.data'.socket_fd rs ≡ [])
        (==_refl r.data'.socket_fd) e in
    absurd (cc one)

-- Whatever the requests are, each message goes to a socket from which one of them came.
pub serve-AllIn :
    (rs : List Request) (m m' : Master) (acts : List Action)
    → serve rs m ≡ ok (m', acts)
    → AllIn (HasAsked rs) (sends acts)
unfolding serve
serve-AllIn [] m m' acts e =
    subst (λ r. AllIn (HasAsked []) (sends r.1)) (ok-same (m, []) (m', acts) e) tt
serve-AllIn (r ∷ rs) m m' acts e =
    let (m1, acts1, e1, to1, _) = master_on_data-replies r.guid r.guid' r.command r.data' m in
    let ((n1, first), step, rest) =
      bind-ok (master_on_data r.guid r.guid' true r.command r.data' m)
        (λ (n1, first). serve rs n1 >>= λ (n2, more). ok (n2, first ++ more)) (m', acts) e in
    let ((n2, more), run, same) =
      bind-ok (serve rs n1) (λ (n2, more). ok (n2, first ++ more)) (m', acts) rest in
    let first_own : AllIn (HasAsked (r ∷ rs)) (sends first) =
      subst (λ x. AllIn (HasAsked (r ∷ rs)) (sends x.1))
        (ok-same (m1, acts1) (n1, first) (sym e1 ∙ step))
        (subst (AllIn (HasAsked (r ∷ rs))) (sym (sends-AllTo r.data'.socket_fd acts1 to1))
          (AllIn-map (HasAsked (r ∷ rs)) r.data'.socket_fd _ (own_request r rs))) in
    let more_own =
      AllIn-implies (HasAsked rs) (HasAsked (r ∷ rs)) (sends more)
        (λ fd.
          append_other (if r.data'.socket_fd == fd then r.command ∷ [] else []) (commands_of fd rs))
        (serve-AllIn rs n1 n2 more run) in
    subst (λ x. AllIn (HasAsked (r ∷ rs)) (sends x.1)) (ok-same (n2, first ++ more) (m', acts) same)
      (subst (AllIn (HasAsked (r ∷ rs))) (sym (sends-append first more))
        (AllIn-append (HasAsked (r ∷ rs)) (sends first) (sends more) first_own more_own))
