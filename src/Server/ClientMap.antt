-- ===== src/Server/ClientMap.antt =====
-- About `clientmap` of MyProtocol/myprotocol.h and `operator<` of `SocketParams_t`.
use console_master_rtpvoice.Prelude.{
  ℕ, ◌≡◌, refl, ◌↔◌, Bool, true, false, ◌&&◌, [], ◌∷◌, none, some, arith, ◌==◌, if◌then◌else◌,
}
use console_master_rtpvoice.Common.{SocketParams, lt_params}
use console_master_rtpvoice.Server.{Clients, find, assign, erase}

-- The same socket and the same port: what `operator<` tells apart.
abbrev pub same_client : SocketParams → SocketParams → Bool
same_client a b = a.socket_fd == b.socket_fd && a.remote_addr.sin_port == b.remote_addr.sin_port

-- `operator<` is an order on sockets and ports, as `std::map` wants it: never both ways round,
-- transitive, and neither way round exactly for the same socket and port.
lt_params_order :
    (a b c : SocketParams)
    → (lt_params a b ≡ true → lt_params b a ≡ false)
      × (lt_params a b ≡ true → lt_params b c ≡ true → lt_params a c ≡ true)
      × ((same_client a b ≡ true) ↔ ((lt_params a b ≡ false) × (lt_params b a ≡ false)))
unfolding lt_params
lt_params_order a b c =
    (λ h. ground arith, λ h k. ground arith, (λ h. ground arith, λ h. ground arith))

-- Every key of the map comes after `k`.
abbrev pub Above : SocketParams → Clients → Type 0
Above k [] = Unit {0}
Above k ((j, v) ∷ m) = (lt_params k j ≡ true) × Above k m

abbrev pub IsOrdered : Clients → Type 0
IsOrdered [] = Unit {0}
IsOrdered ((j, v) ∷ m) = Above j m × IsOrdered m

through :
    (i j x : SocketParams)
    → lt_params i j ≡ false
    → lt_params j i ≡ false
    → lt_params j x ≡ true
    → lt_params i x ≡ true
unfolding lt_params
through i j x h h' k = ground arith

Above-trans : (a b : SocketParams) (m : Clients) → lt_params a b ≡ true → Above b m → Above a m
Above-trans a b [] h k = tt
Above-trans a b ((j, v) ∷ m) h k = ((lt_params_order a b j).1 h k.0, Above-trans a b m h k.1)

Above-assign :
    (a k : SocketParams) (v : ℕ) (m : Clients)
    → lt_params a k ≡ true
    → Above a m
    → Above a (assign k v m)
unfolding assign
Above-assign a k v [] h d = (h, tt)
Above-assign a k v ((j, w) ∷ m) h d = ground (arith, Above-assign a k v m h d.1)

Above-erase : (a k : SocketParams) (m : Clients) → Above a m → Above a (erase k m)
unfolding erase
Above-erase a k [] d = tt
Above-erase a k ((j, w) ∷ m) d = ground (arith, Above-erase a k m d.1)

-- An assignment keeps the map in order.
pub assign-IsOrdered :
    (k : SocketParams) (v : ℕ) (m : Clients) → IsOrdered m → IsOrdered (assign k v m)
unfolding assign
assign-IsOrdered k v [] o = (tt, tt)
assign-IsOrdered k v ((j, w) ∷ m) o =
    ground (arith, assign-IsOrdered k v m o.1, Above-assign j k v m, Above-trans k j m)

-- An erasure keeps the map in order.
pub erase-IsOrdered : (k : SocketParams) (m : Clients) → IsOrdered m → IsOrdered (erase k m)
unfolding erase
erase-IsOrdered k [] o = tt
erase-IsOrdered k ((j, w) ∷ m) o = ground (arith, erase-IsOrdered k m o.1, Above-erase j k m o.0)

find-Above : (k : SocketParams) (m : Clients) → Above k m → find k m ≡ none
unfolding find
find-Above k [] d = refl
find-Above k ((j, w) ∷ m) d = ground arith

-- In a map in order, `find` after an assignment gives the new value for the same socket and port,
-- and what it gave before for any other.
pub find-assign :
    (k i : SocketParams) (v : ℕ) (m : Clients)
    → IsOrdered m
    → find i (assign k v m) ≡ (if same_client k i then some v else find i m)
unfolding find assign lt_params
find-assign k i v [] o = ground arith
find-assign k i v ((j, w) ∷ m) o = ground (arith, find-assign k i v m o.1)

Above-same :
    (i j : SocketParams) (m : Clients)
    → lt_params i j ≡ false
    → lt_params j i ≡ false
    → Above j m
    → Above i m
Above-same i j [] h h' d = tt
Above-same i j ((x, v) ∷ m) h h' d = (through i j x h h' d.0, Above-same i j m h h' d.1)

-- In a map in order, `find` after an erasure gives nothing for the same socket and port, and what
-- it gave before for any other.
pub find-erase :
    (k i : SocketParams) (m : Clients)
    → IsOrdered m
    → find i (erase k m) ≡ (if same_client k i then none else find i m)
unfolding find erase lt_params
find-erase k i [] o = ground arith
find-erase k i ((j, w) ∷ m) o =
    ground (arith, find-erase k i m o.1, find-Above i m, Above-trans i j m, Above-same i j m)

-- The map does not tell apart what `operator<` does not.
pub find-same : (a b : SocketParams) (m : Clients) → same_client a b ≡ true → find b m ≡ find a m
unfolding find lt_params
find-same a b [] h = refl
find-same a b ((j, w) ∷ m) h = ground (arith, find-same a b m h)
