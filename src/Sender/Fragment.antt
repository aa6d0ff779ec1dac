-- ===== src/Sender/Fragment.antt =====
-- About the bytes that `SendDataToTheThirdParty` of MyProtocol/myprotocol.cpp sends.
use console_master_rtpvoice.Prelude.{
  ℕ, suc, ◌+◌, ◌-◌, ◌/◌, ◌%◌, ◌≤◌, ◌<◌, ◌≡◌, ◌≢◌, refl, ap, List, [], ◌∷◌, ◌++◌, append-nil, none,
  some, length, drop, take-append, ok, undefined, arith, le→leb, lt→ltb, le→ltb,
}
use native.Mathlib.Decide.{dec_lt}
use console_master_rtpvoice.Common.{protocol_head}
use console_master_rtpvoice.Text.{decimal}
use console_master_rtpvoice.Text.Digits.{decimal_2, dec4, decimal_3, decimal_4}
use console_master_rtpvoice.Frame.Stream.{frame, header}
use console_master_rtpvoice.Sender.{strlen, until_nul, length_field, fragment, payload_room}

abbrev pub NoNul : List ℕ → Type 0
NoNul [] = Unit {0}
NoNul (c ∷ r) = (c ≢ 0) × NoNul r

pub NoNul-append : (xs ys : List ℕ) → NoNul xs → NoNul ys → NoNul (xs ++ ys)
NoNul-append [] ys h k = k
NoNul-append (x ∷ xs) ys h k = (h.0, NoNul-append xs ys h.1 k)

strlen-append : (xs ys : List ℕ) → NoNul xs → strlen (xs ++ (0 ∷ ys)) ≡ some (length xs)
unfolding strlen
strlen-append [] ys h = refl
strlen-append (x ∷ xs) ys h = ground (arith, strlen-append xs ys h.1)

strlen-NoNul : (xs : List ℕ) → NoNul xs → strlen xs ≡ none
unfolding strlen
strlen-NoNul [] h = refl
strlen-NoNul (x ∷ xs) h = ground (arith, strlen-NoNul xs h.1)

until_nul-append : (xs ys : List ℕ) → NoNul xs → until_nul (xs ++ (0 ∷ ys)) ≡ ok xs
unfolding until_nul
until_nul-append xs ys h = rw (strlen-append xs ys h, until_nul) (ap ok (take-append xs (0 ∷ ys)))

until_nul-NoNul : (xs : List ℕ) → NoNul xs → until_nul xs ≡ undefined
unfolding until_nul
until_nul-NoNul xs h = rw (strlen-NoNul xs h, until_nul)

length_field-dec4 : (junk : List ℕ) (n : ℕ) → 100 ≤ n → n < 10000 → length_field junk n ≡ dec4 n
length_field-dec4 junk n h k = elim (dec_lt n 1000) [
  | yes small ↦
      rw (lt→ltb n 1000 small, ap (drop 1) (decimal_3 n h small)) (cc (first n (omega arith)))
  | no big ↦ rw (le→ltb n 1000 (omega arith), decimal_4 n (omega arith) k)
]
  where
    first : (m : ℕ) → m < 1000 → 48 ≡ 48 + m / 1000 % 10
    first m h' = omega arith

-- A payload of 100 to 1018 bytes with no NUL in it is sent as its frame: the head, the four digits
-- of its length, and the payload.
pub fragment-eq-frame :
    (junk payload : List ℕ)
    → 100 ≤ length payload
    → length payload < payload_room
    → NoNul payload
    → fragment junk payload ≡ ok (frame payload)
unfolding fragment
fragment-eq-frame junk payload low high clean =
    rw
      (
        le→leb (length payload) payload_room (omega arith),
        length_field-dec4 junk (length payload) low (omega arith),
        room,
      )
      (until_nul-append (frame payload) _
        (NoNul-append (header (length payload)) payload (omega arith) clean))
  where
    room : payload_room - length payload ≡ suc (payload_room - length payload - 1)
    room = omega arith

-- A payload of 10 to 99 bytes is cut off: what is sent is the head, `0` and the two digits of its
-- length, and no byte of the payload.
pub fragment_short :
    (junk payload : List ℕ)
    → 10 ≤ length payload
    → length payload < 100
    → fragment junk payload ≡ ok (protocol_head ∷ b'0' ∷ decimal (length payload))
unfolding fragment
fragment_short junk payload low high =
    rw
      (
        le→leb (length payload) payload_room (omega arith),
        lt→ltb (length payload) 1000 (omega arith),
        decimal_2 (length payload) low high,
      )
      (until_nul-append
        (protocol_head ∷ b'0' ∷ (48 + length payload / 10) ∷ (48 + length payload % 10) ∷ []) _
        (omega arith))

-- A payload of 1019 bytes or more with no NUL in it is undefined behaviour: it leaves no end for
-- `strlen`, or does not fit.
pub fragment_undefined :
    (junk payload : List ℕ)
    → payload_room ≤ length payload
    → NoNul payload
    → fragment junk payload ≡ undefined
unfolding fragment
fragment_undefined junk payload high clean = elim (dec_lt payload_room (length payload)) [
  | yes big ↦ ground arith
  | no fits ↦
      rw
        (
          le→leb (length payload) payload_room (omega arith),
          length_field-dec4 junk (length payload) (omega arith) (omega arith),
          no_room (length payload) high,
          append-nil,
        )
        (until_nul-NoNul (frame payload)
          (NoNul-append (header (length payload)) payload (omega arith) clean))
]
  where
    no_room : (n : ℕ) → payload_room ≤ n → payload_room - n ≡ 0
    no_room n h = omega arith
