-- ===== src/Replies/Contents.antt =====
-- About `CreateGuid` of MyProtocol/myprotocol.cpp.
use mathlib.Core.Option
use console_master_rtpvoice.Prelude.{
  some, get_elem?, ℕ, zero, suc, ◌+◌, ◌-◌, ◌%◌, ◌<◌, ◌≡◌, refl, ap, ◌∙◌, Bool, true, ◌&&◌, ◌||◌,
  List, [], ◌∷◌, leb, if◌then◌else◌, length, arith,
}
use console_master_rtpvoice.Replies.{hex_digit, guid_rounds, create_guid}

-- A digit of a GUID, as the server prints it.
abbrev pub is_hex : ℕ → Bool
is_hex c = leb b'0' c && leb c b'9' || leb b'a' c && leb c b'f'

pub all : (ℕ → Bool) → List ℕ → Bool
all p [] = true
all p (x ∷ xs) = p x && all p xs

-- What the digit stands for.
abbrev pub digit_value : ℕ → ℕ
digit_value c = if leb c b'9' then c - b'0' else c - b'a' + 10

hex_digit_lem : (n : ℕ) → n < 16 → (is_hex (hex_digit n) ≡ true) × (digit_value (hex_digit n) ≡ n)
hex_digit_lem n l = (ground arith, ground arith)

digits_at :
    (n : ℕ) (rand : ℕ → ℕ) (i c : ℕ) (rest : List ℕ)
    → digit_value c ≡ rand i % 16
    → ((k : ℕ) → k < n → Option.map digit_value (get_elem? rest k) ≡ some (rand (suc i + k) % 16))
    → (k : ℕ) → k < suc n
    → Option.map digit_value (get_elem? (c ∷ rest) k) ≡ some (rand (i + k) % 16)
digits_at n rand i c rest v later zero l = ap some v ∙ ap (λ j. some (rand j % 16)) (omega arith)
digits_at n rand i c rest v later (suc k) l =
    later k (omega arith) ∙ ap (λ j. some (rand j % 16)) (omega arith)

guid_rounds_lem :
    (n : ℕ) (rand : ℕ → ℕ) (i : ℕ)
    → (length (guid_rounds n rand i) ≡ n)
      × (all is_hex (guid_rounds n rand i) ≡ true)
      × ((k : ℕ)
          → k < n
          → Option.map digit_value (get_elem? (guid_rounds n rand i) k) ≡ some (rand (i + k) % 16))
unfolding guid_rounds all
guid_rounds_lem zero rand i = (refl, refl, λ k l. absurd (omega arith))
guid_rounds_lem (suc n) rand i =
    let (len, hex, digits) = guid_rounds_lem n rand (suc i) in
    let (h, v) = hex_digit_lem (rand i % 16) (omega arith) in
    (
      omega (arith, len),
      rw (h, hex) refl,
      digits_at n rand i (hex_digit (rand i % 16)) (guid_rounds n rand (suc i)) v
          (guid_rounds_lem n rand (suc i)).2,
    )

-- A GUID has 32 characters, all of them digits of base 16 in lower case, and the digit of each round
-- stands for what `rand` returned in that round, modulo 16.
create_guid_digits :
    (rand : ℕ → ℕ) (k : ℕ)
    → k < 32
    → (length (create_guid rand) ≡ 32)
      × (all is_hex (create_guid rand) ≡ true)
      × (Option.map digit_value (get_elem? (create_guid rand) k) ≡ some (rand k % 16))
unfolding create_guid
create_guid_digits rand k l =
    let (len, hex, digits) = guid_rounds_lem 32 rand 0 in
    (len, hex, digits k l ∙ ap (λ j. some (rand j % 16)) (omega arith))
