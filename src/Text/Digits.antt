-- ===== src/Text/Digits.antt =====
-- About fields of four digits, as the frames have them.
use console_master_rtpvoice.Prelude.{
  ℕ, ◌+◌, ◌/◌, ◌%◌, ◌≤◌, ◌<◌, ◌≡◌, refl, ap, ◌∙◌, true, false, ◌==◌, ◌*◌, ◌-◌, List, [], ◌∷◌, ◌++◌,
  some, pos, arith,
}
use console_master_rtpvoice.Text.{
  is_digit, is_space, skip_space, scan_int, scan_digits, scan_unsigned, scan_signed, scan_int4,
  decimal,
}

-- The last four decimal digits of a number.
abbrev pub dec4 : ℕ → List ℕ
dec4 n = (48 + n / 1000 % 10) ∷ (48 + n / 100 % 10) ∷ (48 + n / 10 % 10) ∷ (48 + n % 10) ∷ []

abbrev pub NoDigit : List ℕ → Type 0
NoDigit [] = Unit {0}
NoDigit (c ∷ r) = is_digit c ≡ false

scan_digits-NoDigit : (acc : ℕ) (s : List ℕ) → NoDigit s → scan_digits acc s ≡ acc
unfolding scan_digits
scan_digits-NoDigit acc [] h = refl
scan_digits-NoDigit acc (c ∷ r) h = ground arith

scan_digits-cons :
    (acc d : ℕ) (r : List ℕ)
    → d < 10
    → scan_digits acc ((48 + d) ∷ r) ≡ scan_digits (acc * 10 + d) r
unfolding scan_digits
scan_digits-cons acc d r h = rw (digit, value)
  where
    digit : is_digit (48 + d) ≡ true
    digit = ground arith

    value : 48 + d - 48 ≡ d
    value = omega arith

scan_signed-cons :
    (d : ℕ) (r : List ℕ)
    → d < 10
    → scan_signed ((48 + d) ∷ r) ≡ some (pos (scan_digits 0 ((48 + d) ∷ r)))
unfolding scan_signed scan_unsigned
scan_signed-cons d r h = rw (minus, plus, digit)
  where
    minus : ((48 + d) == 45) ≡ false
    minus = ground arith

    plus : ((48 + d) == 43) ≡ false
    plus = ground arith

    digit : is_digit (48 + d) ≡ true
    digit = ground arith

skip_space-cons : (d : ℕ) (r : List ℕ) → skip_space ((48 + d) ∷ r) ≡ (48 + d) ∷ r
unfolding skip_space
skip_space-cons d r = rw space
  where
    space : is_space (48 + d) ≡ false
    space = ground arith

scan_four :
    (a b c d : ℕ) (s : List ℕ)
    → a < 10
    → b < 10
    → c < 10
    → d < 10
    → NoDigit s
    → scan_digits 0 ((48 + a) ∷ (48 + b) ∷ (48 + c) ∷ (48 + d) ∷ s)
      ≡ ((a * 10 + b) * 10 + c) * 10 + d
scan_four a b c d s ha hb hc hd t =
    rw
      (
        scan_digits-cons 0 a _ ha,
        scan_digits-cons _ b _ hb,
        scan_digits-cons _ c _ hc,
        scan_digits-cons _ d _ hd,
        scan_digits-NoDigit _ s t,
      )
      (omega arith)

digits_value :
    (n : ℕ) → n < 10000 → ((n / 1000 % 10 * 10 + n / 100 % 10) * 10 + n / 10 % 10) * 10 + n % 10 ≡ n
digits_value n h = omega arith

-- `%D` reads a four-digit field back, whatever stands behind it but a digit.
pub scan_int-dec4 :
    (n : ℕ) (s : List ℕ) → n < 10000 → NoDigit s → scan_int (dec4 n ++ s) ≡ some (pos n)
unfolding scan_int
scan_int-dec4 n s h t =
    rw (skip_space-cons (n / 1000 % 10) _, scan_signed-cons (n / 1000 % 10) _ (omega arith))
      (ap (λ k. some (pos k))
        (scan_four _ _ _ _ s (omega arith) (omega arith) (omega arith) (omega arith) t
          ∙ digits_value n h))

pub decimal_4 : (n : ℕ) → 1000 ≤ n → n < 10000 → decimal n ≡ dec4 n
unfolding decimal
decimal_4 n h k = ground arith

pub decimal_3 : (n : ℕ) → 100 ≤ n → n < 1000 → 48 ∷ decimal n ≡ dec4 n
unfolding decimal
decimal_3 n h k = ground arith

pub decimal_1 : (n : ℕ) → n < 10 → decimal n ≡ (48 + n) ∷ []
unfolding decimal
decimal_1 n h = ground arith

pub decimal_2 : (n : ℕ) → 10 ≤ n → n < 100 → decimal n ≡ (48 + n / 10) ∷ (48 + n % 10) ∷ []
unfolding decimal
decimal_2 n h k = ground arith

pub decimal_5 :
    (n : ℕ)
    → 10000 ≤ n
    → n < 100000
    → decimal n
      ≡ (48 + n / 10000)
        ∷ (48 + n / 1000 % 10)
        ∷ (48 + n / 100 % 10)
        ∷ (48 + n / 10 % 10)
        ∷ (48 + n % 10)
        ∷ []
unfolding decimal
decimal_5 n h k = ground arith

scan_one : (a : ℕ) (s : List ℕ) → a < 10 → NoDigit s → scan_digits 0 ((48 + a) ∷ s) ≡ a
scan_one a s ha h = rw (scan_digits-cons 0 a _ ha, scan_digits-NoDigit _ s h) (omega arith)

scan_two :
    (a b : ℕ) (s : List ℕ)
    → a < 10
    → b < 10
    → NoDigit s
    → scan_digits 0 ((48 + a) ∷ (48 + b) ∷ s) ≡ a * 10 + b
scan_two a b s ha hb h =
    rw (scan_digits-cons 0 a _ ha, scan_digits-cons _ b _ hb, scan_digits-NoDigit _ s h)
      (omega arith)

pub scan_three :
    (a b c : ℕ) (s : List ℕ)
    → a < 10
    → b < 10
    → c < 10
    → NoDigit s
    → scan_digits 0 ((48 + a) ∷ (48 + b) ∷ (48 + c) ∷ s) ≡ (a * 10 + b) * 10 + c
scan_three a b c s ha hb hc h =
    rw
      (
        scan_digits-cons 0 a _ ha,
        scan_digits-cons _ b _ hb,
        scan_digits-cons _ c _ hc,
        scan_digits-NoDigit _ s h,
      )
      (omega arith)

-- `%4D` reads the digits in front of the first other character, four at most.
pub scan_int4-dec1 :
    (a b c d : ℕ) (s : List ℕ)
    → a < 10
    → is_digit b ≡ false
    → scan_int4 ((48 + a) ∷ b ∷ c ∷ d ∷ s) ≡ some (pos a)
unfolding scan_int4
scan_int4-dec1 a b c d s ha hb =
    rw (skip_space-cons a _, scan_signed-cons a _ ha)
      (ap (λ k. some (pos k)) (scan_one a (b ∷ c ∷ d ∷ []) ha hb))

pub scan_int4-dec2 :
    (a b c d : ℕ) (s : List ℕ)
    → a < 10
    → b < 10
    → is_digit c ≡ false
    → scan_int4 ((48 + a) ∷ (48 + b) ∷ c ∷ d ∷ s) ≡ some (pos (a * 10 + b))
unfolding scan_int4
scan_int4-dec2 a b c d s ha hb hc =
    rw (skip_space-cons a _, scan_signed-cons a _ ha)
      (ap (λ k. some (pos k)) (scan_two a b (c ∷ d ∷ []) ha hb hc))

pub scan_int4-dec3 :
    (a b c d : ℕ) (s : List ℕ)
    → a < 10
    → b < 10
    → c < 10
    → is_digit d ≡ false
    → scan_int4 ((48 + a) ∷ (48 + b) ∷ (48 + c) ∷ d ∷ s) ≡ some (pos ((a * 10 + b) * 10 + c))
unfolding scan_int4
scan_int4-dec3 a b c d s ha hb hc hd =
    rw (skip_space-cons a _, scan_signed-cons a _ ha)
      (ap (λ k. some (pos k)) (scan_three a b c (d ∷ []) ha hb hc hd))

pub scan_int4-dec4 :
    (a b c d : ℕ) (s : List ℕ)
    → a < 10
    → b < 10
    → c < 10
    → d < 10
    → scan_int4 ((48 + a) ∷ (48 + b) ∷ (48 + c) ∷ (48 + d) ∷ s)
      ≡ some (pos (((a * 10 + b) * 10 + c) * 10 + d))
unfolding scan_int4
scan_int4-dec4 a b c d s ha hb hc hd =
    rw (skip_space-cons a _, scan_signed-cons a _ ha)
      (ap (λ k. some (pos k)) (scan_four a b c d [] ha hb hc hd tt))
