-- ===== src/Text/Minus.antt =====
-- About fields of a minus sign and three digits, which `sscanf` reads too.
use console_master_rtpvoice.Prelude.{
  ℕ, suc, ◌+◌, ◌*◌, ◌/◌, ◌%◌, ◌<◌, ◌≡◌, refl, List, ◌∷◌, ◌++◌, some, negsuc, arith, [],
}
use console_master_rtpvoice.Text.{scan_int, scan_digits, scan_unsigned, scan_signed, skip_space}
use console_master_rtpvoice.Text.Digits.{NoDigit, scan_three}

-- A minus sign and three digits.
abbrev pub minus3 : ℕ → List ℕ
minus3 n = 45 ∷ (48 + n / 100) ∷ (48 + n / 10 % 10) ∷ (48 + n % 10) ∷ []

scan_unsigned-cons :
    (d : ℕ) (r : List ℕ)
    → d < 10
    → scan_unsigned ((48 + d) ∷ r) ≡ some (scan_digits 0 ((48 + d) ∷ r))
unfolding scan_unsigned
scan_unsigned-cons d r h = ground arith

digits_value : (n : ℕ) → n < 1000 → (n / 100 * 10 + n / 10 % 10) * 10 + n % 10 ≡ n
digits_value n h = omega arith

-- `%D` reads a minus sign and three digits, not all zero, as a negative number.
pub scan_int-minus3 :
    (n : ℕ) (s : List ℕ) → n < 999 → NoDigit s → scan_int (minus3 (suc n) ++ s) ≡ some (negsuc n)
unfolding scan_int skip_space scan_signed
scan_int-minus3 n s h t =
    rw
      (
        scan_unsigned-cons (suc n / 100) _ (omega arith),
        scan_three (suc n / 100) (suc n / 10 % 10) (suc n % 10) s (omega arith) (omega arith)
            (omega arith) t,
        digits_value (suc n) (omega arith),
      )
      refl
