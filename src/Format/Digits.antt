-- ===== src/Format/Digits.antt =====
-- dashboard/src/lib/format.ts: the digits of a number, written out and read again.
use proxy_pool_architect.Base.{
  ℕ, zero, suc, ◌+◌, ◌-◌, ◌*◌, ◌/◌, ◌<◌, ◌≡◌, refl, ap, ◌∙◌, List, [], ◌∷◌, ◌++◌, arith,
  if◌then◌else◌, nat_beq,
}
use proxy_pool_architect.Base.Text.{Text}
use proxy_pool_architect.Format.{digits_of, group_digits, write_digits, format_number, decimal}

-- The number that digits stand for, the last digit first.
abbrev pub value_of : List ℕ → ℕ
value_of [] = 0
value_of (d ∷ ds) = d + 10 * value_of ds

value_of-digits_of : (fuel n : ℕ) → n < fuel → value_of (digits_of fuel n) ≡ n
unfolding digits_of
value_of-digits_of zero n h = absurd (omega arith)
value_of-digits_of (suc fuel) n h = ground (arith, value_of-digits_of fuel (n / 10))

-- Reads a text from the left, passing over commas.
abbrev pub read_from : ℕ → Text → ℕ
read_from acc [] = acc
read_from acc (c ∷ s) = read_from (if nat_beq c b',' then acc else acc * 10 + (c - 48)) s

read_from-append : (acc : ℕ) (s t : Text) → read_from acc (s ++ t) ≡ read_from (read_from acc s) t
read_from-append acc [] t = refl
read_from-append acc (c ∷ s) t =
    read_from-append (if nat_beq c b',' then acc else acc * 10 + (c - 48)) s t

digit :
    (acc d : ℕ) → (if nat_beq (d + 48) b',' then acc else acc * 10 + ((d + 48) - 48)) ≡ d + 10 * acc
digit acc d = ground arith

read_from-write_digits : (ds : List ℕ) → read_from 0 (write_digits ds) ≡ value_of ds
unfolding write_digits
read_from-write_digits [] = refl
read_from-write_digits (d ∷ ds) =
    read_from-append 0 (write_digits ds) ((d + 48) ∷ [])
    ∙ (digit _ d ∙ ap (λ v. d + 10 * v) (read_from-write_digits ds))

read_from-group_digits : (ds : List ℕ) → read_from 0 (group_digits ds) ≡ value_of ds
unfolding group_digits
read_from-group_digits [] = refl
read_from-group_digits (a ∷ []) = ground arith
read_from-group_digits (a ∷ b ∷ []) = ground arith
read_from-group_digits (a ∷ b ∷ c ∷ []) = ground arith
read_from-group_digits (a ∷ b ∷ c ∷ d ∷ rest) =
    let more = group_digits (d ∷ rest) in
    read_from-append 0 more (b',' ∷ (c + 48) ∷ (b + 48) ∷ (a + 48) ∷ [])
    ∙ ground (arith, read_from-group_digits (d ∷ rest))

-- Reading the decimal form of a number, and reading its grouped form past the commas, gives the
-- number back.
pub read_from-format_number :
    (n : ℕ) → (read_from 0 (decimal n) ≡ n) × (read_from 0 (format_number n) ≡ n)
unfolding decimal format_number
read_from-format_number n =
    let whole = value_of-digits_of (suc n) n (omega arith) in
    (read_from-write_digits _ ∙ whole, read_from-group_digits _ ∙ whole)
