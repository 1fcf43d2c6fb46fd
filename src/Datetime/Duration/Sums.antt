-- ===== src/Datetime/Duration/Sums.antt =====
-- The sum of two durations: libs/datetime/src/datetime.cpp.
use native.Mathlib.Nat.{mod-eq_of_lt, zero-div, zero-mod}
use ibm_cics_emulation.Base.{
  ℕ, zero, suc, ◌+◌, ◌-◌, ◌*◌, ◌/◌, ◌%◌, ◌<◌, ◌≡◌, refl, sym, ap, ◌∙◌, arith, true, false, ltb, ℤ,
  pos, negsuc, pos_part, neg_part, ◌+ℤ◌, ◌-ℤ◌,
}
use ibm_cics_emulation.Result.{u32}
use ibm_cics_emulation.Datetime.{to_signed, quot, rem, u8, u16}
use ibm_cics_emulation.Datetime.Weekday.{pos_add}
use ibm_cics_emulation.Datetime.Duration.{TimeDuration, times, total_milliseconds, of_total, add}

abbrev minus : ℕ → ℤ
minus n = pos 0 -ℤ pos n

minus_zero : minus 0 ≡ pos 0
unfolding ◌-ℤ◌
minus_zero = refl

minus-suc : (n : ℕ) → minus (suc n) ≡ negsuc n
unfolding ◌-ℤ◌
minus-suc n = ground arith

to_signed_pos : (modulus n : ℕ) → n * 2 < modulus → to_signed modulus (pos n) ≡ pos n
unfolding to_signed
to_signed_pos modulus n h =
    let same : n % modulus ≡ n = mod-eq_of_lt (omega (arith, h)) in
    let small : ltb (n * 2) modulus ≡ true = ground (arith, h) in rw (same, small) refl

to_signed-minus : (modulus n : ℕ) → n * 2 < modulus → to_signed modulus (minus n) ≡ minus n
unfolding to_signed
to_signed-minus modulus zero h =
    ap (to_signed modulus) minus_zero ∙ to_signed_pos modulus 0 h ∙ sym minus_zero
to_signed-minus modulus (suc n) h =
    let same : n % modulus ≡ n = mod-eq_of_lt (omega (arith, h)) in
    let big : ltb ((modulus - 1 - n) * 2) modulus ≡ false = ground (arith, h) in
    let back : modulus - 1 - (modulus - 1 - n) ≡ n = omega (arith, h) in
    ap (to_signed modulus) (minus-suc n) ∙ rw (same, big, back) refl ∙ sym (minus-suc n)

minus_add : (a b : ℕ) → minus a +ℤ minus b ≡ minus (a + b)
unfolding ◌+ℤ◌ ◌-ℤ◌
minus_add a b = ground arith

times-minus : (n k : ℕ) → times (minus n) k ≡ minus (n * k)
unfolding times
times-minus zero k =
    ap (λ z. times z k) minus_zero ∙ ap pos (omega arith) ∙ sym minus_zero ∙ ap minus (omega arith)
times-minus (suc n) k = ap (λ z. times z k) (minus-suc n)

-- Days of which the number fits in 31 bits, and the rest of a day in its fields.
abbrev parts : ℕ → ℕ
parts n =
    n / 86400000 * 86400000
    + n % 86400000 / 3600000 * 3600000
    + n % 3600000 / 60000 * 60000
    + n % 60000 / 1000 * 1000
    + n % 1000

parts_lem : (n : ℕ) → parts n ≡ n
parts_lem n = omega arith

pos_sum : (a b c d e : ℕ) → pos a +ℤ pos b +ℤ pos c +ℤ pos d +ℤ pos e ≡ pos (a + b + c + d + e)
pos_sum a b c d e =
    rw (pos_add a b, pos_add (a + b) c, pos_add (a + b + c) d) (pos_add (a + b + c + d) e)

minus_sum :
    (a b c d e : ℕ)
    → minus a +ℤ minus b +ℤ minus c +ℤ minus d +ℤ minus e ≡ minus (a + b + c + d + e)
minus_sum a b c d e =
    rw (minus_add a b, minus_add (a + b) c, minus_add (a + b + c) d) (minus_add (a + b + c + d) e)

total_pos : (n : ℕ) → n / 86400000 * 2 < u32 → total_milliseconds (of_total (pos n)) ≡ pos n
unfolding total_milliseconds of_total quot rem times
total_pos n h =
    rw
      (
        total_milliseconds,
        of_total,
        to_signed_pos u32 (n / 86400000) h,
        to_signed_pos u8 (n % 86400000 / 3600000) (omega arith),
        to_signed_pos u8 (n % 3600000 / 60000) (omega arith),
        to_signed_pos u8 (n % 60000 / 1000) (omega arith),
        to_signed_pos u16 (n % 1000) (omega arith),
        pos_sum (n / 86400000 * 86400000) (n % 86400000 / 3600000 * 3600000)
            (n % 3600000 / 60000 * 60000) (n % 60000 / 1000 * 1000) (n % 1000),
      )
      (ap pos (parts_lem n))

quot-minus : (n k : ℕ) → quot (minus n) k ≡ minus (n / k)
unfolding quot
quot-minus zero k =
    ap (λ z. quot z k) minus_zero
    ∙ ap pos (zero-div k)
    ∙ sym minus_zero
    ∙ ap minus (sym (zero-div k))
quot-minus (suc n) k = ap (λ z. quot z k) (minus-suc n)

rem-minus : (n k : ℕ) → rem (minus n) k ≡ minus (n % k)
unfolding rem
rem-minus zero k =
    ap (λ z. rem z k) minus_zero
    ∙ ap pos (zero-mod k)
    ∙ sym minus_zero
    ∙ ap minus (sym (zero-mod k))
rem-minus (suc n) k = ap (λ z. rem z k) (minus-suc n)

field_minus :
    (modulus day unit n : ℕ)
    → n % day / unit * 2 < modulus
    → to_signed modulus (quot (rem (minus n) day) unit) ≡ minus (n % day / unit)
field_minus modulus day unit n h =
    ap (λ z. to_signed modulus (quot z unit)) (rem-minus n day)
    ∙ ap (to_signed modulus) (quot-minus (n % day) unit)
    ∙ to_signed-minus modulus (n % day / unit) h

total_minus : (n : ℕ) → n / 86400000 * 2 < u32 → total_milliseconds (of_total (minus n)) ≡ minus n
unfolding total_milliseconds of_total
total_minus n h =
    rw
      (
        total_milliseconds,
        of_total,
        quot-minus n 86400000,
        to_signed-minus u32 (n / 86400000) h,
        field_minus u8 86400000 3600000 n (omega arith),
        field_minus u8 3600000 60000 n (omega arith),
        field_minus u8 60000 1000 n (omega arith),
        rem-minus n 1000,
        to_signed-minus u16 (n % 1000) (omega arith),
        times-minus (n / 86400000) 86400000,
        times-minus (n % 86400000 / 3600000) 3600000,
        times-minus (n % 3600000 / 60000) 60000,
        times-minus (n % 60000 / 1000) 1000,
        minus_sum (n / 86400000 * 86400000) (n % 86400000 / 3600000 * 3600000)
            (n % 3600000 / 60000 * 60000) (n % 60000 / 1000 * 1000) (n % 1000),
      )
      (ap minus (parts_lem n))

-- The size of an integer.
abbrev size : ℤ → ℕ
size z = pos_part z + neg_part z

total-of_total : (z : ℤ) → size z / 86400000 * 2 < u32 → total_milliseconds (of_total z) ≡ z
total-of_total (pos n) h = total_pos n (omega (arith, h))
total-of_total (negsuc n) h =
    ap (λ z. total_milliseconds (of_total z)) (sym (minus-suc n))
    ∙ total_minus (suc n) (omega (arith, h))
    ∙ minus-suc n

-- The sum of two durations has the sum of their milliseconds, as long as its days are less than 2^31.
pub add-total_milliseconds :
    (d e : TimeDuration)
    → size (total_milliseconds d +ℤ total_milliseconds e) / 86400000 < 2147483648
    → total_milliseconds (add d e) ≡ total_milliseconds d +ℤ total_milliseconds e
unfolding add
add-total_milliseconds d e h =
    total-of_total (total_milliseconds d +ℤ total_milliseconds e) (omega (arith, h))
