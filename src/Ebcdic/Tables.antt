-- ===== src/Ebcdic/Tables.antt =====
-- The two translation tables against each other.
use ibm_cics_emulation.Base.{
  ℕ, zero, suc, ◌<◌, Bool, true, false, not, ◌&&◌, ◌||◌, [], ◌∷◌, Bytes, leb, ◌==◌, ◌≡◌,
  if◌then◌else◌, refl, arith, ap₂,
}
use ibm_cics_emulation.Ebcdic.{
  ebcdic_to_ascii, ascii_to_ebcdic, ebcdic_to_string, string_to_ebcdic, is_ebcdic_alpha,
  is_ebcdic_digit, is_ebcdic_alnum,
}

-- Whether a test passes for each number under a limit.
passes : (ℕ → Bool) → ℕ → Bool
passes test zero = true
passes test (suc limit) = if test limit then passes test limit else false

passes_each : (test : ℕ → Bool) (limit c : ℕ) → c < limit → passes test limit ≡ true → test c ≡ true
unfolding passes
passes_each test zero c inside h = absurd (omega (arith, inside))
passes_each test (suc limit) c inside h = ground (arith, inside, h, passes_each test limit c)

-- A byte goes to ASCII and back, and to EBCDIC and back.
abbrev returns : ℕ → Bool
returns c = (ascii_to_ebcdic (ebcdic_to_ascii c) == c) && (ebcdic_to_ascii (ascii_to_ebcdic c) == c)

all_return : passes returns 256 ≡ true
unfolding passes ebcdic_to_ascii ascii_to_ebcdic
all_return = refl

byte_returns :
    (c : ℕ)
    → c < 256
    → (ascii_to_ebcdic (ebcdic_to_ascii c) ≡ c) × (ebcdic_to_ascii (ascii_to_ebcdic c) ≡ c)
byte_returns c h = ground (arith, passes_each returns 256 c h all_return)

abbrev pub AllBytes : Bytes → Type 0
AllBytes [] = Unit
AllBytes (c ∷ s) = (c < 256) × AllBytes s

-- Text comes back unchanged from EBCDIC, and EBCDIC data from text: the two tables are inverses of each
-- other on all 256 bytes.
pub ebcdic_round_trip :
    (s : Bytes)
    → AllBytes s
    → (ebcdic_to_string (string_to_ebcdic s) ≡ s) × (string_to_ebcdic (ebcdic_to_string s) ≡ s)
unfolding ebcdic_to_string string_to_ebcdic
ebcdic_round_trip [] h = (refl, refl)
ebcdic_round_trip (c ∷ s) h =
    let (there, back) = byte_returns c h.0 in
    let (rest, rest') = ebcdic_round_trip s h.1 in
    (ap₂ (λ x xs. x ∷ xs) back rest, ap₂ (λ x xs. x ∷ xs) there rest')

-- The class of a byte, read off its ASCII code.
abbrev within : ℕ → ℕ → ℕ → Bool
within low high c = leb low c && leb c high

abbrev pub ascii_alnum : ℕ → Bool
ascii_alnum c = within 48 57 c || within 65 90 c || within 97 122 c

abbrev same : Bool → Bool → Bool
same true b = b
same false b = not b

abbrev classes_agree : ℕ → Bool
classes_agree c = same (ascii_alnum (ebcdic_to_ascii c)) (is_ebcdic_alnum c)

all_agree : passes classes_agree 256 ≡ true
unfolding passes ebcdic_to_ascii is_ebcdic_alnum is_ebcdic_alpha is_ebcdic_digit
all_agree = refl

same_eq : (a b : Bool) → same a b ≡ true → b ≡ a
same_eq true b h = h
same_eq false true h = cc
same_eq false false h = refl

-- The test for letters and digits on EBCDIC bytes agrees with that on the ASCII codes they stand for.
pub is_ebcdic_alnum-ascii_alnum :
    (c : ℕ) → c < 256 → is_ebcdic_alnum c ≡ ascii_alnum (ebcdic_to_ascii c)
is_ebcdic_alnum-ascii_alnum c h =
    same_eq (ascii_alnum (ebcdic_to_ascii c)) (is_ebcdic_alnum c)
      (passes_each classes_agree 256 c h all_agree)
