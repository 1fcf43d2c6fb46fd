-- ===== src/Gdg/Names.antt =====
-- The names of generations against their parser: libs/gdg/src/gdg_manager.cpp.
use ibm_cics_emulation.Base.{
  ℕ, zero, suc, ◌+◌, ◌-◌, ◌*◌, ◌/◌, ◌%◌, ◌^◌, ◌<◌, true, none, some, [], ◌∷◌, ◌++◌, if◌then◌else◌,
  Bytes, pos, ◌≡◌, ◌≢◌, refl, sym, ap, ap₂, ◌∙◌, arith,
}
use mathlib.Core.List.{append_assoc, append-nil}
use native.Mathlib.Nat.{div-eq_of_lt}
use ibm_cics_emulation.Result.{ok, err, invalid_argument}
use ibm_cics_emulation.Gdg.{
  last_digits, decimal_fuel, format_digits, generate_generation_name, after_last_dot, digits_from,
  is_digit, stoi, numbers, parse_suffix, parse_generation_name,
}

digits_from_digit :
    (value d : ℕ) (s : Bytes)
    → d < 10
    → digits_from value ((48 + d) ∷ s) ≡ digits_from (value * 10 + d) s
unfolding digits_from
digits_from_digit value d s h =
    let digit : is_digit (48 + d) ≡ true = ground (arith, h) in
    let same : 48 + d - 48 ≡ d = omega arith in
    ap₂ (λ b x. if b then digits_from (value * 10 + x) s else value) digit same

stoi_digit : (d : ℕ) (s : Bytes) → d < 10 → stoi ((48 + d) ∷ s) ≡ some (pos (digits_from d s))
unfolding stoi
stoi_digit d s h = ground (arith, h, digits_from_digit 0 d s h)

stoi_two : (a b : ℕ) → a < 10 → b < 10 → stoi ((48 + a) ∷ (48 + b) ∷ []) ≡ some (pos (a * 10 + b))
unfolding digits_from
stoi_two a b ha hb =
    stoi_digit a ((48 + b) ∷ []) ha ∙ ap (λ x. some (pos x)) (digits_from_digit a b [] hb)

stoi_four :
    (a b c d : ℕ)
    → a < 10
    → b < 10
    → c < 10
    → d < 10
    → stoi ((48 + a) ∷ (48 + b) ∷ (48 + c) ∷ (48 + d) ∷ [])
      ≡ some (pos (((a * 10 + b) * 10 + c) * 10 + d))
unfolding digits_from
stoi_four a b c d ha hb hc hd =
    stoi_digit a ((48 + b) ∷ (48 + c) ∷ (48 + d) ∷ []) ha
    ∙ ap (λ x. some (pos x))
        (digits_from_digit a b ((48 + c) ∷ (48 + d) ∷ []) hb
          ∙ digits_from_digit (a * 10 + b) c ((48 + d) ∷ []) hc
          ∙ digits_from_digit ((a * 10 + b) * 10 + c) d [] hd)

pub stoi-last_digits_4 : (n : ℕ) → n < 10000 → stoi (last_digits 4 n) ≡ some (pos n)
unfolding last_digits
stoi-last_digits_4 n h =
    let whole : ((n / 10 / 10 / 10 % 10 * 10 + n / 10 / 10 % 10) * 10 + n / 10 % 10) * 10 + n % 10
        ≡ n =
      omega (arith, h) in
    stoi_four (n / 10 / 10 / 10 % 10) (n / 10 / 10 % 10) (n / 10 % 10) (n % 10) (omega arith)
      (omega arith) (omega arith) (omega arith)
    ∙ ap (λ x. some (pos x)) whole

stoi_three :
    (a b c : ℕ)
    → a < 10
    → b < 10
    → c < 10
    → stoi ((48 + a) ∷ (48 + b) ∷ (48 + c) ∷ []) ≡ some (pos ((a * 10 + b) * 10 + c))
unfolding digits_from
stoi_three a b c ha hb hc =
    stoi_digit a ((48 + b) ∷ (48 + c) ∷ []) ha
    ∙ ap (λ x. some (pos x))
        (digits_from_digit a b ((48 + c) ∷ []) hb ∙ digits_from_digit (a * 10 + b) c [] hc)

pub stoi-last_digits_3 : (n : ℕ) → n < 1000 → stoi (last_digits 3 n) ≡ some (pos n)
unfolding last_digits
stoi-last_digits_3 n h =
    let whole : (n / 10 / 10 % 10 * 10 + n / 10 % 10) * 10 + n % 10 ≡ n = omega (arith, h) in
    stoi_three (n / 10 / 10 % 10) (n / 10 % 10) (n % 10) (omega arith) (omega arith) (omega arith)
    ∙ ap (λ x. some (pos x)) whole

pub stoi-last_digits_2 : (n : ℕ) → n < 100 → stoi (last_digits 2 n) ≡ some (pos n)
unfolding last_digits
stoi-last_digits_2 n h =
    let whole : n / 10 % 10 * 10 + n % 10 ≡ n = omega (arith, h) in
    stoi_two (n / 10 % 10) (n % 10) (omega arith) (omega arith) ∙ ap (λ x. some (pos x)) whole

pub format_digits_fit : (width n : ℕ) → n < 10 ^ width → format_digits width n ≡ last_digits width n
unfolding decimal_fuel
format_digits_fit width n h =
    let none_left : n / 10 ^ width ≡ 0 = div-eq_of_lt h in
    ap (λ x. decimal_fuel 5 x ++ last_digits width n) none_left

after_last_dot-behind :
    (base t : Bytes) → after_last_dot t ≡ none → after_last_dot (base ++ 46 ∷ t) ≡ some t
unfolding after_last_dot
after_last_dot-behind [] t h = ground (arith, h)
after_last_dot-behind (c ∷ base) t h = ground (arith, after_last_dot-behind base t h)

undotted : (c : ℕ) (s : Bytes) → c ≢ 46 → after_last_dot s ≡ none → after_last_dot (c ∷ s) ≡ none
unfolding after_last_dot
undotted c s h k = ground (arith, h, k)

undotted_digit :
    (n : ℕ) (s : Bytes) → after_last_dot s ≡ none → after_last_dot ((48 + n) ∷ s) ≡ none
undotted_digit n s k = undotted (48 + n) s (omega arith) k

undotted-last_digits :
    (width n : ℕ) (s : Bytes)
    → after_last_dot s ≡ none
    → after_last_dot (last_digits width n ++ s) ≡ none
unfolding last_digits
undotted-last_digits zero n s k = k
undotted-last_digits (suc width) n s k =
    ap after_last_dot (append_assoc (last_digits width (n / 10)) ((48 + n % 10) ∷ []) s)
    ∙ undotted-last_digits width (n / 10) ((48 + n % 10) ∷ s) (undotted_digit (n % 10) s k)

undotted_suffix :
    (gen version : ℕ)
    → after_last_dot (71 ∷ (last_digits 4 gen ++ 86 ∷ last_digits 2 version)) ≡ none
unfolding after_last_dot
undotted_suffix gen version =
    let ver : after_last_dot (last_digits 2 version) ≡ none =
      ap after_last_dot (sym (append-nil (last_digits 2 version)))
      ∙ undotted-last_digits 2 version [] refl in
    undotted 71 (last_digits 4 gen ++ 86 ∷ last_digits 2 version) (omega arith) (
      undotted-last_digits 4 gen (86 ∷ last_digits 2 version)
        (undotted 86 (last_digits 2 version) (omega arith) ver))

parse_suffix_lem :
    (gen version : ℕ)
    → gen < 10000
    → version < 100
    → parse_suffix (71 ∷ (last_digits 4 gen ++ 86 ∷ last_digits 2 version)) ≡ ok (gen, version)
unfolding parse_suffix last_digits
parse_suffix_lem gen version h k =
    let values : numbers (stoi (last_digits 4 gen)) (stoi (last_digits 2 version))
        ≡ ok (gen % 65536, version % 256) =
      ap₂ numbers (stoi-last_digits_4 gen h) (stoi-last_digits_2 version k) in
    let gen_fits : gen % 65536 ≡ gen = omega (arith, h) in
    let version_fits : version % 256 ≡ version = omega (arith, k) in
    values ∙ ap₂ (λ g v. ok (g, v)) gen_fits version_fits

-- The name of a generation of a number below 10000 and a version below 100 is parsed into the number and
-- the version again, whatever the base's name is.
pub parse-generate_generation_name :
    (base_name : Bytes) (gen version : ℕ)
    → gen < 10000
    → version < 100
    → parse_generation_name (generate_generation_name base_name gen version) ≡ ok (gen, version)
unfolding parse_generation_name generate_generation_name
parse-generate_generation_name base_name gen version h k =
    let suffix = 71 ∷ (last_digits 4 gen ++ 86 ∷ last_digits 2 version) in
    let name : generate_generation_name base_name gen version ≡ base_name ++ 46 ∷ suffix =
      ap₂ (λ x y. base_name ++ 46 ∷ 71 ∷ (x ++ 86 ∷ y)) (format_digits_fit 4 gen h)
        (format_digits_fit 2 version k) in
    ap parse_generation_name name
    ∙ ap (λ o. elim o [ none ↦ err invalid_argument | some t ↦ parse_suffix t ])
        (after_last_dot-behind base_name suffix (undotted_suffix gen version))
    ∙ parse_suffix_lem gen version h k
