-- ===== src/Gdg.antt =====
-- GdgManager and the names of generations: libs/gdg/src/gdg_manager.cpp. The
-- times, the attributes that no operation reads, the sizes and the volumes are left out.
pub mod Names
pub mod Numbers
mod Tests
use ibm_cics_emulation.Base.{
  ℕ, zero, suc, ◌+◌, ◌-◌, ◌*◌, ◌/◌, ◌%◌, ◌^◌, Bool, true, false, not, ◌&&◌, ◌||◌, Option, none,
  some, List, [], ◌∷◌, ◌++◌, map, ltb, leb, ◌==◌, if◌then◌else◌, length, Bytes, Dict, lookup,
  insert, erase, contains, ℤ, pos, negsuc,
}
use ibm_cics_emulation.Result.{
  Result, ok, err, is_ok, duplicate_key, invalid_argument, gdg_base_not_found,
  gdg_generation_not_found, gdg_error, ⊤, ◌>>=◌,
}

pub data GdgModel : Type 0 where
  fifo lifo : GdgModel

pub record GdgBase : Type 0 where
  pub name : Bytes
  pub limit : ℕ
  pub model : GdgModel

pub record GdgGeneration : Type 0 where
  pub base_name : Bytes
  pub generation_name : Bytes
  pub relative_number : ℤ
  pub absolute_number : ℕ
  pub version : ℕ
  pub active : Bool

-- `{:04d}` and `{:02d}` of std::format: the decimal digits ('0' is 48), with zeros in front up to the
-- width. The last digits of a number, and the digits in front of them, of which there are as many as the
-- number has.
unfoldable pub last_digits : ℕ → ℕ → Bytes
last_digits zero n = []
last_digits (suc width) n = last_digits width (n / 10) ++ (48 + n % 10) ∷ []

pub decimal_fuel : ℕ → ℕ → Bytes
decimal_fuel zero n = []
decimal_fuel (suc fuel) n =
    let front = decimal_fuel fuel (n / 10) in if n == 0 then [] else front ++ (48 + n % 10) ∷ []

abbrev pub format_digits : ℕ → ℕ → Bytes
format_digits width n = decimal_fuel 5 (n / 10 ^ width) ++ last_digits width n

-- "{}.G{:04d}V{:02d}", of a UInt16 and a UInt8.
pub generate_generation_name : Bytes → ℕ → ℕ → Bytes
generate_generation_name base_name gen_number version =
    base_name ++ 46 ∷ 71 ∷ (format_digits 4 gen_number ++ 86 ∷ format_digits 2 version)

-- `rfind('.')`: what follows the last '.' of the name, if there is one.
pub after_last_dot : Bytes → Option Bytes
after_last_dot [] = none
after_last_dot (c ∷ s) = elim (after_last_dot s) [
  | some t ↦ some t
  | none ↦ if c == 46 then some s else none
]

abbrev pub is_digit : ℕ → Bool
is_digit c = leb 48 c && leb c 57

-- std::stoi: white space, a sign, and as many digits as follow, of which there is at least one; `none`
-- is the exception. The texts have at most 4 characters, so that no value is out of range.
pub digits_from : ℕ → Bytes → ℕ
digits_from value [] = value
digits_from value (c ∷ s) =
    let rest = digits_from (value * 10 + (c - 48)) s in if is_digit c then rest else value

abbrev pub stoi_digits : Bytes → Option ℕ
stoi_digits [] = none
stoi_digits (c ∷ s) = if is_digit c then some (digits_from 0 (c ∷ s)) else none

abbrev pub negative : Option ℕ → Option ℤ
negative none = none
negative (some zero) = some (pos 0)
negative (some (suc n)) = some (negsuc n)

abbrev pub positive : Option ℕ → Option ℤ
positive none = none
positive (some n) = some (pos n)

abbrev pub is_white : ℕ → Bool
is_white c = (c == 32) || (leb 9 c && leb c 13)

pub stoi : Bytes → Option ℤ
stoi [] = none
stoi (c ∷ s) =
    let rest = stoi s in
    if is_white c
    then rest
    else if c == 45
    then negative (stoi_digits s)
    else if c == 43
    then positive (stoi_digits s)
    else positive (stoi_digits (c ∷ s))

-- `static_cast<UInt16>` and `static_cast<UInt8>`.
abbrev pub to_unsigned : ℕ → ℤ → ℕ
to_unsigned size (pos n) = n % size
to_unsigned size (negsuc n) = size - 1 - n % size

-- The two numbers, where std::stoi throws for neither.
abbrev pub numbers : Option ℤ → Option ℤ → Result (ℕ × ℕ)
numbers none ver = err invalid_argument
numbers (some gen) none = err invalid_argument
numbers (some gen) (some ver) = ok (to_unsigned 65536 gen, to_unsigned 256 ver)

-- The suffix G, four characters, V, two characters.
pub parse_suffix : Bytes → Result (ℕ × ℕ)
parse_suffix (g ∷ a ∷ b ∷ c ∷ d ∷ v ∷ e ∷ f ∷ []) =
    if not ((g == 71) && (v == 86))
    then err invalid_argument
    else numbers (stoi (a ∷ b ∷ c ∷ d ∷ [])) (stoi (e ∷ f ∷ []))
parse_suffix suffix = err invalid_argument

pub parse_generation_name : Bytes → Result (ℕ × ℕ)
parse_generation_name gen_name = elim (after_last_dot gen_name) [
  | none ↦ err invalid_argument
  | some suffix ↦ parse_suffix suffix
]

pub record GdgManager : Type 0 where
  pub bases : Dict GdgBase
  pub generations : Dict (List GdgGeneration)

abbrev pub new_manager : GdgManager
new_manager = record { bases = []; generations = [] }

pub define_base : GdgManager → GdgBase → GdgManager × Result ⊤
define_base m base = if contains base.name m.bases then (m, err duplicate_key) else (
  record { bases = insert base.name base m.bases; generations = insert base.name [] m.generations },
  ok tt,
)

pub delete_base : GdgManager → Bytes → GdgManager × Result ⊤
delete_base m name =
    if contains name m.bases
    then (record { bases = erase name m.bases; generations = erase name m.generations }, ok tt)
    else (m, err gdg_base_not_found)

pub get_base : GdgManager → Bytes → Result GdgBase
get_base m name = elim (lookup name m.bases) [ none ↦ err gdg_base_not_found | some b ↦ ok b ]

-- `generations_[name]`, which makes an empty vector where there is none.
abbrev pub generations_of : GdgManager → Bytes → List GdgGeneration
generations_of m name = elim (lookup name m.generations) [ none ↦ [] | some gens ↦ gens ]

-- `gens.empty() ? 1 : gens.back().absolute_number + 1` as a UInt16.
pub next_number : List GdgGeneration → ℕ
next_number [] = 1
next_number (g ∷ []) = (g.absolute_number + 1) % 65536
next_number (g ∷ h ∷ gens) = next_number (h ∷ gens)

-- `g.relative_number--` of an Int16.
abbrev pub decrement : ℤ → ℤ
decrement (pos zero) = negsuc 0
decrement (pos (suc n)) = pos n
decrement (negsuc n) = if n == 32767 then pos 32767 else negsuc (n + 1)

abbrev pub age : GdgGeneration → GdgGeneration
age g = record g { relative_number = decrement g.relative_number }

-- The oldest generation goes where the limit is reached.
pub roll : GdgBase → List GdgGeneration → List GdgGeneration
roll base [] = []
roll base (g ∷ gens) = elim base.model [
  | fifo ↦ if leb base.limit (length (g ∷ gens)) then gens else g ∷ gens
  | lifo ↦ g ∷ gens
]

abbrev pub new_generation : Bytes → ℕ → GdgGeneration
new_generation base_name number = record {
  base_name = base_name;
  generation_name = generate_generation_name base_name number 0;
  relative_number = pos 0;
  absolute_number = number;
  version = 0;
  active = true;
}

pub add_generation : GdgBase → Bytes → List GdgGeneration → List GdgGeneration
add_generation base name gens =
    map age (roll base gens) ++ new_generation name (next_number gens) ∷ []

pub create_generation : GdgManager → Bytes → GdgManager × Result GdgGeneration
create_generation m name = elim (lookup name m.bases) [
  | none ↦ (m, err gdg_base_not_found)
  | some base ↦
      let gens = generations_of m name in
      (
        record m { generations = insert name (add_generation base name gens) m.generations },
        ok (new_generation name (next_number gens)),
      )
]

abbrev pub eq_ℤ : ℤ → ℤ → Bool
eq_ℤ (pos a) (pos b) = a == b
eq_ℤ (negsuc a) (negsuc b) = a == b
eq_ℤ (pos a) (negsuc b) = false
eq_ℤ (negsuc a) (pos b) = false

pub find_relative : ℤ → List GdgGeneration → Result GdgGeneration
find_relative relative [] = err gdg_generation_not_found
find_relative relative (g ∷ gens) =
    let rest = find_relative relative gens in if eq_ℤ g.relative_number relative then ok g else rest

pub get_generation : GdgManager → Bytes → (relative : ℤ) → Result GdgGeneration
get_generation m name relative = find_relative relative (generations_of m name)

pub roll_off : GdgManager → Bytes → GdgManager × Result ⊤
roll_off m name = elim (lookup name m.generations) [
  | none ↦ (m, err gdg_error)
  | some gens ↦ elim gens [
    | [] ↦ (m, err gdg_error)
    | g ∷ rest ↦ (record m { generations = insert name rest m.generations }, ok tt)
  ]
]

abbrev pub generation_count : GdgManager → Bytes → ℕ
generation_count m name = length (generations_of m name)
