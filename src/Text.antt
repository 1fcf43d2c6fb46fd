-- ===== src/Text.antt =====
-- FixedString<N> of libs/common/include/cics/common/types.hpp: N characters, padded by spaces.
use ibm_cics_emulation.Base.{
  ℕ, zero, suc, ◌≤◌, ◌≡◌, refl, Bool, true, false, ◌&&◌, [], ◌∷◌, arith, ◌==◌, if◌then◌else◌,
  length, Bytes,
}

-- FixedString(StringView): the first N characters, then spaces.
unfoldable pub fixed_string : ℕ → Bytes → Bytes
fixed_string zero s = []
fixed_string (suc n) [] = b' ' ∷ fixed_string n []
fixed_string (suc n) (c ∷ s) = c ∷ fixed_string n s

-- `trimmed()`, without the trailing spaces.
unfoldable pub trimmed : Bytes → Bytes
trimmed [] = []
trimmed (c ∷ s) = elim (trimmed s) [ [] ↦ if c == b' ' then [] else c ∷ [] | d ∷ t ↦ c ∷ d ∷ t ]

-- `empty()`: all characters are spaces.
unfoldable pub fixed_empty : Bytes → Bool
fixed_empty [] = true
fixed_empty (c ∷ s) = (c == b' ') && fixed_empty s

-- The text does not end in a space.
abbrev pub EndsInk : Bytes → Type 0
EndsInk [] = Unit
EndsInk (c ∷ []) = (c == b' ') ≡ false
EndsInk (c ∷ d ∷ s) = EndsInk (d ∷ s)

trimmed-spaces : (n : ℕ) → trimmed (fixed_string n []) ≡ []
unfolding trimmed fixed_string
trimmed-spaces zero = refl
trimmed-spaces (suc n) = ground (arith, trimmed-spaces n)

-- A text of at most n characters that does not end in a space comes back unchanged from a field of n
-- characters by `trimmed`.
pub trimmed-fixed_string :
    (n : ℕ) (s : Bytes) → length s ≤ n → EndsInk s → trimmed (fixed_string n s) ≡ s
unfolding trimmed fixed_string
trimmed-fixed_string n [] h e = trimmed-spaces n
trimmed-fixed_string zero (c ∷ s) h e = elim h [ ]
trimmed-fixed_string (suc n) (c ∷ []) h e = ground (arith, trimmed-spaces n)
trimmed-fixed_string (suc n) (c ∷ d ∷ s) h e =
    ground (arith, trimmed-fixed_string n (d ∷ s) (omega arith) e)
