-- ===== src/Gdg/Numbers.antt =====
-- The numbers of the generations of a base: libs/gdg/src/gdg_manager.cpp.
use ibm_cics_emulation.Base.{
  ℕ, zero, suc, ◌+◌, ◌%◌, ◌≤◌, ◌<◌, false, none, some, List, [], ◌∷◌, ◌++◌, map, leb, ◌==◌,
  if◌then◌else◌, length, Bytes, ℤ, pos, negsuc, ◌≡◌, ◌⊎◌, inl, inr, refl, sym, subst, Bool-cases,
  ap, ◌∙◌, arith, lookup, insert, lookup-insert_self, contains,
}
use ibm_cics_emulation.Result.{ok}
use ibm_cics_emulation.Gdg.{
  GdgBase, fifo, GdgGeneration, GdgManager, new_manager, define_base, next_number, decrement, age,
  roll, new_generation, add_generation, create_generation, find_relative, get_generation, eq_ℤ,
  generations_of, generation_count,
}

-- -n
abbrev pub minus : ℕ → ℤ
minus zero = pos 0
minus (suc n) = negsuc n

-- From the oldest on, each generation is numbered by its distance from the newest: relative to it, and
-- absolutely up to `top`.
abbrev pub IsNumbered : ℕ → List GdgGeneration → Type 0
IsNumbered top [] = Unit
IsNumbered top (g ∷ gens) =
    (g.relative_number ≡ minus (length gens))
    × (g.absolute_number + length gens ≡ top)
    × IsNumbered top gens

roll-IsNumbered :
    (top : ℕ) (base : GdgBase) (gens : List GdgGeneration)
    → IsNumbered top gens
    → IsNumbered top (roll base gens)
unfolding roll
roll-IsNumbered top base [] h = tt
roll-IsNumbered top base (g ∷ gens) h = ground (arith, h)

length-roll : (base : GdgBase) (gens : List GdgGeneration) → length (roll base gens) ≤ length gens
unfolding roll
length-roll base [] = omega arith
length-roll base (g ∷ gens) = ground arith

next_number_top :
    (top : ℕ) (g : GdgGeneration) (gens : List GdgGeneration)
    → IsNumbered top (g ∷ gens)
    → next_number (g ∷ gens) ≡ (top + 1) % 65536
unfolding next_number
next_number_top top g [] h = ground (arith, h)
next_number_top top g (k ∷ gens) h = next_number_top top k gens h.2

length-map-age :
    (gens : List GdgGeneration) (g : GdgGeneration)
    → length (map age gens ++ g ∷ []) ≡ length gens + 1
length-map-age [] g = refl
length-map-age (h ∷ gens) g = omega (arith, length-map-age gens g)

decrement-minus : (n : ℕ) → n < 32768 → decrement (minus n) ≡ minus (n + 1)
decrement-minus zero h = refl
decrement-minus (suc n) h =
    let inside : (n == 32767) ≡ false = ground (arith, h) in
    let next : n + 1 ≡ suc n = omega arith in
    let next' : suc (suc n) ≡ suc n + 1 = omega arith in
    ap (λ b. if b then pos 32767 else negsuc (n + 1)) inside ∙ ap negsuc next ∙ ap minus next'

aged-IsNumbered :
    (top : ℕ) (name : Bytes) (gens : List GdgGeneration)
    → length gens ≤ 32768
    → IsNumbered top gens
    → IsNumbered (top + 1) (map age gens ++ new_generation name (top + 1) ∷ [])
aged-IsNumbered top name [] k h = (refl, omega arith, tt)
aged-IsNumbered top name (g ∷ gens) k h =
    let newest = new_generation name (top + 1) in
    let size = length-map-age gens newest in
    (
      ap decrement h.0 ∙ decrement-minus (length gens) (omega (arith, k)) ∙ ap minus (sym size),
      omega (arith, size, h.1),
      aged-IsNumbered top name gens (omega (arith, k)) h.2,
    )

-- A new generation takes the next number and is the newest; those that stay are numbered on relative to
-- it. There are at most 32768 of them, and the numbers stay below 65536.
add_generation-IsNumbered :
    (top : ℕ) (base : GdgBase) (name : Bytes) (gens : List GdgGeneration)
    → IsNumbered top gens
    → (top ≡ 0) ⊎ (0 < length gens)
    → top < 65535
    → length gens ≤ 32768
    → IsNumbered (top + 1) (add_generation base name gens)
unfolding add_generation next_number roll
add_generation-IsNumbered top base name [] h c t k =
    let first : 1 ≡ top + 1 = ground (arith, c) in (refl, omega (arith, first), tt)
add_generation-IsNumbered top base name (g ∷ gens) h c t k =
    let next : next_number (g ∷ gens) ≡ top + 1 = next_number_top top g gens h ∙ omega (arith, t) in
    let rolled = roll base (g ∷ gens) in
    let aged =
      aged-IsNumbered top name rolled (omega (arith, k, length-roll base (g ∷ gens)))
        (roll-IsNumbered top base (g ∷ gens) h) in
    subst (λ x. IsNumbered (top + 1) (map age rolled ++ new_generation name x ∷ [])) (sym next) aged

length-add_generation :
    (base : GdgBase) (name : Bytes) (gens : List GdgGeneration)
    → base.model ≡ fifo
    → 1 ≤ base.limit
    → length gens ≤ base.limit
    → length (add_generation base name gens)
      ≡ (if leb base.limit (length gens) then base.limit else length gens + 1)
unfolding add_generation roll
length-add_generation base name [] f l k = ground (arith, l)
length-add_generation base name (g ∷ gens) f l k =
    let newest = new_generation name (next_number (g ∷ gens)) in
    ground (arith, f, l, k, length-map-age gens newest, length-map-age (g ∷ gens) newest)

eq_minus : (a b : ℕ) → eq_ℤ (minus a) (minus b) ≡ (a == b)
eq_minus zero zero = refl
eq_minus zero (suc b) = ground arith
eq_minus (suc a) zero = ground arith
eq_minus (suc a) (suc b) = ground arith

find_relative-IsNumbered :
    (top k : ℕ) (gens : List GdgGeneration)
    → IsNumbered top gens
    → k < length gens
    → (g : GdgGeneration) × (find_relative (minus k) gens ≡ ok g) × (g.absolute_number + k ≡ top)
unfolding find_relative
find_relative-IsNumbered top k [] h l = absurd (omega (arith, l))
find_relative-IsNumbered top k (g ∷ gens) h l =
    let test : eq_ℤ g.relative_number (minus k) ≡ (length gens == k) =
      ap (λ r. eq_ℤ r (minus k)) h.0 ∙ eq_minus (length gens) k in
    elim (Bool-cases (length gens == k)) [
      | inl e ↦ (g, ground (arith, test, e), ground (arith, e, h.1))
      | inr e ↦
          let (found, there, number) =
            find_relative-IsNumbered top k gens h.2 (ground (arith, l, e)) in
          (found, ground (arith, test, e, there), number)
    ]

-- `create_generation` so many times.
unfoldable pub creations : ℕ → GdgManager → Bytes → GdgManager
creations zero m name = m
creations (suc n) m name = (create_generation (creations n m name) name).0

abbrev pub at_most : ℕ → ℕ → ℕ
at_most limit n = if leb limit n then limit else n

-- The state of a base after so many creations.
record Created (base : GdgBase) (n : ℕ) (m : GdgManager) : Type 0 where
  there : lookup base.name m.bases ≡ some base
  numbered : IsNumbered n (generations_of m base.name)
  size : length (generations_of m base.name) ≡ at_most base.limit n

defined-Created : (base : GdgBase) → Created base 0 (define_base new_manager base).0
unfolding define_base contains lookup
defined-Created base =
    let m = (define_base new_manager base).0 in
    let empty : generations_of m base.name ≡ [] =
      ap (λ o. elim o [ none ↦ [] | some gens ↦ gens ]) (lookup-insert_self base.name [] []) in
    record {
      there = lookup-insert_self base.name base [];
      numbered = subst (IsNumbered 0) (sym empty) tt;
      size = ap length empty ∙ ground arith;
    }

-- The manager after a generation is created.
abbrev pub created : GdgBase → GdgManager → GdgManager
created base m =
    let gens = add_generation base base.name (generations_of m base.name) in
    record m { generations = insert base.name gens m.generations }

create_generation_lem :
    (base : GdgBase) (m : GdgManager)
    → lookup base.name m.bases ≡ some base
    → (create_generation m base.name).0 ≡ created base m
unfolding create_generation
create_generation_lem base m there = rw (there, create_generation) refl

created-Created :
    (base : GdgBase) (n : ℕ) (m : GdgManager)
    → base.model ≡ fifo
    → 1 ≤ base.limit
    → base.limit ≤ 32768
    → n < 65535
    → Created base n m
    → Created base (suc n) (created base m)
created-Created base n m f l k b c =
    let gens = generations_of m base.name in
    let added = add_generation base base.name gens in
    let now : generations_of (created base m) base.name ≡ added =
      ap (λ o. elim o [ none ↦ [] | some gens ↦ gens ])
        (lookup-insert_self base.name added m.generations) in
    let some_there : (n ≡ 0) ⊎ (0 < length gens) = ground (arith, c.size, l) in
    let within : length gens ≤ base.limit = ground (arith, c.size) in
    let next : n + 1 ≡ suc n = omega arith in
    let numbered =
      add_generation-IsNumbered n base base.name gens c.numbered some_there b
        (omega (arith, within, k)) in
    let size = length-add_generation base base.name gens f l within in
    record {
      there = c.there;
      numbered =
          subst (λ x. IsNumbered x (generations_of (created base m) base.name)) next
            (subst (IsNumbered (n + 1)) (sym now) numbered);
      size = ap length now ∙ ground (arith, size, c.size);
    }

creations-Created :
    (base : GdgBase) (n : ℕ)
    → base.model ≡ fifo
    → 1 ≤ base.limit
    → base.limit ≤ 32768
    → n < 65536
    → Created base n (creations n (define_base new_manager base).0 base.name)
unfolding creations
creations-Created base zero f l k b = defined-Created base
creations-Created base (suc n) f l k b =
    let m = creations n (define_base new_manager base).0 base.name in
    let c = creations-Created base n f l k (omega (arith, b)) in
    subst (Created base (suc n)) (sym (create_generation_lem base m c.there))
      (created-Created base n m f l k (omega (arith, b)) c)

-- After a base with the FIFO model and a limit from 1 to 32768 is defined, and n generations of it are
-- created, n below 65536, there are as many as the limit, or n if that is less; and the relative number -k finds the
-- generation with the absolute number n - k, for each k below that count.
pub get_generation-created :
    (base : GdgBase) (n k : ℕ)
    → base.model ≡ fifo
    → 1 ≤ base.limit
    → base.limit ≤ 32768
    → n < 65536
    → (generation_count (creations n (define_base new_manager base).0 base.name) base.name
        ≡ at_most base.limit n)
      × (k < at_most base.limit n
          → (g : GdgGeneration) × (get_generation
                (creations n (define_base new_manager base).0 base.name)
                base.name
                (minus k)
              ≡ ok g)
            × (g.absolute_number + k ≡ n))
unfolding get_generation
get_generation-created base n k f l m b =
    let c = creations-Created base n f l m b in
    let gens = generations_of (creations n (define_base new_manager base).0 base.name) base.name in
    (c.size, λ inside. find_relative-IsNumbered n k gens c.numbered (omega (arith, inside, c.size)))
