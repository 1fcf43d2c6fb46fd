-- ===== src/Counter/Draw.antt =====
-- Successive calls of `get()`, as clients that share a counter draw numbers from it.
use ibm_cics_emulation.Base.{
  ℕ, zero, suc, ◌≡◌, refl, false, inl, inr, List, [], ◌∷◌, arith, length, ap, ap₂, ◌∙◌, ℤ, pos,
  ◌+ℤ◌, ◌≤ℤ◌, ◌<ℤ◌, int_laws,
}
use ibm_cics_emulation.Result.{Result, ok, err, undefined}
use ibm_cics_emulation.Counter.{NamedCounter, get}
use ibm_cics_emulation.Counter.Range.{InRange, get_by_bounded}

pub draw : ℕ → NamedCounter → NamedCounter × List (Result ℤ)
draw zero c = (c, [])
draw (suc n) c = let (c', r) = get c in let (c'', rs) = draw n c' in (c'', r ∷ rs)

-- The value after `n` steps.
abbrev pub climb : ℕ → ℤ → ℤ → ℤ
climb zero v inc = v
climb (suc n) v inc = climb n (v +ℤ inc) inc

-- All results are values, each greater than the one before, the first greater than `b`.
abbrev pub Ascends : ℤ → List (Result ℤ) → Type 0
Ascends b [] = Unit
Ascends b (ok v ∷ rs) = (b <ℤ v) × Ascends v rs
Ascends b (err e ∷ rs) = ⊥
Ascends b (undefined ∷ rs) = ⊥

climb_le : (n : ℕ) (v inc : ℤ) → pos 1 ≤ℤ inc → v ≤ℤ climb n v inc
climb_le zero v inc h = omega arith
climb_le (suc n) v inc h = omega (int_laws, climb_le n (v +ℤ inc) inc h)

get_step :
    (c : NamedCounter)
    → c.wrap ≡ false
    → InRange c
    → pos 1 ≤ℤ c.increment
    → c.value +ℤ c.increment ≤ℤ c.maximum
    → ((get c).1 ≡ ok c.value)
      × InRange (get c).0
      × ((get c).0.value ≡ c.value +ℤ c.increment)
      × ((get c).0.increment ≡ c.increment)
      × ((get c).0.maximum ≡ c.maximum)
      × ((get c).0.wrap ≡ false)
unfolding get
get_step c w r i h =
    elim (get_by_bounded c c.increment w (omega (int_laws, r.low, r.low64))
      (omega (int_laws, r.high64))) [
        | inl (e, low, high) ↦ rw (e) (
          refl,
          record { low = low; high = high; low64 = r.low64; high64 = r.high64 },
          refl,
          refl,
          refl,
          w,
        )
        | inr (_, inl past) ↦ absurd (omega (int_laws, past))
        | inr (_, inr below) ↦ absurd (omega (int_laws, r.low))
      ]

-- `n` calls of `get()` on a counter that does not wrap, with an increment of at least 1 and room below
-- the maximum for all, all succeed, return strictly ascending values (so no number twice), and leave
-- the value `n` steps on.
pub draw-Ascends :
    (n : ℕ) (c : NamedCounter) (b : ℤ)
    → c.wrap ≡ false
    → InRange c
    → pos 1 ≤ℤ c.increment
    → climb n c.value c.increment ≤ℤ c.maximum
    → b <ℤ c.value
    → Ascends b (draw n c).1
      × (length (draw n c).1 ≡ n)
      × ((draw n c).0.value ≡ climb n c.value c.increment)
unfolding draw
draw-Ascends zero c b w r i h l = (tt, refl, refl)
draw-Ascends (suc n) c b w r i h l =
    let fits : c.value +ℤ c.increment ≤ℤ c.maximum =
      omega (int_laws, climb_le n (c.value +ℤ c.increment) c.increment i, h) in
    let (got, r', moved, same, top, w') = get_step c w r i fits in
    let (up, count, last) =
      draw-Ascends n (get c).0 c.value w' r' (rw same i) (rw (moved, same, top) h)
        (rw moved (omega int_laws)) in
    rw got ((l, up), ap suc count, last ∙ ap₂ (climb n) moved same)
