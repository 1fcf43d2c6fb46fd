-- ===== src/Datetime/Iso/RoundTrip.antt =====
-- Reading back what `to_iso8601` writes: libs/datetime/src/datetime.cpp.
use ibm_cics_emulation.Base.{
  ℕ, ◌/◌, ◌%◌, ◌<◌, ◌≡◌, refl, sym, ap, ◌∙◌, arith, true, false, [], ◌∷◌, ◌++◌, ltb, ◌==◌, length,
  Bytes, codes, ℤ, pos, neg_part, Bool-cases, inl, inr, ==_iff,
}
use ibm_cics_emulation.Result.{ok}
use ibm_cics_emulation.Gdg.{last_digits, format_digits, is_digit}
use ibm_cics_emulation.Gdg.Names.{stoi-last_digits_3, format_digits_fit}
use ibm_cics_emulation.Datetime.{DateTime, is_valid}
use ibm_cics_emulation.Datetime.Iso.{
  to_iso8601, parse_iso8601, leading_digits, three_digits, parse_milliseconds, zone_text,
  millisecond_text, offset_minutes,
}
use ibm_cics_emulation.Datetime.Iso.Shape.{
  shape, IsSmall, is_valid-IsSmall, to_iso8601-shape, read_fields, length-shape, checked,
  parse_iso8601-shape,
}

-- What the time zone is written as starts neither with a point nor with a digit.
zone_front :
    (z : ℤ)
    → (c : ℕ) × (t : Bytes) × (zone_text z ≡ c ∷ t) × ((c == 46) ≡ false) × (is_digit c ≡ false)
unfolding zone_text
zone_front z = elim (Bool-cases (offset_minutes z == 0)) [
  | inl e ↦ (90, [], rw e refl, refl, refl)
  | inr e ↦
      let rest : Bytes =
        format_digits 2 (offset_minutes z / 60)
        ++ (codes ":" ++ format_digits 2 (offset_minutes z % 60)) in
      elim (Bool-cases (neg_part z == 0)) [
        | inl plus ↦ (43, rest, rw (e, plus) refl, refl, refl)
        | inr minus ↦ (45, rest, rw (e, minus) refl, refl, refl)
      ]
]

read_digits : (ms : ℕ) (z : ℤ) → leading_digits (last_digits 3 ms ++ zone_text z) ≡ last_digits 3 ms
unfolding leading_digits last_digits
read_digits ms z = let f = zone_front z in rw (f.2) (ground (arith, f.3, f.4))

no_point :
    (dt date : DateTime) (c : ℕ) (t : Bytes)
    → (c == 46) ≡ false
    → parse_milliseconds (shape dt (c ∷ t)) date ≡ ok date
unfolding parse_milliseconds shape last_digits
no_point dt date c t h = elim (Bool-cases (ltb 20 (length (shape dt (c ∷ t))))) [
  | inl e ↦ rw (e, h) refl
  | inr e ↦ rw e refl
]

no_milliseconds :
    (dt date : DateTime) (z : ℤ) → parse_milliseconds (shape dt (zone_text z)) date ≡ ok date
no_milliseconds dt date z = let f = zone_front z in rw (f.2) (no_point dt date f.0 f.1 f.3)

some_milliseconds :
    (dt date : DateTime) (z : ℤ) (ms : ℕ)
    → ms < 1000
    → parse_milliseconds (shape dt (codes "." ++ (last_digits 3 ms ++ zone_text z))) date
      ≡ ok (record date { millisecond = ms })
unfolding parse_milliseconds shape last_digits leading_digits three_digits
some_milliseconds dt date z ms h =
    let tail : Bytes = codes "." ++ (last_digits 3 ms ++ zone_text z) in
    let long : ltb 20 (length (shape dt tail)) ≡ true = ground (arith, length-shape dt tail) in
    let cast : ms % 65536 ≡ ms = omega (arith, h) in
    rw (long, read_digits ms z, stoi-last_digits_3 ms h, cast) refl

milliseconds_lem :
    (dt : DateTime)
    → IsSmall dt
    → parse_milliseconds
        (shape dt (millisecond_text dt.millisecond ++ zone_text dt.tz_offset_minutes))
        (read_fields dt)
      ≡ ok (record dt { tz_offset_minutes = pos 0 })
unfolding millisecond_text
milliseconds_lem dt s =
    let z = dt.tz_offset_minutes in
    elim (Bool-cases (dt.millisecond == 0)) [
      | inl e ↦
          let none_left : 0 ≡ dt.millisecond = sym ((==_iff dt.millisecond 0).0 e) in
          rw e (
            no_milliseconds dt (read_fields dt) z
            ∙ ap (λ n. ok (record dt { millisecond = n; tz_offset_minutes = pos 0 })) none_left)
      | inr e ↦
          rw (e, format_digits_fit 3 dt.millisecond s.millisecond_small)
            (some_milliseconds dt (read_fields dt) z dt.millisecond s.millisecond_small)
    ]

checked_lem : (dt : DateTime) → is_valid dt ≡ true → checked (ok dt) ≡ ok dt
unfolding checked
checked_lem dt v = rw v refl

without_zone :
    (dt : DateTime) → is_valid dt ≡ true → is_valid (record dt { tz_offset_minutes = pos 0 }) ≡ true
unfolding is_valid
without_zone dt v = v

-- What `to_iso8601` writes of a valid date and time reads back as that date and time, but that its
-- time zone is lost.
pub parse_iso8601-to_iso8601 :
    (dt : DateTime)
    → is_valid dt ≡ true
    → parse_iso8601 (to_iso8601 dt) ≡ ok (record dt { tz_offset_minutes = pos 0 })
parse_iso8601-to_iso8601 dt v =
    let s = is_valid-IsSmall dt v in
    let z = dt.tz_offset_minutes in
    let ms = dt.millisecond in
    ap parse_iso8601 (to_iso8601-shape dt s)
    ∙ parse_iso8601-shape dt (millisecond_text ms ++ zone_text z) s
    ∙ ap checked (milliseconds_lem dt s)
    ∙ checked_lem (record dt { tz_offset_minutes = pos 0 }) (without_zone dt v)
