-- ===== src/Channel/Laws.antt =====
-- What the container and channel operations do to the bytes they keep.
use ibm_cics_emulation.Base.{
  ℕ, zero, suc, ◌+◌, ◌%◌, ◌≤◌, ◌<◌, ◌≡◌, refl, sym, ap, ◌∙◌, arith, some, [], ◌∷◌, ltb,
  if◌then◌else◌, length, length-take, take, drop, ◌++◌, Bytes, Bool-cases, inl, inr,
}
use ibm_cics_emulation.Result.{ok, err, lengerr, u32}
use ibm_cics_emulation.Channel.{
  Container, max_container_size, resize, write_at, fill, put, append, replace,
}

pub length-resize : (n : ℕ) (d : Bytes) → length (resize n d) ≡ n
unfolding resize
length-resize zero d = refl
length-resize (suc n) [] = ap suc (length-resize n [])
length-resize (suc n) (c ∷ d) = ap suc (length-resize n d)

write_at_all : (from dest : Bytes) → length from ≡ length dest → write_at 0 from dest ≡ from
unfolding write_at
write_at_all [] [] h = refl
write_at_all [] (c ∷ dest) h = absurd (omega (arith, h))
write_at_all (b ∷ from) [] h = absurd (omega (arith, h))
write_at_all (b ∷ from) (c ∷ dest) h =
    ap (λ (t : Bytes). b ∷ t) (write_at_all from dest (omega (arith, h)))

pub length-write_at :
    (offset : ℕ) (from dest : Bytes) → length (write_at offset from dest) ≡ length dest
unfolding write_at
length-write_at zero [] [] = refl
length-write_at zero (b ∷ from) [] = refl
length-write_at (suc offset) from [] = refl
length-write_at (suc offset) from (c ∷ dest) = ap suc (length-write_at offset from dest)
length-write_at zero [] (c ∷ dest) = refl
length-write_at zero (b ∷ from) (c ∷ dest) = ap suc (length-write_at zero from dest)

write_at_nothing : (offset : ℕ) (dest : Bytes) → write_at offset [] dest ≡ dest
unfolding write_at
write_at_nothing zero [] = refl
write_at_nothing zero (c ∷ dest) = refl
write_at_nothing (suc offset) [] = refl
write_at_nothing (suc offset) (c ∷ dest) = ap (λ (t : Bytes). c ∷ t) (write_at_nothing offset dest)

-- A copy within both buffers is defined.
fill_lem :
    (d : Bytes) (n offset : ℕ) (dest : Bytes)
    → n ≤ length d
    → offset + n ≤ length dest
    → fill (some d) n offset dest ≡ ok (write_at offset (take n d) dest)
unfolding fill
fill_lem d zero offset dest h k = ap ok (sym (write_at_nothing offset dest))
fill_lem d (suc n) offset dest h k = ground (arith, h, k)

-- Putting n bytes of a buffer that has them keeps exactly those bytes, whatever was there, or fails
-- when they are more than a container holds.
pub put_lem :
    (d : Bytes) (n : ℕ) (c : Container)
    → n ≤ length d
    → put (some d) n c
      ≡ (if ltb max_container_size n then err lengerr else ok (record c { content = take n d }))
unfolding put
put_lem d n c h =
    let room = length-resize n c.content in
    let kept = write_at_all (take n d) (resize n c.content) (length-take n d h ∙ sym room) in
    rw (fill_lem d n 0 (resize n c.content) h (omega (arith, room)), kept) refl

-- A copy into the bytes that `resize` adds behind a buffer appends.
write_at_end :
    (d from : Bytes) (n : ℕ)
    → length from ≡ n
    → write_at (length d) from (resize (length d + n) d) ≡ d ++ from
unfolding write_at resize
write_at_end [] from n h =
    let e : 0 + n ≡ n = omega arith in
    ap (λ k. write_at 0 from (resize k [])) e
    ∙ write_at_all from (resize n []) (h ∙ sym (length-resize n []))
write_at_end (c ∷ d) from n h =
    let e : suc (length d) + n ≡ suc (length d + n) = omega arith in
    ap (λ k. write_at (suc (length d)) from (resize k (c ∷ d))) e
    ∙ ap (λ (t : Bytes). c ∷ t) (write_at_end d from n h)

-- Appending n bytes of a buffer that has them leaves the old content with exactly those bytes behind
-- it, or fails when that is more than a container holds.
pub append_lem :
    (d : Bytes) (n : ℕ) (c : Container)
    → n ≤ length d
    → append (some d) n c ≡ (
        if ltb max_container_size (length c.content + n)
        then err lengerr
        else ok (record c { content = c.content ++ take n d }))
unfolding append fill
append_lem d n c h =
    let room = length-resize (length c.content + n) c.content in
    rw
      (
        fill_lem d n (length c.content) (resize (length c.content + n) c.content) h
            (omega (arith, room)),
        write_at_end c.content (take n d) n (length-take n d h),
      )
      refl

write_at-take :
    (offset : ℕ) (from dest : Bytes)
    → offset + length from ≤ length dest
    → write_at offset from dest ≡ take offset dest ++ (from ++ drop (offset + length from) dest)
unfolding write_at
write_at-take zero [] dest h =
    let e : 0 ≡ 0 + 0 = omega arith in write_at_nothing 0 dest ∙ ap (λ k. drop k dest) e
write_at-take zero (b ∷ from) [] h = absurd (omega (arith, h))
write_at-take zero (b ∷ from) (c ∷ dest) h =
    let e : suc (0 + length from) ≡ 0 + suc (length from) = omega arith in
    ap (λ (t : Bytes). b ∷ t) (write_at-take zero from dest (omega (arith, h)))
    ∙ ap (λ k. b ∷ (from ++ drop k (c ∷ dest))) e
write_at-take (suc offset) from [] h = absurd (omega (arith, h))
write_at-take (suc offset) from (c ∷ dest) h =
    let e : suc (offset + length from) ≡ suc offset + length from = omega arith in
    ap (λ (t : Bytes). c ∷ t) (write_at-take offset from dest (omega (arith, h)))
    ∙ ap (λ k. c ∷ (take offset dest ++ (from ++ drop k (c ∷ dest)))) e

-- Replacing n bytes of a container at an offset, where the sum of both does not wrap, changes exactly
-- those bytes, or fails when they are not all within the container.
pub replace_lem :
    (offset : ℕ) (d : Bytes) (n : ℕ) (c : Container)
    → n ≤ length d
    → offset + n < u32
    → replace offset (some d) n c ≡ (
        if ltb (length c.content) (offset + n)
        then err lengerr
        else ok (record c {
          content = take offset c.content ++ (take n d ++ drop (offset + n) c.content);
        }))
unfolding replace
replace_lem offset d n c h w =
    let no_wrap : (offset + n) % u32 ≡ offset + n = omega (arith, w) in
    elim (Bool-cases (ltb (length c.content) (offset + n))) [
      | inl e ↦ rw (no_wrap, e) refl
      | inr e ↦
          let size = length-take n d h in
          let fits : offset + n ≤ length c.content = ground (arith, e) in
          let parts = write_at-take offset (take n d) c.content (omega (arith, size, fits)) in
          rw (no_wrap, e, fill_lem d n offset c.content h fits, parts, size) refl
    ]
