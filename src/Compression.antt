-- ===== src/Compression.antt =====
-- Run-length and LZ77 coding: libs/compression/include/cics/compression/compression.hpp. The loops run
-- over the data that is left, on fuel of its length: every round takes at least one byte.
pub mod Lists
pub mod Rle
mod Matches
pub mod Lz77
pub mod RoundTrip
mod Tests
use ibm_cics_emulation.Base.{
  ℕ, zero, suc, ◌+◌, ◌-◌, ◌*◌, ◌/◌, ◌%◌, Bool, true, false, not, ◌&&◌, Option, none, some, List, [],
  ◌∷◌, ◌++◌, ltb, leb, ◌==◌, if◌then◌else◌, length, take, drop, get_elem?, Bytes,
}
use ibm_cics_emulation.Result.{Result, ok, err, undefined, ◌>>=◌, invreq}

-- How many bytes from the front are `c`, at most n.
pub leading : ℕ → ℕ → Bytes → ℕ
leading c zero s = 0
leading c (suc n) [] = 0
leading c (suc n) (d ∷ s) = let rest = leading c n s in if d == c then suc rest else 0

-- The loop of rle::compress that collects literals: those, and what is left. `count` is how many there
-- are already.
pub literals : ℕ → Bytes → Bytes × Bytes
literals count [] = ([], [])
literals count (c ∷ s) =
    let potential_run = suc (leading c 2 s) in
    let more = literals (suc count) s in
    if ltb count 127
    then (if leb 3 potential_run && ltb 0 count
        then ([], c ∷ s)
        else if leb 3 potential_run
        then (c ∷ [], s)
        else (c ∷ more.0, more.1))
    else ([], c ∷ s)

pub rle_loop : ℕ → Bytes → Bytes
rle_loop fuel [] = []
rle_loop zero (c ∷ s) = []
rle_loop (suc fuel) (c ∷ s) =
    let run_length = suc (leading c 126 s) in
    let collected = literals 0 (c ∷ s) in
    let after_run = rle_loop fuel (drop (leading c 126 s) s) in
    let after_literals = rle_loop fuel collected.1 in
    if leb 3 run_length
    then run_length ∷ c ∷ after_run
    else 0 ∷ length collected.0 ∷ (collected.0 ++ after_literals)

-- rle::compress
pub rle_compress : Bytes → Bytes
rle_compress input = rle_loop (length input) input

pub replicate : ℕ → ℕ → Bytes
replicate zero c = []
replicate (suc n) c = c ∷ replicate n c

pub unrle_loop : ℕ → Bytes → Result Bytes
unrle_loop fuel [] = ok []
unrle_loop zero (m ∷ s) = ok []
unrle_loop (suc fuel) (m ∷ []) = err invreq
unrle_loop (suc fuel) (m ∷ v ∷ s) =
    let after_literals = unrle_loop fuel (drop v s) >>= λ rest. ok (take v s ++ rest) in
    let after_run = unrle_loop fuel s >>= λ rest. ok (replicate m v ++ rest) in
    if m == 0 then (if ltb (length s) v then err invreq else after_literals) else after_run

-- rle::decompress
pub rle_decompress : Bytes → Result Bytes
rle_decompress input = unrle_loop (length input) input

-- How many bytes two texts have in common from the front, at most n.
pub common : ℕ → Bytes → Bytes → ℕ
common zero s t = 0
common (suc n) [] t = 0
common (suc n) (c ∷ s) [] = 0
common (suc n) (c ∷ s) (d ∷ t) = let rest = common n s t in if c == d then suc rest else 0

-- The search of lz77::compress through `count` places from `search` on for the longest match with the
-- data at `pos`: its distance and its length, 0 if there is none of 3 bytes.
pub best_match : ℕ → ℕ → Bytes → ℕ → ℕ × ℕ → ℕ × ℕ
best_match zero search input pos best = best
best_match (suc count) search input pos best =
    let match_len = common 258 (drop search input) (drop pos input) in
    best_match count (suc search) input pos
      (if leb 3 match_len && ltb best.1 match_len then (pos - search, match_len) else best)

-- `pos - window_start` places, from `window_start` on.
pub find_match : Bytes → ℕ → ℕ × ℕ
find_match input pos =
    let window_start = (if ltb 4096 pos then pos - 4096 else 0) in
    best_match (pos - window_start) window_start input pos (0, 0)

pub lz77_loop : ℕ → Bytes → ℕ → Bytes
lz77_loop zero input pos = []
lz77_loop (suc fuel) input pos = elim (get_elem? input pos) [
  | none ↦ []
  | some c ↦
      let best = find_match input pos in
      let after_match = lz77_loop fuel input (pos + best.1) in
      let after_literal = lz77_loop fuel input (suc pos) in
      if leb 3 best.1
      then 255 ∷ best.0 / 256 % 256 ∷ best.0 % 256 ∷ (best.1 - 3) % 256 ∷ after_match
      else if c == 255
      then 255 ∷ 0 ∷ 0 ∷ c ∷ after_literal
      else c ∷ after_literal
]

-- lz77::compress
pub lz77_compress : Bytes → Bytes
lz77_compress input = lz77_loop (length input) input 0

-- A back-reference: n bytes of the result from `src` on, one after another behind its end.
pub copy : ℕ → ℕ → Bytes → Result Bytes
copy zero src result = ok result
copy (suc n) src result = elim (get_elem? result src) [
  | none ↦ undefined
  | some c ↦ copy n (suc src) (result ++ c ∷ [])
]

pub unlz77_loop : ℕ → Bytes → Bytes → Result Bytes
unlz77_loop fuel [] result = ok result
unlz77_loop zero (c ∷ s) result = ok result
unlz77_loop (suc fuel) (c ∷ s) result =
    let literal = unlz77_loop fuel s (result ++ c ∷ []) in
    if c == 255
    then elim s [
      | [] ↦ err invreq
      | h ∷ t ↦ elim t [
        | [] ↦ err invreq
        | l ∷ u ↦ elim u [
          | [] ↦ err invreq
          | n ∷ rest ↦
              let offset = h * 256 + l in
              if offset == 0
              then unlz77_loop fuel rest (result ++ n ∷ [])
              else if ltb (length result) offset
              then err invreq
              else (copy (n + 3) (length result - offset) result >>= λ longer.
                  unlz77_loop fuel rest longer)
        ]
      ]
    ]
    else literal

-- lz77::decompress
pub lz77_decompress : Bytes → Result Bytes
lz77_decompress input = unlz77_loop (length input) input []

-- compress: the first byte says the method.
pub compress : Bytes → Bytes
compress input =
    if ltb (length (rle_compress input)) (length input)
    then 1 ∷ rle_compress input
    else if ltb (length (lz77_compress input)) (length input)
    then 2 ∷ lz77_compress input
    else 0 ∷ input

pub decompress : Bytes → Result Bytes
decompress [] = ok []
decompress (method ∷ payload) =
    if method == 0
    then ok payload
    else if method == 1
    then rle_decompress payload
    else if method == 2
    then lz77_decompress payload
    else err invreq

pub data Method : Type 0 where
  auto raw rle lz77 : Method

pub record CompressionStats : Type 0 where
  pub original_size : ℕ
  pub compressed_size : ℕ

pub record Compressor : Type 0 where
  pub method : Method
  pub last_stats : CompressionStats

-- The bytes that a method gives.
pub encode : Method → Bytes → Bytes
encode auto input = compress input
encode raw input = 0 ∷ input
encode rle input = 1 ∷ rle_compress input
encode lz77 input = 2 ∷ lz77_compress input

-- Compressor::compress
pub compress_with : Compressor → Bytes → Bytes × Compressor
compress_with c input =
    let buf = encode c.method input in
    (
      buf,
      record c {
        last_stats = record { original_size = length input; compressed_size = length buf };
      },
    )

pub set_method : Method → Compressor → Compressor
set_method m c = record c { method = m }
