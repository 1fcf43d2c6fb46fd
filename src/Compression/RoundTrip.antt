-- ===== src/Compression/RoundTrip.antt =====
-- The methods together: libs/compression/include/cics/compression/compression.hpp.
use ibm_cics_emulation.Base.{◌≡◌, refl, ltb, length, Bytes, Bool-cases, inl, inr}
use ibm_cics_emulation.Result.{ok}
use ibm_cics_emulation.Compression.{
  compress, decompress, rle_compress, lz77_compress, Method, auto, raw, rle, lz77, encode,
  Compressor, compress_with,
}
use ibm_cics_emulation.Compression.Rle.{rle_decompress-rle_compress}
use ibm_cics_emulation.Compression.Lz77.{lz77_decompress-lz77_compress}

decompress-compress : (s : Bytes) → decompress (compress s) ≡ ok s
unfolding compress decompress
decompress-compress s = elim (Bool-cases (ltb (length (rle_compress s)) (length s))) [
  | inl a ↦ rw (compress, a) (rle_decompress-rle_compress s)
  | inr a ↦ elim (Bool-cases (ltb (length (lz77_compress s)) (length s))) [
    | inl b ↦ rw (compress, a, b) (lz77_decompress-lz77_compress s)
    | inr b ↦ rw (compress, a, b) refl
  ]
]

-- Whatever the method of a compressor, decompressing what it makes of any data gives the data back.
pub decompress-compress_with :
    (c : Compressor) (s : Bytes) → decompress (compress_with c s).0 ≡ ok s
unfolding compress_with encode decompress
decompress-compress_with c s = go c.method
  where
    go : (m : Method) → decompress (encode m s) ≡ ok s
    go auto = decompress-compress s
    go raw = refl
    go rle = rle_decompress-rle_compress s
    go lz77 = lz77_decompress-lz77_compress s
