-- ===== src/Compression/Tests.antt =====
-- A text with a run and a text that repeats.
use ibm_cics_emulation.Base.{◌≡◌, refl, [], ◌∷◌, codes}
use ibm_cics_emulation.Result.{ok}
use ibm_cics_emulation.Compression.{
  Compressor, lz77, compress_with, decompress, rle_compress, rle_loop, leading, literals,
  lz77_compress, lz77_loop, find_match, best_match, common,
}
use ibm_cics_emulation.Compression.RoundTrip.{decompress-compress_with}

abbrev compressor : Compressor
compressor = record {
  method = lz77;
  last_stats = record { original_size = 0; compressed_size = 0 };
}

repeats : lz77_compress (codes "abcabcab") ≡ 97 ∷ 98 ∷ 99 ∷ 255 ∷ 0 ∷ 3 ∷ 2 ∷ []
unfolding lz77_compress lz77_loop find_match best_match common
repeats = refl

decompress-compress_with_example :
    decompress (compress_with compressor (codes "abcabcabc")).0 ≡ ok (codes "abcabcabc")
decompress-compress_with_example = decompress-compress_with compressor (codes "abcabcabc")

runs : rle_compress (codes "abcccccd") ≡ 0 ∷ 2 ∷ 97 ∷ 98 ∷ 5 ∷ 99 ∷ 0 ∷ 1 ∷ 100 ∷ []
unfolding rle_compress rle_loop leading literals
runs = refl
