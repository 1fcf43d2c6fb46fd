-- ===== src/Ebcdic/Tests.antt =====
-- Conversions of concrete fields.
use ibm_cics_emulation.Base.{◌+◌, ◌/◌, ◌≡◌, arith, length, negsuc, Bytes, true}
use ibm_cics_emulation.Result.{ok}
use ibm_cics_emulation.Ebcdic.Packed.{int64_to_digits, packed_to_int64, is_valid_packed}
use ibm_cics_emulation.Ebcdic.Packed.RoundTrip.{packed_round_trip}
use ibm_cics_emulation.Ebcdic.Zoned.{int64_to_zoned, zoned_to_int64}
use ibm_cics_emulation.Ebcdic.Zoned.RoundTrip.{zoned_round_trip}

packed_round_trip_example :
    (buf : Bytes) × (int64_to_digits (negsuc 12344) 5 ≡ ok buf)
    × (packed_to_int64 buf ≡ ok (negsuc 12344))
    × (is_valid_packed buf ≡ true)
    × (length buf ≡ (5 + 2) / 2)
packed_round_trip_example = packed_round_trip (negsuc 12344) 5 (omega arith) (omega arith)

zoned_round_trip_example :
    (buf : Bytes) × (int64_to_zoned (negsuc 12344) 7 ≡ ok buf)
    × (zoned_to_int64 buf ≡ ok (negsuc 12344))
    × (length buf ≡ 7)
zoned_round_trip_example = zoned_round_trip (negsuc 12344) 7 (omega arith) (omega arith)
