-- ===== src/Vsam/Ksds/Order.antt =====
-- The searches of an ordered map that the browse operations use: records_.upper_bound.
use ibm_cics_emulation.Base.{
  true, false, none, some, List, [], ◌∷◌, if◌then◌else◌, Bytes, Dict, bytes_lt, bytes_lt_irrefl,
  bytes_lt_trans, Above, IsSorted, insert, erase, ◌≡◌, refl, arith,
}
use ibm_cics_emulation.Vsam.{VsamRecord}
use ibm_cics_emulation.Vsam.Ksds.{upper_bound}

-- Every record is stored under its own key.
abbrev pub Keyed : Dict VsamRecord → Type 0
Keyed [] = Unit
Keyed ((k, r) ∷ m) = (r.key ≡ k) × Keyed m

pub Keyed-insert :
    (k : Bytes) (r : VsamRecord) (m : Dict VsamRecord) → r.key ≡ k → Keyed m → Keyed (insert k r m)
unfolding insert
Keyed-insert k r [] e h = (e, tt)
Keyed-insert k r ((j, s) ∷ m) e h = ground (arith, Keyed-insert k r m e h.1)

pub Keyed-erase : (k : Bytes) (m : Dict VsamRecord) → Keyed m → Keyed (erase k m)
unfolding erase
Keyed-erase k [] h = tt
Keyed-erase k ((j, s) ∷ m) h = ground (arith, Keyed-erase k m h.1)

-- The records whose keys come after `k`, in the order of the file.
unfoldable pub records_after : Bytes → Dict VsamRecord → List VsamRecord
records_after k [] = []
records_after k ((j, r) ∷ m) =
    let rest = records_after k m in if bytes_lt k j then r ∷ rest else rest

records_after-Above :
    (k j : Bytes) (m : Dict VsamRecord)
    → Above k m
    → Above j m
    → records_after k m ≡ records_after j m
unfolding records_after
records_after-Above k j [] a b = refl
records_after-Above k j ((i, r) ∷ m) a b = ground (arith, records_after-Above k j m a.1 b.1)

upper_bound-Above :
    (k j : Bytes) (m : Dict VsamRecord) (r : VsamRecord)
    → Above j m
    → Keyed m
    → upper_bound k m ≡ some r
    → bytes_lt j r.key ≡ true
unfolding upper_bound
upper_bound-Above k j [] r a h e = cc
upper_bound-Above k j ((i, s) ∷ m) r a h e = ground (arith, upper_bound-Above k j m r a.1 h.1)

pub upper_bound-none :
    (k : Bytes) (m : Dict VsamRecord) → upper_bound k m ≡ none → records_after k m ≡ []
unfolding upper_bound records_after
upper_bound-none k [] e = refl
upper_bound-none k ((j, r) ∷ m) e = ground (arith, upper_bound-none k m)

bytes_lt_asym : (a b : Bytes) → bytes_lt a b ≡ true → bytes_lt b a ≡ false
bytes_lt_asym a b h = ground (arith, bytes_lt_trans a b a, bytes_lt_irrefl a)

pub upper_bound-some :
    (k : Bytes) (m : Dict VsamRecord) (r : VsamRecord)
    → IsSorted m
    → Keyed m
    → upper_bound k m ≡ some r
    → records_after k m ≡ r ∷ records_after r.key m
unfolding upper_bound records_after
upper_bound-some k [] r s h e = cc
upper_bound-some k ((j, t) ∷ m) r s h e = ground (
  arith,
  upper_bound-some k m r s.1 h.1,
  upper_bound-Above k j m r s.0 h.1,
  bytes_lt_asym j r.key,
  bytes_lt_irrefl j,
  Above-up k j m,
  records_after-Above k j m,
)
  where
    Above-up : (k j : Bytes) (m : Dict VsamRecord) → bytes_lt k j ≡ true → Above j m → Above k m
    Above-up k j [] h a = tt
    Above-up k j ((i, w) ∷ m) h a = (bytes_lt_trans k j i h a.0, Above-up k j m h a.1)

pub upper_bound_greater :
    (k : Bytes) (m : Dict VsamRecord) (r : VsamRecord)
    → Keyed m
    → upper_bound k m ≡ some r
    → bytes_lt k r.key ≡ true
unfolding upper_bound
upper_bound_greater k [] r h e = cc
upper_bound_greater k ((j, t) ∷ m) r h e = ground (arith, upper_bound_greater k m r h.1)
