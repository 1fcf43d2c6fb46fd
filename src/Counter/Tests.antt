-- ===== src/Counter/Tests.antt =====
-- Runs of a counter at concrete values.
use ibm_cics_emulation.Base.{Bool, false, codes, ℤ, pos}
use ibm_cics_emulation.Counter.{NamedCounter, new_counter}

-- A counter over 1 … 10.
abbrev ten : ℤ → (wrap : Bool) → NamedCounter
ten v wrap = new_counter (codes "TEN") v (record {
  minimum = pos 1;
  maximum = pos 10;
  increment = pos 1;
  wrap = wrap;
  recoverable = false;
})
