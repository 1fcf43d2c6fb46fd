-- ===== src/Tdq/Valid.antt =====
-- The sequence numbers and statistics of an intrapartition queue with disposition DELETE.
use ibm_cics_emulation.Base.{
  ℕ, ltb, if◌then◌else◌, ◌+◌, ◌%◌, ◌<◌, ◌≤◌, true, List, [], ◌∷◌, ◌++◌, length, Bytes, ◌≡◌, arith,
  length-append,
}
use ibm_cics_emulation.Result.{ok, u64, add64, sub64}
use ibm_cics_emulation.Tdq.{
  TdqRecord, TdqDefinition, IntrapartitionQueue, delete, reread, new_queue, write, read,
  set_enabled, add_record, check_trigger, record_write, record_read, record_trigger,
  update_peak_depth, after_read,
}
use ibm_cics_emulation.Tdq.Fifo.{Call, writes, reads, enables, step}

-- The numbers of the records follow `a` one by one, and the last is `b`.
abbrev pub Sequenced : ℕ → List TdqRecord → ℕ → Type 0
Sequenced a [] b = a ≡ b
Sequenced a (r ∷ rs) b = (r.sequence_number ≡ add64 a 1) × Sequenced r.sequence_number rs b

abbrev pub sum_lengths : List TdqRecord → ℕ
sum_lengths [] = 0
sum_lengths (r ∷ rs) = length r.bytes + sum_lengths rs

Sequenced-append :
    (a b : ℕ) (rs : List TdqRecord) (bytes : Bytes)
    → Sequenced a rs b
    → Sequenced a (rs ++ record { bytes = bytes; sequence_number = add64 b 1 } ∷ []) (add64 b 1)
Sequenced-append a b [] bytes h = ground arith
Sequenced-append a b (r ∷ rs) bytes h = (h.0, Sequenced-append r.sequence_number b rs bytes h.1)

sum_lengths-append :
    (rs : List TdqRecord) (r : TdqRecord)
    → sum_lengths (rs ++ r ∷ []) ≡ sum_lengths rs + length r.bytes
sum_lengths-append [] r = omega arith
sum_lengths-append (q ∷ rs) r = omega (arith, sum_lengths-append rs r)

pub record IsValid {W : Type 0} (q : IntrapartitionQueue W) : Type 0 where
  pub deletes : q.definition.disposition ≡ delete
  pub sequenced : Sequenced q.statistics.total_records_read q.records q.sequence_counter
  pub written : q.statistics.total_records_written ≡ q.sequence_counter
  pub deep : q.statistics.current_depth ≡ length q.records % u64
  pub measured :
      q.statistics.total_bytes_written
      ≡ (q.statistics.total_bytes_read + sum_lengths q.records) % u64
  pub peaked : length q.records ≤ q.statistics.peak_depth
  pub bounded : 0 < q.definition.max_records → length q.records ≤ q.definition.max_records

abbrev larger : (a b : ℕ) → ℕ
larger a b = if ltb a b then b else a

module _ {W : Type 0} where
  check_trigger-IsValid :
      (q : IntrapartitionQueue W) (w : W) → IsValid q → IsValid (check_trigger q w).0
  unfolding check_trigger record_trigger
  check_trigger-IsValid q w v = ground arith

  add_record-IsValid :
      (q : IntrapartitionQueue W) (b : Bytes)
      → IsValid q
      → (0 < q.definition.max_records → length q.records < q.definition.max_records)
      → IsValid (add_record q b)
  unfolding add_record record_write update_peak_depth
  add_record-IsValid q b v room =
      let new : TdqRecord = record { bytes = b; sequence_number = add64 q.sequence_counter 1 } in
      ground (
        arith,
        room,
        Sequenced-append q.statistics.total_records_read q.sequence_counter q.records b v.sequenced,
        sum_lengths-append q.records new,
        length-append q.records (new ∷ []),
      )

  write-IsValid :
      (q : IntrapartitionQueue W) (w : W) (b : Bytes) → IsValid q → IsValid (write q w b).0
  unfolding write
  write-IsValid q w b v =
      ground (arith, add_record-IsValid q b v, check_trigger-IsValid (add_record q b) w)

  read-IsValid : (q : IntrapartitionQueue W) → IsValid q → IsValid (read q).0
  unfolding read record_read after_read
  read-IsValid q v = ground arith

  step-IsValid : (q : IntrapartitionQueue W) (w : W) (c : Call) → IsValid q → IsValid (step q w c).0
  unfolding step set_enabled
  step-IsValid q w (writes b) v = write-IsValid q w b v
  step-IsValid q w reads v = read-IsValid q v
  step-IsValid q w (enables on) v = ground arith

  unfoldable pub run : IntrapartitionQueue W → W → List Call → IntrapartitionQueue W × W
  run q w [] = (q, w)
  run q w (c ∷ cs) = let (q', w', _) = step q w c in run q' w' cs

  run-IsValid :
      (q : IntrapartitionQueue W) (w : W) (cs : List Call) → IsValid q → IsValid (run q w cs).0
  unfolding run
  run-IsValid q w [] v = v
  run-IsValid q w (c ∷ cs) v =
      let (q', w', _) = step q w c in run-IsValid q' w' cs (step-IsValid q w c v)

  -- The most records that the queue holds before, between and after the calls.
  pub deepest : IntrapartitionQueue W → W → List Call → ℕ
  deepest q w [] = length q.records
  deepest q w (c ∷ cs) =
      let (q', w', _) = step q w c in larger (length q.records) (deepest q' w' cs)

  deepest_first :
      (q : IntrapartitionQueue W) (w : W) (cs : List Call) → length q.records ≤ deepest q w cs
  unfolding deepest
  deepest_first q w [] = omega arith
  deepest_first q w (c ∷ cs) = ground arith

  trigger_peak :
      (q : IntrapartitionQueue W) (w : W)
      → ((check_trigger q w).0.statistics.peak_depth ≡ q.statistics.peak_depth)
        × ((check_trigger q w).0.records ≡ q.records)
  unfolding check_trigger record_trigger
  trigger_peak q w = (ground arith, ground arith)

  add_peak :
      (q : IntrapartitionQueue W) (b : Bytes)
      → (add_record q b).statistics.peak_depth
        ≡ larger q.statistics.peak_depth (length (add_record q b).records)
  unfolding add_record record_write update_peak_depth
  add_peak q b = ground arith

  step_peak :
      (q : IntrapartitionQueue W) (w : W) (c : Call)
      → length q.records ≤ q.statistics.peak_depth
      → (step q w c).0.statistics.peak_depth
        ≡ larger q.statistics.peak_depth (length (step q w c).0.records)
  unfolding step set_enabled write read record_read after_read
  step_peak q w (writes b) h = ground (arith, h, add_peak q b, trigger_peak (add_record q b) w)
  step_peak q w reads h = ground (arith, h)
  step_peak q w (enables on) h = ground (arith, h)

  run_peak :
      (q : IntrapartitionQueue W) (w : W) (cs : List Call)
      → IsValid q
      → (run q w cs).0.statistics.peak_depth ≡ larger q.statistics.peak_depth (deepest q w cs)
  unfolding run deepest
  run_peak q w [] v = ground (arith, v.peaked)
  run_peak q w (c ∷ cs) v =
      let (q', w', _) = step q w c in
      ground (
        arith,
        v.peaked,
        step_peak q w c v.peaked,
        deepest_first q' w' cs,
        run_peak q' w' cs (step-IsValid q w c v),
      )

  -- After any calls on a new queue with disposition DELETE: the records bear consecutive sequence
  -- numbers from the count of the records read to the sequence counter, which is the count of the
  -- records written; the depth and the bytes of the statistics are those of the records, modulo 2 ^ 64;
  -- the peak is the most records there ever were; and a limit on the records is kept.
  pub run-new_queue-IsValid :
      (d : TdqDefinition W) (w : W) (cs : List Call)
      → d.disposition ≡ delete
      → IsValid (run (new_queue d) w cs).0
        × ((run (new_queue d) w cs).0.statistics.peak_depth ≡ deepest (new_queue d) w cs)
  unfolding new_queue
  run-new_queue-IsValid d w cs h =
      let v : IsValid (new_queue d) = ground (arith, h) in
      (run-IsValid (new_queue d) w cs v, ground (arith, run_peak (new_queue d) w cs v))

  -- Reading an enabled queue with disposition REREAD gives its front record, and leaves in its place one
  -- without data, which every later read gives; and each read counts the depth of the statistics down,
  -- with no record gone.
  pub read_again :
      (q : IntrapartitionQueue W) (r : TdqRecord) (rs : List TdqRecord)
      → q.definition.disposition ≡ reread
      → q.enabled ≡ true
      → q.records ≡ r ∷ rs
      → let (q', first) = read q in
        let (q'', second) = read q' in
        (first ≡ ok r)
        × (second ≡ ok (record r { bytes = [] }))
        × (length q''.records ≡ length q.records)
        × (q''.statistics.current_depth ≡ sub64 (sub64 q.statistics.current_depth 1) 1)
  unfolding read record_read after_read
  read_again q r rs d on e = ground arith
