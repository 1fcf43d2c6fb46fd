-- ===== src/Tdq/Trigger.antt =====
-- Automatic transaction initiation: the trigger of an intrapartition queue.
use ibm_cics_emulation.Base.{
  ◌+◌, ◌&&◌, some, [], ◌∷◌, if◌then◌else◌, leb, length, Bytes, ◌≡◌, arith, length-append,
}
use ibm_cics_emulation.Result.{is_ok, add64}
use ibm_cics_emulation.Text.{trimmed}
use ibm_cics_emulation.Tdq.{
  TdqRecord, TriggerDefinition, IntrapartitionQueue, write, add_record, check_trigger,
  start_transaction, record_trigger, record_write, update_peak_depth,
}

module _ {W : Type 0} where
  -- A write on a queue with a trigger and a callback starts the transaction of the trigger, once and
  -- with the name of the queue, exactly if the write succeeds, the trigger is enabled and the records
  -- with the new one reach the level; it then counts one trigger, and else none, and leaves the world
  -- alone.
  pub write_triggers :
      (q : IntrapartitionQueue W) (w : W) (b : Bytes) (t : TriggerDefinition W)
      (callback : Bytes → Bytes → W → W)
      → q.definition.trigger ≡ some t
      → t.callback ≡ some callback
      → let (q', w', result) = write q w b in
        let fires = is_ok result && t.enabled && leb t.trigger_level (length q.records + 1) in
        (w' ≡ (if fires then callback t.transaction_id (trimmed q.definition.dest_id) w else w))
        × (q'.statistics.trigger_count
            ≡ (if fires then add64 q.statistics.trigger_count 1 else q.statistics.trigger_count))
  unfolding write add_record check_trigger start_transaction record_trigger record_write
      update_peak_depth
  write_triggers q w b t callback e c =
      let new : TdqRecord = record { bytes = b; sequence_number = add64 q.sequence_counter 1 } in
      ground (arith, e, c, length-append q.records (new ∷ []))
