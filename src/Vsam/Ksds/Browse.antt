-- ===== src/Vsam/Ksds/Browse.antt =====
-- A caller that browses a key-sequenced file forward by read_next.
use ibm_cics_emulation.Base.{
  ℕ, zero, suc, ◌<◌, Bool, false, none, some, List, [], ◌∷◌, inl, inr, if◌then◌else◌, length, Bytes,
  lookup, lookup-insert_self, ◌≡◌, refl, arith, Option-cases,
}
use ibm_cics_emulation.Result.{Result, ok, err, undefined, ErrorCode, vsam_end_of_file}
use ibm_cics_emulation.Vsam.{VsamRecord, BrowseContext, set_current, new_context}
use ibm_cics_emulation.Vsam.Ksds.{
  KsdsFile, read_next, start_browse, upper_bound, lower_bound, advance,
}
use ibm_cics_emulation.Vsam.Ksds.Order.{records_after, upper_bound-none, upper_bound-some}
use ibm_cics_emulation.Vsam.Ksds.Valid.{IsValid}

-- Reads until a call fails, on fuel; the records read and the way the reading ended.
pub browse_on : ℕ → KsdsFile → Bytes → List VsamRecord × Result ErrorCode
browse_on zero f id = ([], undefined)
browse_on (suc fuel) f id =
    let (f', r) = read_next f id in
    let (records, end) = browse_on fuel f' id in
    elim r [ ok x ↦ (x ∷ records, end) | err e ↦ ([], ok e) | undefined ↦ ([], undefined) ]

-- One call where a record follows, and one where none does.
read_next_step :
    (f : KsdsFile) (id : Bytes) (c : BrowseContext) (r : VsamRecord)
    → lookup id f.browse_contexts ≡ some c
    → c.at_end ≡ false
    → upper_bound c.current_key f.records ≡ some r
    → ((read_next f id).1 ≡ ok r)
      × ((read_next f id).0.records ≡ f.records)
      × ((read_next f id).0.stats.record_count ≡ f.stats.record_count)
      × (lookup id (read_next f id).0.browse_contexts ≡ some (advance c r))
unfolding read_next
read_next_step f id c r e more_left u =
    ground (arith, lookup-insert_self id (advance c r) f.browse_contexts)

read_next_end :
    (f : KsdsFile) (id : Bytes) (c : BrowseContext)
    → lookup id f.browse_contexts ≡ some c
    → upper_bound c.current_key f.records ≡ none
    → (read_next f id).1 ≡ err vsam_end_of_file
unfolding read_next
read_next_end f id c e u = ground arith

after_open :
    (f : KsdsFile) (id : Bytes) (c : BrowseContext) (r : VsamRecord)
    → IsValid f
    → lookup id f.browse_contexts ≡ some c
    → c.at_end ≡ false
    → upper_bound c.current_key f.records ≡ some r
    → IsValid (read_next f id).0
after_open f id c r v e more_left u =
    let (got, same, count, there) = read_next_step f id c r e more_left u in
    record {
      ordered = rw same v.ordered;
      keyed = rw same v.keyed;
      counted = rw (same, count) v.counted;
    }

-- Browsing a valid file by read_next, from a context that is there and not at its end, gives all the records
-- whose keys come after the current key, in ascending order of keys and none twice, and then ends by
-- end of file; as much fuel as there are such records, and one more, is enough.
pub browse_on-records_after :
    (fuel : ℕ) (f : KsdsFile) (id : Bytes) (c : BrowseContext)
    → IsValid f
    → lookup id f.browse_contexts ≡ some c
    → c.at_end ≡ false
    → length (records_after c.current_key f.records) < fuel
    → browse_on fuel f id ≡ (records_after c.current_key f.records, ok vsam_end_of_file)
unfolding browse_on set_current new_context
browse_on-records_after zero f id c v e more_left h = elim h [ ]
browse_on-records_after (suc fuel) f id c v e more_left h =
    elim (Option-cases (upper_bound c.current_key f.records)) [
      | inl u ↦ ground (arith, read_next_end f id c e u, upper_bound-none c.current_key f.records u)
      | inr (r, u) ↦
          let (got, same, count, there) = read_next_step f id c r e more_left u in
          let more = upper_bound-some c.current_key f.records r v.ordered v.keyed u in
          let ih =
            browse_on-records_after fuel (read_next f id).0 id (advance c r)
              (after_open f id c r v e more_left u) there more_left
              (ground (arith, same, more, h)) in
          ground (arith, ih, got, same, more)
    ]

-- A browse that start_browse positions on a record r, at the key itself or at the first key not before
-- it, reads by read_next all the records with keys greater than that of r, in ascending order, and then
-- ends by end of file: r itself is not read. The file is valid, and the fuel exceeds the count.
pub start_browse_skips :
    (fuel : ℕ) (f : KsdsFile) (id key : Bytes) (gteq backward : Bool) (r : VsamRecord)
    → IsValid f
    → (if gteq then lower_bound key f.records else lookup key f.records) ≡ some r
    → length (records_after r.key f.records) < fuel
    → browse_on fuel (start_browse f id key gteq backward).0 id
      ≡ (records_after r.key f.records, ok vsam_end_of_file)
unfolding start_browse set_current new_context
start_browse_skips fuel f id key gteq backward r v e h =
    let fresh : BrowseContext = record (new_context id) {
      mode = f.proc_mode;
      backward = backward;
    } in
    let c = set_current fresh r.key r.address in
    let f' = (start_browse f id key gteq backward).0 in
    let there : lookup id f'.browse_contexts ≡ some c =
      ground (arith, lookup-insert_self id c f.browse_contexts, e) in
    browse_on-records_after fuel f' id c
      (record { ordered = v.ordered; keyed = v.keyed; counted = v.counted }) there refl h
