-- ===== src/Tdq/Fifo.antt =====
-- What an intrapartition queue with disposition DELETE promises: texts come out in the order in which
-- they went in.
use ibm_cics_emulation.Base.{
  ℕ, suc, Bool, ◌&&◌, not, List, [], ◌∷◌, ◌++◌, if◌then◌else◌, ltb, leb, length, Bytes, ◌≡◌, refl,
  arith, ap, ap₂, ◌∙◌,
}
use ibm_cics_emulation.Result.{
  Result, ok, err, undefined, ErrorCode, invalid_state, invalid_argument, resource_exhausted,
  vsam_end_of_file, ⊤, add64,
}
use ibm_cics_emulation.Tdq.{
  TdqRecord, IntrapartitionQueue, delete, write, read, set_enabled, max_record_length,
  check_trigger, after_read, add_record,
}

pub data Call : Type 0 where
  writes : Bytes → Call
  reads : Call
  enables : Bool → Call

pub data Answer : Type 0 where
  text : Bytes → Answer
  done : Answer
  failed : ErrorCode → Answer
  no_answer : Answer

answer : Result ⊤ → Answer
answer (ok t) = done
answer (err e) = failed e
answer undefined = no_answer

answer_text : Result TdqRecord → Answer
answer_text (ok r) = text r.bytes
answer_text (err e) = failed e
answer_text undefined = no_answer

pub record Fifo : Type 0 where
  pub enabled : Bool
  pub texts : List Bytes

abbrev pub texts_of : List TdqRecord → List Bytes
texts_of [] = []
texts_of (r ∷ rs) = r.bytes ∷ texts_of rs

-- The queue of texts; `limit` is 0 where there is none.
pub spec_step : ℕ → Fifo → Call → Fifo × Answer
spec_step limit f (writes b) =
    if not f.enabled
    then (f, failed invalid_state)
    else if ltb max_record_length (length b)
    then (f, failed invalid_argument)
    else if ltb 0 limit && leb limit (length f.texts)
    then (f, failed resource_exhausted)
    else (record f { texts = f.texts ++ b ∷ [] }, done)
spec_step limit f reads = if not f.enabled then (f, failed invalid_state) else elim f.texts [
  | [] ↦ (f, failed vsam_end_of_file)
  | t ∷ ts ↦ (record f { texts = ts }, text t)
]
spec_step limit f (enables on) = (record f { enabled = on }, done)

pub spec_all : ℕ → Fifo → List Call → List Answer
unfolding spec_step
spec_all limit f [] = []
spec_all limit f (c ∷ cs) = let (f', a) = spec_step limit f c in a ∷ spec_all limit f' cs

length-texts_of : (rs : List TdqRecord) → length (texts_of rs) ≡ length rs
length-texts_of [] = refl
length-texts_of (r ∷ rs) = ap suc (length-texts_of rs)

texts_of-append :
    (rs : List TdqRecord) (r : TdqRecord) → texts_of (rs ++ r ∷ []) ≡ texts_of rs ++ r.bytes ∷ []
texts_of-append [] r = refl
texts_of-append (q ∷ rs) r = ap (λ ts. q.bytes ∷ ts) (texts_of-append rs r)

module _ {W : Type 0} where
  unfoldable pub step : IntrapartitionQueue W → W → Call → IntrapartitionQueue W × W × Answer
  unfolding answer answer_text
  step q w (writes b) = let (q', w', r) = write q w b in (q', w', answer r)
  step q w reads = let (q', r) = read q in (q', w, answer_text r)
  step q w (enables on) = (set_enabled q on, w, done)

  pub answers : IntrapartitionQueue W → W → List Call → List Answer
  answers q w [] = []
  answers q w (c ∷ cs) = let (q', w', a) = step q w c in a ∷ answers q' w' cs

  unfoldable pub view : IntrapartitionQueue W → Fifo
  view q = record { enabled = q.enabled; texts = texts_of q.records }

  check_trigger_keeps :
      (q : IntrapartitionQueue W) (w : W)
      → ((check_trigger q w).0.records ≡ q.records)
        × ((check_trigger q w).0.enabled ≡ q.enabled)
        × ((check_trigger q w).0.definition ≡ q.definition)
  unfolding check_trigger
  check_trigger_keeps q w = ground arith

  step_refines_here :
      (q : IntrapartitionQueue W) (w : W) (c : Call)
      → q.definition.disposition ≡ delete
      → ((step q w c).0.enabled ≡ (spec_step q.definition.max_records (view q) c).0.enabled)
        × (texts_of (step q w c).0.records
            ≡ (spec_step q.definition.max_records (view q) c).0.texts)
        × ((step q w c).2 ≡ (spec_step q.definition.max_records (view q) c).1)
        × ((step q w c).0.definition ≡ q.definition)
  unfolding step spec_step view write add_record read set_enabled after_read answer answer_text
  step_refines_here q w (writes b) d =
      let new : TdqRecord = record { bytes = b; sequence_number = add64 q.sequence_counter 1 } in
      ground (
        arith,
        check_trigger_keeps (add_record q b) w,
        length-texts_of q.records,
        texts_of-append q.records new,
      )
  step_refines_here q w reads d = ground arith
  step_refines_here q w (enables on) d = ground arith

  -- A call on a queue with disposition DELETE, whether it succeeds or fails, gives the answer of the
  -- queue of texts, first in first out, and leaves the texts that this has after it.
  pub step_refines_fifo :
      (q : IntrapartitionQueue W) (w : W) (c : Call)
      → q.definition.disposition ≡ delete
      → let (q', w', a) = step q w c in (view q', a) ≡ spec_step q.definition.max_records (view q) c
  unfolding view
  step_refines_fifo q w c d =
      let (on, texts, a, same) = step_refines_here q w c d in
      λ i. (record { enabled = on i; texts = texts i }, a i)

  -- A sequence of calls on a queue with disposition DELETE, in any order and from any state, gives the
  -- answers of the queue of texts, first in first out, whatever the trigger does to the world.
  pub answers_refine :
      (q : IntrapartitionQueue W) (w : W) (cs : List Call)
      → q.definition.disposition ≡ delete
      → answers q w cs ≡ spec_all q.definition.max_records (view q) cs
  unfolding answers spec_all
  answers_refine q w [] d = refl
  answers_refine q w (c ∷ cs) d =
      let (q', w', a) = step q w c in
      let (on, texts, same_answer, same) = step_refines_here q w c d in
      let later = answers_refine q' w' cs (ap (λ d. d.disposition) same ∙ d) in
      let state = ap (λ p. p.0) (step_refines_fifo q w c d) in
      ap₂ (λ x xs. x ∷ xs) same_answer
        (later
          ∙ ap (λ d. spec_all d.max_records (view q') cs) same
          ∙ ap (λ f. spec_all q.definition.max_records f cs) state)
