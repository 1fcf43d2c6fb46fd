-- ===== src/Tsq/Tests.antt =====
-- Runs of a queue on concrete calls.
use ibm_cics_emulation.Base.{◌<◌, ◌≡◌, refl, true, false, List, [], ◌∷◌, arith, length, codes}
use ibm_cics_emulation.Result.{ok, vsam_end_of_file}
use ibm_cics_emulation.Tsq.{TsqDefinition, TemporaryStorageQueue, auxiliary, create, write}
use ibm_cics_emulation.Tsq.Items.{contents}
use ibm_cics_emulation.Tsq.Valid.{IsValid}
use ibm_cics_emulation.Tsq.Spec.{Call, writes, deletes, reads, step, run, view, spec_step}
use ibm_cics_emulation.Tsq.Refines.{step_refines, run-create-IsValid}
use ibm_cics_emulation.Tsq.Browse.{read_on, read_on-contents}

abbrev orders : TsqDefinition
orders = record {
  queue_name = codes "ORDERS";
  location = auxiliary;
  max_items = 100;
  max_item_length = 80;
  recoverable = false;
  shared = true;
  security_key = [];
  owning_transaction = [];
}

abbrev history : List Call
history = writes (codes "one") ∷ writes (codes "two") ∷ writes (codes "three") ∷ deletes 2 ∷ []

abbrev two_left : TemporaryStorageQueue
two_left = run (create orders) history

run-create-IsValid_example : IsValid two_left
run-create-IsValid_example = run-create-IsValid orders history (omega arith)

step_refines_example :
    let (q', r) = step two_left (reads 2) in
    (view q', r)
    ≡ spec_step two_left.definition.max_item_length two_left.definition.max_items
        (view two_left)
        (reads 2)
step_refines_example = step_refines two_left (reads 2) run-create-IsValid_example

abbrev two_written : TemporaryStorageQueue
two_written = run (create orders) (writes (codes "one") ∷ writes (codes "two") ∷ [])

two_written-live : two_written.deleted ≡ false
unfolding create write run step
two_written-live = refl

two_written-few : length two_written.items < 3
unfolding create write run step
two_written-few = omega arith

read_on-contents_example :
    read_on 3 two_written 0 ≡ (contents two_written.items, ok vsam_end_of_file)
read_on-contents_example =
    read_on-contents two_written 3
      (run-create-IsValid orders (writes (codes "one") ∷ writes (codes "two") ∷ []) (omega arith))
      two_written-live two_written-few
