-- ===== src/Channel/Manager/Spec/Tests.antt =====
-- Runs of one thread.
use ibm_cics_emulation.Base.{◌≡◌, refl, some, [], ◌∷◌, ◌++◌, codes, arith, List}
use ibm_cics_emulation.Result.{ok, undefined}
use ibm_cics_emulation.Channel.{Container, char, normal, fill, replace}
use ibm_cics_emulation.Channel.Laws.{replace_lem}
use ibm_cics_emulation.Channel.Manager.{new_manager}
use ibm_cics_emulation.Channel.Manager.Spec.{
  Command, initializes, puts, puts_current, gets, moves, removes, serve_all, spec_all, abstraction,
}
use ibm_cics_emulation.Channel.Manager.Spec.Refines.{channels_refine}

abbrev script : List Command
script =
    initializes
    ∷ (puts (codes "IN") (codes "ORDERS") (codes "abc")
        ∷ (puts_current (codes "OUT") (codes "x")
            ∷ (moves (codes "IN") (codes "ORDERS") (codes "REPLIES")
                ∷ (gets (codes "IN") (codes "REPLIES")
                    ∷ (gets (codes "IN") (codes "ORDERS")
                        ∷ (removes (codes "IN") (codes "REPLIES") ∷ []))))))

channels_refine_example :
    ((serve_all script new_manager).0, abstraction (serve_all script new_manager).1)
    ≡ spec_all script (abstraction new_manager)
channels_refine_example = channels_refine script new_manager

abbrev abcdef : Container
abcdef = record {
  name = codes "IN";
  content = codes "abcdef";
  data_type = char;
  container_type = normal;
}

replace_lem_example :
    replace 2 (some (codes "XY")) 2 abcdef
    ≡ ok (record abcdef { content = codes "ab" ++ (codes "XY" ++ codes "ef") })
replace_lem_example = replace_lem 2 (codes "XY") 2 abcdef (omega arith) (omega arith)

-- A sum of offset and length that wraps passes the test, and the copy leaves the container.
replace_wraps : replace 4294967295 (some (codes "XY")) 2 abcdef ≡ undefined
unfolding replace fill
replace_wraps = refl
