-- ===== src/Counter/Manager/Tests.antt =====
-- Runs of the manager on concrete commands.
use ibm_cics_emulation.Base.{List, [], ◌∷◌, codes, pos}
use ibm_cics_emulation.Counter.{default_options}
use ibm_cics_emulation.Counter.Manager.{default_name}
use ibm_cics_emulation.Counter.Manager.History.{Command, gets, defines, delete_pools}

abbrev commands : List Command
commands =
    defines (codes "ORDER") (pos 7) default_options
    ∷ gets (codes "ORDER")
    ∷ delete_pools default_name
    ∷ []
