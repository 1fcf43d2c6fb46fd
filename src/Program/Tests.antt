-- ===== src/Program/Tests.antt =====
-- A program that calls itself, and one that is not there.
use ibm_cics_emulation.Base.{[], ◌∷◌, codes, arith, pos, true, lookup}
use ibm_cics_emulation.Program.{
  ProgramDefinition, ProgramControlManager, new_manager, enabled, link, ends, links, xctls, returns,
}
use ibm_cics_emulation.Program.Nesting.{Restored, link_restores}
use ibm_cics_emulation.Program.Uses.{UsesFit}

abbrev menu : ProgramDefinition
menu = record {
  program_name = codes "MENU";
  status = enabled;
  has_entry_point = true;
  use_count = 0;
  load_count = 0;
  resident = true;
}

abbrev m : ProgramControlManager
m = record new_manager { programs = (codes "MENU", menu) ∷ [] }

fits : UsesFit m
unfolding lookup
fits key = ground arith

link_restores_example :
    Restored m
      (link m
        (codes "MENU")
        0
        (links (codes "MENU") 8 (returns (pos 4) ends) (xctls (codes "OTHER") ends ends))
        (pos 0)).0
link_restores_example =
    link_restores m (codes "MENU") 0
      (links (codes "MENU") 8 (returns (pos 4) ends) (xctls (codes "OTHER") ends ends)) (pos 0) fits
