-- ===== src/Gdg/Tests.antt =====
-- A base of three generations.
use ibm_cics_emulation.Base.{◌+◌, ◌<◌, ◌≡◌, refl, codes, arith}
use ibm_cics_emulation.Result.{ok}
use ibm_cics_emulation.Gdg.{
  GdgBase, fifo, GdgGeneration, new_manager, define_base, get_generation, generation_count,
  parse_generation_name, generate_generation_name,
}
use ibm_cics_emulation.Gdg.Names.{parse-generate_generation_name}
use ibm_cics_emulation.Gdg.Numbers.{creations, at_most, minus, get_generation-created}

parse-generate_generation_name_example :
    parse_generation_name (generate_generation_name (codes "PAY.DAILY") 42 7) ≡ ok (42, 7)
parse-generate_generation_name_example =
    parse-generate_generation_name (codes "PAY.DAILY") 42 7 (omega arith) (omega arith)

abbrev daily : GdgBase
daily = record { name = codes "PAY.DAILY"; limit = 3; model = fifo }

get_generation-created_example :
    (generation_count (creations 5 (define_base new_manager daily).0 daily.name) daily.name
      ≡ at_most 3 5)
    × (1 < at_most 3 5
        → (g : GdgGeneration) × (get_generation
              (creations 5 (define_base new_manager daily).0 daily.name)
              daily.name
              (minus 1)
            ≡ ok g)
          × (g.absolute_number + 1 ≡ 5))
get_generation-created_example =
    get_generation-created daily 5 1 refl (omega arith) (omega arith) (omega arith)
