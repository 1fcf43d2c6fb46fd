-- ===== src/Catalog/Tests.antt =====
-- A dataset that is defined, renamed and deleted.
use ibm_cics_emulation.Base.{true, [], ◌∷◌, List, codes}
use ibm_cics_emulation.Catalog.{CatalogEntry, cluster, vsam_ksds, new_catalog}
use ibm_cics_emulation.Catalog.Balance.{
  IsBalanced, Call, defines, gets, deletes, renames, run, run-new_catalog-IsBalanced,
}

abbrev orders : CatalogEntry
orders = record {
  name = codes "PROD.ORDERS";
  type = cluster;
  organization = vsam_ksds;
  volume = codes "VOL001";
  size_bytes = 4096;
  owner = codes "OPS";
  cataloged = true;
  attributes = [];
}

abbrev calls : List Call
calls =
    defines orders
    ∷ (renames (codes "PROD.ORDERS") (codes "PROD.OLD")
        ∷ (gets (codes "PROD.OLD") ∷ (deletes (codes "PROD.OLD") ∷ (defines orders ∷ []))))

run-new_catalog-IsBalanced_example : IsBalanced (run calls (new_catalog (codes "MASTER.CATALOG")))
run-new_catalog-IsBalanced_example = run-new_catalog-IsBalanced (codes "MASTER.CATALOG") calls
