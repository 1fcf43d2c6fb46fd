-- ===== src/Tdq/Manager/Laws.antt =====
-- What a program meets at the manager: queues by name, also by indirect names.
use ibm_cics_emulation.Base.{
  ℕ, zero, suc, some, if◌then◌else◌, Bytes, bytes_eq, Dict, lookup, lookup-insert,
  lookup-insert_self, to_upper, ◌≡◌, refl, arith,
}
use ibm_cics_emulation.Result.{ok, undefined}
use ibm_cics_emulation.Tdq.{IntrapartitionQueue, write, read}
use ibm_cics_emulation.Tdq.Manager.{
  FileQueues, TdqManager, resolve, resolve_destination, writeq, readq, write_resolved,
  read_resolved, define_indirect,
}
use ibm_cics_emulation.Tdq.Manager.Resolve.{resolve-to_upper}

module _ {W X : Type 0} (files : FileQueues W X) where
  -- A write to a destination that resolves to an intrapartition queue is the write of that queue, with
  -- its result and its effect on the world, and leaves all other queues, files and indirect
  -- destinations alone.
  pub writeq_reaches :
      (m : TdqManager W X) (w : W) (dest name other bytes : Bytes) (q : IntrapartitionQueue W)
      → resolve_destination m.indirect_map dest ≡ ok name
      → lookup name m.intra_queues ≡ some q
      → let (m', w', result) = writeq files m w dest bytes in
        (w' ≡ (write q w bytes).1)
        × (result ≡ (write q w bytes).2)
        × (lookup other m'.intra_queues ≡ (
            if bytes_eq name other then some (write q w bytes).0 else lookup other m.intra_queues))
        × (m'.extra_queues ≡ m.extra_queues)
        × (m'.indirect_map ≡ m.indirect_map)
  unfolding writeq write_resolved
  writeq_reaches m w dest name other bytes q r e =
      ground (arith, r, e, lookup-insert name other (write q w bytes).0 m.intra_queues)

  -- A read from a destination that resolves to an intrapartition queue is the read of that queue, and
  -- leaves all other queues and the world alone.
  pub readq_reaches :
      (m : TdqManager W X) (w : W) (dest name other : Bytes) (q : IntrapartitionQueue W)
      → resolve_destination m.indirect_map dest ≡ ok name
      → lookup name m.intra_queues ≡ some q
      → let (m', w', result) = readq files m w dest in
        (result ≡ (read q).1)
        × (w' ≡ w)
        × (lookup other m'.intra_queues
            ≡ (if bytes_eq name other then some (read q).0 else lookup other m.intra_queues))
  unfolding readq read_resolved
  readq_reaches m w dest name other q r e =
      ground (arith, r, e, lookup-insert name other (read q).0 m.intra_queues)

loop :
    (n : ℕ) (m : Dict Bytes) (d : Bytes)
    → lookup (to_upper d) m ≡ some (to_upper d)
    → resolve n m d ≡ undefined
unfolding resolve
loop zero m d e = refl
loop (suc n) m d e = ground (arith, e, loop n m d e, resolve-to_upper n m d)

module _ {W X : Type 0} where
  -- An indirect destination may be defined with itself as its target, where no queue has its name; from
  -- then on its resolution comes to no end, on any fuel, in any writing of the name.
  pub define_indirect_loops :
      (m : TdqManager W X) (dest : Bytes) (n : ℕ)
      → (define_indirect m dest dest).1 ≡ ok tt
      → resolve n (define_indirect m dest dest).0.indirect_map dest ≡ undefined
  unfolding define_indirect
  define_indirect_loops m dest n h =
      loop n (define_indirect m dest dest).0.indirect_map dest
        (ground (arith, h, lookup-insert_self (to_upper dest) (to_upper dest) m.indirect_map))
