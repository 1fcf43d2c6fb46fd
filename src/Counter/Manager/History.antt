-- ===== src/Counter/Manager/History.antt =====
-- Any sequence of commands between `initialize` and `shutdown`.
use ibm_cics_emulation.Base.{
  ◌≡◌, refl, inl, inr, true, false, List, [], ◌∷◌, arith, Bytes, Dict, lookup, insert, erase,
  contains, bytes_eq, lookup-insert, lookup-erase, Option-cases, ℤ,
}
use ibm_cics_emulation.Result.{Result, err, not_initialized, notfnd}
use ibm_cics_emulation.Counter.{CounterOptions, update}
use ibm_cics_emulation.Counter.Pool.{
  CounterPool, define, pool_get, pool_get_by, pool_put, delete_counter, at_counter,
}
use ibm_cics_emulation.Counter.Manager.{
  CounterManager, initialize, create_pool, delete_pool, define_counter, get, get_by, put,
  update_counter, delete, get_in, put_in, default_name, at_pool, new_pool,
}

pub data Command : Type 0 where
  initializes : Command
  create_pools delete_pools gets deletes : Bytes → Command
  defines : Bytes → ℤ → CounterOptions → Command
  get_bys puts : Bytes → ℤ → Command
  updates : Bytes → ℤ → ℤ → Command
  get_ins : Bytes → Bytes → Command
  put_ins : Bytes → Bytes → ℤ → Command

pub step : CounterManager → Command → CounterManager
step m initializes = initialize m
step m (create_pools name) = (create_pool m name).0
step m (delete_pools name) = (delete_pool m name).0
step m (gets name) = (get m name).0
step m (deletes name) = (delete m name).0
step m (defines name initial opts) = (define_counter m name initial opts).0
step m (get_bys name increment) = (get_by m name increment).0
step m (puts name value) = (put m name value).0
step m (updates name expected value) = (update_counter m name expected value).0
step m (get_ins pool name) = (get_in m pool name).0
step m (put_ins pool name value) = (put_in m pool name value).0

pub run : CounterManager → List Command → CounterManager
run m [] = m
run m (c ∷ cs) = run (step m c) cs

-- The manager is initialized, the default pool is there, and no wrap-around has been counted.
abbrev pub HasDefault : CounterManager → Type 0
HasDefault m =
    (m.initialized ≡ true) × (contains default_name m.pools ≡ true) × (m.stats.wrap_arounds ≡ 0)

contains-insert :
    {V : Type 0} (k j : Bytes) (v : V) (m : Dict V)
    → contains j m ≡ true
    → contains j (insert k v m) ≡ true
unfolding contains
contains-insert k j v m h = ground (arith, lookup-insert k j v m)

at_pool-HasDefault :
    {A : Type 0} (m : CounterManager) (name : Bytes) (missing : Result A)
    (call : CounterPool → CounterPool × Result A)
    → HasDefault m
    → HasDefault (at_pool m name missing call).0
at_pool-HasDefault m name missing call h = elim (Option-cases (lookup name m.pools)) [
  | inl e ↦ rw (e, at_pool) h
  | inr (p, e) ↦
      rw (e, at_pool) (h.0, contains-insert name default_name (call p).0 m.pools h.1, h.2)
]

contains-erase :
    {V : Type 0} (k j : Bytes) (m : Dict V)
    → bytes_eq k j ≡ false
    → contains j m ≡ true
    → contains j (erase k m) ≡ true
unfolding contains
contains-erase k j m ne h = ground (arith, lookup-erase k j m)

default_there : contains default_name (insert default_name (new_pool default_name) []) ≡ true
unfolding contains insert lookup bytes_eq
default_there = refl

module _ (m : CounterManager) (h : HasDefault m) where
  get-HasDefault : (name : Bytes) → HasDefault (get m name).0
  unfolding get
  get-HasDefault name =
      ground
        (arith, at_pool-HasDefault m default_name (err not_initialized) (λ p. pool_get p name) h)

  get_by-HasDefault : (name : Bytes) (i : ℤ) → HasDefault (get_by m name i).0
  unfolding get_by
  get_by-HasDefault name i =
      ground (
        arith,
        at_pool-HasDefault m default_name (err not_initialized) (λ p. pool_get_by p name i) h,
      )

  put-HasDefault : (name : Bytes) (v : ℤ) → HasDefault (put m name v).0
  unfolding put
  put-HasDefault name v =
      ground
        (arith, at_pool-HasDefault m default_name (err not_initialized) (λ p. pool_put p name v) h)

  delete-HasDefault : (name : Bytes) → HasDefault (delete m name).0
  unfolding delete
  delete-HasDefault name = ground (
    arith,
    at_pool-HasDefault m default_name (err not_initialized) (λ p. delete_counter p name) h,
  )

  define-HasDefault :
      (name : Bytes) (v : ℤ) (o : CounterOptions) → HasDefault (define_counter m name v o).0
  unfolding define_counter
  define-HasDefault name v o =
      ground
        (arith, at_pool-HasDefault m default_name (err not_initialized) (λ p. define p name v o) h)

  update-HasDefault : (name : Bytes) (e v : ℤ) → HasDefault (update_counter m name e v).0
  unfolding update_counter
  update-HasDefault name e v = ground (
    arith,
    at_pool-HasDefault m default_name (err not_initialized)
        (λ p. at_counter p name (λ c. update c e v)) h,
  )

  get_in-HasDefault : (pool name : Bytes) → HasDefault (get_in m pool name).0
  unfolding get_in
  get_in-HasDefault pool name =
      ground (arith, at_pool-HasDefault m pool (err notfnd) (λ p. pool_get p name) h)

  put_in-HasDefault : (pool name : Bytes) (v : ℤ) → HasDefault (put_in m pool name v).0
  unfolding put_in
  put_in-HasDefault pool name v =
      ground (arith, at_pool-HasDefault m pool (err notfnd) (λ p. pool_put p name v) h)

  create_pool-HasDefault : (name : Bytes) → HasDefault (create_pool m name).0
  unfolding create_pool
  create_pool-HasDefault name =
      ground (arith, h, contains-insert name default_name (new_pool name) m.pools)

  delete_pool-HasDefault : (name : Bytes) → HasDefault (delete_pool m name).0
  unfolding delete_pool
  delete_pool-HasDefault name = ground (arith, h, contains-erase name default_name m.pools)

step-HasDefault : (m : CounterManager) (c : Command) → HasDefault m → HasDefault (step m c)
unfolding step initialize
step-HasDefault m initializes h = ground (arith, h)
step-HasDefault m (create_pools name) h = create_pool-HasDefault m h name
step-HasDefault m (delete_pools name) h = delete_pool-HasDefault m h name
step-HasDefault m (gets name) h = get-HasDefault m h name
step-HasDefault m (deletes name) h = delete-HasDefault m h name
step-HasDefault m (defines name v o) h = define-HasDefault m h name v o
step-HasDefault m (get_bys name i) h = get_by-HasDefault m h name i
step-HasDefault m (puts name v) h = put-HasDefault m h name v
step-HasDefault m (updates name e v) h = update-HasDefault m h name e v
step-HasDefault m (get_ins pool name) h = get_in-HasDefault m h pool name
step-HasDefault m (put_ins pool name v) h = put_in-HasDefault m h pool name v

run-HasDefault : (m : CounterManager) (cs : List Command) → HasDefault m → HasDefault (run m cs)
unfolding run
run-HasDefault m [] h = h
run-HasDefault m (c ∷ cs) h = run-HasDefault (step m c) cs (step-HasDefault m c h)

-- After `initialize` of a manager that was not initialized, any commands but `shutdown` (deletions of
-- pools among them) leave the default pool in place, so no command can report that the manager is not
-- initialized; and `wrap_arounds` of the statistics stays 0, however often a counter wraps round.
pub initialize-HasDefault :
    (m : CounterManager) (cs : List Command)
    → m.initialized ≡ false
    → HasDefault (run (initialize m) cs)
unfolding initialize
initialize-HasDefault m cs h = run-HasDefault (initialize m) cs (ground (arith, h, default_there))
