-- ===== src/Result.antt =====
-- libs/common: the error codes, Result<T>, the 64-bit counters.
use ibm_cics_emulation.Base.{ℕ, ◌+◌, ◌-◌, ◌%◌, ◌^◌, Bool, true, false}

pub data ErrorCode : Type 0 where
  success unknown_error invalid_argument null_pointer out_of_range buffer_overflow invalid_state
        not_implemented timeout resource_exhausted io_error file_not_found file_exists
        permission_denied disk_full read_error write_error out_of_memory allocation_failed
        memory_corruption security_error authentication_failed authorization_failed
        invalid_credentials session_expired access_denied database_error record_not_found
        duplicate_key dataset_not_found catalog_error vsam_error vsam_file_not_found
        vsam_file_not_open vsam_invalid_request vsam_end_of_file vsam_duplicate_key
        vsam_record_not_found vsam_sequence_error vsam_rba_not_found vsam_ci_full vsam_key_change
        cics_error cics_abend cics_program_not_found cics_transaction_not_found cics_file_not_found
        cics_queue_not_found cics_terminal_not_found gdg_error gdg_base_not_found
        gdg_generation_not_found gdg_limit_exceeded hsm_error hsm_migrate_failed hsm_recall_failed
        abend invreq ioerr lengerr notfnd qiderr itemerr endfile nodata timedout termerr termiderr
        channelerr containererr not_initialized not_supported syncpoint_error uow_not_found
        prepare_failed commit_failed rollback_failed spool_error spool_not_found spool_not_open :
      ErrorCode

-- Result<T>: a value or an error. `undefined` is no value of the source: it stands for a call whose
-- behaviour the C++ standard leaves undefined (a signed overflow, a null dereference).
pub data Result {ℓ} (A : Type ℓ) : Type ℓ where
  ok : A → Result A
  err : ErrorCode → Result A
  undefined : Result A

-- Runs on the value, and passes an error on.
infixl 5 ◌>>=◌
abbrev pub ◌>>=◌ {ℓ κ} : {A : Type ℓ} {B : Type κ} → Result A → (A → Result B) → Result B
ok a >>= f = f a
err e >>= f = err e
undefined >>= f = undefined

abbrev pub ⊤ : Type 0
⊤ = Unit

abbrev pub is_ok {ℓ} : {A : Type ℓ} → Result A → Bool
is_ok (ok a) = true
is_ok (err e) = false
is_ok undefined = false

-- UInt64 and its atomic counters, which wrap.
abbrev pub u64 : ℕ
u64 = 2 ^ 64

abbrev pub u32 : ℕ
u32 = 2 ^ 32

abbrev pub add64 : ℕ → ℕ → ℕ
add64 a b = (a + b) % u64

abbrev pub sub64 : ℕ → ℕ → ℕ
sub64 a b = (a + u64 - b % u64) % u64
