-- ===== src/Release/Store/File.antt =====
-- The document, the file, and the reading, checking and writing under the lock.
use lightchain_worker.Base.{
  ℕ, ◌≡◌, Bool, true, false, not, Option, none, some, List, [], Result, ok, err, ℤ, pos, ◌==◌,
  if◌then◌else◌,
}
use lightchain_worker.Base.Bytes.{Bytes}

abbrev pub schema_version : ℕ
schema_version = 2

pub record PendingJob : Type 0 where
  pub job_id : ℕ  -- uint64
  pub completed_at : ℤ  -- int64, unix seconds
  pub fail_count : ℤ  -- int
  pub backoff_until : ℤ  -- int64, unix seconds

pub record Snapshot : Type 0 where
  pub schema : ℕ
  pub chain_id : ℕ  -- uint64
  pub job_registry : Bytes
  pub worker_address : Bytes
  pub pending : List PendingJob
  pub last_reconciled_block : ℕ  -- uint64
  pub last_release_ts : ℤ  -- int64
  pub next_allowed_attempt : ℤ  -- int64

-- An address is its 160-bit number.
pub record StoreIdentity : Type 0 where
  pub chain_id : ℕ
  pub job_registry : ℕ
  pub worker_address : ℕ

-- `common.IsHexAddress`, `common.HexToAddress` and `Address.Hex`.
pub record AddressCodec : Type 0 where
  pub is_hex_address : Bytes → Bool
  pub hex_to_address : Bytes → ℕ
  pub hex : ℕ → Bytes

-- The text of an address is one, and is read back as that address.
pub record Renders (a : AddressCodec) (address : ℕ) : Type 0 where
  pub is_hex : a.is_hex_address (a.hex address) ≡ true
  pub reads_back : a.hex_to_address (a.hex address) ≡ address

-- Where `writeSnapshotLocked` fails.
pub data WriteFault : Type 0 where
  create_temp write_temp chmod_temp sync_temp close_temp rename_temp : WriteFault

pub data StoreError : Type 0 where
  bad_path bad_identity mkdir_failed open_failed close_failed : StoreError
  store_closed flock_failed : StoreError
  not_exist read_failed empty_snapshot unmarshal_failed : StoreError
  schema_version_mismatch identity_mismatch cursor_backward : StoreError
  write_failed : WriteFault → StoreError

pub data FileData : Type 0 where
  missing empty corrupt : FileData
  document : Snapshot → FileData

pub record FileStore : Type 0 where
  pub identity : StoreIdentity
  pub file : FileData
  pub closed : Bool

-- What the operating system does during one call.
pub record Io : Type 0 where
  pub flock_fails : Bool
  pub read_fails : Bool
  pub write_fault : Option WriteFault
  pub close_fails : Bool

abbrev pub all_well : Io
all_well = record {
  flock_fails = false;
  read_fails = false;
  write_fault = none;
  close_fails = false;
}

unfoldable pub read_snapshot_locked : Io → FileData → Result StoreError Snapshot
read_snapshot_locked io missing = err not_exist
read_snapshot_locked io empty = if io.read_fails then err read_failed else err empty_snapshot
read_snapshot_locked io corrupt = if io.read_fails then err read_failed else err unmarshal_failed
read_snapshot_locked io (document snap) = if io.read_fails then err read_failed else ok snap

module _ (a : AddressCodec) where
  unfoldable pub empty_snapshot_of : StoreIdentity → Snapshot
  empty_snapshot_of identity = record {
    schema = schema_version;
    chain_id = identity.chain_id;
    job_registry = a.hex identity.job_registry;
    worker_address = a.hex identity.worker_address;
    pending = [];
    last_reconciled_block = 0;
    last_release_ts = pos 0;
    next_allowed_attempt = pos 0;
  }

  unfoldable pub addr_equal_hex : Bytes → ℕ → Bool
  addr_equal_hex stored want =
      if not (a.is_hex_address stored) then false else a.hex_to_address stored == want

  unfoldable pub verify_identity_locked : StoreIdentity → Snapshot → Option StoreError
  unfolding addr_equal_hex
  verify_identity_locked identity snap =
      if not (snap.schema == schema_version)
      then some schema_version_mismatch
      else if not (snap.chain_id == identity.chain_id)
      then some identity_mismatch
      else if not (addr_equal_hex snap.job_registry identity.job_registry)
      then some identity_mismatch
      else if not (addr_equal_hex snap.worker_address identity.worker_address)
      then some identity_mismatch
      else none

  -- Schema and identity are written anew each time.
  unfoldable pub pinned : StoreIdentity → Snapshot → Snapshot
  pinned identity snap = record snap {
    schema = schema_version;
    chain_id = identity.chain_id;
    job_registry = a.hex identity.job_registry;
    worker_address = a.hex identity.worker_address;
  }

  -- The data file is replaced by the last stage, the rename; a stage that fails before leaves it.
  unfoldable pub write_snapshot_locked : Io → Snapshot → FileStore → FileStore × Option StoreError
  write_snapshot_locked io snap s = elim io.write_fault [
    | none ↦ (record s { file = document (pinned s.identity snap) }, none)
    | some stage ↦ (s, some (write_failed stage))
  ]

  unfoldable pub load_verified_locked : Io → FileStore → Result StoreError Snapshot
  load_verified_locked io s = elim (read_snapshot_locked io s.file) [
    | err e ↦ err e
    | ok snap ↦ elim (verify_identity_locked s.identity snap) [ none ↦ ok snap | some e ↦ err e ]
  ]

  -- `withLock`: the error with which the callback is not run.
  unfoldable pub lock_error : Io → FileStore → Option StoreError
  lock_error io s =
      if s.closed then some store_closed else if io.flock_fails then some flock_failed else none

  -- The shape of the getters: under the shared lock, read, verify, and look at the document.
  unfoldable pub reading {ℓ} : {A : Type ℓ} → (Snapshot → A) → Io → FileStore → Result StoreError A
  reading f io s = elim (lock_error io s) [
    | some e ↦ err e
    | none ↦ elim (load_verified_locked io s) [ err e ↦ err e | ok snap ↦ ok (f snap) ]
  ]

  -- The shape of the mutators: under the exclusive lock, load, and then fail, return with nothing
  -- to write, or write.
  unfoldable pub mutating :
      (Snapshot → Result StoreError (Option Snapshot))
      → Io
      → FileStore
      → FileStore × Option StoreError
  mutating f io s = elim (lock_error io s) [
    | some e ↦ (s, some e)
    | none ↦ elim (load_verified_locked io s) [
      | err e ↦ (s, some e)
      | ok snap ↦ elim (f snap) [
        | err e ↦ (s, some e)
        | ok none ↦ (s, none)
        | ok (some new) ↦ write_snapshot_locked io new s
      ]
    ]
  ]
