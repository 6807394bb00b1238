-- ===== src/Sortition/Cursor.antt =====
-- internal/sortition/cursor.go: the last block that a watcher has dealt with, in a file of its own.
-- The file of one cursor is its text, and `none` where there is no file; whether an access of the
-- file system fails is an argument of the call. The mutex makes each method one step.
pub mod Text
use lightchain_worker.Base.{
  ℕ, ◌-◌, ◌<◌, ◌≡◌, ◌≢◌, ◌⊎◌, arith, u64_mod, Bool, true, false, Option, none, some, Result, ok,
  err, leb, if◌then◌else◌,
}
use lightchain_worker.Base.Bytes.{Bytes}
use lightchain_worker.Sortition.Cursor.Text.{
  format_uint, parse_uint, trim_space, parse_uint-format_uint,
}

-- What the watchers ask of the store: the block where one is stored, and the write.
pub record CursorOps (E S : Type 0) : Type 0 where
  pub read : S → Result E (Option ℕ) × S
  pub set : ℕ → S → S × Option E

-- The block, and whether it is a fresh start.
unfoldable pub get_or_seed :
    {E S : Type 0} → CursorOps E S → (safe_head lookback : ℕ) → S → Result E (ℕ × Bool) × S
get_or_seed ops safe_head lookback s =
    let (stored, s') = ops.read s in
    elim stored [
      | err e ↦ (err e, s')
      | ok (some block) ↦ (ok (block, false), s')
      | ok none ↦ elim (leb safe_head lookback) [
        | true ↦ (ok (0, false), s')
        | false ↦
            let (s'', failure) = ops.set (safe_head - lookback) s' in
            elim failure [ none ↦ (ok (safe_head - lookback, true), s'') | some e ↦ (err e, s'') ]
      ]
    ]

pub data CursorError : Type 0 where
  read_failed parse_failed write_failed commit_failed : CursorError

-- What the file system does in one call.
pub record Access : Type 0 where
  pub read_fails : Bool
  pub write_fails : Bool
  pub rename_fails : Bool

unfoldable pub read : Access → Option Bytes → Result CursorError (Option ℕ)
read io none = if io.read_fails then err read_failed else ok none
read io (some text) =
    if io.read_fails then err read_failed else elim (parse_uint (trim_space text)) [
      | none ↦ err parse_failed
      | some block ↦ ok (some block)
    ]

-- `Get`: 0 where nothing is stored.
unfoldable pub get : Access → Option Bytes → Result CursorError ℕ
get io file = elim (read io file) [ err e ↦ err e | ok none ↦ ok 0 | ok (some block) ↦ ok block ]

-- The file beside it that is written first is replaced whole at the next write.
unfoldable pub set : Access → ℕ → Option Bytes → Option Bytes × Option CursorError
set io block file =
    if io.write_fails
    then (file, some write_failed)
    else if io.rename_fails
    then (file, some commit_failed)
    else (some (format_uint block), none)

-- A block of 64 bits that is written is read back, after any number of restarts. A write that fails
-- leaves the file as it was, so that the block before is read back.
pub read-set :
    (io io' : Access) (block : ℕ) (file : Option Bytes)
    → block < u64_mod
    → io'.read_fails ≡ false
    → let (file', failure) = set io block file in
      ((failure ≡ none) × (read io' file' ≡ ok (some block)) × (get io' file' ≡ ok block))
      ⊎ ((failure ≢ none) × (read io' file' ≡ read io' file) × (get io' file' ≡ get io' file))
unfolding set read get
read-set io io' block file small well = ground (arith, parse_uint-format_uint block small)
