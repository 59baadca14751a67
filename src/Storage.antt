-- ===== src/Storage.antt =====
-- The storage wrapper, src/include/rocksdb_wrapper.h and src/common/rocksdb_wrapper.cc. RocksDB
-- itself is a parameter: the calls that the wrapper makes, and what their documentation promises.
pub mod Laws
pub mod Memory
use chubby.Prelude.{ℕ, String, Option, none, some, List}
use chubby.Prelude.Int.{ℤ, pos, negsuc}

-- `rocksdb::TransactionDB` and `rocksdb::Transaction`. `none` is a status that is not ok; `get`
-- reads at a snapshot of the whole database, as the wrapper does.
pub record RocksDb : Type 1 where
  pub Db : Type 0
  pub Txn : Type 0
  pub open_db : String → ℕ → Option Db
  pub get : Db → String → Option String
  pub keys : Db → Option (List String)
  pub begin_transaction : Db → Txn
  pub txn_get : Txn → String → Option String
  pub txn_put : Txn → String → String → Option Txn
  pub commit : Txn → Option Db

-- The wrapper's `db_` pointer: `none` is the null pointer.
abbrev pub RocksDbWrapper : RocksDb → Type 0
RocksDbWrapper R = Option (R.Db)

module _ (R : RocksDb) where
  -- The constructor leaves a null pointer if the database cannot be opened.
  unfoldable pub open_wrapper : String → ℕ → RocksDbWrapper R
  open_wrapper path cache_size = R.open_db path cache_size

  -- `Get`: the value if the call returns true, and `none` if it returns false.
  unfoldable pub get : RocksDbWrapper R → String → Option String
  get none key = none
  get (some db) key = R.get db key

  -- `GetAllKeys`
  unfoldable pub get_all_keys : RocksDbWrapper R → Option (List String)
  get_all_keys none = none
  get_all_keys (some db) = R.keys db

  -- `key_found ? 0 : 1`
  abbrev found_code : Option String → ℤ
  found_code none = pos 1
  found_code (some old) = pos 0

  committed : R.Db → Option String → Option (R.Db) → ℤ × RocksDbWrapper R
  committed db old none = (negsuc 0, some db)
  committed db old (some db') = (found_code old, some db')

  written : R.Db → Option String → Option (R.Txn) → ℤ × RocksDbWrapper R
  unfolding committed
  written db old none = (negsuc 0, some db)
  written db old (some txn) = committed db old (R.commit txn)

  -- `Put`, with the code that it returns. A transaction that fails is deleted, which rolls it back.
  unfoldable pub put : RocksDbWrapper R → String → String → ℤ × RocksDbWrapper R
  unfolding written
  put none key value = (negsuc 0, none)
  put (some db) key value =
      let txn = R.begin_transaction db in written db (R.txn_get txn key) (R.txn_put txn key value)
