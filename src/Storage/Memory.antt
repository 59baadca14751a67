-- ===== src/Storage/Memory.antt =====
-- A database in memory, where every status is ok: an instance of the storage interface and of its
-- laws, on which examples run.
use chubby.Prelude.{String, ◌≡◌, refl, some, [], map, arith, if◌then◌else◌}
use chubby.Prelude.Map.{Map, lookup, insert, lookup-insert, ◌==◌, string_eq}
use chubby.Storage.{RocksDb}
use chubby.Storage.Laws.{RocksDbLaws}

abbrev pub memory : RocksDb
memory = record {
  Db = Map String String;
  Txn = Map String String;
  open_db = λ path size. some [];
  get = λ db k. lookup k db;
  keys = λ db. some (map (λ e. e.0) db);
  begin_transaction = λ db. db;
  txn_get = λ txn k. lookup k txn;
  txn_put = λ txn k v. some (insert k v txn);
  commit = λ txn. some txn;
}

writes_memory :
    (db db' : Map String String) (k v : String) (txn : Map String String)
    → memory.txn_put db k v ≡ some txn
    → memory.commit txn ≡ some db'
    → (j : String) → lookup j db' ≡ (if k == j then some v else lookup j db)
writes_memory db db' k v txn e e' j = ground (arith, lookup-insert k j v db)

pub memory_laws : RocksDbLaws memory
memory_laws = record { reads = λ db k. refl; writes = writes_memory }
