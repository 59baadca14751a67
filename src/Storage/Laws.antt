-- ===== src/Storage/Laws.antt =====
-- What the storage wrapper promises its callers, given what RocksDB documents.
use chubby.Prelude.{
  String, ◌≡◌, refl, ◌⊎◌, inl, inr, none, some, arith, Option-cases, if◌then◌else◌,
}
use chubby.Prelude.Int.{pos, negsuc}
use chubby.Prelude.Map.{◌==◌, string_eq}
use chubby.Storage.{RocksDb, RocksDbWrapper, get, put}

-- A transaction reads what the database held when it began, and a commit of one write makes that
-- write, and no other, visible.
pub record RocksDbLaws (R : RocksDb) : Type 0 where
  pub reads : (db : R.Db) (k : String) → R.txn_get (R.begin_transaction db) k ≡ R.get db k
  pub writes :
      (db db' : R.Db) (k v : String) (txn : R.Txn)
      → R.txn_put (R.begin_transaction db) k v ≡ some txn
      → R.commit txn ≡ some db'
      → (j : String) → R.get db' j ≡ (if k == j then some v else R.get db j)

-- The three results of `Put`: it fails with -1 and the database is as it was; or it reports 0 for a
-- key that was there, or 1 for one that was not, and then reads of the key give the new value and
-- reads of any other key what they gave before.
abbrev pub PutResult : (R : RocksDb) → RocksDbWrapper R → String → String → Type 0
PutResult R w k v =
    (put R w k v ≡ (negsuc 0, w))
    ⊎ ((w' : RocksDbWrapper R) × (put R w k v
          ≡ (elim (get R w k) [ none ↦ pos 1 | some _ ↦ pos 0 ], w'))
        × ((j : String) → get R w' j ≡ (if k == j then some v else get R w j)))

module _ (R : RocksDb) (laws : RocksDbLaws R) where
  PutResult-open : (db : R.Db) (k v : String) → PutResult R (some db) k v
  unfolding put get
  PutResult-open db k v = elim (Option-cases (R.txn_put (R.begin_transaction db) k v)) [
    | inl e ↦ inl (ground arith)
    | inr (txn, e) ↦ elim (Option-cases (R.commit txn)) [
      | inl e' ↦ inl (ground arith)
      | inr (db', e') ↦
          inr (some db', ground (arith, laws.reads db k), λ j. laws.writes db db' k v txn e e' j)
    ]
  ]

  -- Every `Put` ends in one of the three results.
  pub put_result : (w : RocksDbWrapper R) (k v : String) → PutResult R w k v
  unfolding put
  put_result none k v = inl refl
  put_result (some db) k v = PutResult-open db k v
