-- ===== src/Server/Cell.antt =====
-- The Paxos service of a lock server, filled by a cell of the Paxos model: the server runs on the
-- replica that leads, in a calm view, and `paxos_service->Start` is a run over the cell.
pub mod Filling
use chubby.Prelude.{
  ℕ, ◌≤◌, String, ◌≡◌, refl, sym, ap, ◌∙◌, ◌⊎◌, inl, inr, Bool, true, false, Bool-cases, Option,
  Option-cases, none, some, List, [], ◌∷◌, ◌||◌, arith, if◌then◌else◌,
}
use chubby.Prelude.Int.{ℤ, pos, negsuc, ◌≤ℤ◌, ◌<ℤ◌, ltb_ℤ, <ℤ-cases}
use chubby.Prelude.Map.{◌==◌, string_eq, int_eq}
use chubby.Storage.{RocksDb, RocksDbWrapper, get, put}
use chubby.Storage.Laws.{RocksDbLaws}
use chubby.Paxos.Slot.{PaxosSlot, is_decided}
use chubby.Paxos.KeyValue.{get_key_value}
use chubby.Paxos.Replica.{PaxosImpl}
use chubby.Paxos.Replica.Slots.{slot_at}
use chubby.Paxos.Network.{Cluster}
use chubby.Paxos.Proposer.{Links, run, starts, finished}
use chubby.Paxos.Cell.Keeping.{Keeps}
use chubby.Paxos.Cell.Telling.{after_value, written_pair}
use chubby.Paxos.Cell.Deciding.{reaches}
use chubby.Paxos.Cell.Ready.{
  IsReady, Advanced, Keeps-slot_at, start_negative, run-Advanced, ready_after,
}

-- A transaction that nothing conflicts with can write and commit.
pub record Commits (R : RocksDb) : Type 0 where
  pub commits :
      (db : R.Db) (key value : String)
      → (txn : R.Txn) × (db' : R.Db) × (R.txn_put (R.begin_transaction db) key value ≡ some txn)
        × (R.commit txn ≡ some db')

-- A cell in which slot after slot can be decided, with the database of its leader.
pub record CellState (R : RocksDb) (view : ℕ) (self : String) : Type 0 where
  pub cluster : Cluster (RocksDbWrapper R)
  pub ready : IsReady R view self cluster
  pub db : R.Db
  pub opened : ready.leader.paxos_db ≡ some db

module _ (R : RocksDb) (laws : RocksDbLaws R) (commits : Commits R) where
  pub put_open :
      (db : R.Db) (key value : String)
      → (db' : R.Db) × ((put R (some db) key value).1 ≡ some db')
        × ((j : String) → R.get db' j ≡ (if key == j then some value else R.get db j))
  unfolding put
  put_open db key value =
      let (txn, db', writes, done) = commits.commits db key value in
      (db', ground (arith, writes, done), λ j. laws.writes db db' key value txn writes done j)

  after_open : (v : String) (db : R.Db) → (db' : R.Db) × (after_value R v (some db) ≡ some db')
  after_open v db = at_pair (get_key_value v)
    where
      at_pair :
          (pair : Option (String × String))
          → (db' : R.Db) × (written_pair R (some db) pair ≡ some db')
      at_pair none = (db, refl)
      at_pair (some (key, value)) = let (db', e, reads) = put_open db key value in (db', e)

module _ (R : RocksDb) (view : ℕ) (self : String) where
  -- A slot that the leader takes no value for any more.
  abbrev pub knows_slot : CellState R view self → ℤ → Bool
  knows_slot p n = ltb_ℤ n (pos 0) || is_decided (slot_at p.ready.leader n).status

  -- The state after a run for a slot.
  pub record Next (seq : ℤ) (v : String) (p : CellState R view self)
      (now : Cluster (RocksDbWrapper R)) : Type 0 where
    pub after : CellState R view self
    pub same : after.cluster ≡ now
    pub knows : (n : ℤ) → knows_slot after n ≡ (if seq == n then true else knows_slot p n)
    pub paxos_db : after.ready.leader.paxos_db ≡ (
        if knows_slot p seq
        then p.ready.leader.paxos_db
        else after_value R v p.ready.leader.paxos_db)
    pub term : after.ready.leader.leader_election_happened ≡ p.ready.leader.leader_election_happened

  module _ (laws : RocksDbLaws R) (commits : Commits R) (stubs : ℕ) (many : 2 ≤ stubs)
      (first second : Links) (reached : reaches self second.learns ≡ true) where
    at_negative :
        (seq : ℤ) (v : String) (p : CellState R view self)
        → seq <ℤ pos 0
        → Next seq v p (run R "" stubs (first ∷ second ∷ []) (starts self seq v) [] p.cluster).1
    at_negative seq v p low = record {
      after = p;
      same =
          ap (λ r. r.1)
            (sym (start_negative R view self stubs first second [] seq v p.cluster p.ready low));
      knows = λ n. elim (Bool-cases (seq == n)) [
        | inl hit ↦ let same = (int_eq.same_iff seq n).0 hit in ground (arith, low, hit, same)
        | inr other ↦ rw other refl
      ];
      paxos_db = ground (arith, low);
      term = refl;
    }

    open_after :
        (v : String) (p : CellState R view self) (known : Bool)
        → (db : R.Db) × ((if known
              then p.ready.leader.paxos_db
              else after_value R v p.ready.leader.paxos_db)
            ≡ some db)
    open_after v p true = (p.db, p.opened)
    open_after v p false =
        let (db, e) = after_open R laws commits v p.db in (db, ap (after_value R v) p.opened ∙ e)

    at_kept :
        (seq : ℤ) (v : String) (p : CellState R view self)
        → pos 0 ≤ℤ seq
        → Next seq v p (run R "" stubs (first ∷ second ∷ []) (starts self seq v) [] p.cluster).1
    unfolding ready_after
    at_kept seq v p kept =
        let done =
          run-Advanced R view self stubs first second [] seq v p.cluster p.ready many kept
            reached in
        let now = (run R "" stubs (first ∷ second ∷ []) (starts self seq v) [] p.cluster).1 in
        let known = is_decided (slot_at p.ready.leader seq).status in
        let (db, e) = open_after v p known in
        record {
          after = record {
            cluster = now;
            ready = ready_after R view self seq v p.cluster now p.ready done;
            db = db;
            opened = done.paxos_db ∙ e;
          };
          same = refl;
          knows = λ n. elim (Bool-cases (seq == n)) [
            | inl hit ↦
                let same = (int_eq.same_iff seq n).0 hit in
                let told =
                  ap (λ i. is_decided (slot_at done.leader i).status) (sym same) ∙ done.known in
                ground (arith, hit, told)
            | inr other ↦
                let still =
                  ap (λ (x : PaxosSlot). is_decided x.status)
                    (Keeps-slot_at seq n done.keeps other) in
                ground (arith, other, still)
          ];
          paxos_db = done.paxos_db ∙ ground (arith, kept);
          term = done.keeps.leader_election_happened;
        }

    pub next :
        (seq : ℤ) (v : String) (p : CellState R view self)
        → Next seq v p (run R "" stubs (first ∷ second ∷ []) (starts self seq v) [] p.cluster).1
    next seq v p = elim (<ℤ-cases seq (pos 0)) [
      | inl low ↦ at_negative seq v p low
      | inr kept ↦ at_kept seq v p kept
    ]
