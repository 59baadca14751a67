-- ===== src/Paxos/Interleaving/Valid/Decided.antt =====
-- What is decided has been asked for, in every state that the cell of src/paxos/paxos_server.cpp can
-- come to.
use chubby.Prelude.{ℕ, ◌≤◌, String, true, some, [], ◌≡◌, sym}
use chubby.Prelude.Int.{ℤ}
use chubby.Prelude.Map.{lookup, int_eq, string_eq}
use chubby.Prelude.Entries.{Entries, Entries-map, Entries-lookup}
use chubby.Storage.{RocksDb, RocksDbWrapper}
use chubby.Paxos.Slot.{PaxosSlot, is_decided}
use chubby.Paxos.Replica.{PaxosImpl}
use chubby.Paxos.Network.{Cluster}
use chubby.Paxos.Interleaving.Steps.{World, Reach}
use chubby.Paxos.Interleaving.Sound.{SlotSound, LogSound}
use chubby.Paxos.Interleaving.Valid.{Reach-WorldSound}

abbrev pub NoSlots : {Disk : Type 0} → String → PaxosImpl Disk → Type 0
NoSlots address s = s.slots ≡ []

module _ {R : RocksDb} where
  -- The cell before any call: no thread runs and nothing has been sent.
  abbrev pub quiet : Cluster (RocksDbWrapper R) → World R
  quiet cell = record {
    cell = cell;
    threads = [];
    prepares = [];
    promises = [];
    accepts = [];
    votes = [];
    learns = [];
    heartbeats = [];
    heartbeat_replies = [];
  }

  -- The replica at an address has a slot decided with a value.
  pub record Decided (w : World R) (self : String) (seq : ℤ) (value : String) : Type 0 where
    pub replica : PaxosImpl (RocksDbWrapper R)
    pub slot : PaxosSlot
    pub at : lookup self w.cell ≡ some replica
    pub found : lookup seq replica.slots ≡ some slot
    pub is_decided_lem : is_decided slot.status ≡ true
    pub value_lem : slot.value ≡ value

module _ (R : RocksDb) (stubs : ℕ) (several : 2 ≤ stubs) (Called : ℤ → String → Type 0)
    (cell : Cluster (RocksDbWrapper R)) (empty : Entries NoSlots cell) where
  -- In a cell of at least two servers whose replicas begin with no slots, with `null_text` the empty
  -- string: whatever the order of the sections of all threads, and whichever messages are lost, repeated
  -- or late, a slot that some replica has decided is decided with a value that `Start` was called with
  -- for that slot.
  pub decided_was_called :
      (w : World R)
      → Reach R "" stubs Called (quiet cell) w
      → (self : String) (seq : ℤ) (value : String) → Decided w self seq value
      → Called seq value
  decided_was_called w run self seq value d =
      let sound =
        Reach-WorldSound R stubs several Called
          (record {
            cell =
                Entries-map NoSlots (λ address s. LogSound Called s)
                  (λ address s none_yet. rw none_yet tt) cell empty;
            threads = tt;
            promises = tt;
            accepts = tt;
            learns = tt;
            heartbeats = tt;
            heartbeat_replies = tt;
          })
          run in
      let log =
        Entries-lookup (λ address s. LogSound Called s) self d.replica w.cell sound.cell d.at in
      let slot = Entries-lookup (SlotSound Called) seq d.slot d.replica.slots log d.found in
      rw (sym d.value_lem) (slot.decision d.is_decided_lem)
