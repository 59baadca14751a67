-- ===== src/Server/Cell/Filling.antt =====
-- The cell keeps the law that the theorems on the lock handlers take of the Paxos service.
use chubby.Prelude.{ℕ, ◌≤◌, String, ◌≡◌, refl, ap, ◌∙◌, true, false, some, [], ◌∷◌, if◌then◌else◌}
use chubby.Prelude.Int.{ℤ, ◌%ℤ◌}
use chubby.Prelude.Map.{◌==◌, string_eq, int_eq}
use chubby.Storage.{RocksDb, RocksDbWrapper, get}
use chubby.Storage.Laws.{RocksDbLaws}
use chubby.Paxos.KeyValue.{key_value_of}
use chubby.Paxos.KeyValue.RoundTrip.{lacks, get_key_value-key_value_of}
use chubby.Paxos.Network.{Cluster}
use chubby.Paxos.Proposer.{Links, run, starts}
use chubby.Paxos.Cell.Telling.{after_value}
use chubby.Paxos.Cell.Deciding.{reaches}
use chubby.Server.Service.{Consensus, Applies}
use chubby.Server.Cell.{Commits, CellState, Next, knows_slot, next, put_open}

-- The deliveries of each run are the environment's choice, but for the learn request to the leader,
-- which arrives.
module _ (R : RocksDb) (view : ℕ) (self : String) (laws : RocksDbLaws R) (commits : Commits R)
    (stubs : ℕ) (many : 2 ≤ stubs) (links : ℤ → String → Links × Links)
    (reached : (seq : ℤ) (v : String) → reaches self (links seq v).1.learns ≡ true) where
  -- The cell after `Start(seq, v)` on the leader.
  abbrev pub after_start : ℤ → String → CellState R view self → Cluster (RocksDbWrapper R)
  after_start seq v p =
      (run R "" stubs ((links seq v).0 ∷ (links seq v).1 ∷ []) (starts self seq v) [] p.cluster).1

  pub run_next :
      (seq : ℤ) (v : String) (p : CellState R view self)
      → Next R view self seq v p (after_start seq v p)
  run_next seq v p =
      next R view self laws commits stubs many (links seq v).0 (links seq v).1 (reached seq v) seq v
        p

  -- The server reads the members of the replica at its own address, and `Start` is a run over the
  -- cell.
  abbrev pub cell_service : Consensus
  cell_service = record {
    State = CellState R view self;
    get = λ p key. get R p.ready.leader.paxos_db key;
    start = λ seq v p. (run_next seq v p).after;
    knows = knows_slot R view self;
    leader_election_happened = λ p. p.ready.leader.leader_election_happened;
    first_port = λ p. p.ready.leader.first_port;
    turn = λ p. p.ready.leader.view %ℤ p.ready.leader.num_servers;
  }

  applied_lem :
      (seq : ℤ) (path mode j : String) (p : CellState R view self)
      → knows_slot R view self p seq ≡ false
      → lacks b'#' path ≡ true
      → get R (run_next seq (key_value_of path mode) p).after.ready.leader.paxos_db j
        ≡ (if path == j then some mode else get R p.ready.leader.paxos_db j)
  unfolding get
  applied_lem seq path mode j p open_ plain =
      let v = key_value_of path mode in
      let form = get_key_value-key_value_of path mode plain in
      let (db', e, reads) = put_open R laws commits p.db path mode in
      let written : (run_next seq v p).after.ready.leader.paxos_db ≡ some db' =
        (run_next seq v p).paxos_db ∙ rw open_ (ap (after_value R v) p.opened ∙ rw form e) in
      rw (written, p.opened) (reads j)

  settled_lem :
      (seq : ℤ) (v j : String) (p : CellState R view self)
      → knows_slot R view self p seq ≡ true
      → get R (run_next seq v p).after.ready.leader.paxos_db j ≡ get R p.ready.leader.paxos_db j
  settled_lem seq v j p known = ap (λ db. get R db j) ((run_next seq v p).paxos_db ∙ rw known refl)

  -- The law, with what it says of the database read off the run.
  pub cell_service-Applies : Applies cell_service
  cell_service-Applies = record {
    applied = λ seq path mode j p open_ plain. applied_lem seq path mode j p open_ plain;
    settled = λ seq v j p known. settled_lem seq v j p known;
    decides = λ seq n v p. (run_next seq v p).knows n;
    same_term = λ seq v p. (run_next seq v p).term;
  }

  -- Where protobuf stores the empty text for a null pointer, a cell in a calm view, with its leader
  -- at the address of the server, two stubs or more, and a database whose transactions commit, is a
  -- Paxos service that decides each open slot, applies its value once and leaves decided slots and
  -- the database alone, whatever is lost in a run besides the learn request to the leader; and its
  -- state after `Start` is what the run over the cell leaves.
  pub cell_service_lem :
      Applies cell_service
      × ((seq : ℤ) (v : String) (p : CellState R view self)
          → (cell_service.start seq v p).cluster ≡ after_start seq v p)
  cell_service_lem = (cell_service-Applies, λ seq v p. (run_next seq v p).same)
