-- ===== src/Paxos/Proposer/Unvoted.antt =====
-- What becomes of a value that nobody has voted for. After the accept phase, `StartOnNewSlot` waits
-- for a moment if no majority has voted, and then goes on to the learn phase all the same.
use chubby.Prelude.{ℕ, String, ◌≡◌, inl, inr, true, false, some, List, arith}
use chubby.Prelude.Int.{ℤ, ◌≤ℤ◌, leb_ℤ}
use chubby.Prelude.Map.{lookup, insert, string_eq, int_eq}
use chubby.Storage.{RocksDb, RocksDbWrapper}
use chubby.Paxos.Slot.{PaxosSlot, is_decided}
use chubby.Paxos.Messages.{DecideRequest}
use chubby.Paxos.Replica.{PaxosImpl, get_elem?}
use chubby.Paxos.Replica.Slots.{slot_at}
use chubby.Paxos.Acceptor.{learn, store_slot}
use chubby.Paxos.Acceptor.Learning.{learn_outcomes, slot_after, decided_slot}
use chubby.Paxos.Network.{Cluster, locally}
use chubby.Paxos.Proposer.{Links, Job, Run, finished, propose_at, accept_and_tell, keep_highest}
use chubby.Paxos.Proposer.Phases.{choose_number, member, no_accepts}
use chubby.Paxos.Proposer.Lost.{AllLost, ReachesOnly, accept_loop_lost, request_of, learn_loop_told}

-- The replica at an address can take a learn request for the slot, and has it open.
pub record IsOpen {Disk : Type 0} (peer : String) (seq : ℤ) (cluster : Cluster Disk) : Type 0 where
  pub replica : PaxosImpl Disk
  pub here : lookup peer cluster ≡ some replica
  pub d : ℤ
  pub known : get_elem? replica.done replica.me ≡ some d
  pub kept : replica.lowest_slot ≤ℤ seq
  pub open_lem : is_decided (slot_at replica seq).status ≡ false

-- The replica at an address has decided a slot with a value.
abbrev pub HasOwn : {Disk : Type 0} → String → ℤ → String → Cluster Disk → Type 0
HasOwn {Disk} address seq v cluster =
    (s : PaxosImpl Disk) × (lookup address cluster ≡ some s)
    × (is_decided (slot_at s seq).status ≡ true)
    × ((slot_at s seq).value ≡ v)

module _ (R : RocksDb) (null_text : String) (held : List String) (self : String) where
  -- What a learn request does to an open slot, whatever the form of the value.
  pub opened :
      (request : DecideRequest) (s : PaxosImpl (RocksDbWrapper R)) (d : ℤ)
      → get_elem? s.done s.me ≡ some d
      → s.lowest_slot ≤ℤ request.seq
      → is_decided (slot_at s request.seq).status ≡ false
      → slot_at (learn R request s).1 request.seq ≡ decided_slot R s request.seq request.value
  opened request s d known kept new = elim (learn_outcomes R s request d known) [
    | inl (old, same) ↦ absurd (omega (arith, old, kept))
    | inr (inl (low, done, leaves)) ↦ absurd (ground (arith, done, new))
    | inr (inr (inl (low, open_, (pair, form, leaves)))) ↦ slot_after R s leaves
    | inr (inr (inr (low, open_, form, leaves))) ↦ slot_after R s leaves
  ]

  -- The accept and learn phases when no accept request arrives anywhere, and one learn request does.
  pub unvoted_told :
      (seq my_view : ℤ) (value peer : String) (links : Links) (cluster : Cluster (RocksDbWrapper R))
      (s : PaxosImpl (RocksDbWrapper R))
      → AllLost links.accepts
      → ReachesOnly peer links.learns
      → member peer held ≡ false
      → lookup peer cluster ≡ some s
      → accept_and_tell R null_text held self seq my_view value "" links cluster
        ≡ (finished, insert peer (learn R (request_of R self held seq value cluster) s).1 cluster)
  unfolding accept_and_tell
  unvoted_told seq my_view value peer links cluster s all told free here = rw (
    accept_loop_lost null_text self held seq my_view value links.accepts (no_accepts "") cluster
        all,
    learn_loop_told R self held seq value peer free links.learns cluster s told here,
  )

  -- The peer has then decided the slot.
  Decides : ℤ → String → String → Run (RocksDbWrapper R) → Type 0
  Decides seq value peer (ending, cluster) = (ending ≡ finished) × HasOwn peer seq value cluster

module _ (R : RocksDb) (null_text : String) (held : List String) (self : String)
    (next : Job → List String → Cluster (RocksDbWrapper R) → Run (RocksDbWrapper R)) (stubs : ℕ)
    (seq my_view : ℤ) (v : String) (links : Links) (cluster : Cluster (RocksDbWrapper R))
    (s : PaxosImpl (RocksDbWrapper R)) (here : lookup self cluster ≡ some s)
    (open_ : is_decided (slot_at s seq).status ≡ false) (alive : s.is_dead ≡ false) where
  -- `StartOnNewSlot` for a slot above all that the replica has voted in.
  pub propose_fresh :
      leb_ℤ seq s.highest_accepted_seq ≡ false
      → propose_at R null_text next stubs links self seq v my_view held cluster
        ≡ accept_and_tell R null_text held self seq my_view v "" links cluster
  unfolding propose_at
  propose_fresh new = rw (propose_at, here, open_, alive, new)

  -- The cell after a prepare phase without an answer: the proposer has taken a number.
  numbered : PaxosSlot
  numbered = record (slot_at s seq) { n = choose_number s.num_servers (slot_at s seq) }

  asked : Cluster (RocksDbWrapper R)
  asked = insert self (store_slot seq numbered s) cluster

  unanswered : Cluster (RocksDbWrapper R)
  unanswered = locally self (keep_highest seq (slot_at s seq).highest_n) asked
