-- ===== src/Paxos/Proposer/Phases.antt =====
-- The three loops of `StartOnNewSlot` over the stubs, in src/paxos/paxos_server.cpp. A call to a
-- replica whose `mu` is held by the callers of this run never returns.
use chubby.Prelude.{
  ℕ, zero, suc, ◌/◌, String, Bool, true, false, ◌||◌, not, Option, none, some, List, [], ◌∷◌,
  if◌then◌else◌, ltb,
}
use chubby.Prelude.Int.{ℤ, pos, negsuc, pos_part, ◌+ℤ◌, ◌-ℤ◌, ltb_ℤ, leb_ℤ}
use chubby.Prelude.Map.{Map, lookup, insert, ◌==◌, int_eq, string_eq}
use chubby.Storage.{RocksDb, RocksDbWrapper}
use chubby.Paxos.Slot.{PaxosSlot}
use chubby.Paxos.Messages.{
  PrepareRequest, PrepareResponse, AcceptRequest, AcceptResponse, DecideRequest,
}
use chubby.Paxos.Replica.{PaxosImpl, get_elem?}
use chubby.Paxos.Acceptor.{prepare, accept, learn}
use chubby.Paxos.Network.{Cluster, Delivery, lost, call}

unfoldable pub member : String → List String → Bool
member a [] = false
member a (b ∷ rest) = a == b || member a rest

-- A call that never returns: its request arrives, and the peer's `mu` is held.
unfoldable pub hangs : List String → String → Delivery → Bool
unfolding member
hangs held address lost = false
hangs held address how = member address held

-- The number of times that `slot->n += num_servers` is needed is at most the distance from `n` to
-- `highest_N`, plus one; that is the fuel.
unfoldable pub raise_number : ℕ → ℕ → ℤ → ℤ → ℤ
raise_number zero step highest_n n = n
raise_number (suc fuel) step highest_n n =
    let more = raise_number fuel step highest_n (n +ℤ pos step) in
    if leb_ℤ n highest_n then more else n

unfoldable pub choose_number : ℕ → PaxosSlot → ℤ
unfolding raise_number
choose_number num_servers slot =
    raise_number (pos_part (slot.highest_n -ℤ slot.n +ℤ pos 1)) num_servers slot.highest_n slot.n

-- The local variables of the prepare phase.
pub record Gathered : Type 0 where
  pub highest_na : ℤ
  pub highest_va : String
  pub majority_count : ℕ
  pub reject_count : ℕ
  pub na_count_map : Map ℤ ℕ
  pub is_decided_prep : Bool
  pub decided_v : String
  -- `highest_N` of the proposer's slot.
  pub highest_n : ℤ

unfoldable pub gather_start : String → ℤ → Gathered
gather_start v highest_n = record {
  highest_na = negsuc 0;
  highest_va = v;
  majority_count = 0;
  reject_count = 0;
  na_count_map = [];
  is_decided_prep = false;
  decided_v = "";
  highest_n = highest_n;
}

abbrev pub count_of : Option ℕ → ℕ
count_of none = 0
count_of (some n) = n

-- `na_count_map[highest_na]`
abbrev pub same_number : Gathered → ℕ
same_number g = count_of (lookup g.highest_na g.na_count_map)

-- The reply of a peer that promises: the accepted value of the highest number is kept, and a reply
-- with no higher number counts as a rejection.
unfoldable pub take_promise : PrepareResponse → Gathered → Gathered
take_promise r g =
    if ltb_ℤ g.highest_na r.n_a
    then record g {
      majority_count = suc g.majority_count;
      highest_na = r.n_a;
      highest_va = r.v_a;
      na_count_map = insert r.n_a (suc (count_of (lookup r.n_a g.na_count_map))) g.na_count_map;
    }
    else record g {
      majority_count = suc g.majority_count;
      reject_count = suc g.reject_count;
      highest_n = if ltb_ℤ g.highest_n r.highest_n then r.highest_n else g.highest_n;
    }

-- The end of the loop's body for a promise: whether the value is known to be decided, and `break`.
unfoldable pub see_decided : ℕ → PrepareResponse → Gathered → Gathered × Bool
see_decided stubs r g =
    if not (r.value == "")
    then (record g { is_decided_prep = true; decided_v = r.value }, true)
    else if ltb (stubs / 2) (same_number g)
    then (record g { is_decided_prep = true; decided_v = g.highest_va }, true)
    else (g, false)

-- The body of the loop for one reply; `none` is a status that is not ok.
unfoldable pub gather : ℕ → Option PrepareResponse → Gathered → Gathered × Bool
unfolding take_promise see_decided
gather stubs none g = (g, false)
gather stubs (some r) g =
    if r.status == "OK" then see_decided stubs r (take_promise r g) else (g, false)

unfoldable pub enough : ℕ → Gathered → Bool
enough stubs g =
    ltb (stubs / 2) g.reject_count
    || ltb (stubs / 2) g.majority_count
    || ltb (stubs / 2) (same_number g)

-- `done[me]` for a request; no handler reads it, so what stands past the end does not matter.
abbrev pub latest_done : {Disk : Type 0} → Option (PaxosImpl Disk) → ℤ
latest_done none = pos 0
latest_done (some s) = elim (get_elem? s.done s.me) [ none ↦ pos 0 | some d ↦ d ]

abbrev pub sender_id : {Disk : Type 0} → Option (PaxosImpl Disk) → ℤ
sender_id none = pos 0
sender_id (some s) = pos s.me

module _ {Disk : Type 0} (null_text : String) (self : String) (held : List String) where
  -- The prepare phase, one peer after the other; the Boolean tells that a call never returned.
  unfoldable pub prepare_loop :
      ℕ
      → ℤ
      → ℤ
      → List (String × Delivery)
      → Gathered
      → Cluster Disk
      → Bool × Gathered × Cluster Disk
  unfolding hangs call prepare gather enough
  prepare_loop stubs seq number [] g cluster = (false, g, cluster)
  prepare_loop stubs seq number ((address, how) ∷ rest) g cluster = elim (hangs held address how) [
    | true ↦ (true, g, cluster)
    | false ↦
        let sender = lookup self cluster in
        let request : PrepareRequest = record {
          seq = seq;
          proposal_number = number;
          latest_done = latest_done sender;
          sender_id = sender_id sender;
        } in
        let (response, cluster') = call how address (prepare null_text request) cluster in
        let (g', stop) = gather stubs response g in
        elim (stop || enough stubs g') [
          | true ↦ (false, g', cluster')
          | false ↦ prepare_loop stubs seq number rest g' cluster'
        ]
  ]

-- The local variables of the accept phase.
pub record Votes : Type 0 where
  pub majority_count : ℕ
  pub reject_count : ℕ
  pub highest_view : ℤ
  pub is_decided_acc : Bool
  pub decided_v : String

abbrev pub no_accepts : String → Votes
no_accepts decided_v = record {
  majority_count = 0;
  reject_count = 0;
  highest_view = negsuc 0;
  is_decided_acc = false;
  decided_v = decided_v;
}

unfoldable pub count_vote : AcceptResponse → Votes → Votes
count_vote r t =
    if r.status == "OK" then record t { majority_count = suc t.majority_count } else record t {
      reject_count = suc t.reject_count;
      highest_view = if ltb_ℤ t.highest_view r.view then r.view else t.highest_view;
    }

-- What a thread of the accept phase does with a reply.
unfoldable pub take_vote : ℤ → Option AcceptResponse → Votes → Votes
unfolding count_vote
take_vote seq none t = t
take_vote seq (some r) t =
    let t' = count_vote r t in
    if leb_ℤ seq r.latest_done || not (r.value == "")
    then record t' { is_decided_acc = true; decided_v = r.value }
    else t'

module _ {Disk : Type 0} (null_text : String) (self : String) (held : List String) where
  -- The accept phase: a thread for each peer, all joined. They touch different replicas, so their
  -- order matters only for which decided value is kept last.
  unfoldable pub accept_loop :
      ℤ → ℤ → String → List (String × Delivery) → Votes → Cluster Disk → Bool × Votes × Cluster Disk
  unfolding hangs call accept take_vote
  accept_loop seq my_view value [] t cluster = (false, t, cluster)
  accept_loop seq my_view value ((address, how) ∷ rest) t cluster =
      let sender = lookup self cluster in
      let request : AcceptRequest = record {
        seq = seq;
        view = my_view;
        value = value;
        sender_id = sender_id sender;
        latest_done = latest_done sender;
      } in
      let (response, cluster') = call how address (accept null_text request) cluster in
      let (stuck, t', cluster'') =
        accept_loop seq my_view value rest (take_vote seq response t) cluster' in
      let (stuck_rest, t_rest, cluster_rest) = accept_loop seq my_view value rest t cluster in
      elim (hangs held address how) [
        | true ↦ (true, t_rest, cluster_rest)
        | false ↦ (stuck, t', cluster'')
      ]

module _ (R : RocksDb) (self : String) (held : List String) where
  -- The learn phase, in the same way.
  unfoldable pub learn_loop :
      ℤ
      → String
      → List (String × Delivery)
      → Cluster (RocksDbWrapper R)
      → Bool × Cluster (RocksDbWrapper R)
  unfolding hangs call learn
  learn_loop seq value [] cluster = (false, cluster)
  learn_loop seq value ((address, how) ∷ rest) cluster =
      let sender = lookup self cluster in
      let request : DecideRequest = record {
        seq = seq;
        value = value;
        sender_id = sender_id sender;
        latest_done = latest_done sender;
      } in
      let (response, cluster') = call how address (learn R request) cluster in
      let (stuck, cluster'') = learn_loop seq value rest cluster' in
      let (stuck_rest, cluster_rest) = learn_loop seq value rest cluster in
      elim (hangs held address how) [ true ↦ (true, cluster_rest) | false ↦ (stuck, cluster'') ]
