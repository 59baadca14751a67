-- ===== src/Paxos/Acceptor.antt =====
-- The handlers of src/paxos/paxos_server.cpp that answer a proposer: `Elect`, `Prepare`, `Accept`
-- and `Learn`. Each critical section (under `mu`, or under a slot's `mu_`) is a function of its own,
-- so that the sections of several handlers can be interleaved; a handler is the sections in order.
-- `null_text` is what protobuf stores on `set_value(nullptr)`.
pub mod Parts
pub mod Accepting
pub mod Promising
pub mod Learning
use chubby.Prelude.{String, Bool, true, false, Option, none, some, if◌then◌else◌}
use chubby.Prelude.Int.{ℤ, pos, ltb_ℤ, leb_ℤ}
use chubby.Prelude.Map.{lookup, insert, int_eq}
use chubby.Paxos.Slot.{PaxosSlot, is_decided, decided}
use chubby.Paxos.Messages.{
  Outcome, replied, refused, threw, undefined, invalid_argument, ElectRequest, ElectResponse,
  PrepareRequest, PrepareResponse, AcceptRequest, AcceptResponse, DecideRequest, DecideResponse,
}
use chubby.Paxos.KeyValue.{get_key_value}
use chubby.Paxos.Replica.{PaxosImpl, get_elem?, add_slots}
use chubby.Storage.{RocksDb, RocksDbWrapper, put}

module _ {Disk : Type 0} where
  abbrev pub adopt : ℤ → PaxosImpl Disk → PaxosImpl Disk
  adopt view s = record s { view = view; leader_dead = false; missed_heartbeats = pos 0 }

  -- `Elect`
  unfoldable pub elect : ElectRequest → PaxosImpl Disk → ElectResponse × PaxosImpl Disk
  elect request s =
      if ltb_ℤ s.view request.view
      then (
        record { view = request.view; status = "OK"; highest_seq = s.highest_accepted_seq },
        adopt request.view s,
      )
      else if leb_ℤ s.view request.view
      then (record { view = s.view; status = "OK"; highest_seq = s.highest_accepted_seq }, s)
      else (record { view = s.view; status = "Reject"; highest_seq = pos 0 }, s)

  -- The section under `mu` with which `Prepare`, `Accept` and `Learn` begin: the slot is looked up
  -- or made, unless it lies below `lowest_slot`. It gives `done[me]` and the new state.
  unfoldable pub enter : ℤ → PaxosImpl Disk → Outcome (ℤ × PaxosImpl Disk)
  unfolding add_slots
  enter seq s =
      if ltb_ℤ seq s.lowest_slot then refused invalid_argument else elim (get_elem? s.done s.me) [
        | none ↦ undefined
        | some latest_done ↦ replied (latest_done, (add_slots seq s).1)
      ]

-- `set_value` at the end of `Prepare` and `Accept`.
abbrev pub decided_value : String → PaxosSlot → String
decided_value null_text slot = if is_decided slot.status then slot.value else null_text

-- The section of `Prepare` under the slot's mutex.
unfoldable pub promise : String → PrepareRequest → ℤ → PaxosSlot → PrepareResponse × PaxosSlot
promise null_text request latest_done slot =
    if ltb_ℤ slot.n_p request.proposal_number
    then (
      record {
        status = "OK";
        n_a = slot.n_a;
        v_a = slot.v_a;
        highest_n = request.proposal_number;
        latest_done = latest_done;
        value = decided_value null_text slot;
      },
      record slot { n_p = request.proposal_number },
    )
    else (
      record {
        status = "Reject";
        n_a = slot.n_a;
        v_a = slot.v_a;
        highest_n = slot.n_p;
        latest_done = latest_done;
        value = decided_value null_text slot;
      },
      slot,
    )

-- The section of `Accept` under the slot's mutex, up to the update of `highest_accepted_seq`. The
-- first `set_value` of the handler is overwritten by its last.
unfoldable pub vote : String → AcceptRequest → ℤ → PaxosSlot → AcceptResponse × PaxosSlot
vote null_text request latest_done slot =
    if leb_ℤ slot.n_a request.view
    then (
      record {
        status = "OK";
        latest_done = latest_done;
        value = decided_value null_text slot;
        view = slot.n_a;
      },
      record slot { n_a = request.view; v_a = request.value },
    )
    else (
      record {
        status = "REJECT";
        latest_done = latest_done;
        value = decided_value null_text slot;
        view = slot.n_a;
      },
      slot,
    )

-- The section of `Learn` under the slot's mutex, without the write to the database.
unfoldable pub decide : String → PaxosSlot → PaxosSlot
decide value slot =
    if is_decided slot.status then slot else record slot { status = decided; value = value }

module _ {Disk : Type 0} where
  -- `view` raised to that of an accept request.
  unfoldable pub raise_view : ℤ → PaxosImpl Disk → PaxosImpl Disk
  raise_view view s = if ltb_ℤ s.view view then adopt view s else s

  -- `highest_accepted_seq` raised after a vote.
  unfoldable pub raise_accepted : ℤ → PaxosImpl Disk → PaxosImpl Disk
  raise_accepted seq s =
      if ltb_ℤ s.highest_accepted_seq seq then record s { highest_accepted_seq = seq } else s

  -- `highest_slot` raised by `Learn`.
  unfoldable pub raise_slot : ℤ → PaxosImpl Disk → PaxosImpl Disk
  raise_slot seq s = if ltb_ℤ s.highest_slot seq then record s { highest_slot = seq } else s

  unfoldable pub store_slot : ℤ → PaxosSlot → PaxosImpl Disk → PaxosImpl Disk
  store_slot seq slot s = record s { slots = insert seq slot s.slots }

  -- `Prepare`. Only `Forget` erases a slot and nothing calls it, so the slot that the first section
  -- found is still there in the second.
  unfoldable pub prepare :
      String → PrepareRequest → PaxosImpl Disk → Outcome PrepareResponse × PaxosImpl Disk
  unfolding enter promise store_slot
  prepare null_text request s = elim (enter request.seq s) [
    | refused code ↦ (refused code, s)
    | threw ↦ (threw, s)
    | undefined ↦ (undefined, s)
    | replied (latest_done, s') ↦ elim (lookup request.seq s'.slots) [
      | none ↦ (undefined, s')
      | some slot ↦
          let (response, slot') = promise null_text request latest_done slot in
          (replied response, store_slot request.seq slot' s')
    ]
  ]

  abbrev pub finish_vote : AcceptRequest → Bool → PaxosImpl Disk → PaxosImpl Disk
  finish_vote request true s = raise_accepted request.seq s
  finish_vote request false s = s

  -- `Accept`
  unfoldable pub accept :
      String → AcceptRequest → PaxosImpl Disk → Outcome AcceptResponse × PaxosImpl Disk
  unfolding enter vote raise_view raise_accepted store_slot
  accept null_text request s = elim (enter request.seq s) [
    | refused code ↦ (refused code, s)
    | threw ↦ (threw, s)
    | undefined ↦ (undefined, s)
    | replied (latest_done, s1) ↦
        let s2 = raise_view request.view s1 in
        elim (lookup request.seq s2.slots) [
          | none ↦ (undefined, s2)
          | some slot ↦
              let (response, slot') = vote null_text request latest_done slot in
              (
                replied response,
                finish_vote request (leb_ℤ slot.n_a request.view) (store_slot request.seq slot' s2),
              )
        ]
  ]

module _ (R : RocksDb) where
  -- The write of a value that has just been decided; the value must have the form `key#value`.
  unfoldable pub apply_value :
      String → PaxosImpl (RocksDbWrapper R) → Option (PaxosImpl (RocksDbWrapper R))
  unfolding get_key_value put
  apply_value key_value s = elim (get_key_value key_value) [
    | none ↦ none
    | some (key, value) ↦ some (record s { paxos_db = (put R s.paxos_db key value).1 })
  ]

  abbrev pub finish_learn :
      Bool
      → DecideRequest
      → ℤ
      → PaxosImpl (RocksDbWrapper R)
      → Outcome DecideResponse × PaxosImpl (RocksDbWrapper R)
  finish_learn true request latest_done s = (replied (record { latest_done = latest_done }), s)
  finish_learn false request latest_done s = elim (apply_value request.value s) [
    | none ↦ (threw, s)
    | some s' ↦ (replied (record { latest_done = latest_done }), s')
  ]

  -- `Learn`
  unfoldable pub learn :
      DecideRequest
      → PaxosImpl (RocksDbWrapper R)
      → Outcome DecideResponse × PaxosImpl (RocksDbWrapper R)
  unfolding enter decide raise_slot store_slot apply_value
  learn request s = elim (enter request.seq s) [
    | refused code ↦ (refused code, s)
    | threw ↦ (threw, s)
    | undefined ↦ (undefined, s)
    | replied (latest_done, s1) ↦
        let s2 = raise_slot request.seq s1 in
        elim (lookup request.seq s2.slots) [
          | none ↦ (undefined, s2)
          | some slot ↦
              finish_learn (is_decided slot.status) request latest_done
                (store_slot request.seq (decide request.value slot) s2)
        ]
  ]
