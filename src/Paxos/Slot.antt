-- ===== src/Paxos/Slot.antt =====
-- The log slot of src/include/paxos_server.h, its wire form in interface/Paxos.proto, and the two
-- functions of src/paxos/paxos_server.cpp that make one.
pub mod Wire
use chubby.Prelude.{zero, suc, String, Bool, true, false}
use chubby.Prelude.Int.{ℤ, pos, negsuc}

-- `enum ConsensusStatus`. A cast from the wire can give a number that has no name.
pub data ConsensusStatus : Type 0 where
  decided not_decided pending forgotten : ConsensusStatus
  unnamed : ℤ → ConsensusStatus

abbrev pub is_decided : ConsensusStatus → Bool
is_decided decided = true
is_decided _ = false

-- `struct PaxosSlot`, without its two mutexes.
pub record PaxosSlot : Type 0 where
  pub n : ℤ
  pub n_p : ℤ
  pub n_a : ℤ
  pub v_a : String
  pub highest_n : ℤ
  pub value : String
  pub status : ConsensusStatus

-- `initSlot`
unfoldable pub init_slot : ℤ → PaxosSlot
init_slot view = record {
  n = view;
  n_p = negsuc 0;
  n_a = view;
  v_a = "";
  highest_n = view;
  value = "";
  status = pending;
}

-- `message PaxosSlot`
pub record SlotMessage : Type 0 where
  pub n : ℤ
  pub n_p : ℤ
  pub n_a : ℤ
  pub v_a : String
  pub highest_n : ℤ
  pub value : String
  pub status : ℤ

-- `static_cast<int>(status)`
unfoldable pub status_code : ConsensusStatus → ℤ
status_code decided = pos 0
status_code not_decided = pos 1
status_code pending = pos 2
status_code forgotten = pos 3
status_code (unnamed k) = k

-- `static_cast<ConsensusStatus>(status)`
unfoldable pub status_of_code : ℤ → ConsensusStatus
status_of_code (pos zero) = decided
status_of_code (pos (suc zero)) = not_decided
status_of_code (pos (suc (suc zero))) = pending
status_of_code (pos (suc (suc (suc zero)))) = forgotten
status_of_code (pos (suc (suc (suc (suc k))))) = unnamed (pos (suc (suc (suc (suc k)))))
status_of_code (negsuc k) = unnamed (negsuc k)

-- `ToProtobuf`
unfoldable pub to_protobuf : PaxosSlot → SlotMessage
unfolding status_code
to_protobuf s = record {
  n = s.n;
  n_p = s.n_p;
  n_a = s.n_a;
  v_a = s.v_a;
  highest_n = s.highest_n;
  value = s.value;
  status = status_code s.status;
}

-- `fillSlot`
unfoldable pub fill_slot : SlotMessage → PaxosSlot
unfolding status_of_code
fill_slot m = record {
  n = m.n;
  n_p = m.n_p;
  n_a = m.n_a;
  v_a = m.v_a;
  highest_n = m.highest_n;
  value = m.value;
  status = status_of_code m.status;
}
