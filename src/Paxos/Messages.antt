-- ===== src/Paxos/Messages.antt =====
-- The messages of interface/Paxos.proto that the handlers read and write, and how an RPC ends.
use chubby.Prelude.{String, List}
use chubby.Prelude.Int.{ℤ}
use chubby.Prelude.Map.{Map}
use chubby.Paxos.Slot.{SlotMessage}

pub data StatusCode : Type 0 where
  invalid_argument aborted : StatusCode

-- A handler replies, returns a status that is not OK, leaves by an exception, or reads out of the
-- bounds of a vector, after which C++ promises nothing.
pub data Outcome {ℓ} (A : Type ℓ) : Type ℓ where
  replied : A → Outcome A
  refused : StatusCode → Outcome A
  threw : Outcome A
  undefined : Outcome A

pub record ElectRequest : Type 0 where
  pub view : ℤ

pub record ElectResponse : Type 0 where
  pub view : ℤ
  pub status : String
  pub highest_seq : ℤ

pub record PrepareRequest : Type 0 where
  pub seq : ℤ
  pub proposal_number : ℤ
  pub latest_done : ℤ
  pub sender_id : ℤ

pub record PrepareResponse : Type 0 where
  pub status : String
  pub n_a : ℤ
  pub v_a : String
  pub highest_n : ℤ
  pub latest_done : ℤ
  pub value : String

pub record AcceptRequest : Type 0 where
  pub seq : ℤ
  pub view : ℤ
  pub value : String
  pub sender_id : ℤ
  pub latest_done : ℤ

pub record AcceptResponse : Type 0 where
  pub status : String
  pub latest_done : ℤ
  pub value : String
  pub view : ℤ

pub record DecideRequest : Type 0 where
  pub seq : ℤ
  pub value : String
  pub sender_id : ℤ
  pub latest_done : ℤ

pub record DecideResponse : Type 0 where
  pub latest_done : ℤ

pub record HeartbeatRequest : Type 0 where
  pub id : ℤ
  pub view : ℤ
  pub done : List ℤ
  pub slots : Map ℤ SlotMessage

pub record HeartbeatResponse : Type 0 where
  pub status : String
  pub slots : Map ℤ SlotMessage
