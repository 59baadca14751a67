-- ===== src/Paxos/Slot/Wire.antt =====
-- A slot survives the trip through its wire form.
use chubby.Prelude.{zero, suc, ◌≡◌, refl}
use chubby.Prelude.Int.{ℤ, pos, negsuc}
use chubby.Paxos.Slot.{
  ConsensusStatus, decided, not_decided, pending, forgotten, unnamed, PaxosSlot, SlotMessage,
  status_code, status_of_code, to_protobuf, fill_slot,
}

-- A status that one of the four names stands for, or a number that none of them has.
abbrev pub IsProper : ConsensusStatus → Type 0
IsProper (unnamed k) = status_of_code k ≡ unnamed k
IsProper _ = Unit {0}

status_code-of_code : (k : ℤ) → status_code (status_of_code k) ≡ k
unfolding status_code status_of_code
status_code-of_code (pos zero) = refl
status_code-of_code (pos (suc zero)) = refl
status_code-of_code (pos (suc (suc zero))) = refl
status_code-of_code (pos (suc (suc (suc zero)))) = refl
status_code-of_code (pos (suc (suc (suc (suc k))))) = refl
status_code-of_code (negsuc k) = refl

status_of_code-code : (c : ConsensusStatus) → IsProper c → status_of_code (status_code c) ≡ c
unfolding status_code status_of_code
status_of_code-code decided h = refl
status_of_code-code not_decided h = refl
status_of_code-code pending h = refl
status_of_code-code forgotten h = refl
status_of_code-code (unnamed k) h = h

-- For a slot whose status is proper, `fillSlot` after `ToProtobuf` gives back the slot; and for
-- every message, `ToProtobuf` after `fillSlot` gives back the message.
pub fill_slot-to_protobuf :
    (s : PaxosSlot)
    → IsProper s.status
    → (fill_slot (to_protobuf s) ≡ s) × ((m : SlotMessage) → to_protobuf (fill_slot m) ≡ m)
unfolding fill_slot to_protobuf
fill_slot-to_protobuf s h = (
  (λ i. record s { status = status_of_code-code s.status h i }),
  λ m i. record m { status = status_code-of_code m.status i },
)
