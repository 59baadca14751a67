-- ===== src/Paxos/Cell/Opening.antt =====
-- `Start` on the leader of a cell, for a slot that is open in it.
use chubby.Prelude.{
  ℕ, ◌≤◌, String, ◌≡◌, refl, sym, subst, ◌∙◌, inl, inr, true, Bool-cases, some, List, [], ◌∷◌,
  arith,
}
use chubby.Prelude.Int.{ℤ, pos, ◌≤ℤ◌}
use chubby.Prelude.Map.{lookup, ◌==◌, string_eq, int_eq}
use chubby.Storage.{RocksDb, RocksDbWrapper}
use chubby.Paxos.Slot.{is_decided}
use chubby.Paxos.Replica.{PaxosImpl}
use chubby.Paxos.Replica.Slots.{slot_at}
use chubby.Paxos.Network.{Cluster}
use chubby.Paxos.Proposer.{finished, Links, starts, run, leads}
use chubby.Paxos.Cell.{Near, Near-at}
use chubby.Paxos.Cell.Keeping.{IsBlank, IsCalm, Keeps}
use chubby.Paxos.Cell.Telling.{Told, after_value}
use chubby.Paxos.Cell.Rounds.{AllCalm}
use chubby.Paxos.Cell.Deciding.{reaches, DecidedAt}
use chubby.Paxos.Cell.Starting.{Settles, propose_at-Settles, start_at-Settles}

-- The slot is decided with the value, which has been applied once, and nothing else has changed but
-- the marks of the highest slots.
pub record HasDecided (R : RocksDb) (seq : ℤ) (v : String) (s0 s : PaxosImpl (RocksDbWrapper R))
    : Type 0 where
  pub status : is_decided (slot_at s seq).status ≡ true
  pub value : (slot_at s seq).value ≡ v
  pub paxos_db : s.paxos_db ≡ after_value R v s0.paxos_db
  pub keeps : Keeps seq s0 s

-- A cell in a view with a slot that nobody has voted in or decided: its replicas are calm, and the
-- slot is blank in each of them, whether it is in the log or not.
pub record IsOpen {Disk : Type 0} (view : ℕ) (seq : ℤ) (cluster : Cluster Disk) : Type 0 where
  pub calm : AllCalm view cluster
  pub blank :
      (address : String) (s : PaxosImpl Disk)
      → lookup address cluster ≡ some s
      → IsBlank (slot_at s seq)

module _ {Disk : Type 0} (view : ℕ) (seq : ℤ) where
  pub IsOpen-none : IsOpen {Disk = Disk} view seq []
  unfolding lookup
  IsOpen-none = record { calm = λ a s e. cc; blank = λ a s e. cc }

  pub IsOpen-more :
      (address : String) (s : PaxosImpl Disk) (rest : Cluster Disk)
      → IsCalm view s
      → IsBlank (slot_at s seq)
      → IsOpen view seq rest
      → IsOpen view seq ((address, s) ∷ rest)
  unfolding lookup
  IsOpen-more address s rest calm blank others = record {
    calm = λ a t e. elim (Bool-cases (address == a)) [
      | inl hit ↦ let same : s ≡ t = ground (arith, e, hit) in subst (IsCalm view) same calm
      | inr miss ↦ others.calm a t (sym (rw miss refl) ∙ e)
    ];
    blank = λ a t e. elim (Bool-cases (address == a)) [
      | inl hit ↦
          let same : s ≡ t = ground (arith, e, hit) in
          subst (λ x. IsBlank (slot_at x seq)) same blank
      | inr miss ↦ others.blank a t (sym (rw miss refl) ∙ e)
    ];
  }

module _ (R : RocksDb) (stubs : ℕ) (first second : Links) (more : List Links) (view : ℕ) (seq : ℤ)
    (v self : String) (cluster : Cluster (RocksDbWrapper R)) (s : PaxosImpl (RocksDbWrapper R))
    (many : 2 ≤ stubs) (kept : pos 0 ≤ℤ seq) (here : lookup self cluster ≡ some s)
    (lead : leads s ≡ true) (ready : IsOpen view seq cluster) where
  start-Settles :
      Settles R view cluster ready.calm seq v kept second.learns
        (run R "" stubs (first ∷ second ∷ more) (starts self seq v) [] cluster)
  unfolding run
  start-Settles =
      start_at-Settles R view cluster ready.calm seq v kept (run R "" stubs (second ∷ more))
        second.learns self s here lead ready.blank
        (λ now t there near.
          propose_at-Settles R view cluster ready.calm seq v kept (run R "" stubs more) stubs second
            self now t many there near)

  pub start-Near :
      Near
        (Told R seq v)
        cluster
        (run R "" stubs (first ∷ second ∷ more) (starts self seq v) [] cluster).1
  unfolding Settles
  start-Near = start-Settles.1

  -- Where protobuf stores the empty text for a null pointer: in a calm view, for a slot that is not
  -- negative and that no replica of the cell has voted in or decided, `Start` on the leader of a
  -- cell with at least two stubs returns, whatever requests and replies are lost. Every replica
  -- that was there is there, and its slot is either open, with the database untouched, or decided
  -- with the value, which has been applied once; and nothing else of it has changed but marks.
  pub start_agrees :
      (a : String) (s0 : PaxosImpl (RocksDbWrapper R))
      → lookup a cluster ≡ some s0
      → let (ending, now) = run R "" stubs (first ∷ second ∷ more) (starts self seq v) [] cluster in
        (ending ≡ finished)
        × ((t : PaxosImpl (RocksDbWrapper R)) × (lookup a now ≡ some t) × Told R seq v s0 t)
  unfolding Settles
  start_agrees a s0 was =
      let (ends, near, _) = start-Settles in (ends, Near-at (Told R seq v) a cluster _ s0 near was)

  -- On the same conditions, if a learn request reaches the address of a replica, the call returns,
  -- and that replica has decided the slot with the value, has applied the value once, and is
  -- otherwise the same but for marks.
  pub start_decides :
      (a : String) (s0 : PaxosImpl (RocksDbWrapper R))
      → lookup a cluster ≡ some s0
      → reaches a second.learns ≡ true
      → let (ending, now) = run R "" stubs (first ∷ second ∷ more) (starts self seq v) [] cluster in
        (ending ≡ finished)
        × ((t : PaxosImpl (RocksDbWrapper R)) × (lookup a now ≡ some t) × HasDecided R seq v s0 t)
  unfolding Settles DecidedAt
  start_decides a s0 was reached =
      let (ends, near, told) = start-Settles in
      let (t, there, outcome) = Near-at (Told R seq v) a cluster _ s0 near was in
      let known = told a reached t there in
      (
        ends,
        (
          t,
          there,
          elim outcome.outcome [
            | inl (open_, same) ↦ cc
            | inr (decided_too, text, db) ↦ record {
              status = known;
              value = text;
              paxos_db = db;
              keeps = outcome.keeps;
            }
          ],
        ),
      )
