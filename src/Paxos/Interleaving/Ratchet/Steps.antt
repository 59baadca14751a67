-- ===== src/Paxos/Interleaving/Ratchet/Steps.antt =====
-- Over any run of the cell, in src/paxos/paxos_server.cpp, no replica takes back a view, a promise or a
-- decision.
use chubby.Prelude.{ℕ, String, some, ◌≡◌, subst, arith}
use chubby.Prelude.Int.{ℤ}
use chubby.Prelude.Map.{lookup, int_eq, string_eq}
use chubby.Prelude.Growing.{Grows, Grows-refl, Grows-insert}
use chubby.Storage.{RocksDb, RocksDbWrapper}
use chubby.Paxos.Replica.{PaxosImpl}
use chubby.Paxos.Network.{Cluster}
use chubby.Paxos.Interleaving.Steps.{
  World, Step, Reach, here, next, place, turns, starts, admits, picks, begins, asks, promises,
  gathers, exhausts, settles, proposes, votes, counts, joins, tells, learns, writes, announces,
  beats, absorbs,
}
use chubby.Paxos.Interleaving.Ratchet.{
  ReplicaGrows, ReplicaGrows-refl, ReplicaGrows-trans, ReplicaGrows-at, SlotGrows-decide,
  SlotGrows-promise, SlotGrows-vote,
}
use chubby.Paxos.Interleaving.Ratchet.Sections.{
  ReplicaGrows-Turn, ReplicaGrows-absorb, ReplicaGrows-heartbeat, ReplicaGrows-begin_phase,
  ReplicaGrows-end_phase, ReplicaGrows-apply_value,
}

module _ (R : RocksDb) (null_text : String) (stubs : ℕ) (Called : ℤ → String → Type 0) where
  abbrev Replica : Type 0
  Replica = PaxosImpl (RocksDbWrapper R)

  abbrev CellGrows : Cluster (RocksDbWrapper R) → Cluster (RocksDbWrapper R) → Type 0
  CellGrows cell cell' = Grows ReplicaGrows cell cell'

  CellGrows-place :
      (w : World R) (self : String) (s t : Replica)
      → lookup self w.cell ≡ some s
      → ReplicaGrows s t
      → CellGrows w.cell (place self t w).cell
  CellGrows-place w self s t at grows =
      Grows-insert ReplicaGrows ReplicaGrows-refl self t w.cell
        (λ other found. subst (λ r. ReplicaGrows r t) (ground (arith, at, found)) grows)

  CellGrows-same : (w : World R) → CellGrows w.cell w.cell
  CellGrows-same w = Grows-refl ReplicaGrows ReplicaGrows-refl w.cell

  CellGrows-Step : {w u : World R} → Step R null_text stubs Called w u → CellGrows w.cell u.cell
  CellGrows-Step (turns {w = w} {s = s} {t = t} self at turn) =
      CellGrows-place w self s t at (ReplicaGrows-Turn turn)
  CellGrows-Step (starts {w = w} thread self v seq my_view at may asked) = CellGrows-same w
  CellGrows-Step (admits {w = w} thread p at is found) = CellGrows-same w
  CellGrows-Step (picks {w = w} thread p at is found) = CellGrows-same w
  CellGrows-Step (begins {w = w} {s = s} thread p at is found) =
      CellGrows-place w p.self s _ found (ReplicaGrows-begin_phase p s)
  CellGrows-Step (asks {w = w} thread p number g request at is same named) = CellGrows-same w
  CellGrows-Step (promises {w = w} {s = s} self request d slot asked at found) =
      CellGrows-place w self s _ at
        (ReplicaGrows-at request.seq slot _ s found (SlotGrows-promise null_text request d slot))
  CellGrows-Step (gathers {w = w} thread p number g request response at is sent same) =
      CellGrows-same w
  CellGrows-Step (exhausts {w = w} thread p number g at is) = CellGrows-same w
  CellGrows-Step (settles {w = w} {s = s} thread p g at is found) =
      CellGrows-place w p.self s _ found (ReplicaGrows-end_phase g p s)
  CellGrows-Step (proposes {w = w} thread p value t request at is seqs views values) =
      CellGrows-same w
  CellGrows-Step (votes {w = w} {s = s} self request d slot sent at found) =
      CellGrows-place w self s _ at
        (ReplicaGrows-at request.seq slot _ s found (SlotGrows-vote null_text request d slot))
  CellGrows-Step (counts {w = w} thread p value t request response at is sent same) =
      CellGrows-same w
  CellGrows-Step (joins {w = w} thread p value t at is) = CellGrows-same w
  CellGrows-Step (tells {w = w} thread p value request at is seqs values) = CellGrows-same w
  CellGrows-Step (learns {w = w} {s = s} self request slot sent at found) =
      CellGrows-place w self s _ at
        (ReplicaGrows-at request.seq slot _ s found (SlotGrows-decide request.value slot))
  CellGrows-Step (writes {w = w} {s = s} {t = t} self request sent at done) =
      CellGrows-place w self s t at (ReplicaGrows-apply_value R request.value s t done)
  CellGrows-Step (announces {w = w} self request at made) = CellGrows-same w
  CellGrows-Step (beats {w = w} {s = s} self request sent at) =
      CellGrows-place w self s _ at (ReplicaGrows-heartbeat request s)
  CellGrows-Step (absorbs {w = w} {s = s} self response sent at) =
      CellGrows-place w self s _ at (ReplicaGrows-absorb response s)

  -- Over any run, in whatever order the sections and the messages come, each replica is still there;
  -- its view, its highest accepted and its highest slot have not gone down and its lowest slot is as it
  -- was; each slot of its log is still in it, with a promise that is not smaller; and each decided slot
  -- is decided with the same value.
  pub ratchet :
      {w u : World R}
      → Reach R null_text stubs Called w u
      → (self : String) (s : Replica) → lookup self w.cell ≡ some s
      → (t : Replica) × ((lookup self u.cell ≡ some t) × ReplicaGrows s t)
  ratchet {w} here self s at = CellGrows-same w self s at
  ratchet (next run step) self s at =
      let (mid, (found, grown)) = ratchet run self s at in
      let (t, (found', grown')) = CellGrows-Step step self mid found in
      (t, (found', ReplicaGrows-trans s mid t grown grown'))
