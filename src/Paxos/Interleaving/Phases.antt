-- ===== src/Paxos/Interleaving/Phases.antt =====
-- A run of `StartOnNewSlot`, in src/paxos/paxos_server.cpp, handles values of its slot only, whatever
-- replies it is given and in whatever order.
use text.Mathlib.TextEquality.{eq_iff}
use chubby.Prelude.{
  ℕ, ◌≤◌, ◌/◌, String, Bool, true, false, some, none, ◌≡◌, refl, ◌⊎◌, inl, inr, arith,
  if◌then◌else◌, Bool-cases, Option-cases, of_branches, ltb, ◌||◌,
}
use chubby.Prelude.Int.{ℤ, ◌≤ℤ◌, ◌<ℤ◌, ltb_ℤ, leb_ℤ}
use chubby.Prelude.Map.{Map, lookup, int_eq, string_eq, ◌==◌}
use chubby.Prelude.Entries.{Entries, Entries-insert, Entries-lookup, Entries-map}
use chubby.Paxos.Slot.{PaxosSlot, is_decided}
use chubby.Paxos.Messages.{PrepareRequest, PrepareResponse}
use chubby.Paxos.Replica.{PaxosImpl}
use chubby.Paxos.Replica.Slots.{slot_at}
use chubby.Paxos.Acceptor.{promise, decided_value}
use chubby.Paxos.Proposer.{keep_highest}
use chubby.Paxos.Proposer.Phases.{
  Gathered, Votes, gather_start, gather, take_promise, see_decided, enough, same_number,
}
use chubby.Paxos.Interleaving.{
  Stage, called, admitted, choosing, returned, admit, pick_phase, preparing, prepared, accepting,
  telling, Proposal, begin_phase, end_phase, take_reply, after_votes,
}
use chubby.Paxos.Interleaving.Sound.{
  Voted, SlotSound, LogSound, SlotSound-slot_at, LogSound-store_slot,
}
use chubby.Paxos.Interleaving.Turns.{slots-raise_view}

-- `na_count_map`: no number has been counted twice, and none is above the highest.
abbrev pub CountedOnce : ℤ → ℤ → ℕ → Type 0
CountedOnce highest number count = (count ≤ 1) × (number ≤ℤ highest)

module _ (Called : ℤ → String → Type 0) where
  pub record GatheredSound (seq : ℤ) (g : Gathered) : Type 0 where
    pub voted : Voted Called seq g.highest_va
    pub known : g.is_decided_prep ≡ true → Called seq g.decided_v
    pub counted : Entries (CountedOnce g.highest_na) g.na_count_map

  -- A reply to a prepare request: the vote and the decided value that it gives.
  abbrev pub ReplySound : ℤ → PrepareResponse → Type 0
  ReplySound seq r = Voted Called seq r.v_a × ((r.value ≡ "") ⊎ Called seq r.value)

  abbrev pub StageSound : ℤ → Stage → Type 0
  StageSound seq called = Unit {0}
  StageSound seq admitted = Unit {0}
  StageSound seq choosing = Unit {0}
  StageSound seq returned = Unit {0}
  StageSound seq (preparing number g) = GatheredSound seq g
  StageSound seq (prepared g) = GatheredSound seq g
  StageSound seq (accepting value t) = Called seq value
  StageSound seq (telling value) = Called seq value

  Called_or_own :
      (seq : ℤ) (value v : String)
      → Voted Called seq value
      → Called seq v
      → Called seq (if value == "" then v else value)
  Called_or_own seq value v (inl none_yet) own = rw none_yet own
  Called_or_own seq value v (inr known) own =
      of_branches (Called seq) (value == "") v value own known

  decided_value_sound :
      (seq : ℤ) (slot : PaxosSlot)
      → SlotSound Called seq slot
      → (decided_value "" slot ≡ "") ⊎ Called seq (decided_value "" slot)
  decided_value_sound seq slot sound = elim (Bool-cases (is_decided slot.status)) [
    | inl done ↦ rw done (inr (sound.decision done))
    | inr open_ ↦ rw open_ (inl refl)
  ]

  pub ReplySound-promise :
      (request : PrepareRequest) (d seq : ℤ) (slot : PaxosSlot)
      → SlotSound Called seq slot
      → ReplySound seq (promise "" request d slot).0
  unfolding promise
  ReplySound-promise request d seq slot sound =
      let reply : Voted Called seq slot.v_a
          × ((decided_value "" slot ≡ "") ⊎ Called seq (decided_value "" slot)) =
        (sound.voted, decided_value_sound seq slot sound) in
      of_branches (λ (result : PrepareResponse × PaxosSlot). ReplySound seq result.0)
        (ltb_ℤ slot.n_p request.proposal_number) _ _ reply reply

  -- A number that is above the highest has not been counted yet.
  fresh_number :
      (highest number : ℤ) (m : Map ℤ ℕ)
      → highest <ℤ number
      → Entries (CountedOnce highest) m
      → lookup number m ≡ none
  fresh_number highest number m newer counted = elim (Option-cases (lookup number m)) [
    | inl missing ↦ missing
    | inr (count, found) ↦
        let bound = Entries-lookup (CountedOnce highest) number count m counted found in
        absurd (omega arith)
  ]

  take_promise-GatheredSound :
      (seq : ℤ) (r : PrepareResponse) (g : Gathered)
      → ReplySound seq r
      → GatheredSound seq g
      → GatheredSound seq (take_promise r g)
  unfolding take_promise
  take_promise-GatheredSound seq r g reply sound = elim (Bool-cases (ltb_ℤ g.highest_na r.n_a)) [
    | inl newer ↦ rw newer (record {
      voted = reply.0;
      known = sound.known;
      counted =
          Entries-insert (CountedOnce r.n_a) r.n_a _ g.na_count_map
            (rw (fresh_number g.highest_na r.n_a g.na_count_map (ground arith) sound.counted)
              (ground arith))
            (Entries-map (CountedOnce g.highest_na) (CountedOnce r.n_a)
              (λ number count old. (old.0, ground arith)) g.na_count_map sound.counted);
    })
    | inr older ↦
        rw older (record { voted = sound.voted; known = sound.known; counted = sound.counted })
  ]

  module _ (stubs : ℕ) (several : 2 ≤ stubs) where
    seldom :
        (seq : ℤ) (g : Gathered) → GatheredSound seq g → ltb (stubs / 2) (same_number g) ≡ false
    seldom seq g sound = elim (Option-cases (lookup g.highest_na g.na_count_map)) [
      | inl missing ↦ rw missing (ground arith)
      | inr (count, found) ↦
          let bound =
            Entries-lookup (CountedOnce g.highest_na) g.highest_na count g.na_count_map
              sound.counted found in
          rw found (ground arith)
    ]

    see_decided-GatheredSound :
        (seq : ℤ) (r : PrepareResponse) (g : Gathered)
        → ReplySound seq r
        → GatheredSound seq g
        → GatheredSound seq (see_decided stubs r g).0
    unfolding see_decided
    see_decided-GatheredSound seq r g reply sound = elim (Bool-cases (r.value == "")) [
      | inl silent ↦ rw (silent, seldom seq g sound) sound
      | inr speaks ↦ rw speaks (record {
        voted = sound.voted;
        known = λ e. elim reply.1 [
          | inl silent ↦ absurd (ground (arith, eq_iff r.value ""))
          | inr known ↦ known
        ];
        counted = sound.counted;
      })
    ]

    gather-GatheredSound :
        (seq : ℤ) (r : PrepareResponse) (g : Gathered)
        → ReplySound seq r
        → GatheredSound seq g
        → GatheredSound seq (gather stubs (some r) g).0
    unfolding gather
    gather-GatheredSound seq r g reply sound =
        of_branches (λ (result : Gathered × Bool). GatheredSound seq result.0) (r.status == "OK") _
          _
          (see_decided-GatheredSound seq r (take_promise r g) reply
            (take_promise-GatheredSound seq r g reply sound))
          sound

    pub StageSound-take_reply :
        (seq number : ℤ) (r : PrepareResponse) (g : Gathered)
        → ReplySound seq r
        → GatheredSound seq g
        → StageSound seq (take_reply stubs number r g)
    unfolding take_reply
    StageSound-take_reply seq number r g reply sound =
        let more = gather-GatheredSound seq r g reply sound in
        of_branches (StageSound seq)
          ((gather stubs (some r) g).1 || enough stubs (gather stubs (some r) g).0) _ _ more more

  pub StageSound-after_votes :
      (seq : ℤ) (value : String) (t : Votes)
      → Called seq value
      → StageSound seq (after_votes value t)
  unfolding after_votes
  StageSound-after_votes seq value t own = of_branches (StageSound seq) t.is_decided_acc _ _ tt own

  gather_start-GatheredSound :
      (seq n : ℤ) (v : String) → Called seq v → GatheredSound seq (gather_start v n)
  unfolding gather_start
  gather_start-GatheredSound seq n v own = record {
    voted = inr own;
    known = λ e. absurd (ground arith);
    counted = tt;
  }

  module _ {Disk : Type 0} where
    -- What a section of the run leaves: a stage and a replica.
    abbrev Left : ℤ → Stage × PaxosImpl Disk → Type 0
    Left seq result = StageSound seq result.0 × LogSound Called result.1

    pub StageSound-admit : (p : Proposal) (s : PaxosImpl Disk) → StageSound p.seq (admit p s)
    unfolding admit
    StageSound-admit p s =
        of_branches (StageSound p.seq) (is_decided (slot_at s p.seq).status || s.is_dead) _ _ tt tt

    pub StageSound-pick_phase :
        (p : Proposal) (s : PaxosImpl Disk) → Called p.seq p.v → StageSound p.seq (pick_phase p s)
    unfolding pick_phase
    StageSound-pick_phase p s own =
        of_branches (StageSound p.seq) (leb_ℤ p.seq s.highest_accepted_seq) _ _ tt own

    pub begin_phase-LogSound :
        (p : Proposal) (s : PaxosImpl Disk)
        → Called p.seq p.v
        → LogSound Called s
        → StageSound p.seq (begin_phase p s).0 × LogSound Called (begin_phase p s).1
    unfolding begin_phase
    begin_phase-LogSound p s own sound =
        let slot = slot_at s p.seq in
        let old = SlotSound-slot_at Called p.seq s sound in
        (
          gather_start-GatheredSound p.seq slot.highest_n p.v own,
          LogSound-store_slot Called p.seq _ s
              (record { voted = old.voted; decision = old.decision }) sound,
        )

    pub end_phase-LogSound :
        (g : Gathered) (p : Proposal) (s : PaxosImpl Disk)
        → Called p.seq p.v
        → GatheredSound p.seq g
        → LogSound Called s
        → StageSound p.seq (end_phase g p s).0 × LogSound Called (end_phase g p s).1
    unfolding end_phase keep_highest
    end_phase-LogSound g p s own gathered sound =
        let old = SlotSound-slot_at Called p.seq s sound in
        let s' = keep_highest p.seq g.highest_n s in
        let kept : LogSound Called s' =
          LogSound-store_slot Called p.seq _ s
            (record { voted = old.voted; decision = old.decision }) sound in
        of_branches (Left p.seq) (ltb_ℤ p.my_view g.highest_na) _ _
          (tt, rw (slots-raise_view g.highest_na s') kept)
          (elim (Bool-cases g.is_decided_prep) [
            | inl done ↦ rw done (gathered.known done, kept)
            | inr open_ ↦ rw open_ (Called_or_own p.seq g.highest_va p.v gathered.voted own, kept)
          ])
