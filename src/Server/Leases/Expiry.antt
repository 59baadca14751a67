-- ===== src/Server/Leases/Expiry.antt =====
-- What a pass over the leases does to the holds. All its writes go to the one slot that the server
-- stands at.
use text.Mathlib.TextEquality.{eq_iff}
use chubby.Prelude.{
  ℕ, String, ◌≡◌, refl, sym, ap, ◌∙◌, ◌⊎◌, inl, inr, Bool, true, false, Option, some, none, arith,
  if◌then◌else◌, Bool-cases, List, [], ◌∷◌, leb, ◌||◌,
}
use chubby.Prelude.Map.{Map, lookup, erase, lookup-erase, ◌==◌, string_eq, int_eq, beq_refl}
use chubby.Paxos.KeyValue.{key_value_of}
use chubby.Paxos.KeyValue.RoundTrip.{lacks}
use chubby.Server.Service.{Consensus, Applies}
use chubby.Server.{ChubbyImpl, World, put_mode}
use chubby.Server.Leases.{
  expired, erase_all, keys_of, free_key, free_keys, release_locks_for_client, release_locks_for_all,
  expire_leases,
}

abbrev pub PlainKeys : List String → Type 0
PlainKeys [] = Unit {0}
PlainKeys (path ∷ rest) = (lacks b'#' path ≡ true) × PlainKeys rest

abbrev pub PlainLocks : List (String × String) → Type 0
PlainLocks [] = Unit {0}
PlainLocks ((path, client) ∷ rest) = (lacks b'#' path ≡ true) × PlainLocks rest

pub keys_of-PlainKeys :
    (client : String) (locks : List (String × String))
    → PlainLocks locks
    → PlainKeys (keys_of client locks)
unfolding keys_of
keys_of-PlainKeys client [] plain = tt
keys_of-PlainKeys client ((path, owner) ∷ rest) plain = elim (Bool-cases (owner == client)) [
  | inl hit ↦ rw hit (plain.0, keys_of-PlainKeys client rest plain.1)
  | inr miss ↦ rw miss (keys_of-PlainKeys client rest plain.1)
]

module _ (P : Consensus) where
  -- The holds are as they were, or the slot has been decided and one path has been set free.
  pub FreesOne : ChubbyImpl → P.State → P.State → Type 0
  FreesOne c p p' =
      ((j : String) → P.get p' j ≡ P.get p j)
      ⊎ ((P.knows p' c.slot_number ≡ true)
          × ((path : String) × ((j : String)
                → P.get p' j ≡ (if path == j then some "FREE" else P.get p j))))

  -- A state of the service that a pass has reached, with the server's own state untouched.
  Passes : ChubbyImpl → P.State → World P → Type 0
  Passes c p w = (w.0 ≡ c) × FreesOne c p w.1

module _ (P : Consensus) where
  pub free_key-cases :
      (path : String) (c : ChubbyImpl) (q : P.State)
      → (free_key P path (c, q) ≡ (c, q))
        ⊎ (free_key P path (c, q) ≡ (c, P.start c.slot_number (key_value_of path "FREE") q))
  unfolding free_key put_mode
  free_key-cases path c q = ground arith

module _ (P : Consensus) (applies : Applies P) (c : ChubbyImpl) (p : P.State) where
  free-FreesOne :
      (path : String) (q : P.State)
      → lacks b'#' path ≡ true
      → FreesOne P c p q
      → FreesOne P c p (P.start c.slot_number (key_value_of path "FREE") q)
  unfolding FreesOne
  free-FreesOne path q plain (inr (known, (freed, holds))) = inr (
    applies.decides c.slot_number c.slot_number _ q ∙ rw (beq_refl c.slot_number),
    (freed, λ j. applies.settled c.slot_number _ j q known ∙ holds j),
  )
  free-FreesOne path q plain (inl same) = elim (Bool-cases (P.knows q c.slot_number)) [
    | inl known ↦ inl (λ j. applies.settled c.slot_number _ j q known ∙ same j)
    | inr fresh ↦ inr (
      applies.decides c.slot_number c.slot_number _ q ∙ rw (beq_refl c.slot_number),
      (path, λ j. applies.applied c.slot_number path "FREE" j q fresh plain ∙ rw (same j)),
    )
  ]

  free_key-Passes :
      (path : String) (w : World P)
      → lacks b'#' path ≡ true
      → Passes P c p w
      → Passes P c p (free_key P path w)
  unfolding Passes free_key put_mode
  free_key-Passes path (d, q) plain (same, frees) = elim (free_key-cases P path d q) [
    | inl kept ↦ rw kept (same, frees)
    | inr started ↦ rw (started, same) (refl, free-FreesOne path q plain frees)
  ]

  free_keys-Passes :
      (paths : List String) (w : World P)
      → PlainKeys paths
      → Passes P c p w
      → Passes P c p (free_keys P paths w)
  unfolding free_keys
  free_keys-Passes [] w plain passes = passes
  free_keys-Passes (path ∷ rest) w plain passes =
      free_keys-Passes rest _ plain.1 (free_key-Passes path w plain.0 passes)

  release_locks_for_all-Passes :
      (clients : List String) (w : World P)
      → PlainLocks c.client_lock_map
      → Passes P c p w
      → Passes P c p (release_locks_for_all P clients w)
  unfolding release_locks_for_all release_locks_for_client Passes
  release_locks_for_all-Passes [] w plain passes = passes
  release_locks_for_all-Passes (client ∷ rest) w plain passes =
      release_locks_for_all-Passes rest _ plain (
        free_keys-Passes (keys_of client w.0.client_lock_map) w
          (rw passes.0 (keys_of-PlainKeys client c.client_lock_map plain)) passes)

-- The keys of a map do not repeat.
unfoldable pub NoRepeat : Map String ℕ → Type 0
NoRepeat [] = Unit {0}
NoRepeat ((client, lease) ∷ rest) = (lookup client rest ≡ none) × NoRepeat rest

-- The lease has ended.
abbrev pub ended : ℕ → Option ℕ → Bool
ended now none = false
ended now (some lease) = leb lease now

unfoldable pub listed : String → List String → Bool
listed client [] = false
listed client (other ∷ rest) = other == client || listed client rest

pub listed-expired :
    (now : ℕ) (client : String) (leases : Map String ℕ)
    → NoRepeat leases
    → listed client (expired now leases) ≡ ended now (lookup client leases)
unfolding NoRepeat listed expired lookup
listed-expired now client [] distinct = refl
listed-expired now client ((other, lease) ∷ rest) distinct =
    let more = listed-expired now client rest distinct.1 in
    elim (Bool-cases (other == client)) [
      | inl hit ↦
          let gone : lookup client rest ≡ none =
            ap (λ k. lookup k rest) (sym ((eq_iff other client).0 hit)) ∙ distinct.0 in
          ground (arith, more, gone)
      | inr miss ↦ ground (arith, more)
    ]

pub lookup-erase_all :
    (clients : List String) (client : String) (leases : Map String ℕ)
    → lookup client (erase_all clients leases)
      ≡ (if listed client clients then none else lookup client leases)
unfolding listed erase_all
lookup-erase_all [] client leases = refl
lookup-erase_all (other ∷ rest) client leases =
    let here = lookup-erase other client leases in
    let more = lookup-erase_all rest client (erase other leases) in ground (arith, here, more)

module _ (P : Consensus) (applies : Applies P) where
  -- A pass over the leases, on a service that leaves decided slots alone, when no client has two leases
  -- and the paths that are held have no `#`: exactly the sessions whose lease has ended are gone; the notes of who holds what stay, also those of the sessions that ended; and
  -- at most one path is set free, however many paths those sessions hold.
  pub expire_leases_lem :
      (now : ℕ) (c : ChubbyImpl) (p : P.State)
      → NoRepeat c.client_lease_map
      → PlainLocks c.client_lock_map
      → let (c', p') = expire_leases P now (c, p) in
        ((client : String)
          → lookup client c'.client_lease_map ≡ (
              if ended now (lookup client c.client_lease_map)
              then none
              else lookup client c.client_lease_map))
        × (c'.client_lock_map ≡ c.client_lock_map)
        × (((j : String) → P.get p' j ≡ P.get p j)
            ⊎ ((path : String) × ((j : String)
                  → P.get p' j ≡ (if path == j then some "FREE" else P.get p j))))
  unfolding expire_leases Passes FreesOne
  expire_leases_lem now c p distinct plain =
      let clients = expired now c.client_lease_map in
      let c0 : ChubbyImpl = record c { client_lease_map = erase_all clients c.client_lease_map } in
      let (same, frees) =
        release_locks_for_all-Passes P applies c0 p clients (c0, p) plain (refl, inl (λ j. refl)) in
      (
        λ client. rw (
          same,
          lookup-erase_all clients client c.client_lease_map,
          listed-expired now client c.client_lease_map distinct,
        ),
        ap (λ d. d.client_lock_map) same,
        elim frees [ inl kept ↦ inl kept | inr (known, one) ↦ inr one ],
      )
