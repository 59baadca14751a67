-- ===== src/Server/Leases/Sparing.antt =====
-- What a pass of `CheckAndExpireLeases`, in src/server/server.cpp, leaves of a path that none of the
-- expired clients is noted to hold, and how the lease map stays without repetition.
use text.Mathlib.TextEquality.{eq_iff}
use chubby.Prelude.{
  ℕ, String, ◌≡◌, ◌≢◌, refl, sym, ap, ◌∙◌, inl, inr, true, false, arith, Bool-cases, List, [], ◌∷◌,
}
use chubby.Prelude.Map.{
  Map, lookup, insert, erase, lookup-erase, lookup-insert, ◌==◌, string_eq, int_eq,
}
use chubby.Paxos.KeyValue.RoundTrip.{lacks}
use chubby.Server.Service.{Consensus, Applies}
use chubby.Server.{ChubbyImpl, World}
use chubby.Server.Leases.{
  erase_all, keys_of, free_key, free_keys, release_locks_for_client, release_locks_for_all,
}
use chubby.Server.Leases.Expiry.{
  NoRepeat, PlainLocks, PlainKeys, keys_of-PlainKeys, free_key-cases, listed,
}

-- Whoever else is noted to hold a path, it is not this one.
abbrev pub SoleOwner : String → String → List (String × String) → Type 0
SoleOwner path client [] = Unit {0}
SoleOwner path client ((held, owner) ∷ rest) =
    ((held ≡ path) → owner ≡ client) × SoleOwner path client rest

abbrev Lacks : String → List String → Type 0
Lacks path [] = Unit {0}
Lacks path (held ∷ rest) = (held ≢ path) × Lacks path rest

keys_of-Lacks :
    (path client other : String) (locks : List (String × String))
    → other ≢ client
    → SoleOwner path client locks
    → Lacks path (keys_of other locks)
unfolding keys_of
keys_of-Lacks path client other [] differs sole = tt
keys_of-Lacks path client other ((held, owner) ∷ rest) differs sole =
    let others = keys_of-Lacks path client other rest differs sole.1 in
    elim (Bool-cases (owner == other)) [
      | inl hit ↦ rw hit (λ e. differs (sym ((eq_iff owner other).0 hit) ∙ sole.0 e), others)
      | inr miss ↦ rw miss others
    ]

module _ (P : Consensus) (applies : Applies P) (path : String) where
  -- A pass leaves the server alone and the path as it is.
  unfoldable pub Spares : ChubbyImpl → P.State → World P → Type 0
  Spares c p w = (w.0 ≡ c) × (P.get w.1 path ≡ P.get p path)

  free_key-Spares :
      (held : String) (c : ChubbyImpl) (p : P.State) (w : World P)
      → held ≢ path
      → lacks b'#' held ≡ true
      → Spares c p w
      → Spares c p (free_key P held w)
  unfolding Spares
  free_key-Spares held c p (d, q) differs plain (same, kept) = elim (free_key-cases P held d q) [
    | inl unchanged ↦ rw unchanged (same, kept)
    | inr started ↦ rw started (
      same,
      elim (Bool-cases (P.knows q d.slot_number)) [
        | inl known ↦ applies.settled d.slot_number _ path q known ∙ kept
        | inr fresh ↦
            applies.applied d.slot_number held "FREE" path q fresh plain
            ∙ ground (arith, eq_iff held path, differs, kept)
      ],
    )
  ]

  free_keys-Spares :
      (keys : List String) (c : ChubbyImpl) (p : P.State) (w : World P)
      → Lacks path keys
      → PlainKeys keys
      → Spares c p w
      → Spares c p (free_keys P keys w)
  unfolding free_keys
  free_keys-Spares [] c p w lack plain spares = spares
  free_keys-Spares (held ∷ rest) c p w lack plain spares =
      free_keys-Spares rest c p _ lack.1 plain.1 (free_key-Spares held c p w lack.0 plain.0 spares)

  pub release_locks_for_all-Spares :
      (clients : List String) (client : String) (c : ChubbyImpl) (p : P.State) (w : World P)
      → Lacks client clients
      → SoleOwner path client c.client_lock_map
      → PlainLocks c.client_lock_map
      → Spares c p w
      → Spares c p (release_locks_for_all P clients w)
  unfolding release_locks_for_all release_locks_for_client Spares
  release_locks_for_all-Spares [] client c p w lack sole plain spares = spares
  release_locks_for_all-Spares (other ∷ rest) client c p w lack sole plain spares =
      release_locks_for_all-Spares rest client c p _ lack.1 sole plain (
        free_keys-Spares (keys_of other w.0.client_lock_map) c p w
          (rw spares.0 (keys_of-Lacks path client other c.client_lock_map lack.0 sole))
          (rw spares.0 (keys_of-PlainKeys other c.client_lock_map plain)) spares)

NoRepeat-erase : (client : String) (m : Map String ℕ) → NoRepeat m → NoRepeat (erase client m)
unfolding NoRepeat erase
NoRepeat-erase client [] distinct = tt
NoRepeat-erase client ((other, lease) ∷ rest) distinct =
    let more = NoRepeat-erase client rest distinct.1 in
    let gone = lookup-erase client other rest in
    elim (Bool-cases (other == client)) [
      | inl hit ↦ rw hit more
      | inr miss ↦ rw miss (ground (arith, gone, distinct.0), more)
    ]

pub NoRepeat-erase_all :
    (clients : List String) (m : Map String ℕ) → NoRepeat m → NoRepeat (erase_all clients m)
unfolding erase_all
NoRepeat-erase_all [] m distinct = distinct
NoRepeat-erase_all (client ∷ rest) m distinct =
    NoRepeat-erase_all rest (erase client m) (NoRepeat-erase client m distinct)

pub NoRepeat-insert :
    (client : String) (lease : ℕ) (m : Map String ℕ) → NoRepeat m → NoRepeat (insert client lease m)
unfolding NoRepeat insert lookup
NoRepeat-insert client lease [] distinct = (refl, tt)
NoRepeat-insert client lease ((other, old) ∷ rest) distinct =
    let gone = lookup-insert client other lease rest in
    elim (Bool-cases (other == client)) [
      | inl hit ↦
          rw hit
            (ap (λ k. lookup k rest) (sym ((eq_iff other client).0 hit)) ∙ distinct.0, distinct.1)
      | inr miss ↦ rw miss (
        ground (arith, gone, distinct.0, eq_iff other client, eq_iff client other),
        NoRepeat-insert client lease rest distinct.1,
      )
    ]

pub Lacks-of_listed :
    (client : String) (clients : List String) → listed client clients ≡ false → Lacks client clients
unfolding listed
Lacks-of_listed client [] e = tt
Lacks-of_listed client (other ∷ rest) e =
    (λ same. ground (arith, eq_iff other client), Lacks-of_listed client rest (ground arith))
