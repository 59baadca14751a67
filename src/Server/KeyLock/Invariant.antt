-- ===== src/Server/KeyLock/Invariant.antt =====
-- What holds of the mutexes and the threads in every reachable state.
use text.Mathlib.TextEquality.{eq_iff}
use chubby.Prelude.{
  ℕ, suc, ◌<◌, String, ◌≡◌, refl, sym, ◌∙◌, inl, inr, Bool-cases, Option, Option-cases, none, some,
  arith, if◌then◌else◌, nat_beq,
}
use chubby.Prelude.Tests.{update}
use chubby.Prelude.Map.{Map, lookup, insert, lookup-insert, ◌==◌, string_eq, beq_refl}
use chubby.Server.KeyLock.{
  KeyLock, find_mutex, found_mutex, take_mutex, drop_mutex, Pc, outside, waiting, inside, leaving,
  Move, find, take, look, drop, Threads, Step, pick, start, Reach, here, later,
}

-- The mutex that a thread owns by where it stands: inside, that of its key.
unfoldable pub holds : Map String ℕ → Pc → Option ℕ
holds locks outside = none
holds locks (waiting key mutex) = none
holds locks (inside key) = lookup key locks
holds locks (leaving key mutex) = some mutex

-- The key of a thread with a pointer, and the pointer.
unfoldable pub points : Pc → Option (String × ℕ)
points outside = none
points (waiting key mutex) = some (key, mutex)
points (inside key) = none
points (leaving key mutex) = some (key, mutex)

-- Two keys never share a mutex, and a new mutex is none of the old ones; a pointer that a thread
-- carries is that of its key; the key of a thread that is inside has a mutex; and a mutex is owned
-- by exactly the thread that holds it by where it stands.
pub record IsSound (s : Threads) : Type 0 where
  pub distinct :
      (p q : String) (m : ℕ)
      → lookup p s.locks.lock_map ≡ some m
      → lookup q s.locks.lock_map ≡ some m
      → p ≡ q
  pub below : (p : String) (m : ℕ) → lookup p s.locks.lock_map ≡ some m → m < s.locks.next
  pub pointer :
      (i : ℕ) (p : String) (m : ℕ)
      → points (s.pc i) ≡ some (p, m)
      → lookup p s.locks.lock_map ≡ some m
  pub known :
      (i : ℕ) (p : String) → s.pc i ≡ inside p → (m : ℕ) × (lookup p s.locks.lock_map ≡ some m)
  pub owns : (i m : ℕ) → holds s.locks.lock_map (s.pc i) ≡ some m → s.locks.owner m ≡ some i
  pub owned : (i m : ℕ) → s.locks.owner m ≡ some i → holds s.locks.lock_map (s.pc i) ≡ some m

start-IsSound : IsSound start
unfolding holds points lookup
start-IsSound = record {
  distinct = λ p q m h. ground arith;
  below = λ p m h. ground arith;
  pointer = λ i p m h. ground arith;
  known = λ i p h. ground arith;
  owns = λ i m h. ground arith;
  owned = λ i m h. ground arith;
}

-- A thread that copies the pointer of its key, and a key that is given a new mutex.
aim-IsSound :
    (key : String) (mutex i : ℕ) (s : Threads)
    → IsSound s
    → s.pc i ≡ outside
    → lookup key s.locks.lock_map ≡ some mutex
    → IsSound (record { locks = s.locks; pc = update s.pc i (waiting key mutex) })
unfolding holds points
aim-IsSound key mutex i s v at found = record {
  distinct = v.distinct;
  below = v.below;
  pointer = λ j p m h. ground (arith, v.pointer j p m);
  known = λ j p h. v.known j p (ground arith);
  owns = λ j m h. ground (arith, v.owns j m);
  owned = λ j m h. ground (arith, v.owned j m);
}

abbrev grown : String → KeyLock → KeyLock
grown key k = record k { lock_map = insert key k.next k.lock_map; next = suc k.next }

lookup-grown :
    (key q : String) (k : KeyLock)
    → lookup q (grown key k).lock_map ≡ (if key == q then some k.next else lookup q k.lock_map)
lookup-grown key q k = lookup-insert key q k.next k.lock_map

-- A new mutex changes what no thread holds, since the key of a thread that is inside has one.
holds-grown :
    (key : String) (k : KeyLock) (at : Pc)
    → lookup key k.lock_map ≡ none
    → ((p : String) → at ≡ inside p → (m : ℕ) × (lookup p k.lock_map ≡ some m))
    → holds (grown key k).lock_map at ≡ holds k.lock_map at
unfolding holds
holds-grown key k outside gone known = refl
holds-grown key k (waiting p m) gone known = refl
holds-grown key k (leaving p m) gone known = refl
holds-grown key k (inside p) gone known =
    let (m, found) = known p refl in ground (arith, lookup-grown key p k, eq_iff key p, found)

grown-IsSound :
    (key : String) (s : Threads)
    → IsSound s
    → lookup key s.locks.lock_map ≡ none
    → IsSound (record { locks = grown key s.locks; pc = s.pc })
unfolding holds points
grown-IsSound key s v gone =
    let at = λ (q : String). lookup-grown key q s.locks in
    let same = λ (j : ℕ). holds-grown key s.locks (s.pc j) gone (v.known j) in
    record {
      distinct = λ p q m h h'. ground (
        arith,
        at p,
        at q,
        eq_iff key p,
        eq_iff key q,
        v.distinct p q m,
        v.below p m,
        v.below q m,
      );
      below = λ p m h. ground (arith, at p, v.below p m);
      pointer = λ j p m h. ground (arith, at p, eq_iff key p, v.pointer j p m h);
      known =
          λ j p h. let (m, found) = v.known j p h in (m, ground (arith, at p, eq_iff key p, found));
      owns = λ j m h. v.owns j m (sym (same j) ∙ h);
      owned = λ j m h. same j ∙ v.owned j m h;
    }

find-IsSound :
    (key : String) (i : ℕ) (s : Threads)
    → IsSound s
    → s.pc i ≡ outside
    → IsSound (record {
      locks = (find_mutex key s.locks).1;
      pc = update s.pc i (waiting key (find_mutex key s.locks).0);
    })
unfolding find_mutex found_mutex
find-IsSound key i s v at = elim (Option-cases (lookup key s.locks.lock_map)) [
  | inl gone ↦ rw gone (
      aim-IsSound key s.locks.next i _ (grown-IsSound key s v gone) at
        (lookup-grown key key s.locks ∙ rw (beq_refl key)))
  | inr (mutex, found) ↦ rw found (aim-IsSound key mutex i s v at found)
]

take-IsSound :
    (key : String) (mutex i : ℕ) (s : Threads)
    → IsSound s
    → s.pc i ≡ waiting key mutex
    → s.locks.owner mutex ≡ none
    → IsSound (record { locks = take_mutex i mutex s.locks; pc = update s.pc i (inside key) })
unfolding holds points take_mutex
take-IsSound key mutex i s v at free =
    let mine = v.pointer i key mutex (rw (at, points)) in
    record {
      distinct = v.distinct;
      below = v.below;
      pointer = λ j p m h. ground (arith, v.pointer j p m);
      known = λ j p h. elim (Bool-cases (nat_beq i j)) [
        | inl me ↦ (mutex, ground arith)
        | inr not ↦ v.known j p (ground arith)
      ];
      owns = λ j m h. ground (arith, v.owns j m, v.owned j m);
      owned = λ j m h. ground (arith, v.owned j m, v.owns i m);
    }

drop-IsSound :
    (key : String) (mutex i : ℕ) (s : Threads)
    → IsSound s
    → s.pc i ≡ leaving key mutex
    → IsSound (record { locks = drop_mutex mutex s.locks; pc = update s.pc i outside })
unfolding holds points drop_mutex
drop-IsSound key mutex i s v at = record {
  distinct = v.distinct;
  below = v.below;
  pointer = λ j p m h. ground (arith, v.pointer j p m);
  known = λ j p h. v.known j p (ground arith);
  owns = λ j m h. ground (arith, v.owns j m, v.owned j m, v.owns i m);
  owned = λ j m h. ground (arith, v.owned j m, v.owns i m);
}

look-IsSound :
    (key : String) (mutex i : ℕ) (s : Threads)
    → IsSound s
    → s.pc i ≡ inside key
    → lookup key s.locks.lock_map ≡ some mutex
    → IsSound (record { locks = s.locks; pc = update s.pc i (leaving key mutex) })
unfolding holds points
look-IsSound key mutex i s v at found = record {
  distinct = v.distinct;
  below = v.below;
  pointer = λ j p m h. ground (arith, v.pointer j p m);
  known = λ j p h. v.known j p (ground arith);
  owns = λ j m h. ground (arith, v.owns j m);
  owned = λ j m h. ground (arith, v.owned j m);
}

Move-IsSound :
    (i : ℕ) (s : Threads) {from to : Pc} {k : KeyLock}
    → Move i s.locks from k to
    → s.pc i ≡ from
    → IsSound s
    → IsSound (record { locks = k; pc = update s.pc i to })
Move-IsSound i s (find key) at v = find-IsSound key i s v at
Move-IsSound i s (take {key} {mutex} free) at v = take-IsSound key mutex i s v at free
Move-IsSound i s (look {key} {mutex} found) at v = look-IsSound key mutex i s v at found
Move-IsSound i s (drop {key} {mutex}) at v = drop-IsSound key mutex i s v at

Step-IsSound : {s t : Threads} → Step s t → IsSound s → IsSound t
Step-IsSound {s} (pick i move) v = Move-IsSound i s move refl v

pub Reach-IsSound : {s : Threads} → Reach start s → IsSound s
Reach-IsSound here = start-IsSound
Reach-IsSound (later r step) = Step-IsSound step (Reach-IsSound r)
