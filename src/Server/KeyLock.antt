-- ===== src/Server/KeyLock.antt =====
-- `KeyLock` of src/server/server.cpp, the mutexes of the paths, and the threads of the handlers that
-- use it, a shared access at a time.
pub mod Invariant
pub mod Exclusive
use chubby.Prelude.{ℕ, suc, String, ◌≡◌, Option, none, some, List, []}
use chubby.Prelude.Tests.{update}
use chubby.Prelude.Map.{Map, lookup, insert, string_eq}

-- `lock_map`, with the mutex that each `shared_ptr` points to as a number; the thread that owns each
-- mutex; and the number that the next `make_shared` gives. No mutex is ever destroyed, since nothing
-- is erased from `lock_map`.
pub record KeyLock : Type 0 where
  pub lock_map : Map String ℕ
  pub owner : ℕ → Option ℕ
  pub next : ℕ

-- The section of `lock` under `map_mutex`, with the pointer that it copies.
pub found_mutex : String → Option ℕ → KeyLock → ℕ × KeyLock
found_mutex key (some mutex) k = (mutex, k)
found_mutex key none k =
    (k.next, record k { lock_map = insert key k.next k.lock_map; next = suc k.next })

unfoldable pub find_mutex : String → KeyLock → ℕ × KeyLock
unfolding found_mutex
find_mutex key k = found_mutex key (lookup key k.lock_map) k

-- `key_mutex->lock()` when it returns, and `key_mutex->unlock()`.
unfoldable pub take_mutex : ℕ → ℕ → KeyLock → KeyLock
take_mutex thread mutex k = record k { owner = update k.owner mutex (some thread) }

unfoldable pub drop_mutex : ℕ → KeyLock → KeyLock
drop_mutex mutex k = record k { owner = update k.owner mutex none }

-- Where a thread stands: outside; in `lock` with the pointer copied; between `lock` and `unlock`; and
-- in `unlock` with the pointer copied.
pub data Pc : Type 0 where
  outside : Pc
  waiting : String → ℕ → Pc
  inside : String → Pc
  leaving : String → ℕ → Pc

-- A step of a thread. `unlock` looks the key up with `lock_map[key]`, and goes on only if that gives a
-- pointer that is not null.
pub data Move (i : ℕ) (k : KeyLock) : Pc → KeyLock → Pc → Type 0 where
  find : (key : String) → Move i k outside (find_mutex key k).1 (waiting key (find_mutex key k).0)
  take :
      {key : String} {mutex : ℕ}
      → k.owner mutex ≡ none
      → Move i k (waiting key mutex) (take_mutex i mutex k) (inside key)
  look :
      {key : String} {mutex : ℕ}
      → lookup key k.lock_map ≡ some mutex
      → Move i k (inside key) k (leaving key mutex)
  drop : {key : String} {mutex : ℕ} → Move i k (leaving key mutex) (drop_mutex mutex k) outside

-- Any number of threads; each stands somewhere.
pub record Threads : Type 0 where
  pub locks : KeyLock
  pub pc : ℕ → Pc

pub data Step (s : Threads) : Threads → Type 0 where
  pick :
      (i : ℕ) {k : KeyLock} {p : Pc}
      → Move i s.locks (s.pc i) k p
      → Step s (record { locks = k; pc = update s.pc i p })

abbrev pub start : Threads
start = record { locks = record { lock_map = []; owner = λ _. none; next = 0 }; pc = λ _. outside }

pub data Reach (s : Threads) : Threads → Type 0 where
  here : Reach s s
  later : {t u : Threads} → Reach s t → Step t u → Reach s u
