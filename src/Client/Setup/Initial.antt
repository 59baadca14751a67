-- ===== src/Client/Setup/Initial.antt =====
-- What `chubby_init` and `chubby_shutdown` leave a client with.
use chubby.Prelude.{
  ℕ, ◌<◌, zero, suc, String, ◌≡◌, refl, sym, ap, ◌∙◌, inl, inr, Bool, true, false, Bool-cases, none,
  some, List, [], ◌∷◌, if◌then◌else◌, arith, ltb,
}
use chubby.Prelude.Int.{ℤ, pos, negsuc}
use chubby.Prelude.Map.{Map, lookup, insert, lookup-insert, string_eq}
use chubby.Server.{AcquireLockRequest, LockResponse}
use chubby.Client.{ClientLib, Answer, chubby_lock}
use chubby.Client.Setup.{
  Channel, Session, listed, read_config, make_stubs, status_of, chubby_init, reset_stubs,
  chubby_shutdown, stub_at,
}
use chubby.Client.Setup.Stubs.{
  configured, connects, some_usable, make_stubs-count, make_stubs-lookup, read_config-usable,
  read_config-listed, read_config-lookup,
}

status_of_lem : (n : ℕ) → status_of n ≡ (if ltb 0 n then pos 0 else negsuc 0)
status_of_lem zero = refl
status_of_lem (suc n) = ground arith

module _ (dial : String → Channel) (current_time : ℕ) (lines : List String) (s : Session)
    (no_cells : s.chubby_cells ≡ []) (no_stubs : s.chubby_map ≡ []) where
  abbrev Initial : ℤ × Session → Type 0
  Initial (status, s') =
      (status ≡ (if connects dial lines then pos 0 else negsuc 0))
      × ((a : String)
          → lookup a s'.chubby_map ≡ (if configured a lines then some (dial a).stub else none))

  listed_lem : (a : String) → listed a (read_config lines s).chubby_cells ≡ configured a lines
  unfolding listed
  listed_lem a = read_config-listed a lines s ∙ rw no_cells (ground arith)

  usable_lem : some_usable dial (read_config lines s).chubby_cells ≡ connects dial lines
  unfolding some_usable
  usable_lem = read_config-usable dial lines s ∙ rw no_cells (ground arith)

  mapped_lem :
      (a : String)
      → lookup a (read_config lines s).chubby_map
        ≡ (if configured a lines then some false else none)
  unfolding lookup
  mapped_lem a = read_config-lookup a lines s ∙ rw no_stubs refl

  at_cells :
      (cells : List String)
      → (read_config lines s).chubby_cells ≡ cells
      → Initial (chubby_init dial current_time (some lines) s)
  unfolding chubby_init listed some_usable
  at_cells [] e =
      let quiet : connects dial lines ≡ false = sym usable_lem ∙ rw e refl in
      rw (e, chubby_init, quiet)
        (
          refl,
          λ a.
              let absent : configured a lines ≡ false = sym (listed_lem a) ∙ rw e refl in
              mapped_lem a ∙ rw absent refl,
        )
  at_cells (cell ∷ cells) e =
      let known = (read_config lines s).chubby_map in
      let cells' = cell ∷ cells in
      let usable : some_usable dial cells' ≡ connects dial lines =
        ap (some_usable dial) (sym e) ∙ usable_lem in
      let count : ltb 0 (make_stubs dial cells' 0 known).0 ≡ connects dial lines =
        make_stubs-count dial cells' 0 known ∙ ground (arith, usable) in
      rw (e, chubby_init)
        (
          status_of_lem (make_stubs dial cells' 0 known).0
              ∙ ap (λ b. if b then pos 0 else negsuc 0) count,
          λ a.
              let member : listed a cells' ≡ configured a lines =
                ap (listed a) (sym e) ∙ listed_lem a in
              make_stubs-lookup dial a cells' 0 known ∙ ground (arith, member, mapped_lem a),
        )

  -- On a client with no cells and no stubs, `chubby_init` with a config file that opens gives 0 if
  -- some line that is not empty gives a usable channel, and -1 otherwise. Afterwards the addresses
  -- in the map are those of the lines that are not empty, each with the stub, or the null pointer,
  -- that gRPC gave for it, if any line is not empty.
  pub chubby_init_lem :
      let (status, s') = chubby_init dial current_time (some lines) s in
      (status ≡ (if connects dial lines then pos 0 else negsuc 0))
      × ((a : String)
          → lookup a s'.chubby_map ≡ (if configured a lines then some (dial a).stub else none))
  chubby_init_lem = at_cells (read_config lines s).chubby_cells refl

reset_stubs-lookup :
    (a : String) (cells : List String) (stubs : Map String Bool)
    → lookup a (reset_stubs cells stubs) ≡ (if listed a cells then some false else lookup a stubs)
unfolding reset_stubs listed
reset_stubs-lookup a [] stubs = refl
reset_stubs-lookup a (cell ∷ rest) stubs =
    reset_stubs-lookup a rest (insert cell false stubs)
    ∙ rw (lookup-insert cell a false stubs) (ground arith)

module _ (dial : String → Channel) (current_time : ℕ) (lines : List String) (s : Session)
    (no_cells : s.chubby_cells ≡ []) (no_stubs : s.chubby_map ≡ [])
    (server : String → AcquireLockRequest → Answer LockResponse) (now : ℕ)
    (path mode : String) where
  init_cells :
      (a : String)
      → listed a (chubby_init dial current_time (some lines) s).1.chubby_cells ≡ configured a lines
  unfolding chubby_init
  init_cells a = at_cells (read_config lines s).chubby_cells refl
    where
      at_cells :
          (cells : List String)
          → (read_config lines s).chubby_cells ≡ cells
          → listed a (chubby_init dial current_time (some lines) s).1.chubby_cells
            ≡ configured a lines
      at_cells [] e = rw (e, chubby_init) (listed_lem dial current_time lines s no_cells no_stubs a)
      at_cells (cell ∷ cells) e =
          rw (e, chubby_init) (listed_lem dial current_time lines s no_cells no_stubs a)

  -- After `chubby_shutdown`, the pointer for every address is null, and a call of `chubby_lock` that
  -- the client still takes, with its lease and out of jeopardy, has no result.
  pub chubby_lock_after_shutdown :
      (library : ClientLib)
      → library.accept_requests ≡ true
      → now < library.client_lease_timeout
      → chubby_lock
          (stub_at server (chubby_shutdown (chubby_init dial current_time (some lines) s).1).1)
          now
          path
          mode
          library
        ≡ none
  unfolding chubby_lock stub_at chubby_shutdown
  chubby_lock_after_shutdown library open_ leased =
      let s' = (chubby_init dial current_time (some lines) s).1 in
      let leader = library.current_leader in
      let left : lookup leader (reset_stubs s'.chubby_cells s'.chubby_map)
          ≡ (if configured leader lines then some false else none) =
        reset_stubs-lookup leader s'.chubby_cells s'.chubby_map
        ∙ ground (
          arith,
          init_cells leader,
          (chubby_init_lem dial current_time lines s no_cells no_stubs).1 leader,
        ) in
      elim (Bool-cases (configured leader lines)) [
        | inl known ↦
            let gone : lookup leader (reset_stubs s'.chubby_cells s'.chubby_map) ≡ some false =
              left ∙ rw known refl in
            ground (arith, open_, leased, gone)
        | inr unknown ↦
            let gone : lookup leader (reset_stubs s'.chubby_cells s'.chubby_map) ≡ none =
              left ∙ rw unknown refl in
            ground (arith, open_, leased, gone)
      ]
