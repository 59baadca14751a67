-- ===== src/Client/Setup.antt =====
-- `chubby_init` and `chubby_shutdown` of client/client_interface.cpp: the addresses of the cell and
-- their stubs.
pub mod Stubs
pub mod Initial
use chubby.Prelude.{
  ℕ, zero, suc, ◌*◌, ◌%◌, ◌^◌, String, Bool, true, false, not, ◌&&◌, ◌||◌, Option, none, some, List,
  [], ◌∷◌, if◌then◌else◌,
}
use chubby.Prelude.Int.{ℤ, pos, negsuc}
use chubby.Prelude.Map.{Map, lookup, insert, ◌==◌, string_eq}
use chubby.Client.{ClientLib}

-- What gRPC makes of an address: whether `NewStub` gives a stub, and whether the state of the new
-- channel is other than shut down or a transient failure.
pub record Channel : Type 0 where
  pub stub : Bool
  pub usable : Bool

-- The library with its addresses, in the order in which their set is walked, and its pointers to
-- stubs: `false` is a null pointer.
pub record Session : Type 0 where
  pub chubby_cells : List String
  pub chubby_map : Map String Bool
  pub library : ClientLib

unfoldable pub listed : String → List String → Bool
listed address [] = false
listed address (cell ∷ rest) = cell == address || listed address rest

-- `chubby_cells.insert`
unfoldable pub insert_cell : String → List String → List String
unfolding listed
insert_cell address cells = if listed address cells then cells else address ∷ cells

-- The loop over the lines of the config file.
unfoldable pub read_config : List String → Session → Session
unfolding insert_cell
read_config [] s = s
read_config (server_address ∷ rest) s =
    let skipped = read_config rest s in
    let added = read_config rest (record s {
      chubby_cells = insert_cell server_address s.chubby_cells;
      chubby_map = insert server_address false s.chubby_map;
    }) in
    if not (server_address == "") then added else skipped

-- The loop over `chubby_cells`, with `num_servers_successful`.
unfoldable pub make_stubs :
    (String → Channel) → List String → ℕ → Map String Bool → ℕ × Map String Bool
make_stubs dial [] count stubs = (count, stubs)
make_stubs dial (address ∷ rest) count stubs =
    let channel = dial address in
    make_stubs dial rest (if channel.usable then suc count else count)
      (insert address channel.stub stubs)

abbrev pub status_of : ℕ → ℤ
status_of zero = negsuc 0
status_of (suc _) = pos 0

-- `chubby_init` at a time, in seconds; the lines are those of the config file, if it opens.
unfoldable pub chubby_init : (String → Channel) → ℕ → Option (List String) → Session → ℤ × Session
unfolding read_config make_stubs
chubby_init dial current_time none s = (negsuc 0, s)
chubby_init dial current_time (some lines) s =
    let s' = read_config lines s in
    elim s'.chubby_cells [
      | [] ↦ (negsuc 0, s')
      | cell ∷ cells ↦
          let (count, stubs) = make_stubs dial (cell ∷ cells) 0 s'.chubby_map in
          (
            status_of count,
            record s' {
              chubby_map = stubs;
              library = record s'.library { client_lease_timeout = current_time * 2 % 2 ^ 64 };
            },
          )
    ]

-- The loop of `chubby_shutdown`.
unfoldable pub reset_stubs : List String → Map String Bool → Map String Bool
reset_stubs [] stubs = stubs
reset_stubs (address ∷ rest) stubs = reset_stubs rest (insert address false stubs)

unfoldable pub chubby_shutdown : Session → ℤ × Session
unfolding reset_stubs
chubby_shutdown s =
    (pos 0, record s { chubby_map = reset_stubs s.chubby_cells s.chubby_map; chubby_cells = [] })

-- `*chubby_map[address]`, which `[]` makes a null pointer where there was none.
unfoldable pub stub_at {ℓ} : {A : Type ℓ} → (String → A) → Session → String → Option A
stub_at server s address = elim (lookup address s.chubby_map) [
  | none ↦ none
  | some false ↦ none
  | some true ↦ some (server address)
]
