-- ===== src/Examples/Sessions.antt =====
-- `chubby_init` and `chubby_shutdown` at a config file with two addresses, one of them twice.
use chubby.Prelude.{String, ◌≡◌, refl, true, some, none, List, [], ◌∷◌, if◌then◌else◌, arith}
use chubby.Prelude.Int.{ℤ, pos, negsuc}
use chubby.Prelude.Map.{lookup, ◌==◌, string_eq}
use chubby.Server.{AcquireLockRequest, LockResponse}
use chubby.Client.{Answer, answered, chubby_lock}
use chubby.Client.Setup.{Channel, Session, chubby_init, chubby_shutdown, stub_at}
use chubby.Client.Setup.Stubs.{configured, connects}
use chubby.Client.Setup.Initial.{chubby_init_lem, chubby_lock_after_shutdown}
use chubby.Examples.Clients.{client, grant}

abbrev config : List String
config = "127.0.0.1:50051" ∷ "" ∷ "127.0.0.1:50052" ∷ "127.0.0.1:50051" ∷ []

-- Only the second address can be reached.
abbrev dial : String → Channel
dial address = record { stub = true; usable = address == "127.0.0.1:50052" }

abbrev new_session : Session
new_session = record { chubby_cells = []; chubby_map = []; library = client }

abbrev initialized : ℤ × Session
initialized = chubby_init dial 50 (some config) new_session

abbrev server : String → AcquireLockRequest → Answer LockResponse
server address request = answered grant

chubby_init_lem_example :
    (initialized.0 ≡ (if connects dial config then pos 0 else negsuc 0))
    × ((a : String)
        → lookup a initialized.1.chubby_map ≡ (if configured a config then some true else none))
chubby_init_lem_example = chubby_init_lem dial 50 config new_session refl refl

chubby_lock_after_shutdown_example :
    chubby_lock (stub_at server (chubby_shutdown initialized.1).1) 90 "p" "SHARED" client ≡ none
chubby_lock_after_shutdown_example =
    chubby_lock_after_shutdown dial 50 config new_session refl refl server 90 "p" "SHARED" client
      refl (omega arith)
