-- ===== src/Startup.antt =====
-- The composition root (store-engine/src/index.ts) and the sweeper (store-engine/src/store/ExpirySweeper.ts):
-- what the store goes through before the server listens, and how the process ends. Directories, the
-- console and the listening itself are input and output.
pub mod Boot
use mini_store.Prelude.{
  ℕ, ◌+◌, Bool, true, false, Option, none, some, List, [], ◌∷◌, ◌++◌, if◌then◌else◌, Text,
}
use mini_store.Protocol.Tokens.{trim}
use mini_store.PubSub.{Connection}
use mini_store.Store
use mini_store.Store.{InMemoryStore}
use mini_store.Store.Keyspace
use mini_store.Handler.{CommandHandler}
use mini_store.Handler.Lines.{handle_line}
use mini_store.Persistence
use mini_store.Persistence.{PersistenceManager, File}

-- `new CommandHandler(store)`
abbrev pub replay_handler : InMemoryStore → CommandHandler
replay_handler s = record {
  store = s;
  persistence = none;
  aof = none;
  aof_throws = false;
  rewrite_in_progress = false;
  pub_sub = none;
  requirepass = none;
  disabled_commands = [];
  transactions = [];
  authenticated = [];
  recent_activity = [];
  started = [];
}

-- A line of the append-only file, unless it is blank; the reply goes to a connection that drops it.
abbrev pub replay_line :
    (trimmed line : Text) → Connection → ℕ × CommandHandler → ℕ × CommandHandler
replay_line [] line replay (count, h) = (count, h)
replay_line (c ∷ t) line replay (count, h) = (count + 1, (handle_line line replay h).1)

unfoldable pub replay : List Text → Connection → ℕ × CommandHandler → ℕ × CommandHandler
replay [] connection state = state
replay (line ∷ lines) connection state =
    replay lines connection (replay_line (trim line) line connection state)

abbrev pub replay_if_any : Option (List Text) → Connection → InMemoryStore → ℕ × InMemoryStore
replay_if_any none connection s = (0, s)
replay_if_any (some lines) connection s =
    let (count, h) = replay lines connection (0, replay_handler s) in (count, h.store)

abbrev pub manager : InMemoryStore → File → PersistenceManager
manager s file = record {
  store = s;
  running = false;
  last_saved_dirty_count = 0;
  save_in_progress = false;
  pending = none;
  file = file;
}

abbrev pub replay_onto :
    Option ℕ × PersistenceManager → Option (List Text) → Connection → Option InMemoryStore
replay_onto (none, p) aof connection = none
replay_onto (some restored, p) aof connection = some (replay_if_any aof connection p.store).1

abbrev pub boot_from :
    Option InMemoryStore → File → Option (List Text) → Connection → Option InMemoryStore
boot_from none file aof connection = none
boot_from (some s) file aof connection =
    replay_onto (Persistence.restore (manager s file)) aof connection

-- The store with which the server starts: the dump, if there is one, and the append-only file, if
-- there is one, on top. `none` is the error of the store's constructor or of `restore`, with which
-- the process ends.
unfoldable pub boot :
    (max_keys now : ℕ) → File → Option (List Text) → Connection → Option InMemoryStore
unfolding replay
boot max_keys now file aof connection = boot_from (Store.create max_keys now) file aof connection

-- `ExpirySweeper`: whether its timer runs, and the store that it drives.
pub record ExpirySweeper : Type 0 where
  pub store : InMemoryStore
  pub sample_size : ℕ
  pub running : Bool

unfoldable pub start : ExpirySweeper → ExpirySweeper
start w = if w.running then w else record w { running = true }

unfoldable pub stop : ExpirySweeper → ExpirySweeper
stop w = if w.running then record w { running = false } else w

-- The timer's callback, which fires only while the timer is set.
unfoldable pub tick : ExpirySweeper → ExpirySweeper
tick w =
    if w.running then record w { store = (Keyspace.sweep_expired w.sample_size w.store).1 } else w

-- The steps of the shutdown, in order.
pub data Step : Type 0 where
  stop_sweeper stop_persistence stop_aof save_dump stop_stats close_server : Step
  exit : ℕ → Step

pub record Process : Type 0 where
  pub shutting_down : Bool
  pub steps : List Step

-- `close_fails` is whether closing the server throws; the errors of the others are logged.
unfoldable pub shutdown : (close_fails : Bool) → Process → Process
shutdown close_fails p = if p.shutting_down then p else record {
  shutting_down = true;
  steps =
      p.steps
      ++ stop_sweeper
        ∷ stop_persistence
        ∷ stop_aof
        ∷ save_dump
        ∷ stop_stats
        ∷ close_server
        ∷ exit (if close_fails then 1 else 0)
        ∷ [];
}
