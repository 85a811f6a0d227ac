-- ===== src/Tests/Sockets.antt =====
-- Framing, the playground, the settings, the client and the append-only file on small examples.
use mini_store.Prelude.{
  ℕ, ◌+◌, ◌-◌, ◌*◌, ◌/◌, ◌≤◌, ◌≡◌, ◌++◌, refl, false, none, some, List, [], ◌∷◌, map, Text, pos,
  text_keyed, arith,
}
use mini_store.Protocol.Command.{codes}
use mini_store.Protocol.Numbers.{parse_signed_int}
use mini_store.TcpServer.{Socket, Outcome, reply, silent, feed}
use mini_store.TcpServer.Handled.{handled, texts_of, feed-handled}
use mini_store.TcpServer.Scanning.{scan, concat}
use mini_store.StatsServer.{connect, max_commands, on_messages}
use mini_store.StatsServer.RateLimit.{on_messages_bound}
use mini_store.Config.{
  Environment, ServerConfig, loaded, load_config, read_fsync, trimmed, disabled_from,
  parse_int_in_range, and_then, Fsync, always,
}
use mini_store.Config.Loading.{Settles, load_config-Settles}
use mini_store.Client
use mini_store.Protocol.ReplyParser
use mini_store.Client.Queue
use mini_store.Client.Queue.{Happening, sends, receives, ids, requests, known, on_close-run}
use mini_store.Startup.{boot}
use mini_store.Startup.Boot.{Starts, boot_configured}
use mini_store.Persistence.{missing}
use mini_store.AofWriter.{
  AofWriter, absent, opened, stale, idle, begin_rewrite, resume, lines_text, format,
}
use mini_store.AofWriter
use mini_store.AofWriter.Rewriting.{commands, writes, rewrite_lem}
use mini_store.AofWriter.Syncing.{Use, run, IsSynced, run-IsSynced}
use mini_store.Tests.Stores.{start}

-- A handler that keeps the lines and answers each with itself.
abbrev echo : Text → List Text → Outcome × List Text
echo line lines = (reply line, lines ++ line ∷ [])

abbrev socket : Socket (List Text)
socket = record { buffer = []; written = []; destroyed = false; handler = [] }

-- Two lines in two chunks, cut inside the second one.
abbrev chunks : List Text
chunks = codes "GET a\r\nGE" ∷ codes "T b\n" ∷ []

feed-handled_example :
    feed echo 16 chunks socket
    ≡ some (record (handled echo (texts_of (scan [] (concat chunks)).0) socket) {
      buffer = (scan [] (concat chunks)).1;
    })
unfolding scan
feed-handled_example = feed-handled echo 16 chunks socket refl refl (omega arith, (omega arith, tt))

-- A handler that counts its lines.
abbrev counting : Text → ℕ → Outcome × ℕ
counting line n = (silent, n + 1)

on_messages_bound_example :
    (on_messages counting ((100, codes "GET a") ∷ (900, codes "GET b") ∷ []) (connect 0 0)).handler
    ≤ 0 + max_commands * (1 + (2000 - 0) / 1001)
on_messages_bound_example =
    on_messages_bound counting (λ n. n) (λ line n. omega arith) 0 2000 0
      ((100, codes "GET a") ∷ (900, codes "GET b") ∷ []) (omega arith)
      (omega arith, (omega arith, tt))

-- No variable is set.
abbrev unset : Environment
unset name = none

abbrev plain_config : ServerConfig
plain_config = record {
  host = codes "127.0.0.1";
  port = pos 6380;
  max_line_bytes = pos 65536;
  max_keys = pos 1000;
  sweep_interval_ms = pos 1000;
  sweep_sample_size = pos 20;
  dump_path = codes "./data/dump.json";
  save_interval_ms = pos 60000;
  stats_port = pos 8090;
  aof_path = codes "./data/appendonly.aof";
  aof_fsync = Fsync.everysec;
  requirepass = none;
  dashboard_password = none;
  disabled_commands = [];
}

loads : load_config parse_signed_int unset ≡ loaded plain_config
unfolding load_config and_then read_fsync trimmed disabled_from parse_int_in_range
loads = refl

load_config-Settles_example : Settles parse_signed_int unset plain_config
load_config-Settles_example = load_config-Settles parse_signed_int unset plain_config loads

boot_configured_example :
    (max_keys : ℕ) × (plain_config.max_keys ≡ pos max_keys)
    × Starts missing (boot max_keys 5 missing (some (codes "SET a 1" ∷ [])) 0)
boot_configured_example =
    boot_configured parse_signed_int unset plain_config 5 missing (some (codes "SET a 1" ∷ [])) 0
      loads

-- Two requests and one reply, and the connection closes.
abbrev session : List Happening
session = sends 1 (codes "GET a") ∷ receives (codes "$x\r\n") ∷ sends 2 (codes "GET b") ∷ []

on_close-run_example :
    ids (Client.on_close (Queue.run (λ bytes. bytes) session Client.empty)).resolved
    ≡ known Client.empty ++ requests session
unfolding Queue.run Client.send Client.on_data Client.parse Client.dispatch ReplyParser.append
    ReplyParser.append_text ReplyParser.pump ReplyParser.cut_line ReplyParser.process_line
    ReplyParser.process_prefix
on_close-run_example = on_close-run (λ bytes. bytes) session Client.empty refl

-- A writer with its file open.
abbrev writer : AofWriter
writer = record {
  fsync_policy = always;
  fd = opened;
  ticking = false;
  dirty = false;
  rewrite_in_progress = false;
  rewrite_buffer = none;
  phase = idle;
  file = [];
  synced = [];
}

rewrite_lem_example :
    (resume (
      resume (
        writes
          (codes "DEL c" ∷ [])
          (resume (writes (codes "SET b 2" ∷ []) (begin_rewrite writer start).1))))).file
    ≡ lines_text (commands start) ++ AofWriter.concat (map format (codes "SET b 2" ∷ []))
rewrite_lem_example = rewrite_lem writer start refl refl (codes "SET b 2") [] (codes "DEL c" ∷ [])

writer-IsSynced : IsSynced writer
writer-IsSynced = record {
  clean = λ e. refl;
  prompt = λ e. refl;
  held = λ e. refl;
  not_stale = λ e. absurd (ground arith);
}

run-IsSynced_example : IsSynced (run (Use.writes (codes "SET a 1") ∷ Use.stops ∷ []) writer)
run-IsSynced_example =
    run-IsSynced (Use.writes (codes "SET a 1") ∷ Use.stops ∷ []) writer writer-IsSynced
