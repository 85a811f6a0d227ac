-- ===== src/Tests/Handlers.antt =====
-- A server with a password, and one with an open transaction.
use mini_store.Prelude.{
  ℕ_discrete, ◌≡◌, ◌≢◌, refl, ap, false, none, some, [], ◌∷◌, arith, text_keyed, ref_keyed,
  contains,
}
use mini_store.JsMap
use mini_store.Protocol.Command.{codes, Command, ok}
use mini_store.Protocol.Tokens.{is_space}
use mini_store.Protocol.Words.{all_words, is_word, unbroken}
use mini_store.Protocol.Parser.{parse_command}
use mini_store.Protocol.Rendering.{render, args_of}
use mini_store.Protocol.RoundTrip.{parse_command-render}
use mini_store.Handler.{CommandHandler}
use mini_store.Handler.Lines.{handle_line}
use mini_store.Handler.Soundness.{handle_line-Sound}
use mini_store.Handler.Executing.{Sound}
use mini_store.Handler.Guards.{
  credentials, is_exec, handle_line-unauthenticated, handle_line-queued,
}
use mini_store.Tests.Stores.{start, start-IsValid}

abbrev server : CommandHandler
server = record {
  store = start;
  persistence = none;
  aof = some [];
  aof_throws = false;
  rewrite_in_progress = false;
  pub_sub = none;
  requirepass = some (codes "pw");
  disabled_commands = [];
  transactions = [];
  authenticated = [];
  recent_activity = [];
  started = [];
}

-- DEL k
abbrev del_k : Command
del_k = Command.del (codes "k")

parsed : parse_command (render del_k) ≡ ok del_k
unfolding all_words args_of is_word unbroken is_space
parsed = parse_command-render del_k tt refl

server-Sound : Sound server
server-Sound = record { store_valid = start-IsValid; short = omega arith }

handle_line-Sound_example : Sound (handle_line (render del_k) 1 server).1
handle_line-Sound_example = handle_line-Sound (render del_k) 1 server server-Sound

gives_no_password : credentials (parse_command (render del_k)) ≢ some (codes "pw")
gives_no_password e = absurd (ground (arith, ap credentials parsed))

handle_line-unauthenticated_example : (handle_line (render del_k) 1 server).1 ≡ server
unfolding contains
handle_line-unauthenticated_example =
    handle_line-unauthenticated (render del_k) 1 server (codes "pw") refl refl gives_no_password

abbrev in_multi : CommandHandler
in_multi = record server { requirepass = none; transactions = (1, []) ∷ [] }

handle_line-queued_example : (handle_line (render del_k) 1 in_multi).1.store ≡ start
unfolding JsMap.get ℕ_discrete
handle_line-queued_example =
    handle_line-queued (render del_k) 1 in_multi [] refl (ap is_exec parsed)
