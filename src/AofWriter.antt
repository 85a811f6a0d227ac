-- ===== src/AofWriter.antt =====
-- `AofWriter` (store-engine/src/store/AofWriter.ts): the append-only file. A rewrite is cut into steps at
-- its `await`s. File operations are taken to succeed, but for the renaming steps and the background
-- syncs, where a step for the failure stands beside.
pub mod Rewriting
pub mod Syncing
use mini_store.Prelude.{
  ℕ, Bool, true, false, not, ◌&&◌, Option, none, some, List, [], ◌∷◌, ◌++◌, length, ltb, ◌==◌,
  if◌then◌else◌, ℤ, pos, negsuc, Text,
}
use mini_store.Protocol.Command.{codes}
use mini_store.Protocol.Tokens.{trim}
use mini_store.Protocol.Words.{join}
use mini_store.Protocol.Decimal.{decimal}
use mini_store.Store.{
  InMemoryStore, StoreResult, ok, wrong_type, ValueType, string_type, list_type, hash_type,
}
use mini_store.Store.Strings
use mini_store.Store.Lists
use mini_store.Store.Hashes
use mini_store.Store.Keyspace
use mini_store.Config.{Fsync, always, everysec, never}

-- `#fd`: `stale` is a descriptor that a rewrite has closed and not yet replaced.
pub data Descriptor : Type 0 where
  absent opened stale : Descriptor

-- Where a rewrite stands, with the text of the temporary file.
pub data Phase : Type 0 where
  idle : Phase
  building appending renaming : (temp : Text) → Phase

-- `file` is the text under the path, and `synced` what of it is known to be on the disk.
pub record AofWriter : Type 0 where
  pub fsync_policy : Fsync
  pub fd : Descriptor
  pub ticking : Bool
  pub dirty : Bool
  pub rewrite_in_progress : Bool
  pub rewrite_buffer : Option (List Text)
  pub phase : Phase
  pub file : Text
  pub synced : Text

abbrev pub is_everysec : Fsync → Bool
is_everysec everysec = true
is_everysec _ = false

abbrev pub open_if_absent : Descriptor → AofWriter → AofWriter
open_if_absent absent w = record w { fd = opened; ticking = is_everysec w.fsync_policy }
open_if_absent _ w = w

unfoldable pub start : AofWriter → AofWriter
start w = open_if_absent w.fd w

abbrev pub sync : AofWriter → AofWriter
sync w = record w { dirty = false; synced = w.file }

abbrev pub sync_if_open : Descriptor → AofWriter → AofWriter
sync_if_open opened w = sync w
sync_if_open _ w = w

-- The callback of the interval; on a descriptor that is not open the sync fails and is logged.
unfoldable pub tick : AofWriter → AofWriter
tick w = if w.ticking && w.dirty then sync_if_open w.fd w else w

-- False is the error that closing a closed descriptor throws; a sync that fails is ignored.
unfoldable pub close : Descriptor → AofWriter → Bool × AofWriter
close absent w = (true, record w { ticking = false; dirty = false })
close stale w = (false, record w { ticking = false })
close opened w =
    let flushed = if w.dirty then sync w else w in
    (true, record flushed { ticking = false; dirty = false; fd = absent })

unfoldable pub stop : AofWriter → Bool × AofWriter
unfolding close
stop w = close w.fd w

abbrev pub push_if_any : Text → Option (List Text) → Option (List Text)
push_if_any formatted none = none
push_if_any formatted (some buffer) = some (buffer ++ formatted ∷ [])

abbrev pub sync_by_policy : Fsync → AofWriter → AofWriter
sync_by_policy always w = sync w
sync_by_policy _ w = w

unfoldable pub format : Text → Text
format line = trim line ++ b'\n' ∷ []

-- False is the error that writing to a closed descriptor throws.
unfoldable pub write_to : Descriptor → Text → AofWriter → Bool × AofWriter
unfolding format
write_to absent line w = (true, w)
write_to stale line w = (false, w)
write_to opened line w =
    let w' =
      sync_by_policy w.fsync_policy (record w { file = w.file ++ format line; dirty = true }) in
    (true, record w' { rewrite_buffer = push_if_any (format line) w'.rewrite_buffer })

unfoldable pub write : Text → AofWriter → Bool × AofWriter
unfolding write_to
write line w = write_to w.fd line w

-- The commands of a key, which was typed and timed before.
abbrev pub positive : ℤ → Option ℕ
positive (pos n) = if n == 0 then none else some n
positive (negsuc n) = none

abbrev pub set_command : Text → Option Text → Option ℕ → List Text
set_command key none ttl = []
set_command key (some v) none = join (codes "SET" ∷ key ∷ v ∷ []) ∷ []
set_command key (some v) (some ttl) =
    join (codes "SET" ∷ key ∷ v ∷ codes "EX" ∷ decimal ttl ∷ []) ∷ []

abbrev pub fill_command : Text → Text → StoreResult (List Text) → List Text
fill_command name key wrong_type = []
fill_command name key (ok []) = []
fill_command name key (ok (x ∷ l)) = join (name ∷ key ∷ join (x ∷ l) ∷ []) ∷ []

abbrev pub expire_command : Text → Option ℕ → List Text
expire_command key none = []
expire_command key (some ttl) = join (codes "EXPIRE" ∷ key ∷ decimal ttl ∷ []) ∷ []

unfoldable pub commands_of : ValueType → Text → ℤ → InMemoryStore → List Text × InMemoryStore
commands_of string_type key ttl s =
    let (val, s') = Strings.get key s in (set_command key val (positive ttl), s')
commands_of list_type key ttl s =
    let (res, s') = Lists.lrange key (pos 0) (negsuc 0) s in
    (fill_command (codes "RPUSH") key res ++ expire_command key (positive ttl), s')
commands_of hash_type key ttl s =
    let (res, s') = Hashes.hgetall key s in
    (fill_command (codes "HSET") key res ++ expire_command key (positive ttl), s')

abbrev pub commands_if_typed : Option ValueType → Text → InMemoryStore → List Text × InMemoryStore
commands_if_typed none key s = ([], s)
commands_if_typed (some type) key s =
    let (ttl, s') = Strings.ttl key s in commands_of type key ttl s'

unfoldable pub dump_commands : List Text → List Text → InMemoryStore → List Text × InMemoryStore
unfolding commands_of
dump_commands [] commands s = (commands, s)
dump_commands (key ∷ keys) commands s =
    let (type, s1) = Strings.key_type key s in
    let (more, s2) = commands_if_typed type key s1 in dump_commands keys (commands ++ more) s2

-- `commands.join('\n') + (commands.length > 0 ? '\n' : '')`
unfoldable pub lines_text : List Text → Text
lines_text [] = []
lines_text (command ∷ commands) = command ++ b'\n' ∷ lines_text commands

-- `buf.join('')`
unfoldable pub concat : List Text → Text
concat [] = []
concat (piece ∷ pieces) = piece ++ concat pieces

abbrev pub collect_commands : InMemoryStore → List Text × InMemoryStore
collect_commands s = let (keys, s') = Keyspace.keys (b'*' ∷ []) s in dump_commands keys [] s'

-- `rewrite` to its first `await`; false is the error that a rewrite is in progress.
unfoldable pub begin_rewrite : AofWriter → InMemoryStore → Bool × AofWriter × InMemoryStore
unfolding dump_commands lines_text
begin_rewrite w s =
    let (commands, s2) = collect_commands s in
    if w.rewrite_in_progress then (false, w, s) else (
      true,
      record w {
        rewrite_in_progress = true;
        rewrite_buffer = some [];
        phase = building (lines_text commands);
      },
      s2,
    )

-- `if (this.#fd !== undefined) fs.closeSync(this.#fd)`, which leaves `#fd` as it is.
abbrev pub close_old : Descriptor → Descriptor
close_old absent = absent
close_old _ = stale

abbrev pub rename_next : Text → AofWriter → AofWriter
rename_next temp w = record w { fd = close_old w.fd; phase = renaming temp }

abbrev pub take_buffer : Text → Option (List Text) → AofWriter → AofWriter
take_buffer temp none w = w
take_buffer temp (some []) w = rename_next temp (record w { rewrite_buffer = none })
take_buffer temp (some (piece ∷ buf)) w = record w {
  rewrite_buffer = none;
  phase = appending (temp ++ concat (piece ∷ buf));
}

-- The `await` at which a rewrite stands is over.
unfoldable pub resume_from : Phase → AofWriter → AofWriter
unfolding concat
resume_from idle w = w
resume_from (building temp) w = take_buffer temp w.rewrite_buffer w
resume_from (appending temp) w = rename_next temp w
resume_from (renaming temp) w = record w {
  file = temp;
  fd = opened;
  rewrite_in_progress = false;
  rewrite_buffer = none;
  phase = idle;
}

unfoldable pub resume : AofWriter → AofWriter
unfolding resume_from
resume w = resume_from w.phase w

-- It threw: the `finally` clause.
unfoldable pub fail : AofWriter → AofWriter
fail w = record w { rewrite_in_progress = false; rewrite_buffer = none; phase = idle }
