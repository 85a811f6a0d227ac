-- ===== src/AofWriter/Rewriting.antt =====
-- About a rewrite of the append-only file with writes while it runs.
use mini_store.Prelude.{
  subst, ◌≡◌, refl, sym, ap, true, false, Option, none, some, List, [], ◌∷◌, ◌++◌, map, Text,
}
use mathlib.Core.List.{append-nil, append_assoc}
use mini_store.Store.{InMemoryStore}
use mini_store.Store.Keyspace
use mini_store.Config.{Fsync, always, everysec, never}
use mini_store.AofWriter.{
  AofWriter, Descriptor, opened, Phase, building, appending, sync_by_policy, push_if_any, format,
  write_to, write, concat, lines_text, dump_commands, begin_rewrite, resume, resume_from,
}

-- Lines in turn.
unfoldable pub writes : List Text → AofWriter → AofWriter
writes [] w = w
writes (line ∷ lines) w = writes lines (write line w).1

-- The commands of a rewrite of the store.
abbrev pub commands : InMemoryStore → List Text
commands s = let (keys, s') = Keyspace.keys (b'*' ∷ []) s in (dump_commands keys [] s').0

-- A rewrite is at the phase with the buffer, and the file is open.
abbrev At : Phase → Option (List Text) → AofWriter → Type 0
At phase buffer w = (w.phase ≡ phase) × (w.rewrite_buffer ≡ buffer) × (w.fd ≡ opened)

sync_by_policy-At :
    (policy : Fsync) (phase : Phase) (buffer : Option (List Text)) (w : AofWriter)
    → At phase buffer w
    → At phase buffer (sync_by_policy policy w)
sync_by_policy-At always phase buffer w at = at
sync_by_policy-At everysec phase buffer w at = at
sync_by_policy-At never phase buffer w at = at

buffered :
    (line : Text) (phase : Phase) (buffer : Option (List Text)) (w : AofWriter)
    → At phase buffer w
    → At phase
        (push_if_any (format line) buffer)
        (record w { rewrite_buffer = push_if_any (format line) w.rewrite_buffer })
buffered line phase buffer w (p, b, f) = (p, ap (push_if_any (format line)) b, f)

write-At :
    (line : Text) (phase : Phase) (buffer : Option (List Text)) (w : AofWriter)
    → At phase buffer w
    → At phase (push_if_any (format line) buffer) (write line w).1
unfolding write write_to
write-At line phase buffer w (p, b, f) =
    let w' = record w { file = w.file ++ format line; dirty = true } in
    subst (λ (fd : Descriptor). At phase (push_if_any (format line) buffer) (write_to fd line w).1)
      (sym f)
      (buffered line phase buffer (sync_by_policy w.fsync_policy w')
        (sync_by_policy-At w.fsync_policy phase buffer w' (p, b, f)))

writes-At :
    (lines : List Text) (phase : Phase) (buffer : List Text) (w : AofWriter)
    → At phase (some buffer) w
    → At phase (some (buffer ++ map format lines)) (writes lines w)
unfolding writes
writes-At [] phase buffer w at =
    subst (λ (l : List Text). At phase (some l) w) (sym (append-nil buffer)) at
writes-At (line ∷ lines) phase buffer w at =
    subst (λ (l : List Text). At phase (some l) (writes lines (write line w).1))
      (append_assoc buffer (format line ∷ []) (map format lines))
      (writes-At lines phase (buffer ++ format line ∷ []) (write line w).1
        (write-At line phase (some buffer) w at))

writes-At-none :
    (lines : List Text) (phase : Phase) (w : AofWriter)
    → At phase none w
    → At phase none (writes lines w)
unfolding writes
writes-At-none [] phase w at = at
writes-At-none (line ∷ lines) phase w at =
    writes-At-none lines phase (write line w).1 (write-At line phase none w at)

resume-building :
    (temp piece : Text) (pieces : List Text) (w : AofWriter)
    → At (building temp) (some (piece ∷ pieces)) w
    → At (appending (temp ++ concat (piece ∷ pieces))) none (resume w)
unfolding resume resume_from
resume-building temp piece pieces w (p, b, f) = rw (p, b) (refl, refl, f)

file-resume :
    (temp : Text) (w : AofWriter) → w.phase ≡ appending temp → (resume (resume w)).file ≡ temp
unfolding resume resume_from
file-resume temp w p = rw p refl

begin_rewrite-At :
    (w : AofWriter) (s : InMemoryStore)
    → w.rewrite_in_progress ≡ false
    → w.fd ≡ opened
    → At (building (lines_text (commands s))) (some []) (begin_rewrite w s).1
unfolding begin_rewrite
begin_rewrite-At w s free f = rw free (refl, refl, f)

module _ (w : AofWriter) (s : InMemoryStore) (free : w.rewrite_in_progress ≡ false)
    (open_fd : w.fd ≡ opened) (line : Text) (lines later : List Text) where
  -- A rewrite that starts with the file open and no other rewrite under way leaves in the file
  -- the commands for the store as it was when the rewrite began, followed by exactly the lines
  -- written until the temporary file was there (one at least); the lines written after that,
  -- while they are appended, are not in it.
  pub rewrite_lem :
      (resume (resume (writes later (resume (writes (line ∷ lines) (begin_rewrite w s).1))))).file
      ≡ lines_text (commands s) ++ concat (map format (line ∷ lines))
  rewrite_lem =
      let w1 = writes (line ∷ lines) (begin_rewrite w s).1 in
      let temp = lines_text (commands s) in
      let (phase, buffer, fd) =
        writes-At-none later (appending (temp ++ concat (map format (line ∷ lines)))) (resume w1) (
          resume-building temp (format line) (map format lines) w1 (
            writes-At (line ∷ lines) (building temp) [] (begin_rewrite w s).1
              (begin_rewrite-At w s free open_fd))) in
      file-resume (temp ++ concat (map format (line ∷ lines))) (writes later (resume w1)) phase
