-- ===== src/AofWriter/Syncing.antt =====
-- About the fsync policy: what is on the disk.
use mini_store.Prelude.{
  ◌&&◌, ◌++◌, ◌≢◌, ◌≡◌, refl, true, false, List, [], ◌∷◌, Text, arith, inl, inr, Bool-cases,
}
use mini_store.AofWriter.{
  Option, format, AofWriter, Descriptor, absent, opened, stale, start, stop, tick, write, write_to,
  close, open_if_absent, sync_by_policy, sync_if_open,
}
use mini_store.Config.{Fsync, always, everysec, never}

-- What the other parts and the timer do, a rewrite apart.
pub data Use : Type 0 where
  starts stops ticks : Use
  writes : Text → Use

unfoldable pub apply : Use → AofWriter → AofWriter
apply Use.starts w = start w
apply Use.stops w = (stop w).1
apply Use.ticks w = tick w
apply (Use.writes line) w = (write line w).1

unfoldable pub run : List Use → AofWriter → AofWriter
unfolding apply
run [] w = w
run (u ∷ uses) w = run uses (apply u w)

-- What is not marked dirty is on the disk, and with the policy `always` nothing is dirty.
pub record IsSynced (w : AofWriter) : Type 0 where
  pub clean : w.dirty ≡ false → w.synced ≡ w.file
  pub prompt : w.fsync_policy ≡ always → w.dirty ≡ false
  pub held : w.fd ≡ absent → w.dirty ≡ false
  pub not_stale : w.fd ≢ stale

open_if_absent-IsSynced :
    (d : Descriptor) (w : AofWriter) → IsSynced w → IsSynced (open_if_absent d w)
open_if_absent-IsSynced absent w v = record {
  clean = v.clean;
  prompt = v.prompt;
  held = λ e. absurd (ground arith);
  not_stale = ground arith;
}
open_if_absent-IsSynced opened w v = v
open_if_absent-IsSynced stale w v = v

close-IsSynced : (d : Descriptor) (w : AofWriter) → w.fd ≡ d → IsSynced w → IsSynced (close d w).1
unfolding close
close-IsSynced absent w e v = record {
  clean = λ _. v.clean (v.held e);
  prompt = λ _. refl;
  held = λ _. refl;
  not_stale = v.not_stale;
}
close-IsSynced stale w e v = absurd (v.not_stale e)
close-IsSynced opened w e v = elim (Bool-cases w.dirty) [
  | inl dirty ↦ record {
    clean = λ _. ground arith;
    prompt = λ _. refl;
    held = λ _. refl;
    not_stale = ground arith;
  }
  | inr fresh ↦ record {
    clean = λ _. ground arith;
    prompt = λ _. refl;
    held = λ _. refl;
    not_stale = ground arith;
  }
]

sync_if_open-IsSynced : (d : Descriptor) (w : AofWriter) → IsSynced w → IsSynced (sync_if_open d w)
sync_if_open-IsSynced absent w v = v
sync_if_open-IsSynced opened w v = record {
  clean = λ _. refl;
  prompt = λ _. refl;
  held = λ _. refl;
  not_stale = v.not_stale;
}
sync_if_open-IsSynced stale w v = v

tick-IsSynced : (w : AofWriter) → IsSynced w → IsSynced (tick w)
unfolding tick
tick-IsSynced w v = elim (Bool-cases (w.ticking && w.dirty)) [
  | inl due ↦ rw due (sync_if_open-IsSynced w.fd w v)
  | inr idle ↦ rw idle v
]

written :
    (policy : Fsync) (w : AofWriter)
    → w.fsync_policy ≡ policy
    → w.fd ≡ opened
    → w.dirty ≡ true
    → IsSynced (sync_by_policy policy w)
written always w p f d = record {
  clean = λ _. refl;
  prompt = λ _. refl;
  held = λ _. refl;
  not_stale = ground arith;
}
written everysec w p f d = record {
  clean = ground arith;
  prompt = ground arith;
  held = ground arith;
  not_stale = ground arith;
}
written never w p f d = record {
  clean = ground arith;
  prompt = ground arith;
  held = ground arith;
  not_stale = ground arith;
}

buffered :
    (w : AofWriter) (buffer : Option (List Text))
    → IsSynced w
    → IsSynced (record w { rewrite_buffer = buffer })
buffered w buffer v = record {
  clean = v.clean;
  prompt = v.prompt;
  held = v.held;
  not_stale = v.not_stale;
}

write_to-IsSynced :
    (d : Descriptor) (line : Text) (w : AofWriter)
    → w.fd ≡ d
    → IsSynced w
    → IsSynced (write_to d line w).1
unfolding write_to
write_to-IsSynced absent line w e v = v
write_to-IsSynced stale line w e v = v
write_to-IsSynced opened line w e v =
    let w' = record w { file = w.file ++ format line; dirty = true } in
    buffered (sync_by_policy w.fsync_policy w') _ (written w.fsync_policy w' refl e refl)

apply-IsSynced : (u : Use) (w : AofWriter) → IsSynced w → IsSynced (apply u w)
unfolding apply start stop write
apply-IsSynced Use.starts w v = open_if_absent-IsSynced w.fd w v
apply-IsSynced Use.stops w v = close-IsSynced w.fd w refl v
apply-IsSynced Use.ticks w v = tick-IsSynced w v
apply-IsSynced (Use.writes line) w v = write_to-IsSynced w.fd line w refl v

-- As long as no rewrite runs, starting, stopping, writing and the timer keep this: what is in
-- the file is on the disk unless the writer is marked dirty, and with the policy always it is
-- never dirty.
pub run-IsSynced : (uses : List Use) (w : AofWriter) → IsSynced w → IsSynced (run uses w)
unfolding run
run-IsSynced [] w v = v
run-IsSynced (u ∷ uses) w v = run-IsSynced uses (apply u w) (apply-IsSynced u w v)
