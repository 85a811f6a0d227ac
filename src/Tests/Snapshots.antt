-- ===== src/Tests/Snapshots.antt =====
-- A save and a restore on small stores.
use mini_store.JsMap
use mini_store.Store.Proper.{HashesDistinct}
use mini_store.Store.DistinctFields.{run-HashesDistinct}
use mini_store.Prelude.{◌≡◌, refl, false, true, none, some, [], ◌∷◌, Text, text_keyed, arith}
use mini_store.Store.{InMemoryStore}
use mini_store.Store.Invariant.{IsValid}
use mini_store.Store.Calls.{Call, run, apply}
use mini_store.Store.Preserved.{run-IsValid}
use mini_store.Store.View.{value_at, deadline_at}
use mini_store.Store.Glob.{line_terminator}
use mini_store.Persistence.Dumping.{make_dump_lem, one_line}
use mini_store.Store.Growth.{set-Grows}
use mini_store.Store.Strings
use mini_store.Persistence.{missing, PersistenceManager, begin_save, end_save, restore}
use mini_store.Persistence.RoundTrip.{ComesBack, rounded, restore-save}
use mini_store.Persistence.Saving
use mini_store.Persistence.Saving.{Event, IsConsistent, run-IsConsistent}
use mini_store.Tests.Stores.{start, start-IsValid}

abbrev a : Text
a = b'a' ∷ []

-- SET a 7 EX 5
abbrev b : Text
b = b'b' ∷ []

abbrev before : InMemoryStore
before = Strings.set a (7 ∷ []) (some 5) start

before-IsValid : IsValid before
unfolding run apply
before-IsValid = run-IsValid (Call.set a (7 ∷ []) (some 5) ∷ []) start start-IsValid

start-HashesDistinct : HashesDistinct start
unfolding JsMap.get
start-HashesDistinct j = tt

before-HashesDistinct : HashesDistinct before
unfolding run apply
before-HashesDistinct =
    run-HashesDistinct (Call.set a (7 ∷ []) (some 5) ∷ []) start start-HashesDistinct

abbrev saving : PersistenceManager
saving = record {
  store = before;
  running = true;
  last_saved_dirty_count = 0;
  save_in_progress = false;
  pending = none;
  file = missing;
}

-- The next process, some time later.
abbrev restarting : PersistenceManager
restarting = record saving {
  store = record start { now = 9000 };
  file = (end_save true (begin_save saving).1).file;
}

restore-save_example :
    ComesBack (value_at before a) (value_at (restore restarting).1.store a)
    × (deadline_at (restore restarting).1.store a ≡ rounded (deadline_at before a) before.now 9000)
unfolding one_line line_terminator
restore-save_example =
    restore-save saving restarting before-IsValid start-IsValid refl before-HashesDistinct refl refl
      (ground (arith, set-Grows a start (7 ∷ []) (some 5))) a refl (λ e. absurd (ground (arith, e)))

-- The next process saves, and in the course of its save the store changes and another save is asked
-- for. Every valid store counts as seen.
run-IsConsistent_example : IsConsistent IsValid missing 0 (
    Saving.run
      (Event.begins ∷ Event.becomes start ∷ Event.begins ∷ Event.ends true ∷ [])
      (restore saving).1)
unfolding restore
run-IsConsistent_example =
    run-IsConsistent IsValid (λ s v. (make_dump_lem s v).1.0)
      (Event.begins ∷ Event.becomes start ∷ Event.begins ∷ Event.ends true ∷ []) saving refl refl
      before-IsValid (start-IsValid, tt)
