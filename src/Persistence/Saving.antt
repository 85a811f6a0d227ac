-- ===== src/Persistence/Saving.antt =====
-- About saves with everything that may happen while one is under way.
use mini_store.Prelude.{
  ℕ, ◌≡◌, refl, Bool, true, false, Option, none, some, is_some, ◌⊎◌, inl, inr, List, [], ◌∷◌, ◌==◌,
  if◌then◌else◌, arith,
}
use mini_store.Store.{InMemoryStore}
use mini_store.Persistence.{
  PersistenceManager, Dump, File, missing, unreadable, holds, restore, restore_from, make_dump,
  begin_save, end_save, complete, check_and_save, start, stop,
}

-- `becomes t`: the store is `t` after the work of the other parts.
pub data Event : Type 0 where
  becomes : InMemoryStore → Event
  starts stops ticks begins : Event
  ends : (written : Bool) → Event

unfoldable pub apply : Event → PersistenceManager → PersistenceManager
apply (becomes t) p = record p { store = t }
apply starts p = start p
apply stops p = stop p
apply ticks p = if p.running then check_and_save p else p
apply begins p = (begin_save p).1
apply (ends written) p = end_save written p

unfoldable pub run : List Event → PersistenceManager → PersistenceManager
unfolding apply
run [] p = p
run (e ∷ events) p = run events (apply e p)

module _ (Seen : InMemoryStore → Type 0) where
  -- The stores that the events bring are among those seen.
  abbrev pub Brings : List Event → Type 0
  Brings [] = Unit
  Brings (becomes t ∷ events) = Seen t × Brings events
  Brings (starts ∷ events) = Brings events
  Brings (stops ∷ events) = Brings events
  Brings (ticks ∷ events) = Brings events
  Brings (begins ∷ events) = Brings events
  Brings (ends written ∷ events) = Brings events

  -- A dump of one store that was seen, with the count that this store had.
  abbrev pub DumpOf : Dump → ℕ → Type 0
  DumpOf dump count =
      (s : InMemoryStore) × Seen s × (dump ≡ (make_dump s).0) × (count ≡ s.dirty_count)

  -- `found` is the file that the process found when it started, and `count` what
  -- lastSavedDirtyCount was then.
  pub record IsConsistent (found : File) (count : ℕ) (p : PersistenceManager) : Type 0 where
    pub seen : Seen p.store
    pub exclusive : p.save_in_progress ≡ is_some p.pending
    pub under_way : (dump : Dump) (n : ℕ) → p.pending ≡ some (dump, n) → DumpOf dump n
    pub on_disk :
        (p.file ≡ found) × (p.last_saved_dirty_count ≡ count)
        ⊎ ((dump : Dump) × (p.file ≡ holds dump) × DumpOf dump p.last_saved_dirty_count)

  module _ (closed : (s : InMemoryStore) → Seen s → Seen (make_dump s).1) (found : File)
      (count : ℕ) where
    begun-IsConsistent :
        (busy : Bool) (p q : PersistenceManager)
        → IsConsistent found count p
        → IsConsistent found count q
        → (let r : Bool × PersistenceManager = if busy then (false, p) else (true, q) in
            IsConsistent found count r.1)
    begun-IsConsistent true p q v w = v
    begun-IsConsistent false p q v w = w

    begin_save-IsConsistent :
        (p : PersistenceManager)
        → IsConsistent found count p
        → IsConsistent found count (begin_save p).1
    unfolding begin_save
    begin_save-IsConsistent p v =
        let (dump, s) = make_dump p.store in
        begun-IsConsistent p.save_in_progress p
          (record p {
            store = s;
            save_in_progress = true;
            pending = some (dump, p.store.dirty_count);
          })
          v
          (record {
            seen = closed p.store v.seen;
            exclusive = refl;
            under_way = λ d n e. (p.store, v.seen, ground arith, ground arith);
            on_disk = v.on_disk;
          })

    complete-IsConsistent :
        (written : Bool) (o : Option (Dump × ℕ)) (p : PersistenceManager)
        → p.pending ≡ o
        → IsConsistent found count p
        → IsConsistent found count (complete written o p)
    complete-IsConsistent written none p e v = v
    complete-IsConsistent false (some (dump, n)) p e v = record {
      seen = v.seen;
      exclusive = refl;
      under_way = λ d c h. absurd (ground arith);
      on_disk = v.on_disk;
    }
    complete-IsConsistent true (some (dump, n)) p e v = record {
      seen = v.seen;
      exclusive = refl;
      under_way = λ d c h. absurd (ground arith);
      on_disk = inr (dump, refl, v.under_way dump n e);
    }

    timer-IsConsistent :
        (on : Bool) (p : PersistenceManager)
        → IsConsistent found count p
        → IsConsistent found count (record p { running = on })
    timer-IsConsistent on p v = record {
      seen = v.seen;
      exclusive = v.exclusive;
      under_way = v.under_way;
      on_disk = v.on_disk;
    }

    if-IsConsistent :
        (b : Bool) (p q : PersistenceManager)
        → IsConsistent found count p
        → IsConsistent found count q
        → IsConsistent found count (if b then p else q)
    if-IsConsistent true p q v w = v
    if-IsConsistent false p q v w = w

    check_and_save-IsConsistent :
        (p : PersistenceManager)
        → IsConsistent found count p
        → IsConsistent found count (check_and_save p)
    unfolding check_and_save
    check_and_save-IsConsistent p v =
        if-IsConsistent (p.store.dirty_count == p.last_saved_dirty_count) p (begin_save p).1 v
          (begin_save-IsConsistent p v)

    kept-IsConsistent :
        (events : List Event) (p : PersistenceManager)
        → Brings events
        → IsConsistent found count p
        → IsConsistent found count (run events p)
    unfolding run apply end_save
    kept-IsConsistent [] p brings v = v
    kept-IsConsistent (becomes t ∷ events) p (here, brings) v =
        kept-IsConsistent events (record p { store = t }) brings
          (record {
            seen = here;
            exclusive = v.exclusive;
            under_way = v.under_way;
            on_disk = v.on_disk;
          })
    kept-IsConsistent (starts ∷ events) p brings v =
        kept-IsConsistent events (start p) brings (
          if-IsConsistent p.running p (record p { running = true }) v (timer-IsConsistent true p v))
    kept-IsConsistent (stops ∷ events) p brings v = kept-IsConsistent events (stop p) brings (
        if-IsConsistent p.running (record p { running = false }) p (timer-IsConsistent false p v) v)
    kept-IsConsistent (ticks ∷ events) p brings v =
        kept-IsConsistent events (apply ticks p) brings
          (if-IsConsistent p.running (check_and_save p) p (check_and_save-IsConsistent p v) v)
    kept-IsConsistent (begins ∷ events) p brings v =
        kept-IsConsistent events (begin_save p).1 brings (begin_save-IsConsistent p v)
    kept-IsConsistent (ends written ∷ events) p brings v =
        kept-IsConsistent events (end_save written p) brings
          (complete-IsConsistent written p.pending p refl v)

  restored-IsConsistent :
      (file : File) (p : PersistenceManager)
      → p.file ≡ file
      → p.pending ≡ none
      → p.save_in_progress ≡ false
      → Seen (restore_from file p).1.store
      → IsConsistent file (restore_from file p).1.last_saved_dirty_count (restore_from file p).1
  restored-IsConsistent missing p same idle free seen = record {
    seen = seen;
    exclusive = ground arith;
    under_way = λ d n e. absurd (ground arith);
    on_disk = inl (same, refl);
  }
  restored-IsConsistent unreadable p same idle free seen = record {
    seen = seen;
    exclusive = ground arith;
    under_way = λ d n e. absurd (ground arith);
    on_disk = inl (same, refl);
  }
  restored-IsConsistent (holds dump) p same idle free seen = record {
    seen = seen;
    exclusive = ground arith;
    under_way = λ d n e. absurd (ground arith);
    on_disk = inl (same, refl);
  }

  -- After a start with no save under way, with or without a dump to restore, and whatever
  -- happens then (changes of the store, timers, further saves, failures, between the two steps
  -- of a save too): the file is the one found at the start, with lastSavedDirtyCount as it was
  -- after the restore, or the dump of one store, taken whole, with lastSavedDirtyCount the count
  -- of that same store; and a save is in progress exactly if one is between its steps. Seen is
  -- any property that the stores have and a save keeps.
  pub run-IsConsistent :
      (closed : (s : InMemoryStore) → Seen s → Seen (make_dump s).1) (events : List Event)
      (p : PersistenceManager)
      → p.pending ≡ none
      → p.save_in_progress ≡ false
      → Seen (restore p).1.store
      → Brings events
      → IsConsistent p.file (restore p).1.last_saved_dirty_count (run events (restore p).1)
  unfolding restore
  run-IsConsistent closed events p idle free seen brings =
      kept-IsConsistent closed p.file (restore_from p.file p).1.last_saved_dirty_count events
        (restore_from p.file p).1 brings (restored-IsConsistent p.file p refl idle free seen)
