-- ===== src/Startup/Boot.antt =====
-- About the store with which the server starts.
use mini_store.Prelude.{
  Option-cases, ℕ, ◌≡◌, refl, Option, none, some, List, [], ◌∷◌, inl, inr, Text, arith, ◌≤◌, ℤ, pos,
}
use mini_store.Protocol.Numbers.{max_safe_integer}
use mini_store.Config.{Environment, ServerConfig, loaded, load_config}
use mini_store.Config.Ranges.{Reads-Within}
use mini_store.Config.Loading.{load_config-Settles}
use mini_store.Protocol.Tokens.{trim}
use mini_store.PubSub.{Connection}
use mini_store.Store
use mini_store.Store.{InMemoryStore}
use mini_store.Store.Invariant.{IsValid}
use mini_store.Store.Preserved.{create-IsValid}
use mini_store.JsObject
use mini_store.Handler.{CommandHandler}
use mini_store.Handler.Soundness.{handle_line-Sound}
use mini_store.Handler.Executing.{Sound}
use mini_store.Persistence.Placing.{restore_all-IsValid}
use mini_store.Persistence.{
  PersistenceManager, File, missing, unreadable, holds, restore, restore_from,
}
use mini_store.Startup.{
  replay, replay_line, replay_handler, replay_if_any, manager, boot, boot_from,
}

restore_from-IsValid :
    (file : File) (p : PersistenceManager) → IsValid p.store → IsValid (restore_from file p).1.store
restore_from-IsValid missing p v = v
restore_from-IsValid unreadable p v = v
restore_from-IsValid (holds dump) p v = restore_all-IsValid (JsObject.entries dump) 0 p.store v

replay_line-Sound :
    (trimmed line : Text) (connection : Connection) (n : ℕ) (h : CommandHandler)
    → Sound h
    → Sound (replay_line trimmed line connection (n, h)).1
replay_line-Sound [] line connection n h w = w
replay_line-Sound (c ∷ t) line connection n h w = handle_line-Sound line connection h w

replay-Sound :
    (lines : List Text) (connection : Connection) (n : ℕ) (h : CommandHandler)
    → Sound h
    → Sound (replay lines connection (n, h)).1
unfolding replay
replay-Sound [] connection n h w = w
replay-Sound (line ∷ lines) connection n h w =
    let (n', h') = replay_line (trim line) line connection (n, h) in
    replay-Sound lines connection n' h' (replay_line-Sound (trim line) line connection n h w)

replay_if_any-IsValid :
    (aof : Option (List Text)) (connection : Connection) (s : InMemoryStore)
    → IsValid s
    → IsValid (replay_if_any aof connection s).1
replay_if_any-IsValid none connection s v = v
replay_if_any-IsValid (some lines) connection s v =
    (replay-Sound lines connection 0 (replay_handler s)
      (record { store_valid = v; short = ground arith })).store_valid

created :
    (max_keys now : ℕ) → 1 ≤ max_keys → (s : InMemoryStore) × (Store.create max_keys now ≡ some s)
unfolding Store.create
created max_keys now positive = elim (Option-cases (Store.create max_keys now)) [
  | inl refused ↦ absurd (ground arith)
  | inr made ↦ made
]

-- How the server starts: not at all on a dump that cannot be restored, else with a valid store.
abbrev pub Starts : File → Option InMemoryStore → Type 0
Starts unreadable booted = booted ≡ none
Starts missing booted = (s : InMemoryStore) × (booted ≡ some s) × IsValid s
Starts (holds dump) booted = (s : InMemoryStore) × (booted ≡ some s) × IsValid s

boot_from-Starts :
    (fresh : InMemoryStore) (file : File) (aof : Option (List Text)) (connection : Connection)
    → IsValid fresh
    → Starts file (boot_from (some fresh) file aof connection)
unfolding restore
boot_from-Starts fresh unreadable aof connection v = refl
boot_from-Starts fresh missing aof connection v =
    ((replay_if_any aof connection fresh).1, refl, replay_if_any-IsValid aof connection fresh v)
boot_from-Starts fresh (holds dump) aof connection v =
    let restored = restore_from (holds dump) (manager fresh (holds dump)) in
    (
      (replay_if_any aof connection restored.1.store).1,
      refl,
      replay_if_any-IsValid aof connection restored.1.store
          (restore_from-IsValid (holds dump) (manager fresh (holds dump)) v),
    )

boot-Starts :
    (max_keys now : ℕ) (file : File) (aof : Option (List Text)) (connection : Connection)
    → 1 ≤ max_keys
    → Starts file (boot max_keys now file aof connection)
unfolding boot
boot-Starts max_keys now file aof connection positive =
    let (fresh, made) = created max_keys now positive in
    rw made (boot_from-Starts fresh file aof connection (create-IsValid max_keys now fresh made))

module _ (number : Text → Option ℤ) (env : Environment) (c : ServerConfig) where
  -- With any configuration that was loaded the constructor of the store accepts the capacity; on
  -- a dump that cannot be restored the server does not start, and else, with whatever dump or
  -- none and whatever append-only file or none, restore and replay lead to a valid store.
  pub boot_configured :
      (now : ℕ) (file : File) (aof : Option (List Text)) (connection : Connection)
      → load_config number env ≡ loaded c
      → (max_keys : ℕ) × (c.max_keys ≡ pos max_keys)
        × Starts file (boot max_keys now file aof connection)
  boot_configured now file aof connection h =
      let settled = load_config-Settles number env c h in
      let (max_keys, is, positive, bounded) =
        Reads-Within number 1000 1 max_safe_integer _ c.max_keys
          (1000, refl, omega arith, omega arith) settled.max_keys in
      (max_keys, is, boot-Starts max_keys now file aof connection positive)
