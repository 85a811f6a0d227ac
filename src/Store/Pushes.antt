-- ===== src/Store/Pushes.antt =====
-- About LPUSH and RPUSH.
use mini_store.Prelude.{
  ℕ, ◌≡◌, ◌∙◌, refl, ap, sym, true, false, Option, none, some, List, [], ◌∷◌, ◌++◌, length, reverse,
  arith, Text, text_keyed, is_some, subst,
}
use mathlib.Core.List.{append-nil, append_assoc, reverse-cons}
use mini_store.JsMap
use mini_store.Store.{InMemoryStore, StoredValue, string, list, hash, StoreResult, ok, live_entry}
use mini_store.Store.Invariant.{IsValid}
use mini_store.Store.Room.{victim_for}
use mini_store.Store.View.{
  gone, value_at, live_entry-SameView, live_entry-IsValid, live_entry-value_at,
}
use mini_store.Store.Effects.{evicted_by}
use mini_store.Store.Stored.{
  present_no_victim, Stores-gate, live_fresh, Stores, store_new-Stores, store_old-Stores,
}
use mini_store.Store.Lists
use mini_store.Store.Keeps.{found}

-- The list that LPUSH and RPUSH start from; a string or a hash has none.
abbrev pub list_at : Option StoredValue → Option (List Text)
list_at none = some []
list_at (some (list l)) = some l
list_at (some (string v)) = none
list_at (some (hash m)) = none

push_all-append : (values l : List Text) → Lists.push_all values l ≡ l ++ values
unfolding Lists.push_all
push_all-append [] l = sym (append-nil l)
push_all-append (x ∷ values) l =
    push_all-append values (l ++ x ∷ []) ∙ append_assoc l (x ∷ []) values

unshift_all-append : (values l : List Text) → Lists.unshift_all values l ≡ reverse values ++ l
unfolding Lists.unshift_all
unshift_all-append [] l = refl
unshift_all-append (x ∷ values) l =
    unshift_all-append values (x ∷ l)
    ∙ sym (append_assoc (reverse values) (x ∷ []) l)
    ∙ ap (λ (m : List Text). m ++ l) (sym (reverse-cons x values))

-- The answer is the new length, and the list lies under the key.
abbrev pub Pushes :
    Text → List Text → Option Text → InMemoryStore → StoreResult ℕ × InMemoryStore → Type 0
Pushes key l victim s (answer, t) = (answer ≡ ok (length l)) × Stores key (list l) victim s t

module _ (key : Text) (t : InMemoryStore) (v : IsValid t) (fresh : gone t key ≡ false) where
  push_new-Pushes : (l : List Text) → Pushes key l (victim_for key t) t (Lists.push_new key l t)
  unfolding Lists.push_new
  push_new-Pushes l = (refl, store_new-Stores key t v fresh (list l))

  push_old-Pushes :
      (l : List Text)
      → JsMap.has t.values key ≡ true
      → Pushes key l (victim_for key t) t (Lists.push_old key l t)
  unfolding Lists.push_old
  push_old-Pushes l h =
      (refl, rw (present_no_victim key t v fresh h) (store_old-Stores key t v fresh (list l)))

  rpush_to-Pushes :
      (o : Option StoredValue) (values l : List Text)
      → JsMap.has t.values key ≡ is_some o
      → list_at o ≡ some l
      → Pushes key (l ++ values) (victim_for key t) t (Lists.rpush_to o key values t)
  unfolding Lists.rpush_to
  rpush_to-Pushes none values l h e =
      let same : [] ≡ l = ground arith in
      subst
        (λ (m : List Text).
          Pushes key m (victim_for key t) t (Lists.push_new key (Lists.push_all values []) t))
        (push_all-append values [] ∙ ap (λ (l : List Text). l ++ values) same)
        (push_new-Pushes (Lists.push_all values []))
  rpush_to-Pushes (some (list m)) values l h e =
      let same : m ≡ l = ground arith in
      subst
        (λ (n : List Text).
          Pushes key n (victim_for key t) t (Lists.push_old key (Lists.push_all values m) t))
        (push_all-append values m ∙ ap (λ (l : List Text). l ++ values) same)
        (push_old-Pushes (Lists.push_all values m) h)
  rpush_to-Pushes (some (string x)) values l h e = absurd (ground arith)
  rpush_to-Pushes (some (hash m)) values l h e = absurd (ground arith)

  lpush_to-Pushes :
      (o : Option StoredValue) (values l : List Text)
      → JsMap.has t.values key ≡ is_some o
      → list_at o ≡ some l
      → Pushes key (reverse values ++ l) (victim_for key t) t (Lists.lpush_to o key values t)
  unfolding Lists.lpush_to
  lpush_to-Pushes none values l h e =
      let same : [] ≡ l = ground arith in
      subst
        (λ (m : List Text).
          Pushes key m (victim_for key t) t (Lists.push_new key (Lists.unshift_all values []) t))
        (unshift_all-append values [] ∙ ap (λ (l : List Text). reverse values ++ l) same)
        (push_new-Pushes (Lists.unshift_all values []))
  lpush_to-Pushes (some (list m)) values l h e =
      let same : m ≡ l = ground arith in
      subst
        (λ (n : List Text).
          Pushes key n (victim_for key t) t (Lists.push_old key (Lists.unshift_all values m) t))
        (unshift_all-append values m ∙ ap (λ (l : List Text). reverse values ++ l) same)
        (push_old-Pushes (Lists.unshift_all values m) h)
  lpush_to-Pushes (some (string x)) values l h e = absurd (ground arith)
  lpush_to-Pushes (some (hash m)) values l h e = absurd (ground arith)

module _ (key : Text) (s : InMemoryStore) (v : IsValid s) (values l : List Text)
    (starts : list_at (value_at s key) ≡ some l) where
  push-gate :
      (m : List Text) (r : StoreResult ℕ × InMemoryStore)
      → Pushes key m (victim_for key (live_entry key s).1) (live_entry key s).1 r
      → Pushes key m (evicted_by key s) s r
  unfolding live_entry
  push-gate m (answer, t) (same, stores) = (
    same,
    Stores-gate key (list m) (evicted_by key s) s (live_entry key s).1 t
        (live_entry-SameView key s v) stores,
  )

  pub rpush_lem : Pushes key (l ++ values) (evicted_by key s) s (Lists.rpush key values s)
  unfolding Lists.rpush
  rpush_lem =
      push-gate (l ++ values) (Lists.rpush_to (live_entry key s).0 key values (live_entry key s).1)
        (rpush_to-Pushes key (live_entry key s).1 (live_entry-IsValid key s v) (live_fresh key s v)
          (live_entry key s).0 values l (found key s v)
          (ap list_at (live_entry-value_at key s v) ∙ starts))

  lpush_lem : Pushes key (reverse values ++ l) (evicted_by key s) s (Lists.lpush key values s)
  unfolding Lists.lpush
  lpush_lem =
      push-gate (reverse values ++ l)
        (Lists.lpush_to (live_entry key s).0 key values (live_entry key s).1)
        (lpush_to-Pushes key (live_entry key s).1 (live_entry-IsValid key s v) (live_fresh key s v)
          (live_entry key s).0 values l (found key s v)
          (ap list_at (live_entry-value_at key s v) ∙ starts))

  -- In a valid store LPUSH and RPUSH on a list, or on a key without a visible value, put the
  -- values, reversed, before the list, or behind it, answer the new length, and change no other
  -- visible value and no deadline but those of the key they evict.
  pub pushes_lem :
      Pushes key (reverse values ++ l) (evicted_by key s) s (Lists.lpush key values s)
      × Pushes key (l ++ values) (evicted_by key s) s (Lists.rpush key values s)
  pushes_lem = (lpush_lem, rpush_lem)
