-- ===== src/Store/Proper.antt =====
-- About the hashes of `InMemoryStore`: that no field of a hash stands there twice.
use mini_store.Prelude.{
  ℕ, sym, subst, Bool, true, false, not, ◌&&◌, Option, none, some, List, [], ◌∷◌, ite,
  if◌then◌else◌, leb, Text, Text-discrete, text_keyed, Distinct,
}
use mini_store.JsMap
use mini_store.JsMap.{JsMap}
use mini_store.Expiry
use mini_store.Lru
use mini_store.Store.{
  InMemoryStore, StoredValue, string, list, hash, put, remove_key, live_entry, reserve_slot_for,
  expire_if_needed, report_victim, make_room_for_new_key, evict,
}
use mini_store.Store.Lists
use mini_store.Store.Hashes

abbrev pub Proper : Option StoredValue → Type 0
Proper none = Unit
Proper (some (string v)) = Unit
Proper (some (list l)) = Unit
Proper (some (hash m)) = Distinct (JsMap.keys m)

abbrev pub HashesDistinct : InMemoryStore → Type 0
HashesDistinct s = (j : Text) → Proper (JsMap.get s.values j)

Proper-ite :
    {P : Type 0} (d : Dec P) (x y : Option StoredValue) → Proper x → Proper y → Proper (ite d x y)
Proper-ite (yes p) x y hx hy = hx
Proper-ite (no p) x y hx hy = hy

pub Proper-if :
    (b : Bool) (x y : Option StoredValue) → Proper x → Proper y → Proper (if b then x else y)
Proper-if true x y hx hy = hx
Proper-if false x y hx hy = hy

pub if-Distinct :
    (b : Bool) (s t : InMemoryStore)
    → HashesDistinct s
    → HashesDistinct t
    → HashesDistinct (if b then s else t)
if-Distinct true s t hs ht = hs
if-Distinct false s t hs ht = ht

pub answer-Distinct :
    {A : Type 0} (b : Bool) (x y : A × InMemoryStore)
    → HashesDistinct x.1
    → HashesDistinct y.1
    → HashesDistinct (if b then x else y).1
answer-Distinct true x y hx hy = hx
answer-Distinct false x y hx hy = hy

module _ (key : Text) (s : InMemoryStore) (h : HashesDistinct s) where
  pub put-Distinct : (w : StoredValue) → Proper (some w) → HashesDistinct (put key w s)
  put-Distinct w hw j =
      subst Proper (sym (JsMap.get-set s.values key w j))
        (Proper-ite (Text-discrete key j) (some w) (JsMap.get s.values j) hw (h j))

  deleted : (j : Text) → Proper (JsMap.get (JsMap.delete s.values key) j)
  deleted j =
      subst Proper (sym (JsMap.get-delete s.values key j))
        (Proper-ite (Text-discrete key j) none (JsMap.get s.values j) tt (h j))

  pub remove_key-Distinct : HashesDistinct (remove_key key s)
  unfolding remove_key
  remove_key-Distinct = if-Distinct (JsMap.has s.values key) _ s deleted h

  pub expire_if_needed-Distinct : HashesDistinct (expire_if_needed key s).1
  unfolding expire_if_needed
  expire_if_needed-Distinct =
      answer-Distinct (not (JsMap.has s.values key)) _ _ h
        (answer-Distinct (not (Expiry.is_expired s.expiry key s.now)) _ _ h remove_key-Distinct)

victim-Distinct :
    (was_expired : Bool) (victim : Text) (s : InMemoryStore)
    → HashesDistinct s
    → HashesDistinct (report_victim was_expired victim s)
unfolding report_victim
victim-Distinct true victim s h = h
victim-Distinct false victim s h = h

evict-Distinct :
    (o : Option Text) (s : InMemoryStore) → HashesDistinct s → HashesDistinct (evict o s)
unfolding evict
evict-Distinct none s h = h
evict-Distinct (some victim) s h =
    victim-Distinct (Expiry.is_expired s.expiry victim s.now) victim (remove_key victim s)
      (remove_key-Distinct victim s h)

pub reserve-Distinct :
    (key : Text) (s : InMemoryStore) → HashesDistinct s → HashesDistinct (reserve_slot_for key s)
unfolding reserve_slot_for make_room_for_new_key
reserve-Distinct key s h =
    if-Distinct (not (JsMap.has s.values key) && leb s.max_keys (JsMap.size s.values)) _ s
      (evict-Distinct (Lru.peek_lru s.lru) s h) h

pub set_fields-Distinct :
    (pairs : List (Text × Text)) (m : JsMap Text Text) (n : ℕ)
    → Distinct (JsMap.keys m)
    → Distinct (JsMap.keys (Hashes.set_fields pairs m n).0)
unfolding Hashes.set_fields
set_fields-Distinct [] m n d = d
set_fields-Distinct ((f, v) ∷ pairs) m n d =
    set_fields-Distinct pairs (JsMap.set m f v) _ (JsMap.Distinct-set m f v d)

pub delete_fields-Distinct :
    (fields : List Text) (m : JsMap Text Text) (n : ℕ)
    → Distinct (JsMap.keys m)
    → Distinct (JsMap.keys (Hashes.delete_fields fields m n).0)
unfolding Hashes.delete_fields
delete_fields-Distinct [] m n d = d
delete_fields-Distinct (f ∷ fields) m n d =
    delete_fields-Distinct fields (JsMap.delete m f) _ (JsMap.Distinct-delete m f d)

module _ (key : Text) where
  -- What an operation does with the entry that the gate returns.
  abbrev pub Keeps :
      {A : Type 0} → (Option StoredValue → InMemoryStore → A × InMemoryStore) → Type 0
  Keeps f =
      (o : Option StoredValue) (s : InMemoryStore)
      → Proper o
      → HashesDistinct s
      → HashesDistinct (f o s).1

  entry-Proper : (s : InMemoryStore) → HashesDistinct s → Proper (live_entry key s).0
  unfolding live_entry
  entry-Proper s h =
      Proper-if (expire_if_needed key s).0 none _ tt (expire_if_needed-Distinct key s h key)

  pub live_entry-Distinct :
      (s : InMemoryStore) → HashesDistinct s → HashesDistinct (live_entry key s).1
  unfolding live_entry
  live_entry-Distinct s h = expire_if_needed-Distinct key s h

  pub gated :
      {A : Type 0} (f : Option StoredValue → InMemoryStore → A × InMemoryStore)
      → Keeps f
      → (s : InMemoryStore) → HashesDistinct s
      → HashesDistinct (f (live_entry key s).0 (live_entry key s).1).1
  gated f keeps s h =
      keeps (live_entry key s).0 (live_entry key s).1 (entry-Proper s h) (live_entry-Distinct s h)

  pub keep_rest-Distinct :
      (l : List Text) (s : InMemoryStore)
      → HashesDistinct s
      → HashesDistinct (Lists.keep_rest key l s)
  unfolding Lists.keep_rest
  keep_rest-Distinct [] s h =
      remove_key-Distinct key (put key (list []) s) (put-Distinct key s h (list []) tt)
  keep_rest-Distinct (x ∷ l) s h = put-Distinct key s h (list (x ∷ l)) tt
