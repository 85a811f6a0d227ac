-- ===== src/Expiry/Sweep.antt =====
-- What `collectExpired` returns: the expired keys among those that the cursor passes.
use mini_store.Prelude.{
  ℕ, zero, suc, ◌+◌, ◌-◌, ◌≤◌, ◌≡◌, ◌∙◌, refl, sym, ap, subst, Bool, false, ◌&&◌, none, some, List,
  [], ◌∷◌, ◌++◌, arith, length, ltb, leb, ◌==◌, if◌then◌else◌, get_elem?, get_elem?-lt,
  get_elem?-some, contains, contains-append, Distinct, Text, text_keyed, inl, inr, Option-cases,
  length-append,
}
use Prim.Native.Nat.{min}
use mathlib.Core.List.{append-nil, append_assoc}
use mini_store.JsMap
use mini_store.Expiry
use mini_store.Expiry.{ExpiryManager, wrap, examine, collect, collect_expired, is_expired}
use mini_store.Expiry.Validity.{IsValid, deadline}

-- How many positions the cursor passes before it stands at `p`, in an array of `n` keys.
abbrev pub distance : (n cursor p : ℕ) → ℕ
distance n cursor p =
    let c = if leb n cursor then 0 else cursor in if leb c p then p - c else n - c + p

abbrev next : ExpiryManager → ExpiryManager
next e = record (wrap e) { cursor = (wrap e).cursor + 1 }

-- The keys that `steps` turns find, in order.
gather : ℕ → ExpiryManager → ℕ → List Text
gather zero e now = []
gather (suc steps) e now = examine (wrap e) now ++ gather steps (next e) now

collect-gather :
    (steps : ℕ) (e : ExpiryManager) (now : ℕ) (expired : List Text)
    → (collect steps e now expired).0 ≡ expired ++ gather steps e now
unfolding collect gather
collect-gather zero e now expired = sym (append-nil expired)
collect-gather (suc steps) e now expired =
    collect-gather steps (next e) now (expired ++ examine (wrap e) now)
    ∙ append_assoc expired (examine (wrap e) now) (gather steps (next e) now)

-- The loop moves the cursor and nothing else.
collect_frame :
    (steps : ℕ) (e : ExpiryManager) (now : ℕ) (expired : List Text)
    → (collect steps e now expired).1 ≡ record e { cursor = (collect steps e now expired).1.cursor }
unfolding collect
collect_frame zero e now expired = refl
collect_frame (suc steps) e now expired =
    ground (arith, collect_frame steps (next e) now (expired ++ examine (wrap e) now))

IsValid-next : (e : ExpiryManager) → IsValid e → IsValid (next e)
unfolding Expiry.size
IsValid-next e v = record {
  mirrored = v.mirrored;
  located = v.located;
  indexed = v.indexed;
  distinct = v.distinct;
  filled = v.filled;
}

-- One turn finds `k` exactly when the cursor stands at its position and it has expired.
contains-examine :
    (e : ExpiryManager) (now : ℕ)
    → IsValid e
    → (k : Text) (p : ℕ) → JsMap.get e.pos k ≡ some p
    → contains k (examine (wrap e) now)
      ≡ ((distance (length e.key_array) e.cursor p == 0) && is_expired e k now)
unfolding examine contains
contains-examine e now v k p at =
    let c = (wrap e).cursor in
    let inside = get_elem?-lt e.key_array p k (v.located k p at) in
    let (q, found) = get_elem?-some e.key_array c (ground arith) in
    ground (arith, v.located k p at, v.indexed q c found)

gather_mem :
    (steps : ℕ) (e : ExpiryManager) (now : ℕ)
    → IsValid e
    → (k : Text) (p : ℕ) → JsMap.get e.pos k ≡ some p
    → steps ≤ length e.key_array
    → contains k (gather steps e now)
      ≡ (ltb (distance (length e.key_array) e.cursor p) steps && is_expired e k now)
unfolding gather contains is_expired
gather_mem zero e now v k p at h = ground arith
gather_mem (suc steps) e now v k p at h = rw contains-append (
    ground (
      arith,
      contains-examine e now v k p at,
      gather_mem steps (next e) now (IsValid-next e v) k p at,
      v.located k p at,
      get_elem?-lt e.key_array p k,
    ))

examine_out :
    (e : ExpiryManager) (now : ℕ)
    → get_elem? e.key_array (wrap e).cursor ≡ none
    → examine (wrap e) now ≡ []
unfolding examine
examine_out e now h = ground arith

examine_at :
    (e : ExpiryManager) (now : ℕ) (q : Text)
    → get_elem? e.key_array (wrap e).cursor ≡ some q
    → examine (wrap e) now ≡ (if is_expired e q now then q ∷ [] else [])
unfolding examine is_expired
examine_at e now q h = ground arith

gather_absent :
    (steps : ℕ) (e : ExpiryManager) (now : ℕ)
    → IsValid e
    → (k : Text) → JsMap.get e.pos k ≡ none
    → contains k (gather steps e now) ≡ false
unfolding gather contains
gather_absent zero e now v k h = refl
gather_absent (suc steps) e now v k h =
    elim (Option-cases (get_elem? e.key_array (wrap e).cursor)) [
      | inl out ↦
          rw (examine_out e now out) (gather_absent steps (next e) now (IsValid-next e v) k h)
      | inr (q, found) ↦
          rw (examine_at e now q found, contains-append)
            (ground (
              arith,
              gather_absent steps (next e) now (IsValid-next e v) k h,
              v.indexed k (wrap e).cursor,
            ))
    ]

gather-Distinct :
    (steps : ℕ) (e : ExpiryManager) (now : ℕ)
    → IsValid e
    → steps ≤ length e.key_array
    → Distinct (gather steps e now)
unfolding gather contains
gather-Distinct zero e now v h = tt
gather-Distinct (suc steps) e now v h =
    let (q, found) = get_elem?-some e.key_array (wrap e).cursor (ground arith) in
    let at = v.indexed q (wrap e).cursor found in
    rw (gather, examine_at e now q found)
      (ground (
        arith,
        gather_mem steps (next e) now (IsValid-next e v) q (wrap e).cursor at,
        gather-Distinct steps (next e) now (IsValid-next e v),
      ))

gather_bound : (steps : ℕ) (e : ExpiryManager) (now : ℕ) → length (gather steps e now) ≤ steps
unfolding gather examine
gather_bound zero e now = omega arith
gather_bound (suc steps) e now = rw length-append (ground (arith, gather_bound steps (next e) now))

-- The first component of `collect_expired`, on every branch.
collect_expired-gather :
    (e : ExpiryManager) (now limit : ℕ)
    → (collect_expired e now limit).0 ≡ gather (min limit (length e.key_array)) e now
unfolding collect_expired gather
collect_expired-gather e now limit =
    ground (arith, collect-gather (min limit (length e.key_array)) e now [])

-- Whether the cursor passes `key` within `limit` steps.
pub in_reach : ExpiryManager → Text → ℕ → Bool
in_reach e key limit = elim (JsMap.get e.pos key) [
  | none ↦ false
  | some p ↦ ltb (distance (length e.key_array) e.cursor p) limit
]

module _ (e : ExpiryManager) (now limit : ℕ) (v : IsValid e) where
  -- In a valid manager collectExpired returns a key exactly if the cursor reaches it within the
  -- limit and it is expired.
  pub contains-collect_expired :
      (key : Text)
      → contains key (collect_expired e now limit).0
        ≡ (in_reach e key limit && is_expired e key now)
  unfolding in_reach
  contains-collect_expired key =
      rw collect_expired-gather (elim (Option-cases (JsMap.get e.pos key)) [
        | inl out ↦ ground (arith, gather_absent (min limit (length e.key_array)) e now v key)
        | inr (p, at) ↦ ground (
          arith,
          gather_mem (min limit (length e.key_array)) e now v key p at,
          v.located key p at,
          get_elem?-lt e.key_array p key,
        )
      ])

  pub collect_expired-Distinct : Distinct (collect_expired e now limit).0
  collect_expired-Distinct =
      rw collect_expired-gather
        (gather-Distinct (min limit (length e.key_array)) e now v (omega arith))

  -- In a valid manager, with a limit of at least the number of deadlines, collectExpired returns
  -- exactly the expired keys.
  pub collect_expired_all :
      length e.key_array ≤ limit
      → (key : Text) → contains key (collect_expired e now limit).0 ≡ is_expired e key now
  unfolding in_reach is_expired
  collect_expired_all h key = elim (Option-cases (JsMap.get e.pos key)) [
    | inl out ↦
        rw (contains-collect_expired key)
          (ground (arith, v.mirrored key, JsMap.has-get e.pos key, JsMap.has-get e.expires_at key))
    | inr (p, at) ↦
        rw (contains-collect_expired key)
          (ground (arith, v.located key p at, get_elem?-lt e.key_array p key))
  ]

-- collectExpired returns no more keys than its limit.
pub collect_expired_bound :
    (e : ExpiryManager) (now limit : ℕ) → length (collect_expired e now limit).0 ≤ limit
collect_expired_bound e now limit =
    rw collect_expired-gather (omega (arith, gather_bound (min limit (length e.key_array)) e now))

-- The sweep changes the cursor alone, and leaves it inside the array.
pub collect_expired_frame :
    (e : ExpiryManager) (now limit : ℕ)
    → ((collect_expired e now limit).1
        ≡ record e { cursor = (collect_expired e now limit).1.cursor })
unfolding collect_expired
collect_expired_frame e now limit =
    ground (arith, collect_frame (min limit (length e.key_array)) e now [])

pub collect_expired-IsValid :
    (e : ExpiryManager) (now limit : ℕ) → IsValid e → IsValid (collect_expired e now limit).1
unfolding Expiry.size
collect_expired-IsValid e now limit v =
    subst IsValid (sym (collect_expired_frame e now limit)) (record {
      mirrored = v.mirrored;
      located = v.located;
      indexed = v.indexed;
      distinct = v.distinct;
      filled = v.filled;
    })

pub deadline-collect_expired :
    (e : ExpiryManager) (now limit : ℕ) (k : Text)
    → deadline (collect_expired e now limit).1 k ≡ deadline e k
deadline-collect_expired e now limit k =
    ap (λ (d : ExpiryManager). deadline d k) (collect_expired_frame e now limit)
