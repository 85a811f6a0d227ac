-- ===== src/JsObject/Order.antt =====
-- About `Object.entries`: the same properties, in another order.
use mini_store.Prelude.{
  ◌≡◌, ◌∙◌, refl, sym, ap, subst, inl, inr, Bool, true, false, none, some, is_some, List, [], ◌∷◌,
  ◌++◌, ite, if◌then◌else◌, ltb, length, Text, Text-discrete, text_keyed, contains, Distinct,
  Distinct-join, length-same, suc, Bool-cases, arith,
}
use mini_store.JsMap
use mini_store.JsMap.{JsMap}
use mini_store.Protocol.Numbers.{value_from}
use mini_store.JsObject.{insert, indices, names, entries, is_index, assign, proto}

module _ {V : Type 0} where
  -- Both an entry and the others, at a name that is new.
  get-insert :
      (name : Text) (v : V) (l : List (Text × V)) (k : Text)
      → JsMap.get l name ≡ none
      → JsMap.get (insert (name, v) l) k ≡ ite (Text-discrete name k) (some v) (JsMap.get l k)
  unfolding JsMap.get insert
  get-insert name v [] k absent = refl
  get-insert name v ((other, w) ∷ l) k absent =
      elim (Bool-cases (ltb (value_from 0 name) (value_from 0 other))) [
        | inl before ↦ ground arith
        | inr behind ↦ elim (Text-discrete other name) [
          | yes same ↦ absurd (ground arith)
          | no apart ↦ elim (Text-discrete other k) [
            | yes here ↦ ground (arith, get-insert name v l k (ground arith))
            | no there ↦ ground (arith, get-insert name v l k (ground arith))
          ]
        ]
      ]

  get_absent :
      (o : JsMap Text V) (k : Text) → contains k (JsMap.keys o) ≡ false → JsMap.get o k ≡ none
  unfolding JsMap.has
  get_absent o k h = ground (arith, JsMap.contains-keys o k)

  get-indices :
      (o : JsMap Text V)
      → Distinct (JsMap.keys o)
      → (k : Text) → JsMap.get (indices o) k ≡ (if is_index k then JsMap.get o k else none)
  unfolding JsMap.get indices
  get-indices [] d k = ground arith
  get-indices ((name, v) ∷ o) (new, d) k = elim (Bool-cases (is_index name)) [
    | inl index ↦
        let absent : JsMap.get (indices o) name ≡ none =
          get-indices o d name ∙ ground (arith, get_absent o name new) in
        elim (Text-discrete name k) [
          | yes same ↦
              ground
                (arith, get-insert name v (indices o) k absent, get-indices o d k, ap is_index same)
          | no other ↦ ground (arith, get-insert name v (indices o) k absent, get-indices o d k)
        ]
    | inr plain ↦ elim (Text-discrete name k) [
      | yes same ↦ ground (arith, get-indices o d k, ap is_index same)
      | no other ↦ ground (arith, get-indices o d k)
    ]
  ]

  get-names :
      (o : JsMap Text V) (k : Text)
      → JsMap.get (names o) k ≡ (if is_index k then none else JsMap.get o k)
  unfolding JsMap.get names
  get-names [] k = ground arith
  get-names ((name, v) ∷ o) k = elim (Text-discrete name k) [
    | yes same ↦ ground (arith, get-names o k, ap is_index same)
    | no other ↦ ground (arith, get-names o k)
  ]

  get-append :
      (l m : List (Text × V)) (k : Text)
      → JsMap.get (l ++ m) k ≡ (if is_some (JsMap.get l k) then JsMap.get l k else JsMap.get m k)
  unfolding JsMap.get
  get-append [] m k = refl
  get-append ((name, v) ∷ l) m k = ground (arith, get-append l m k)

  pub get-entries :
      (o : JsMap Text V)
      → Distinct (JsMap.keys o)
      → (k : Text) → JsMap.get (entries o) k ≡ JsMap.get o k
  unfolding entries
  get-entries o d k =
      ground (arith, get-append (indices o) (names o) k, get-indices o d k, get-names o k)

  contains-get :
      (o : JsMap Text V) (k : Text) → JsMap.get o k ≡ none → contains k (JsMap.keys o) ≡ false
  unfolding JsMap.has
  contains-get o k h = JsMap.contains-keys o k ∙ ap is_some h

  Distinct-if :
      (b : Bool) (x y : List (Text × V))
      → Distinct (JsMap.keys x)
      → Distinct (JsMap.keys y)
      → Distinct (JsMap.keys (if b then x else y))
  Distinct-if true x y dx dy = dx
  Distinct-if false x y dx dy = dy

  insert-Distinct :
      (name : Text) (v : V) (l : List (Text × V))
      → Distinct (JsMap.keys l)
      → JsMap.get l name ≡ none
      → Distinct (JsMap.keys (insert (name, v) l))
  unfolding insert JsMap.get contains
  insert-Distinct name v [] d absent = (refl, tt)
  insert-Distinct name v ((other, w) ∷ l) (new, d) absent =
      let here : JsMap.get l name ≡ none = ground arith in
      Distinct-if (ltb (value_from 0 name) (value_from 0 other)) ((name, v) ∷ (other, w) ∷ l)
        ((other, w) ∷ insert (name, v) l) (contains-get ((other, w) ∷ l) name absent, (new, d))
        (
          contains-get (insert (name, v) l) other
              (get-insert name v l other here ∙ ground (arith, get_absent l other new)),
          insert-Distinct name v l d here,
        )

  indices-Distinct :
      (o : JsMap Text V) → Distinct (JsMap.keys o) → Distinct (JsMap.keys (indices o))
  unfolding indices
  indices-Distinct [] d = tt
  indices-Distinct ((name, v) ∷ o) (new, d) =
      let absent : JsMap.get (indices o) name ≡ none =
        get-indices o d name ∙ ground (arith, get_absent o name new) in
      Distinct-if (is_index name) (insert (name, v) (indices o)) (indices o)
        (insert-Distinct name v (indices o) (indices-Distinct o d) absent) (indices-Distinct o d)

  names-Distinct : (o : JsMap Text V) → Distinct (JsMap.keys o) → Distinct (JsMap.keys (names o))
  unfolding names
  names-Distinct [] d = tt
  names-Distinct ((name, v) ∷ o) (new, d) =
      Distinct-if (is_index name) (names o) ((name, v) ∷ names o) (names-Distinct o d) (
        contains-get (names o) name (get-names o name ∙ ground (arith, get_absent o name new)),
        names-Distinct o d,
      )

  keys-append : (l m : List (Text × V)) → JsMap.keys (l ++ m) ≡ JsMap.keys l ++ JsMap.keys m
  keys-append [] m = refl
  keys-append ((name, v) ∷ l) m = ap (λ (ks : List Text). name ∷ ks) (keys-append l m)

  -- An index is not among the other names.
  apart :
      (o : JsMap Text V)
      → Distinct (JsMap.keys o)
      → (k : Text) → contains k (JsMap.keys (indices o)) ≡ true
      → contains k (JsMap.keys (names o)) ≡ false
  unfolding JsMap.has
  apart o d k inside = ground (
    arith,
    JsMap.contains-keys (indices o) k,
    JsMap.contains-keys (names o) k,
    get-indices o d k,
    get-names o k,
  )

  pub entries-Distinct :
      (o : JsMap Text V) → Distinct (JsMap.keys o) → Distinct (JsMap.keys (entries o))
  unfolding entries
  entries-Distinct o d = subst Distinct (sym (keys-append (indices o) (names o))) (
      Distinct-join (JsMap.keys (indices o)) (JsMap.keys (names o)) (indices-Distinct o d)
        (names-Distinct o d) (apart o d))

  length-keys : (o : JsMap Text V) → length o ≡ length (JsMap.keys o)
  length-keys [] = refl
  length-keys ((name, v) ∷ o) = ap suc (length-keys o)

  pub length-entries :
      (o : JsMap Text V) → Distinct (JsMap.keys o) → length (entries o) ≡ JsMap.size o
  unfolding JsMap.has
  length-entries o d =
      length-keys (entries o)
      ∙ length-same (JsMap.keys (entries o)) (JsMap.keys o) (entries-Distinct o d) d (λ k.
        JsMap.contains-keys (entries o) k
        ∙ ap is_some (get-entries o d k)
        ∙ sym (JsMap.contains-keys o k))

  Distinct-ite :
      {P : Type 0} (c : Dec P) (x y : List (Text × V))
      → Distinct (JsMap.keys x)
      → Distinct (JsMap.keys y)
      → Distinct (JsMap.keys (ite c x y))
  Distinct-ite (yes p) x y dx dy = dx
  Distinct-ite (no n) x y dx dy = dy

  pub assign-Distinct :
      (o : JsMap Text V) (name : Text) (v : V)
      → Distinct (JsMap.keys o)
      → Distinct (JsMap.keys (assign o name v))
  unfolding assign
  assign-Distinct o name v d =
      Distinct-ite (Text-discrete proto name) o (JsMap.set o name v) d
        (JsMap.Distinct-set o name v d)
