-- ===== src/Client/Queue.antt =====
-- About the queue of the client's requests.
use mini_store.Prelude.{
  ℕ, ◌≡◌, ◌∙◌, refl, sym, ap, List, [], ◌∷◌, ◌++◌, Text, Bool, true, false, if◌then◌else◌, inl, inr,
  arith, Bool-cases,
}
use mathlib.Core.List.{append-nil, append_assoc}
use mini_store.Protocol.Command.{codes}
use mini_store.Protocol.ReplyParser
use mini_store.Protocol.ReplyParser.{Reply, Emitted, buffer_of}
use mini_store.Client.{
  Client, push_request, send, dispatch, resolve_first, parse, on_data, resolve_pending, on_close,
  resolve_all,
}

-- What happens to a client while its connection is open.
pub data Happening : Type 0 where
  sends : ℕ → Text → Happening
  receives : (bytes : List ℕ) → Happening

unfoldable pub run : (decode : List ℕ → Text) → List Happening → Client → Client
run decode [] c = c
run decode (sends id line ∷ happenings) c = run decode happenings (send id line c)
run decode (receives bytes ∷ happenings) c = run decode happenings (on_data decode bytes c)

-- The requests, in order.
unfoldable pub requests : List Happening → List ℕ
requests [] = []
requests (sends id line ∷ happenings) = id ∷ requests happenings
requests (receives bytes ∷ happenings) = requests happenings

unfoldable pub ids : List (ℕ × Reply) → List ℕ
ids [] = []
ids ((id, r) ∷ resolved) = id ∷ ids resolved

-- All requests so far: the resolved ones, and those that wait.
abbrev pub known : Client → List ℕ
known c = ids c.resolved ++ c.pending_resolvers

ids-append : (l r : List (ℕ × Reply)) → ids (l ++ r) ≡ ids l ++ ids r
unfolding ids
ids-append [] r = refl
ids-append ((id, x) ∷ l) r = ap (λ (t : List ℕ). id ∷ t) (ids-append l r)

ids-resolve_all : (reply : Reply) (l : List ℕ) → ids (resolve_all reply l) ≡ l
unfolding ids resolve_all
ids-resolve_all reply [] = refl
ids-resolve_all reply (id ∷ l) = ap (λ (t : List ℕ). id ∷ t) (ids-resolve_all reply l)

known-push_request :
    (id : ℕ) (line : Text) (c : Client) → known (push_request id line c) ≡ known c ++ id ∷ []
known-push_request id line c = sym (append_assoc (ids c.resolved) c.pending_resolvers (id ∷ []))

known-resolve_first :
    (r : Reply) (waiting : List ℕ) (c : Client)
    → c.pending_resolvers ≡ waiting
    → known (resolve_first r waiting c) ≡ known c
unfolding ids
known-resolve_first r [] c e = refl
known-resolve_first r (id ∷ others) c e =
    ap (λ (l : List ℕ). l ++ others) (ids-append c.resolved ((id, r) ∷ []))
    ∙ append_assoc (ids c.resolved) (id ∷ []) others
    ∙ ap (λ (l : List ℕ). ids c.resolved ++ l) (sym e)

known-dispatch : (events : List Emitted) (c : Client) → known (dispatch events c) ≡ known c
unfolding dispatch
known-dispatch [] c = refl
known-dispatch (Emitted.reply r ∷ events) c =
    known-dispatch events (resolve_first r c.pending_resolvers c)
    ∙ known-resolve_first r c.pending_resolvers c refl
known-dispatch (Emitted.push r ∷ events) c =
    known-dispatch events (record c { pushes = c.pushes ++ r ∷ [] })
known-dispatch (Emitted.unknown_prefix prefix ∷ events) c = refl

module _ (decode : List ℕ → Text) where
  known-parse : (bytes : List ℕ) (c : Client) → known (parse decode bytes c) ≡ known c
  unfolding parse
  known-parse bytes c =
      let parser = ReplyParser.append decode (buffer_of bytes) (record c.parser { emitted = [] }) in
      known-dispatch parser.emitted (record c { parser = parser })

  stays_crashed :
      (happenings : List Happening) (c : Client)
      → c.crashed ≡ true
      → (run decode happenings c).crashed ≡ true
  unfolding run send on_data
  stays_crashed [] c h = h
  stays_crashed (sends id line ∷ happenings) c h =
      stays_crashed happenings (send id line c)
        (ap (λ (b : Bool). (if b then c else push_request id line c).crashed) h ∙ h)
  stays_crashed (receives bytes ∷ happenings) c h =
      stays_crashed happenings (on_data decode bytes c)
        (ap (λ (b : Bool). (if b then c else parse decode bytes c).crashed) h ∙ h)

  -- A client that has not crashed by the end had not crashed before.
  alive :
      (happenings : List Happening) (c : Client)
      → (run decode happenings c).crashed ≡ false
      → c.crashed ≡ false
  alive happenings c h = elim (Bool-cases c.crashed) [
    | inl crashed ↦ absurd (ground (arith, stays_crashed happenings c crashed))
    | inr fresh ↦ fresh
  ]

  send-alive :
      (id : ℕ) (line : Text) (c : Client)
      → c.crashed ≡ false
      → send id line c ≡ push_request id line c
  unfolding send
  send-alive id line c fresh = ap (λ (b : Bool). if b then c else push_request id line c) fresh

  on_data-alive :
      (bytes : List ℕ) (c : Client)
      → c.crashed ≡ false
      → on_data decode bytes c ≡ parse decode bytes c
  unfolding on_data
  on_data-alive bytes c fresh = ap (λ (b : Bool). if b then c else parse decode bytes c) fresh

  known-run :
      (happenings : List Happening) (c : Client)
      → (run decode happenings c).crashed ≡ false
      → known (run decode happenings c) ≡ known c ++ requests happenings
  unfolding run requests
  known-run [] c h = sym (append-nil (known c))
  known-run (sends id line ∷ happenings) c h =
      let sent = send-alive id line c (alive (sends id line ∷ happenings) c h) in
      known-run happenings (send id line c) h
      ∙ ap (λ (d : Client). known d ++ requests happenings) sent
      ∙ ap (λ (l : List ℕ). l ++ requests happenings) (known-push_request id line c)
      ∙ append_assoc (known c) (id ∷ []) (requests happenings)
  known-run (receives bytes ∷ happenings) c h =
      let parsed = on_data-alive bytes c (alive (receives bytes ∷ happenings) c h) in
      known-run happenings (on_data decode bytes c) h
      ∙ ap (λ (d : Client). known d ++ requests happenings) parsed
      ∙ ap (λ (l : List ℕ). l ++ requests happenings) (known-parse bytes c)

  resolve_pending-ids : (c : Client) → ids (resolve_pending c).resolved ≡ known c
  unfolding resolve_pending
  resolve_pending-ids c =
      let closed = Reply.error (codes "Connection closed") in
      ids-append c.resolved (resolve_all closed c.pending_resolvers)
      ∙ ap (λ (l : List ℕ). ids c.resolved ++ l) (ids-resolve_all closed c.pending_resolvers)

  -- Where nothing arrives on which the parser throws, every request that a client sends before
  -- its connection closes is resolved by the time the close has been handled, once and in the
  -- order of sending.
  pub on_close-run :
      (happenings : List Happening) (c : Client)
      → (run decode happenings c).crashed ≡ false
      → ids (on_close (run decode happenings c)).resolved ≡ known c ++ requests happenings
  unfolding on_close
  on_close-run happenings c h =
      let end = run decode happenings c in
      ap (λ (b : Bool). ids (if b then end else resolve_pending end).resolved) h
      ∙ resolve_pending-ids end
      ∙ known-run happenings c h
