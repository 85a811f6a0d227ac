-- ===== src/Protocol/Chunks.antt =====
-- About `ReplyParser.append`: where the chunks are cut.
use mini_store.Prelude.{
  ℕ, zero, suc, ◌≤◌, ◌<◌, ◌≡◌, ◌∙◌, inl, inr, refl, sym, ap, subst, ◌&&◌, Option, none, some, List,
  [], ◌∷◌, ◌++◌, arith, length, length-append, ◌==◌, Text, Option-cases, Bool-cases,
}
use mini_store.Protocol.ReplyParser.{
  ReplyParser, cut_line, pump, append_text, append, buffer_of, process_line, parse_bulk_line,
  process_prefix, end_item,
}

cut_line-append :
    (x b line behind : Text)
    → cut_line x ≡ some (line, behind)
    → cut_line (x ++ b) ≡ some (line, behind ++ b)
unfolding cut_line
cut_line-append [] b line behind h = absurd (ground arith)
cut_line-append (c ∷ []) b line behind h = absurd (ground arith)
cut_line-append (c ∷ d ∷ t) b line behind h = elim (Bool-cases ((c == b'\r') && (d == b'\n'))) [
  | inl ends ↦ ground arith
  | inr goes_on ↦ elim (Option-cases (cut_line (d ∷ t))) [
    | inl stuck ↦ absurd (ground arith)
    | inr ((l, r), e) ↦ ground (arith, cut_line-append (d ∷ t) b l r e)
  ]
]

cut_line-length :
    (x line behind : Text) → cut_line x ≡ some (line, behind) → length behind < length x
unfolding cut_line
cut_line-length [] line behind h = absurd (ground arith)
cut_line-length (c ∷ []) line behind h = absurd (ground arith)
cut_line-length (c ∷ d ∷ t) line behind h = elim (Bool-cases ((c == b'\r') && (d == b'\n'))) [
  | inl ends ↦ ground arith
  | inr goes_on ↦ elim (Option-cases (cut_line (d ∷ t))) [
    | inl stuck ↦ absurd (ground arith)
    | inr ((l, r), e) ↦ ground (arith, cut_line-length (d ∷ t) l r e)
  ]
]

process_prefix-buffer :
    (c : ℕ) (t behind : Text) (p : ReplyParser)
    → process_prefix c t (record p { buffer = behind })
      ≡ record (process_prefix c t p) { buffer = behind }
unfolding process_prefix
process_prefix-buffer c t behind p = ground arith

end_item-buffer :
    (items : List (Option Text)) (behind : Text) (p : ReplyParser)
    → end_item items (record p { buffer = behind }) ≡ record (end_item items p) { buffer = behind }
unfolding end_item
end_item-buffer items behind p = ground arith

-- A line is processed without a look at the buffer.
process_line-buffer :
    (line behind : Text) (p : ReplyParser)
    → process_line line (record p { buffer = behind })
      ≡ record (process_line line p) { buffer = behind }
unfolding process_line
process_line-buffer [] behind p =
    ground (arith, end_item-buffer (p.array_items ++ parse_bulk_line [] ∷ []) behind p)
process_line-buffer (c ∷ t) behind p = ground (
  arith,
  end_item-buffer (p.array_items ++ parse_bulk_line (c ∷ t) ∷ []) behind p,
  process_prefix-buffer c t behind p,
)

pump_step :
    (fuel : ℕ) (p : ReplyParser) (line behind : Text)
    → cut_line p.buffer ≡ some (line, behind)
    → pump (suc fuel) p ≡ pump fuel (process_line line (record p { buffer = behind }))
unfolding pump
pump_step fuel p line behind h = rw (pump, h) refl

pump_stop : (fuel : ℕ) (p : ReplyParser) → cut_line p.buffer ≡ none → pump fuel p ≡ p
unfolding pump
pump_stop zero p h = refl
pump_stop (suc fuel) p h = rw (pump, h) refl

buffer-process_line :
    (line behind : Text) (p : ReplyParser)
    → (process_line line (record p { buffer = behind })).buffer ≡ behind
buffer-process_line line behind p =
    ap (λ (q : ReplyParser). q.buffer) (process_line-buffer line behind p)

no_line : (x : Text) → length x ≤ 0 → cut_line x ≡ none
unfolding cut_line
no_line [] h = refl
no_line (c ∷ x) h = absurd (omega arith)

-- More fuel than the buffer is long changes nothing.
pump-fuel :
    (f g : ℕ) (p : ReplyParser) → length p.buffer ≤ f → length p.buffer ≤ g → pump f p ≡ pump g p
unfolding pump
pump-fuel zero g p hf hg = sym (pump_stop g p (no_line p.buffer hf))
pump-fuel (suc f) zero p hf hg = pump_stop (suc f) p (no_line p.buffer hg)
pump-fuel (suc f) (suc g) p hf hg = elim (Option-cases (cut_line p.buffer)) [
  | inl stuck ↦ pump_stop (suc f) p stuck ∙ sym (pump_stop (suc g) p stuck)
  | inr ((line, behind), e) ↦
      let left = buffer-process_line line behind p in
      let shorter = cut_line-length p.buffer line behind e in
      pump_step f p line behind e
      ∙ pump-fuel f g (process_line line (record p { buffer = behind }))
          (omega (arith, ap length left)) (omega (arith, ap length left))
      ∙ sym (pump_step g p line behind e)
]

-- The bytes `b` are there from the start, or come when the loop is done with what was there.
abbrev more : Text → ReplyParser → ReplyParser
more b p = record p { buffer = p.buffer ++ b }

pump_stop-more :
    (f g h : ℕ) (p : ReplyParser) (b : Text)
    → cut_line p.buffer ≡ none
    → length ((pump f p).buffer ++ b) ≤ g
    → length (p.buffer ++ b) ≤ h
    → pump g (more b (pump f p)) ≡ pump h (more b p)
pump_stop-more f g h p b stuck hg hh =
    ap (λ (q : ReplyParser). pump g (more b q)) (pump_stop f p stuck)
    ∙ pump-fuel g h (more b p)
        (subst (λ (q : ReplyParser). length (q.buffer ++ b) ≤ g) (pump_stop f p stuck) hg) hh

process_line-more :
    (line behind b : Text) (p : ReplyParser)
    → more b (process_line line (record p { buffer = behind }))
      ≡ process_line line (record p { buffer = behind ++ b })
process_line-more line behind b p =
    ap (more b) (process_line-buffer line behind p) ∙ sym (process_line-buffer line (behind ++ b) p)

pump-more :
    (f g h : ℕ) (p : ReplyParser) (b : Text)
    → length p.buffer ≤ f
    → length ((pump f p).buffer ++ b) ≤ g
    → length (p.buffer ++ b) ≤ h
    → pump g (more b (pump f p)) ≡ pump h (more b p)
pump-more zero g h p b hf hg hh = pump_stop-more zero g h p b (no_line p.buffer hf) hg hh
pump-more (suc f) g h p b hf hg hh = elim (Option-cases (cut_line p.buffer)) [
  | inl stuck ↦ pump_stop-more (suc f) g h p b stuck hg hh
  | inr ((line, behind), e) ↦
      let next : ReplyParser = process_line line (record p { buffer = behind }) in
      let step : pump (suc f) p ≡ pump f next = pump_step f p line behind e in
      let left : next.buffer ≡ behind = buffer-process_line line behind p in
      let shorter = cut_line-length p.buffer line behind e in
      ap (λ (q : ReplyParser). pump g (more b q)) step
      ∙ pump-more f g h next b (omega (arith, ap length left))
          (subst (λ (q : ReplyParser). length (q.buffer ++ b) ≤ g) step hg)
          (omega (arith, length-append next.buffer b, length-append p.buffer b, ap length left))
      ∙ ap (pump h) (process_line-more line behind b p)
      ∙ sym (pump_step h (more b p) line (behind ++ b) (cut_line-append p.buffer b line behind e))
      ∙ pump-fuel (suc h) h (more b p) (omega arith) hh
]

append_assoc : (x a b : Text) → (x ++ a) ++ b ≡ x ++ (a ++ b)
append_assoc [] a b = refl
append_assoc (c ∷ x) a b = ap (λ (t : Text). c ∷ t) (append_assoc x a b)

append_text-append_text :
    (a b : Text) (p : ReplyParser) → append_text b (append_text a p) ≡ append_text (a ++ b) p
unfolding append_text
append_text-append_text a b p =
    pump-more (length (p.buffer ++ a)) (length ((append_text a p).buffer ++ b))
      (length ((p.buffer ++ a) ++ b)) (record p { buffer = p.buffer ++ a }) b (omega arith)
      (omega arith) (omega arith)
    ∙ ap (λ (x : Text). pump (length x) (record p { buffer = x })) (append_assoc p.buffer a b)

-- The client's reply parser ends in the same state, with the same replies emitted, whether bytes
-- arrive in two buffers or in one, whatever its state before, where decoding the two halves one
-- by one gives the text of the whole, as it does where no character is cut.
pub append-append :
    (decode : List ℕ → Text) (a b : List ℕ) (p : ReplyParser)
    → decode (a ++ b) ≡ decode a ++ decode b
    → append decode (buffer_of b) (append decode (buffer_of a) p)
      ≡ append decode (buffer_of (a ++ b)) p
unfolding append
append-append decode a b p whole =
    append_text-append_text (decode a) (decode b) p ∙ ap (λ (t : Text). append_text t p) (sym whole)
