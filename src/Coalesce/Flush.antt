-- ===== src/Coalesce/Flush.antt =====
-- What a flush sends and what it keeps.
use multi_agentic_workflow.Base.{
  select-All, suc, ◌≤◌, ◌≡◌, refl, ap, ◌∙◌, ◌⊎◌, inl, inr, List, [], ◌∷◌, none, some, true, false,
  arith, Bool-cases, leb, push, length, All, All-append, In,
}
use multi_agentic_workflow.Base.Text.{Text, text_eq, text_eq_iff}
use multi_agentic_workflow.Base.JsMap
use multi_agentic_workflow.Base.JsMap.{JsMap}
use multi_agentic_workflow.Base.MapKeys.{HasKeys}
use multi_agentic_workflow.Base.Sort.{sort_onto-All}
use multi_agentic_workflow.Coalesce.{
  OutboundEvent, Coalescer, was_sent, discard, unsent, entry_seq, candidates, emit, flush,
}

length-push {ℓ} : {A : Type ℓ} (xs : List A) (x : A) → length (push xs x) ≡ suc (length xs)
length-push [] x = refl
length-push (y ∷ xs) x = ap suc (length-push xs x)

In-push : {A : Type 0} (z x : A) (xs : List A) → In z xs ⊎ (x ≡ z) → In z (push xs x)
In-push z x [] (inl i) = absurd i
In-push z x [] (inr e) = inl e
In-push z x (y ∷ xs) (inl (inl e)) = inl e
In-push z x (y ∷ xs) (inl (inr i)) = inr (In-push z x xs (inl i))
In-push z x (y ∷ xs) (inr e) = inr (In-push z x xs (inr e))

module _ {T : Type 0} where
  emit-length :
      (c : Coalescer T) (emitted : List (OutboundEvent T)) (cs : List (Text × OutboundEvent T))
      → length emitted ≤ c.max_events_per_window
      → length (emit c emitted cs).1 ≤ c.max_events_per_window
  unfolding emit
  emit-length c emitted [] h = h
  emit-length c emitted ((key, e) ∷ cs) h =
      elim (Bool-cases (leb c.max_events_per_window (length emitted))) [
        | inl y ↦ rw y h
        | inr n ↦ rw n (
            emit-length
              (record c {
                last_sent = JsMap.set key e.state_signature c.last_sent;
                buffered = JsMap.delete key c.buffered;
              })
              (push emitted e) cs (ground (arith, n, length-push emitted e)))
      ]

  -- A flush sends no more events than the bound of a window.
  pub flush-length : (c : Coalescer T) → length (flush c).1 ≤ c.max_events_per_window
  unfolding flush
  flush-length c =
      emit-length (record c { buffered = discard c.last_sent c.buffered c.buffered }) []
        (candidates c) (omega arith)

  emit-All :
      (P : OutboundEvent T → Type 0) (c : Coalescer T) (emitted : List (OutboundEvent T))
      (cs : List (Text × OutboundEvent T))
      → All P emitted
      → All (λ entry. P entry.1) cs
      → All P (emit c emitted cs).1
  unfolding emit
  emit-All P c emitted [] h g = h
  emit-All P c emitted ((key, e) ∷ cs) h g =
      elim (Bool-cases (leb c.max_events_per_window (length emitted))) [
        | inl y ↦ rw y h
        | inr n ↦ rw n (
            emit-All P
              (record c {
                last_sent = JsMap.set key e.state_signature c.last_sent;
                buffered = JsMap.delete key c.buffered;
              })
              (push emitted e) cs (All-append P emitted (e ∷ []) h (g.0, tt)) g.1)
      ]

  -- The entries of a map with unique keys are what `get` finds.
  abbrev Found : JsMap (OutboundEvent T) → Text × OutboundEvent T → Type 0
  Found m entry = JsMap.get entry.0 m ≡ some entry.1

  other_key :
      (j k : Text) (w e : OutboundEvent T) (m : JsMap (OutboundEvent T))
      → JsMap.get j m ≡ none
      → JsMap.get k m ≡ some e
      → JsMap.get k ((j, w) ∷ m) ≡ some e
  unfolding JsMap.get
  other_key j k w e m h f = ground (arith, h, f, text_eq_iff j k)

  Found-cons :
      (j : Text) (w : OutboundEvent T) (m : JsMap (OutboundEvent T))
      (es : List (Text × OutboundEvent T))
      → JsMap.get j m ≡ none
      → All (Found m) es
      → All (Found ((j, w) ∷ m)) es
  Found-cons j w m [] h f = tt
  Found-cons j w m ((k, e) ∷ es) h f = (other_key j k w e m h f.0, Found-cons j w m es h f.1)

  HasKeys-Found : (m : JsMap (OutboundEvent T)) → HasKeys m → All (Found m) m
  HasKeys-Found [] h = tt
  HasKeys-Found ((j, w) ∷ m) h =
      (JsMap.get-head j w m, Found-cons j w m m h.0 (HasKeys-Found m h.1))

  same_event :
      (all : JsMap (OutboundEvent T)) (j k : Text) (w e : OutboundEvent T)
      → JsMap.get j all ≡ some w
      → JsMap.get k all ≡ some e
      → text_eq j k ≡ true
      → w ≡ e
  same_event all j k w e f g y = ground (arith, f, g, y, text_eq_iff j k)

  untouched :
      (sent : JsMap Text) (all m : JsMap (OutboundEvent T)) (j k : Text) (w e : OutboundEvent T)
      → JsMap.get j all ≡ some w
      → JsMap.get k all ≡ some e
      → was_sent sent (j, w) ≡ true
      → was_sent sent (k, e) ≡ false
      → JsMap.get k (JsMap.delete j m) ≡ JsMap.get k m
  untouched sent all m j k w e f g y n = elim (Bool-cases (text_eq j k)) [
    | inl t ↦ absurd (ground (arith, y, n, same_event all j k w e f g t, text_eq_iff j k, t))
    | inr o ↦ ground (arith, JsMap.get-delete j k m, o)
  ]

  sent_or_kept :
      (all m : JsMap (OutboundEvent T)) (emitted : List (OutboundEvent T)) (j k : Text)
      (w e : OutboundEvent T)
      → JsMap.get j all ≡ some w
      → JsMap.get k all ≡ some e
      → (JsMap.get k m ≡ some e) ⊎ In e emitted
      → (JsMap.get k (JsMap.delete j m) ≡ some e) ⊎ In e (push emitted w)
  sent_or_kept all m emitted j k w e f g (inr i) = inr (In-push e w emitted (inl i))
  sent_or_kept all m emitted j k w e f g (inl b) = elim (Bool-cases (text_eq j k)) [
    | inl t ↦ inr (In-push e w emitted (inr (same_event all j k w e f g t)))
    | inr o ↦ inl (ground (arith, JsMap.get-delete j k m, o, b))
  ]

  discard_keeps :
      (sent : JsMap Text) (all m : JsMap (OutboundEvent T)) (es : List (Text × OutboundEvent T))
      (k : Text) (e : OutboundEvent T)
      → All (Found all) es
      → JsMap.get k all ≡ some e
      → was_sent sent (k, e) ≡ false
      → JsMap.get k (discard sent es m) ≡ JsMap.get k m
  unfolding discard
  discard_keeps sent all m [] k e f g n = refl
  discard_keeps sent all m ((j, w) ∷ es) k e f g n = elim (Bool-cases (was_sent sent (j, w))) [
    | inl y ↦ rw y (
        discard_keeps sent all (JsMap.delete j m) es k e f.1 g n
        ∙ untouched sent all m j k w e f.0 g y n)
    | inr o ↦ rw o (discard_keeps sent all m es k e f.1 g n)
  ]

  emit_keeps :
      (all : JsMap (OutboundEvent T)) (c : Coalescer T) (emitted : List (OutboundEvent T))
      (cs : List (Text × OutboundEvent T)) (k : Text) (e : OutboundEvent T)
      → All (Found all) cs
      → JsMap.get k all ≡ some e
      → (JsMap.get k c.buffered ≡ some e) ⊎ In e emitted
      → (JsMap.get k (emit c emitted cs).0.buffered ≡ some e) ⊎ In e (emit c emitted cs).1
  unfolding emit
  emit_keeps all c emitted [] k e f g o = o
  emit_keeps all c emitted ((j, w) ∷ cs) k e f g o =
      elim (Bool-cases (leb c.max_events_per_window (length emitted))) [
        | inl y ↦ rw y o
        | inr n ↦ rw n (
            emit_keeps all
              (record c {
                last_sent = JsMap.set j w.state_signature c.last_sent;
                buffered = JsMap.delete j c.buffered;
              })
              (push emitted w) cs k e f.1 g (sent_or_kept all c.buffered emitted j k w e f.0 g o))
      ]

  candidates-Found : (c : Coalescer T) → HasKeys c.buffered → All (Found c.buffered) (candidates c)
  unfolding candidates
  candidates-Found c h =
      sort_onto-All entry_seq (Found c.buffered) [] (unsent c) tt
        (select-All (Found c.buffered) _ c.buffered (HasKeys-Found c.buffered h))

  -- Nothing is lost: an event that was buffered for a key, and is not what was last sent for that
  -- key, is sent by a flush or stays buffered for the next one.
  pub flush_keeps :
      (c : Coalescer T) (k : Text) (e : OutboundEvent T)
      → HasKeys c.buffered
      → JsMap.get k c.buffered ≡ some e
      → was_sent c.last_sent (k, e) ≡ false
      → (JsMap.get k (flush c).0.buffered ≡ some e) ⊎ In e (flush c).1
  unfolding flush
  flush_keeps c k e h g n =
      emit_keeps c.buffered (record c { buffered = discard c.last_sent c.buffered c.buffered }) []
        (candidates c) k e (candidates-Found c h) g
        (inl (
          discard_keeps c.last_sent c.buffered c.buffered c.buffered k e
            (HasKeys-Found c.buffered h) g n
          ∙ g))
