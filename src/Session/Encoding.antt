-- ===== src/Session/Encoding.antt =====
-- The encoding under the session key can be read back, so distinct sessions have distinct texts.
use multi_agentic_workflow.Base.{
  ℕ, zero, suc, ◌+◌, ◌-◌, ◌*◌, ◌/◌, ◌%◌, ◌<◌, ◌≡◌, refl, ap, sym, ◌∙◌, [], ◌∷◌, ◌++◌, Option, none,
  some, arith, ltb, ◌==◌, if◌then◌else◌, length, inl, inr, ◌↔◌, Bool-cases,
}
use mathlib.Core.List.{append_assoc}
use multi_agentic_workflow.Base.Text.{Text, codes}
use multi_agentic_workflow.Protocol.{Platform, SessionId}
use multi_agentic_workflow.Session.{
  digits_from, decimal, join, prefixed, revision_field, fields, canonical, session_key,
}

head_or : ℕ → Text → ℕ
head_or d [] = d
head_or d (c ∷ cs) = c

-- A reader of one number up to the colon.
read_number : ℕ → Text → ℕ × Text
read_number acc [] = (acc, [])
read_number acc (c ∷ cs) =
    let rest = read_number (acc * 10 + (c - 48)) cs in if c == 58 then (acc, cs) else rest

read_number-digit :
    (acc d : ℕ) (cs : Text)
    → d < 10
    → read_number acc ((48 + d) ∷ cs) ≡ read_number (acc * 10 + d) cs
unfolding read_number
read_number-digit acc d cs h = let e : (48 + d) - 48 ≡ d = omega arith in rw e (ground arith)

read_number-digits_from :
    (f n : ℕ) (acc rest : Text)
    → n < f
    → read_number 0 (digits_from f n acc ++ rest) ≡ read_number n (acc ++ rest)
unfolding digits_from
read_number-digits_from zero n acc rest h = absurd (omega arith)
read_number-digits_from (suc f) n acc rest h = elim (Bool-cases (ltb n 10)) [
  | inl small ↦ rw small (
      read_number-digit 0 (n % 10) (acc ++ rest) (omega arith)
      ∙ ap (λ k. read_number k (acc ++ rest)) (ground arith))
  | inr big ↦ rw big (
      read_number-digits_from f (n / 10) ((48 + n % 10) ∷ acc) rest (ground arith)
      ∙ read_number-digit (n / 10) (n % 10) (acc ++ rest) (omega arith)
      ∙ ap (λ k. read_number k (acc ++ rest)) (omega arith))
]

take : ℕ → Text → Text
take zero xs = []
take (suc n) [] = []
take (suc n) (x ∷ xs) = x ∷ take n xs

drop : ℕ → Text → Text
drop zero xs = xs
drop (suc n) [] = []
drop (suc n) (x ∷ xs) = drop n xs

take-append : (v rest : Text) → take (length v) (v ++ rest) ≡ v
unfolding take
take-append [] rest = refl
take-append (c ∷ v) rest = ap (◌∷◌ c) (take-append v rest)

drop-append : (v rest : Text) → drop (length v) (v ++ rest) ≡ rest
unfolding drop
drop-append [] rest = refl
drop-append (c ∷ v) rest = drop-append v rest

-- One length-prefixed field, and what follows it.
read_counted : ℕ × Text → Text × Text
read_counted (n, rest) = (take n rest, drop n rest)

read_field : Text → Text × Text
read_field t = read_counted (read_number 0 t)

read_number-decimal : (n : ℕ) (rest : Text) → read_number 0 (decimal n ++ 58 ∷ rest) ≡ (n, rest)
unfolding decimal read_number
read_number-decimal n rest = read_number-digits_from (suc n) n [] (58 ∷ rest) (omega arith)

read_field-prefixed : (v rest : Text) → read_field (prefixed v ++ rest) ≡ (v, rest)
unfolding prefixed read_field read_counted
read_field-prefixed v rest =
    rw (append_assoc (decimal (length v)) (codes ":" ++ v) rest, read_number-decimal)
      (cc (take-append v rest, drop-append v rest))

-- The first field of two equal encodings is the same, and so is what follows.
prefixed_split : (v w r t : Text) → prefixed v ++ r ≡ prefixed w ++ t → (v ≡ w) × (r ≡ t)
prefixed_split v w r t e =
    let p : (v, r) ≡ (w, t) =
      sym (read_field-prefixed v r) ∙ ap read_field e ∙ read_field-prefixed w t in
    (ap (λ x. x.0) p, ap (λ x. x.1) p)

revision_field-injective : (a b : Option Text) → revision_field a ≡ revision_field b → a ≡ b
unfolding revision_field
revision_field-injective none none e = refl
revision_field-injective none (some y) e = absurd (ground (arith, e))
revision_field-injective (some x) none e = absurd (ground (arith, e))
revision_field-injective (some x) (some y) e = cc

tail_eq : {c d : ℕ} {x y : Text} → c ∷ x ≡ d ∷ y → x ≡ y
tail_eq e = cc

-- The text under the key determines the session: no two sessions share it, whatever their fields
-- contain, a missing base revision included.
pub canonical-injective : (s t : SessionId) → canonical s ≡ canonical t → s ≡ t
unfolding canonical fields join
canonical-injective s t e =
    let (p, e₁) = prefixed_split s.repo_id t.repo_id _ _ e in
    let (q, e₂) = prefixed_split s.team_id t.team_id _ _ (tail_eq e₁) in
    let (r, e₃) = prefixed_split s.branch t.branch _ _ (tail_eq e₂) in
    let (u, _) =
      prefixed_split (revision_field s.base_revision) (revision_field t.base_revision) [] []
        (ap (λ x. x ++ []) (tail_eq e₃)) in
    cc (p, q, r, revision_field-injective s.base_revision t.base_revision u)

-- Unless the digest maps their two texts to one value, two sessions share a key exactly when they
-- are one session.
pub session_key-injective :
    (p : Platform) (s t : SessionId)
    (no_collision : p.digest (canonical s) ≡ p.digest (canonical t) → canonical s ≡ canonical t)
    → (session_key p s ≡ session_key p t) ↔ (s ≡ t)
unfolding session_key
session_key-injective p s t no_collision =
    (λ e. canonical-injective s t (no_collision e), λ e. ap (session_key p) e)
