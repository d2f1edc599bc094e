-- ===== src/Rules/Patterns.antt =====
-- What it means for a path to match a glob, with no search order in it, and that `globMatch`
-- decides it.
use multi_agentic_workflow.Base.{
  ℕ, ◌≡◌, ◌↔◌, ◌⊎◌, refl, List, [], ◌∷◌, Bool, true, false, not, ◌||◌, ◌&&◌, ◌==◌, arith, inl, inr,
  Bool-cases, any,
}
use multi_agentic_workflow.Base.Text.{Text, text_eq}
use multi_agentic_workflow.Rules.Glob.{
  Part, run, single, literal, segment_to_reg_exp, test, is_separator, globstar, rests, is_empty,
  match_one, match_segments, segments, glob_match,
}

-- One segment against the parts of a pattern: a run takes any number of characters.
pub data Fits : List Part → Text → Type 0 where
  end : Fits [] []
  here : {c : ℕ} {ps : List Part} {cs : Text} → Fits ps cs → Fits (literal c ∷ ps) (c ∷ cs)
  any_one :
      {c : ℕ} {ps : List Part} {cs : Text}
      → is_separator c ≡ false
      → Fits ps cs
      → Fits (single ∷ ps) (c ∷ cs)
  leave : {ps : List Part} {cs : Text} → Fits ps cs → Fits (run ∷ ps) cs
  take :
      {c : ℕ} {ps : List Part} {cs : Text}
      → is_separator c ≡ false
      → Fits (run ∷ ps) cs
      → Fits (run ∷ ps) (c ∷ cs)

-- Whole paths: a globstar takes any number of segments.
pub data Covers : List Text → List Text → Type 0 where
  done : Covers [] []
  segment :
      {g s : Text} {gs ss : List Text}
      → text_eq g globstar ≡ false
      → Fits (segment_to_reg_exp g) s
      → Covers gs ss
      → Covers (g ∷ gs) (s ∷ ss)
  stop :
      {g : Text} {gs ss : List Text} → text_eq g globstar ≡ true → Covers gs ss → Covers (g ∷ gs) ss
  further :
      {g s : Text} {gs ss : List Text}
      → text_eq g globstar ≡ true
      → Covers (g ∷ gs) ss
      → Covers (g ∷ gs) (s ∷ ss)

or_cases : (a b : Bool) → (a || b) ≡ true → (a ≡ true) ⊎ (b ≡ true)
or_cases true b h = inl refl
or_cases false b h = inr h

and_both : (a b : Bool) → (a && b) ≡ true → (a ≡ true) × (b ≡ true)
and_both a b h = ground (arith, h)

not-true : (a : Bool) → not a ≡ true → a ≡ false
not-true a h = ground (arith, h)

test→Fits : (ps : List Part) (s : Text) → test ps s ≡ true → Fits ps s
unfolding test
test→Fits [] [] h = end
test→Fits [] (c ∷ cs) h = absurd (ground arith)
test→Fits (run ∷ ps) [] h = leave (test→Fits ps [] h)
test→Fits (run ∷ ps) (c ∷ cs) h = elim (or_cases (test ps (c ∷ cs)) _ h) [
  | inl k ↦ leave (test→Fits ps (c ∷ cs) k)
  | inr k ↦
      let (a, b) = and_both (not (is_separator c)) (test (run ∷ ps) cs) k in
      take (not-true (is_separator c) a) (test→Fits (run ∷ ps) cs b)
]
test→Fits (single ∷ ps) [] h = absurd (ground arith)
test→Fits (single ∷ ps) (c ∷ cs) h =
    let (a, b) = and_both (not (is_separator c)) (test ps cs) h in
    any_one (not-true (is_separator c) a) (test→Fits ps cs b)
test→Fits (literal x ∷ ps) [] h = absurd (ground arith)
test→Fits (literal x ∷ ps) (c ∷ cs) h =
    let (a, b) = and_both (c == x) (test ps cs) h in
    let e : x ≡ c = ground (arith, a) in rw e (here (test→Fits ps cs b))

Fits→test : {ps : List Part} {s : Text} → Fits ps s → test ps s ≡ true
unfolding test is_separator
Fits→test end = refl
Fits→test (here f) = ground (arith, Fits→test f)
Fits→test (any_one n f) = ground (arith, n, Fits→test f)
Fits→test {s = []} (leave f) = Fits→test f
Fits→test {s = c ∷ cs} (leave f) = ground (arith, Fits→test f)
Fits→test (take n f) = ground (arith, n, Fits→test f)

pub test_iff : (ps : List Part) (s : Text) → (test ps s ≡ true) ↔ Fits ps s
test_iff ps s = (test→Fits ps s, Fits→test)

-- A globstar covers what one of the remaining paths gives to the rest of the glob.
any-rests→Covers :
    (g : Text) (gs ss : List Text)
    → text_eq g globstar ≡ true
    → ((ts : List Text) → match_segments gs ts ≡ true → Covers gs ts)
    → any (match_segments gs) (rests ss) ≡ true
    → Covers (g ∷ gs) ss
unfolding rests
any-rests→Covers g gs [] e f h = stop e (f [] (ground (arith, h)))
any-rests→Covers g gs (s ∷ ss) e f h = elim (Bool-cases (match_segments gs (s ∷ ss))) [
  | inl y ↦ stop e (f (s ∷ ss) y)
  | inr n ↦ further e (any-rests→Covers g gs ss e f (ground (arith, h, n)))
]

match_one→Covers :
    (g : Text) (gs ss : List Text)
    → text_eq g globstar ≡ false
    → ((ts : List Text) → match_segments gs ts ≡ true → Covers gs ts)
    → match_one g (match_segments gs) ss ≡ true
    → Covers (g ∷ gs) ss
unfolding match_one
match_one→Covers g gs [] e f h = absurd (ground (arith, h))
match_one→Covers g gs (s ∷ ss) e f h = elim (Bool-cases (test (segment_to_reg_exp g) s)) [
  | inl y ↦ segment e (test→Fits (segment_to_reg_exp g) s y) (f ss (ground (arith, h, y)))
  | inr n ↦ absurd (ground (arith, h, n))
]

match_segments→Covers : (gs ss : List Text) → match_segments gs ss ≡ true → Covers gs ss
unfolding match_segments is_empty
match_segments→Covers [] [] h = done
match_segments→Covers [] (s ∷ ss) h = absurd (ground (arith, h))
match_segments→Covers (g ∷ gs) ss h = elim (Bool-cases (text_eq g globstar)) [
  | inl e ↦ any-rests→Covers g gs ss e (match_segments→Covers gs) (rw e at h)
  | inr e ↦ match_one→Covers g gs ss e (match_segments→Covers gs) (rw e at h)
]

any-rests_here : (f : List Text → Bool) (ss : List Text) → f ss ≡ true → any f (rests ss) ≡ true
unfolding rests
any-rests_here f [] h = ground (arith, h)
any-rests_here f (s ∷ ss) h = ground (arith, h)

any-rests_further :
    (f : List Text → Bool) (s : Text) (ss : List Text)
    → any f (rests ss) ≡ true
    → any f (rests (s ∷ ss)) ≡ true
unfolding rests
any-rests_further f s ss h = ground (arith, h)

Covers→match_segments : {gs ss : List Text} → Covers gs ss → match_segments gs ss ≡ true
unfolding match_segments is_empty match_one
Covers→match_segments done = refl
Covers→match_segments (segment e f d) = rw (e, Fits→test f) (Covers→match_segments d)
Covers→match_segments {gs = g ∷ gs} {ss = ss} (stop e d) =
    rw e (any-rests_here (match_segments gs) ss (Covers→match_segments d))
Covers→match_segments {gs = g ∷ gs} {ss = s ∷ ss} (further e d) =
    rw e (any-rests_further (match_segments gs) s ss (rw e at (Covers→match_segments d)))

-- A glob matches a path exactly when its normalized segments cover those of the path: a segment
-- fits one segment of the path ("*" any run of characters, "?" one, any other itself), and "**"
-- takes any number of whole segments.
pub glob_match_iff :
    (pattern path : Text)
    → (glob_match pattern path ≡ true) ↔ Covers (segments pattern) (segments path)
unfolding glob_match
glob_match_iff pattern path =
    (match_segments→Covers (segments pattern) (segments path), Covers→match_segments)
