-- ===== src/Revisions/Order.antt =====
-- Revisions are handed out in a strict order, whatever calls stand between.
use multi_agentic_workflow.Base.{
  ℕ, ◌+◌, ◌≤◌, ◌<◌, max, ◌≡◌, refl, ap, List, [], ◌∷◌, none, some, false, if◌then◌else◌, arith,
  Bool-cases, inl, inr,
}
use multi_agentic_workflow.Base.Text.{Text, text_eq, text_eq_iff, text_eq_refl}
use multi_agentic_workflow.Base.JsMap
use multi_agentic_workflow.Base.JsMap.{JsMap}
use multi_agentic_workflow.Protocol.{Platform, SessionId, Number, nat, other}
use multi_agentic_workflow.Session.{session_key}
use multi_agentic_workflow.Revisions.{RevisionCounter, highest_at, highest, next, resume}

highest_at-set :
    (c : RevisionCounter) (key k : Text) (n : ℕ)
    → highest_at (record { counters = JsMap.set key n c.counters }) k
      ≡ (if text_eq key k then n else highest_at c k)
unfolding highest_at JsMap.get_or
highest_at-set c key k n = ground (arith, JsMap.get-set key k n c.counters)

-- `next` gives one more than the highest revision, records it, and leaves the sessions with
-- another key alone.
pub next_lem :
    (p : Platform) (c : RevisionCounter) (session : SessionId) (k : Text)
    → ((next p c session).1 ≡ highest p c session + 1)
      × (highest p (next p c session).0 session ≡ (next p c session).1)
      × (text_eq (session_key p session) k ≡ false
          → highest_at (next p c session).0 k ≡ highest_at c k)
unfolding next highest
next_lem p c session k = (
  refl,
  ground (
    arith,
    highest_at-set c (session_key p session) (session_key p session)
        (highest_at c (session_key p session) + 1),
    text_eq_refl (session_key p session),
  ),
  λ ne. ground (
    arith,
    ne,
    highest_at-set c (session_key p session) k (highest_at c (session_key p session) + 1),
  ),
)

-- The highest revisions after a `next`, under every key.
pub highest_at-next :
    (p : Platform) (c : RevisionCounter) (session : SessionId) (k : Text)
    → highest_at (next p c session).0 k
      ≡ (if text_eq (session_key p session) k then (next p c session).1 else highest_at c k)
unfolding next
highest_at-next p c session k =
    highest_at-set c (session_key p session) k (highest_at c (session_key p session) + 1)

pub next-above :
    (p : Platform) (c : RevisionCounter) (session : SessionId)
    → highest_at c (session_key p session) < (next p c session).1
unfolding next
next-above p c session = omega arith

pub highest_at-next-le :
    (p : Platform) (c : RevisionCounter) (session : SessionId) (k : Text)
    → highest_at c k ≤ highest_at (next p c session).0 k
highest_at-next-le p c session k = ground (
  arith,
  highest_at-next p c session k,
  next-above p c session,
  text_eq_iff (session_key p session) k,
)

pub data Call : Type 0 where
  next_call : SessionId → Call
  resume_call : SessionId → Number → Call

-- A call that throws leaves the counter as it was.
pub step : Platform → RevisionCounter → Call → RevisionCounter
step p c (next_call s) = (next p c s).0
step p c (resume_call s n) = elim (resume p c s n) [ none ↦ c | some c' ↦ c' ]

-- The revisions that a history of calls hands out to the sessions with one key.
pub issued : Platform → Text → RevisionCounter → List Call → List ℕ
unfolding step
issued p k c [] = []
issued p k c (next_call s ∷ calls) =
    let rest = issued p k (step p c (next_call s)) calls in
    if text_eq (session_key p s) k then (next p c s).1 ∷ rest else rest
issued p k c (resume_call s n ∷ calls) = issued p k (step p c (resume_call s n)) calls

-- Each number is above the one before it, the first above `n`.
abbrev pub IncreasingFrom : ℕ → List ℕ → Type 0
IncreasingFrom n [] = Unit {0}
IncreasingFrom n (r ∷ rs) = (n < r) × IncreasingFrom r rs

IncreasingFrom-mono : {m n : ℕ} (rs : List ℕ) → m ≤ n → IncreasingFrom n rs → IncreasingFrom m rs
IncreasingFrom-mono [] h i = tt
IncreasingFrom-mono (r ∷ rs) h i = (omega arith, i.1)

step-le :
    (p : Platform) (c : RevisionCounter) (call : Call) (k : Text)
    → highest_at c k ≤ highest_at (step p c call) k
unfolding step next resume
step-le p c (next_call s) k = ground (
  arith,
  text_eq_iff (session_key p s) k,
  highest_at-set c (session_key p s) k (highest_at c (session_key p s) + 1),
)
step-le p c (resume_call s other) k = omega arith
step-le p c (resume_call s (nat n)) k = ground (
  arith,
  text_eq_iff (session_key p s) k,
  highest_at-set c (session_key p s) k (max (highest_at c (session_key p s)) n),
)

highest_at_key :
    (p : Platform) (c : RevisionCounter) (s : SessionId) (k : Text)
    → session_key p s ≡ k
    → highest p c s ≡ highest_at c k
unfolding highest
highest_at_key p c s k q = ap (highest_at c) q

-- Over any history of `next` and `resume` calls, in any sessions, one session's revisions strictly
-- increase from its highest at the start: none is handed out twice.
pub issued-Increasing :
    (p : Platform) (k : Text) (c : RevisionCounter) (calls : List Call)
    → IncreasingFrom (highest_at c k) (issued p k c calls)
unfolding issued step
issued-Increasing p k c [] = tt
issued-Increasing p k c (resume_call s n ∷ calls) =
    IncreasingFrom-mono _ (step-le p c (resume_call s n) k)
      (issued-Increasing p k (step p c (resume_call s n)) calls)
issued-Increasing p k c (next_call s ∷ calls) = elim (Bool-cases (text_eq (session_key p s) k)) [
  | inl e ↦
      let q : session_key p s ≡ k = (text_eq_iff (session_key p s) k).0 e in
      rw e (
        ground (arith, next_lem p c s k, highest_at_key p c s k q),
        IncreasingFrom-mono _
            (ground (arith, next_lem p c s k, highest_at_key p (next p c s).0 s k q))
            (issued-Increasing p k (next p c s).0 calls),
      )
  | inr e ↦ rw e (
      IncreasingFrom-mono _ (step-le p c (next_call s) k)
        (issued-Increasing p k (step p c (next_call s)) calls))
]

-- After a resume, the next revision is above the persisted one and above all that was handed out.
pub next-resume :
    (p : Platform) (c c' : RevisionCounter) (session : SessionId) (persisted : ℕ)
    → resume p c session (nat persisted) ≡ some c'
    → (persisted < (next p c' session).1) × (highest p c session < (next p c' session).1)
unfolding next resume highest
next-resume p c c' session persisted e = ground (
  arith,
  highest_at-set c (session_key p session) (session_key p session)
      (max (highest_at c (session_key p session)) persisted),
  text_eq_refl (session_key p session),
)
