-- ===== src/Sync/Converge.antt =====
-- An agent that reconnects and applies what the log holds after its highest revision has the cache
-- of one that received every update.

use multi_agentic_workflow.Base.{
  ℕ, ◌≤◌, ◌<◌, ◌≡◌, refl, sym, ◌∙◌, ap, inl, inr, List, [], ◌∷◌, ◌++◌, true, false, arith, select,
  Bool-cases, All, ltb, leb,
}
use multi_agentic_workflow.Base.JsMap
use multi_agentic_workflow.Base.Sort.{IsSorted, sort_by-sorted, select-IsSorted}
use multi_agentic_workflow.Protocol.{
  Platform, SessionId, nat, CoordinationUpdate, SessionStateSnapshot,
}
use multi_agentic_workflow.Session.{session_key}
use multi_agentic_workflow.Sync.Log.{
  events, EventLog, log_at, events_after, can_serve_incrementally, sync_from, watermark_at,
}
use multi_agentic_workflow.Sync.Retained.{
  IsAscending-IsSorted, revision, select-select, Logged, Logged-lem,
}
use multi_agentic_workflow.Sync.Cache.{
  SyncCache, highest_at, highest_applied, apply_update, apply_each, apply_events, apply_response,
  apply_sync,
}

fresh : SyncCache → SyncCache
fresh c = record c { stale = false }

module _ (p : Platform) (session : SessionId) where
  -- An update that is not newer changes nothing; a newer one sets the highest revision.
  apply_update-old :
      (c : SyncCache) (u : CoordinationUpdate)
      → u.event_revision ≤ highest_at c (session_key p session)
      → apply_update p session c u ≡ c
  unfolding apply_update
  apply_update-old c u h =
      let e : leb u.event_revision (highest_at c (session_key p session)) ≡ true =
        ground (arith, h) in
      rw e refl

  apply_update-highest :
      (c : SyncCache) (u : CoordinationUpdate)
      → highest_at c (session_key p session) < u.event_revision
      → highest_at (apply_update p session c u) (session_key p session) ≡ u.event_revision
  unfolding apply_update highest_at
  apply_update-highest c u h =
      let key = session_key p session in
      let e : leb u.event_revision (JsMap.get_or key 0 c.highest) ≡ false = ground (arith, h) in
      rw e (JsMap.get_or-set_self key 0 u.event_revision c.highest)

  apply_update-le :
      (c : SyncCache) (u : CoordinationUpdate)
      → (highest_at c (session_key p session)
          ≤ highest_at (apply_update p session c u) (session_key p session))
        × (u.event_revision ≤ highest_at (apply_update p session c u) (session_key p session))
  apply_update-le c u =
      elim (Bool-cases (leb u.event_revision (highest_at c (session_key p session)))) [
        | inl e ↦
            let old : u.event_revision ≤ highest_at c (session_key p session) = ground (arith, e) in
            rw (apply_update-old c u old) (omega arith, old)
        | inr e ↦
            let newer : highest_at c (session_key p session) < u.event_revision =
              ground (arith, e) in
            rw (apply_update-highest c u newer) (omega (arith, newer), omega arith)
      ]

  -- Applying only what is newer than `n`, where the cache is at `n` or further.
  apply_each-newer :
      (c : SyncCache) (n : ℕ) (us : List CoordinationUpdate)
      → n ≤ highest_at c (session_key p session)
      → apply_each p session c (select (λ u. ltb n u.event_revision) us) ≡ apply_each p session c us
  apply_each-newer c n [] h = refl
  apply_each-newer c n (u ∷ us) h = elim (Bool-cases (ltb n u.event_revision)) [
    | inl e ↦ rw e (
        apply_each-newer (apply_update p session c u) n us
          (omega (arith, h, (apply_update-le c u).0)))
    | inr e ↦ rw e (
        apply_each-newer c n us h
        ∙ ap (λ d. apply_each p session d us) (sym (apply_update-old c u (ground (arith, e, h)))))
  ]

  -- The highest revision never falls, and covers what has been applied.
  apply_each-le :
      (c : SyncCache) (us : List CoordinationUpdate)
      → highest_at c (session_key p session)
        ≤ highest_at (apply_each p session c us) (session_key p session)
  apply_each-le c [] = omega arith
  apply_each-le c (u ∷ us) =
      omega (arith, (apply_update-le c u).0, apply_each-le (apply_update p session c u) us)

  apply_each-All :
      (c : SyncCache) (us : List CoordinationUpdate)
      → All
          (λ u. u.event_revision ≤ highest_at (apply_each p session c us) (session_key p session))
          us
  apply_each-All c [] = tt
  apply_each-All c (u ∷ us) = (
    omega (arith, (apply_update-le c u).1, apply_each-le (apply_update p session c u) us),
    apply_each-All (apply_update p session c u) us,
  )

  apply_each-old :
      (c : SyncCache) (us : List CoordinationUpdate)
      → All (λ u. u.event_revision ≤ highest_at c (session_key p session)) us
      → apply_each p session c us ≡ c
  apply_each-old c [] h = refl
  apply_each-old c (u ∷ us) h =
      ap (λ d. apply_each p session d us) (apply_update-old c u h.0) ∙ apply_each-old c us h.1

  apply_each-append :
      (c : SyncCache) (us vs : List CoordinationUpdate)
      → apply_each p session c (us ++ vs) ≡ apply_each p session (apply_each p session c us) vs
  apply_each-append c [] vs = refl
  apply_each-append c (u ∷ us) vs = apply_each-append (apply_update p session c u) us vs

  -- An agent that has received `seen` and applies the newer part of the whole history.
  catch_up :
      (c : SyncCache) (seen missed : List CoordinationUpdate)
      → let d = apply_each p session c seen in
        apply_each p session d (
          select
            (λ u. ltb (highest_at d (session_key p session)) u.event_revision)
            (seen ++ missed))
        ≡ apply_each p session c (seen ++ missed)
  catch_up c seen missed =
      let d = apply_each p session c seen in
      apply_each-newer d (highest_at d (session_key p session)) (seen ++ missed) (omega arith)
      ∙ (apply_each-append d seen missed
          ∙ (ap (λ e. apply_each p session e missed) (apply_each-old d seen (apply_each-All c seen))
              ∙ sym (apply_each-append c seen missed)))

  sync_from-events :
      (l : EventLog) (n : ℕ) (current : SessionStateSnapshot)
      → watermark_at l (session_key p session) ≤ n
      → sync_from p l session (nat n) current
        ≡ events (select (λ u. ltb n u.event_revision) (log_at l (session_key p session)))
  unfolding sync_from can_serve_incrementally events_after
  sync_from-events l n current h =
      let e : leb (watermark_at l (session_key p session)) n ≡ true = ground (arith, h) in rw e refl

  apply_sorted :
      (d : SyncCache) (us : List CoordinationUpdate)
      → IsSorted revision us
      → apply_response p d session (events us) ≡ apply_each p session d us
  unfolding apply_response apply_events
  apply_sorted d us s = ap (apply_each p session d) (sort_by-sorted revision us s)

  -- An agent that has received a first part of the history of a log, up to the watermark or further,
  -- catches up: what it gets for its highest revision makes its cache the one of an agent that has
  -- received the whole history, and not stale.
  pub reconnect_converges :
      (l : EventLog) (c : SyncCache) (seen missed : List CoordinationUpdate)
      (current : SessionStateSnapshot)
      → let d = apply_each p session c seen in
        Logged p session (seen ++ missed) l
        → watermark_at l (session_key p session) ≤ highest_applied p d session
        → apply_sync p d session (sync_from p l session (nat (highest_applied p d session)) current)
          ≡ record (apply_each p session c (seen ++ missed)) { stale = false }
  unfolding apply_sync highest_applied fresh
  reconnect_converges l c seen missed current logged enough =
      let (held, asc) = Logged-lem p session logged in
      let d = apply_each p session c seen in
      let n = highest_at d (session_key p session) in
      let history = seen ++ missed in
      let served =
        sync_from-events l n current enough
        ∙ ap events (
            ap (select (λ u. ltb n u.event_revision)) held
            ∙ select-select (watermark_at l (session_key p session)) n history enough) in
      ap (λ r. fresh (apply_response p d session r)) served
      ∙ ap fresh (
          apply_sorted d (select (λ u. ltb n u.event_revision) history)
            (select-IsSorted revision _ history (IsAscending-IsSorted history asc))
          ∙ catch_up c seen missed)
