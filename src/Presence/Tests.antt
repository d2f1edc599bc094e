-- ===== src/Presence/Tests.antt =====
-- The theorems on presence, at concrete reports.
use multi_agentic_workflow.Base.{ℕ, List, suc, false, ◌≡◌, Option, some, refl, inl, [], ◌∷◌, none}
use multi_agentic_workflow.Base.Text.{codes, text_eq}
use multi_agentic_workflow.Base.JsMap
use multi_agentic_workflow.RepoPath.{normalized_key, normalize_path}
use multi_agentic_workflow.Protocol.{Presence, started, stopped}
use multi_agentic_workflow.Session.{session_key}
use multi_agentic_workflow.Fixtures.{platform, session, alice}
use multi_agentic_workflow.Presence.{
  PresenceReport, PresenceRegistry, new_registry, entry_key, is_active, stop_active_for_device,
  report, entries_at, stop_each, active_for_device, sort_entries, active, all, put, newest,
  insert_entry,
}
use multi_agentic_workflow.Presence.Stop.{stop_active_for_device-report_all}
use multi_agentic_workflow.Presence.Order.{AtLeast, lookup, report_all, report_all_newest}

abbrev late : PresenceReport
late = record {
  session = session;
  member = alice;
  path = codes "a/b";
  state = stopped;
  event_revision = 7;
}

abbrev early : PresenceReport
early = record {
  session = session;
  member = alice;
  path = codes "a//b";
  state = started;
  event_revision = 3;
}

report_all_newest_example : AtLeast 7 (
    lookup
      (report_all platform (new_registry none) (late ∷ early ∷ []))
      (session_key platform session)
      (entry_key platform none alice (codes "a/b")))
report_all_newest_example =
    report_all_newest platform none (new_registry none) (late ∷ early ∷ []) late refl (inl refl)

abbrev registry : PresenceRegistry
registry = report_all platform (new_registry none) (early ∷ [])

-- An allocator that counts.
abbrev allocate : ℕ → Presence → ℕ × Option ℕ
allocate n e = (suc n, some n)

abbrev ended : Presence
ended = record { member = alice; path = codes "a/b"; state = stopped; event_revision = 9 }

abbrev outcome : (PresenceRegistry × ℕ) × Option (List Presence)
outcome = stop_active_for_device platform allocate registry 9 session (codes "laptop")

stops :
    stop_active_for_device platform allocate registry 9 session (codes "laptop")
    ≡ ((outcome.0.0, outcome.0.1), some (ended ∷ []))
unfolding stop_active_for_device report_all report entries_at stop_each active_for_device
    sort_entries active all put JsMap.set JsMap.get JsMap.get_or text_eq session_key newest
    insert_entry entry_key normalized_key normalize_path
stops = refl

stands :
    lookup outcome.0.0 (session_key platform session) (entry_key platform none alice (codes "a/b"))
    ≡ some ended
unfolding stop_active_for_device report_all report entries_at stop_each active_for_device
    sort_entries active all put JsMap.set JsMap.get JsMap.get_or text_eq session_key newest
    insert_entry entry_key normalized_key normalize_path
stands = refl

stop_active_for_device-report_all_example : is_active ended ≡ false
stop_active_for_device-report_all_example =
    stop_active_for_device-report_all platform allocate session (codes "laptop")
      (entry_key platform none alice (codes "a/b")) none (early ∷ []) outcome.0.0 9 outcome.0.1
      (ended ∷ []) ended stops stands refl
