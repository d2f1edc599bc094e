-- ===== src/Coalesce/Tests.antt =====
-- The theorems on the coalescer, at a concrete one.
use multi_agentic_workflow.Base.{ℕ, ◌≡◌, ◌⊎◌, refl, List, [], ◌∷◌, none, some, false, In}
use multi_agentic_workflow.Base.Text.{Text, codes, text_eq}
use multi_agentic_workflow.Base.Sort.{sort_onto, insert_ordered}
use multi_agentic_workflow.RepoPath.{normalized_key, normalize_path}
use multi_agentic_workflow.Base.JsMap
use multi_agentic_workflow.Fixtures.{platform, alice}
use multi_agentic_workflow.Protocol.{nat}
use multi_agentic_workflow.Coalesce.{
  new_coalescer, coalesce_key, enqueue, emit, discard, candidates, latest, OutboundEvent, Coalescer,
  presence, was_sent, flush,
}
use multi_agentic_workflow.Coalesce.History.{Call, enqueues, flushes, step, run, flush-run_keeps}

abbrev event : ℕ → Text → OutboundEvent ℕ
event n path = record {
  seq = n;
  kind = presence;
  path = path;
  member = alice;
  state_signature = codes "editing";
  payload = n;
}

abbrev engine : Coalescer ℕ
engine = record {
  window_ms = 2000;
  max_events_per_window = 1;
  sensitivity = none;
  buffered = (codes "a", event 5 (codes "a")) ∷ (codes "b", event 4 (codes "b")) ∷ [];
  last_sent = (codes "b", codes "stopped") ∷ [];
}

abbrev fresh : Coalescer ℕ
fresh = record {
  window_ms = 2000;
  max_events_per_window = 1;
  sensitivity = none;
  buffered = [];
  last_sent = [];
}

made : new_coalescer none (some (nat 1)) none ≡ some fresh
unfolding new_coalescer multi_agentic_workflow.Coalesce.with_limit
    multi_agentic_workflow.Coalesce.clamp_window
made = refl

abbrev calls : List (Call ℕ)
calls = enqueues (event 5 (codes "a")) ∷ enqueues (event 4 (codes "b")) ∷ flushes ∷ []

abbrev key : Text
key = coalesce_key platform none (event 5 (codes "a"))

waits : JsMap.get key (run platform fresh calls).buffered ≡ some (event 5 (codes "a"))
unfolding JsMap.get run step enqueue flush emit discard candidates was_sent coalesce_key latest
    JsMap.set JsMap.delete text_eq normalized_key normalize_path sort_onto insert_ordered
    multi_agentic_workflow.Session.join
waits = refl

unsent : was_sent (run platform fresh calls).last_sent (key, event 5 (codes "a")) ≡ false
unfolding JsMap.get run step enqueue flush emit discard candidates was_sent coalesce_key latest
    JsMap.set JsMap.delete text_eq normalized_key normalize_path sort_onto insert_ordered
    multi_agentic_workflow.Session.join
unsent = refl

flush-run_keeps_example :
    (JsMap.get key (flush (run platform fresh calls)).0.buffered ≡ some (event 5 (codes "a")))
    ⊎ In (event 5 (codes "a")) (flush (run platform fresh calls)).1
flush-run_keeps_example =
    flush-run_keeps platform none (some (nat 1)) none fresh calls key (event 5 (codes "a")) made
      waits unsent
