-- ===== src/Diffs.antt =====
-- packages/core-state/src/diffs.ts: the latest diff of each member for each path. A method that
-- changes the registry returns the new one.
use Prim.Native.Nat.{compare, Ordering}
use multi_agentic_workflow.Base.{ℕ, List, [], ◌∷◌, ◌++◌, Option, ltb, if◌then◌else◌, select}
use multi_agentic_workflow.Base.Text.{Text, text_eq}
use multi_agentic_workflow.Base.JsMap
use multi_agentic_workflow.Base.JsMap.{JsMap}
use multi_agentic_workflow.Base.Sort.{sort_by, sort_with}
use multi_agentic_workflow.Protocol.{Platform, SessionId, MemberRef, LiveDiffDto}
use multi_agentic_workflow.Session.{session_key}
use multi_agentic_workflow.Conflict.{is_lt}

pub diff_key : Text → Text → Text
diff_key member_id path = member_id ++ (0 ∷ path)

abbrev pub Diffs : Type 0
Diffs = JsMap LiveDiffDto

abbrev pub DiffRegistry : Type 0
DiffRegistry = JsMap Diffs

pub map_for : DiffRegistry → Text → Diffs
map_for r key = JsMap.get_or key [] r

pub data ShareOp : Type 0 where
  shared removed : ShareOp

-- An empty patch removes what was shared.
pub shared_in : Text → LiveDiffDto → Diffs → Text → Diffs × ShareOp
shared_in key diff m [] = (JsMap.delete key m, removed)
shared_in key diff m (c ∷ cs) = (JsMap.set key diff m, shared)

unfoldable pub share : Platform → DiffRegistry → SessionId → LiveDiffDto → DiffRegistry × ShareOp
unfolding map_for shared_in diff_key
share p r session diff =
    let s_key = session_key p session in
    let done =
      shared_in (diff_key diff.member.member_id diff.path) diff (map_for r s_key) diff.patch in
    (JsMap.set s_key done.0 r, done.1)

unfoldable pub remove : Platform → DiffRegistry → SessionId → Text → Text → DiffRegistry
unfolding map_for diff_key
remove p r session member_id path =
    let s_key = session_key p session in
    JsMap.set s_key (JsMap.delete (diff_key member_id path) (map_for r s_key)) r

-- The loop over a copy of the entries, which deletes from the map itself.
pub remove_each : Text → Diffs → Diffs → Diffs
remove_each member_id [] m = m
remove_each member_id ((k, diff) ∷ rest) m =
    let dropped = remove_each member_id rest (JsMap.delete k m) in
    let kept = remove_each member_id rest m in
    if text_eq diff.member.member_id member_id then dropped else kept

unfoldable pub remove_member : Platform → DiffRegistry → SessionId → Text → DiffRegistry
unfolding map_for remove_each
remove_member p r session member_id =
    let s_key = session_key p session in
    JsMap.set s_key (remove_each member_id (map_for r s_key) (map_for r s_key)) r

unfoldable pub get : Platform → DiffRegistry → SessionId → Text → Text → Option LiveDiffDto
unfolding map_for diff_key
get p r session member_id path =
    JsMap.get (diff_key member_id path) (map_for r (session_key p session))

-- The comparator of `allDiffs`; the sign of each part counts where those before it are 0.
pub or_else : Ordering → Ordering → Ordering
or_else Ordering.lt next = Ordering.lt
or_else Ordering.eq next = next
or_else Ordering.gt next = Ordering.gt

pub diff_order : Platform → LiveDiffDto → LiveDiffDto → Ordering
unfolding or_else
diff_order p a b = or_else (compare a.event_revision b.event_revision) (
    or_else (p.locale_compare a.member.member_id b.member.member_id)
      (p.locale_compare a.path b.path))

pub all_diffs : Platform → DiffRegistry → SessionId → List LiveDiffDto
unfolding map_for diff_order
all_diffs p r session =
    sort_with (λ a b. is_lt (diff_order p a b)) (JsMap.values (map_for r (session_key p session)))

unfoldable pub diffs_for_path : Platform → DiffRegistry → SessionId → Text → List LiveDiffDto
unfolding all_diffs
diffs_for_path p r session path = select (λ d. text_eq d.path path) (all_diffs p r session)

unfoldable pub since : Platform → DiffRegistry → SessionId → ℕ → List LiveDiffDto
unfolding all_diffs
since p r session from = select (λ d. ltb from d.event_revision) (all_diffs p r session)

unfoldable pub reinstall : List LiveDiffDto → Diffs → Diffs
unfolding diff_key
reinstall [] m = m
reinstall (d ∷ ds) m = reinstall ds (JsMap.set (diff_key d.member.member_id d.path) d m)

unfoldable pub restore : Platform → DiffRegistry → SessionId → List LiveDiffDto → DiffRegistry
unfolding reinstall
restore p r session diffs =
    JsMap.set (session_key p session) (reinstall (sort_by (λ d. d.event_revision) diffs) []) r

unfoldable pub diff_member_id : MemberRef → Text
diff_member_id member = member.member_id
