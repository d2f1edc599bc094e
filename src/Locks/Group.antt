-- ===== src/Locks/Group.antt =====
-- packages/core-state/src/locks.ts: the claims on one scope under one branch.
use multi_agentic_workflow.Base.{List, ◌∷◌, ◌++◌, map, Option, none, some, Bool, false, not}
use multi_agentic_workflow.Base.Text.{Text, codes, text_eq}
use multi_agentic_workflow.Protocol.{Platform, Lock, ScopeKind, file, folder, glob}
use multi_agentic_workflow.RepoPath.{CaseSensitivity, normalize_path_key}
use multi_agentic_workflow.Conflict.{RevisionClaim, ResolvedClaim, resolve_by_earliest_revision}

unfoldable pub scope_part : Platform → Option CaseSensitivity → Text → ScopeKind → Text
scope_part p s scope glob = codes "glob:" ++ scope
scope_part p s scope file = codes "path:" ++ normalize_path_key p s scope
scope_part p s scope folder = codes "path:" ++ normalize_path_key p s scope

unfoldable pub group_key : Platform → Option CaseSensitivity → Text → ScopeKind → Text → Text
unfolding scope_part
group_key p s scope kind branch = branch ++ (0 ∷ scope_part p s scope kind)

-- The wrapped claim of a lock.
instance abbrev pub lock_claim : RevisionClaim Lock
lock_claim = record {
  claim_id = λ l. l.lock_id;
  event_revision = λ l. l.event_revision;
  holder = λ l. l.holder;
}

-- `entry.claim.lock.concurrent = entry.concurrent`
unfoldable pub write_flag : ResolvedClaim Lock → Lock
write_flag t = let l = t.claim in record l { concurrent = t.concurrent }

-- The stored locks after `resolveGroup`, with their flags written.
unfoldable pub resolve_group : List Lock → List Lock
unfolding write_flag
resolve_group claims = map write_flag (resolve_by_earliest_revision claims).resolved

-- The lock that `resolveGroup` returns, whose flag has been cleared.
unfoldable pub group_winner : List Lock → Option Lock
group_winner claims = elim (resolve_by_earliest_revision claims).winner [
  | none ↦ none
  | some w ↦ some (record w { concurrent = false })
]

-- What a lock of a resolved group holds, beside the winner.
unfoldable pub refreshed : Lock → Lock → Lock
refreshed winner l = record l { concurrent = not (text_eq l.lock_id winner.lock_id) }

abbrev pub held_by : Text → Lock → Bool
held_by member_id l = text_eq l.holder.member_id member_id
