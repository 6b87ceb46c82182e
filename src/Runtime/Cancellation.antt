-- ===== src/Runtime/Cancellation.antt =====
-- cancellation.rs, and `seal_cancelled_tree` and `seal_deactivated_tree` of concurrency.rs: the tree of
-- cancellation tokens. A node has the children that its list still names, each with whether it can be
-- upgraded. What sealing takes is returned in the order in which the source pushes it.
pub mod Sealed
mod Tests
use easycon_sdk.Common.{
  ℕ, Bool, true, false, not, ◌&&◌, Option, none, some, List, [], ◌∷◌, ◌++◌, if◌then◌else◌,
}

-- A hook, and whether its lifetime still holds.
pub record CancelHookEntry : Type 0 where
  pub hook : ℕ
  pub is_active : Bool

mutual
  pub data Node : Type 0 where
    node : (active : Bool) → (cancelled : Bool) → List CancelHookEntry → Children → Node

  pub data Children : Type 0 where
    no_more : Children
    child : (alive : Bool) → Node → Children → Children

-- `root_with_owner`.
abbrev pub root : Node
root = node true false [] no_more

-- `CancellationPropagation`.
pub record CancellationPropagation : Type 0 where
  pub hooks : List ℕ
  pub discarded : List ℕ
  pub retained_children : List Node

abbrev pub nothing : CancellationPropagation
nothing = record { hooks = []; discarded = []; retained_children = [] }

abbrev pub then_take : CancellationPropagation → CancellationPropagation → CancellationPropagation
then_take p q = record {
  hooks = p.hooks ++ q.hooks;
  discarded = p.discarded ++ q.discarded;
  retained_children = p.retained_children ++ q.retained_children;
}

abbrev pub hooks_where : Bool → List CancelHookEntry → List ℕ
hooks_where b [] = []
hooks_where true (e ∷ es) =
    let rest = hooks_where true es in if e.is_active then e.hook ∷ rest else rest
hooks_where false (e ∷ es) =
    let rest = hooks_where false es in if e.is_active then rest else e.hook ∷ rest

-- `take_active_hooks`.
abbrev pub take_active_hooks : List CancelHookEntry → CancellationPropagation
take_active_hooks es = record {
  hooks = hooks_where true es;
  discarded = hooks_where false es;
  retained_children = [];
}

abbrev pub all_hooks : List CancelHookEntry → List ℕ
all_hooks [] = []
all_hooks (e ∷ es) = e.hook ∷ all_hooks es

-- `take_discarded_hooks`.
abbrev pub take_discarded_hooks : List CancelHookEntry → CancellationPropagation
take_discarded_hooks es = record { hooks = []; discarded = all_hooks es; retained_children = [] }

abbrev pub retained : Node → CancellationPropagation
retained n = record { hooks = []; discarded = []; retained_children = n ∷ [] }

-- `cancellation_admission_open`.
abbrev pub cancellation_admission_open : Bool → Bool → Bool
cancellation_admission_open active cancelled = active && not cancelled

unfoldable mutual
  pub seal_cancelled_tree : Node → Node × CancellationPropagation
  seal_cancelled_tree (node active cancelled hooks children) =
      let below = seal_children children in
      if cancellation_admission_open active cancelled
      then (node active true [] no_more, then_take (take_active_hooks hooks) below)
      else (node active cancelled hooks children, nothing)

  -- The loop over the live children that were taken.
  pub seal_children : Children → CancellationPropagation
  seal_children no_more = nothing
  seal_children (child alive n rest) =
      let (n', below) = seal_cancelled_tree n in
      let others = seal_children rest in
      if alive then then_take below (then_take (retained n') others) else others

unfoldable pub seal_deactivated_tree : Node → Node × CancellationPropagation
unfolding seal_cancelled_tree
seal_deactivated_tree (node active cancelled hooks children) =
    if active
    then (
      node false cancelled [] no_more,
      then_take (take_discarded_hooks hooks) (seal_children children),
    )
    else (node active cancelled hooks children, nothing)

-- What becomes of a hook that is registered, and the hooks that are dropped.
pub data Registered : Type 0 where
  hook_dropped hook_invoked hook_kept : Registered

abbrev active_entries : List CancelHookEntry → List CancelHookEntry
active_entries [] = []
active_entries (e ∷ es) = let rest = active_entries es in if e.is_active then e ∷ rest else rest

-- `register_hook` without a cancellation between its checks.
unfoldable pub register_hook : Node → CancelHookEntry → Node × Registered
register_hook (node active cancelled hooks children) e =
    if not active
    then (node active cancelled hooks children, hook_dropped)
    else if cancelled
    then (node active cancelled hooks children, hook_invoked)
    else (node active cancelled (active_entries hooks ++ e ∷ []) children, hook_kept)

-- `admit_child_while_locked`, with the answers of `admission_open` before and after the link: whether the
-- child is linked, and whether it is cancelled at once.
unfoldable pub admit_child_while_locked : Bool → Bool → Bool × Bool
admit_child_while_locked before after = (before, before && not after)
