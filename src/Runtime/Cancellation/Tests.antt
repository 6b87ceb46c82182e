-- ===== src/Runtime/Cancellation/Tests.antt =====
-- cancellation.rs: a cancellation of a small tree.
use easycon_sdk.Common.{ℕ, ◌+◌, ◌≡◌, refl, true, false, [], ◌∷◌}
use easycon_sdk.Runtime.Cancellation.{
  CancelHookEntry, Node, node, no_more, child, seal_cancelled_tree, nothing,
}
use easycon_sdk.Runtime.Cancellation.Sealed.{
  cancelled_node, taken, reached_hooks, reached_children, held_hooks, accounted,
  seal_cancelled_tree_once,
}

abbrev hook : ℕ → CancelHookEntry
hook n = record { hook = n; is_active = true }

-- A token with a live child, a child that is gone, and a grandchild.
abbrev family : Node
family = node true false (hook 1 ∷ []) (
    child true
      (node true false (hook 2 ∷ []) (child true (node true false (hook 3 ∷ []) no_more) no_more))
      (child false (node true false (hook 4 ∷ []) no_more) no_more))

hooks_in_order : (seal_cancelled_tree family).1.hooks ≡ 1 ∷ 2 ∷ 3 ∷ []
unfolding seal_cancelled_tree
hooks_in_order = refl

seal_cancelled_tree_once_example :
    let s = seal_cancelled_tree family in
    (s ≡ (cancelled_node family, taken (reached_hooks family) (reached_children family)))
    × (held_hooks s.0 + accounted s.1 ≡ held_hooks family)
    × (seal_cancelled_tree s.0 ≡ (s.0, nothing))
seal_cancelled_tree_once_example = seal_cancelled_tree_once family
