-- ===== src/Runtime/Cancellation/Sealed.antt =====
-- cancellation.rs: what a cancellation takes of the tree and leaves of it.
use easycon_sdk.Common.{
  ℕ, ◌+◌, ◌≡◌, refl, Bool, true, false, not, ◌&&◌, List, [], ◌∷◌, ◌++◌, length, length-append, map,
  ap, ◌∙◌, arith,
}
use easycon_sdk.Runtime.Cancellation.{
  CancelHookEntry, Node, node, Children, no_more, child, CancellationPropagation, nothing,
  then_take, hooks_where, take_active_hooks, retained, seal_cancelled_tree, seal_children,
}

-- A node that takes no part in a cancellation any more.
abbrev pub is_closed : Node → Bool
is_closed (node active cancelled hooks children) = not (active && not cancelled)

abbrev pub if_alive : Bool → ℕ → ℕ
if_alive true n = n
if_alive false n = 0

-- The hooks that the nodes of a tree hold, those of children that are gone left out.
unfoldable mutual
  pub held_hooks : Node → ℕ
  held_hooks (node active cancelled hooks children) = length hooks + held_below children

  pub held_below : Children → ℕ
  held_below no_more = 0
  held_below (child alive n rest) = if_alive alive (held_hooks n) + held_below rest

abbrev pub held_by : List Node → ℕ
held_by [] = 0
held_by (n ∷ ns) = held_hooks n + held_by ns

-- The hooks that a cancellation took, and those that it left in the children it retains.
abbrev pub accounted : CancellationPropagation → ℕ
accounted p = length p.hooks + length p.discarded + held_by p.retained_children

held_by-append : (ms ns : List Node) → held_by (ms ++ ns) ≡ held_by ms + held_by ns
held_by-append [] ns = omega arith
held_by-append (m ∷ ms) ns = omega (arith, held_by-append ms ns)

accounted-then_take :
    (p q : CancellationPropagation) → accounted (then_take p q) ≡ accounted p + accounted q
accounted-then_take p q = omega (
  arith,
  length-append p.hooks q.hooks,
  length-append p.discarded q.discarded,
  held_by-append p.retained_children q.retained_children,
)

hooks_where-length :
    (es : List CancelHookEntry)
    → length (hooks_where true es) + length (hooks_where false es) ≡ length es
hooks_where-length [] = omega arith
hooks_where-length (e ∷ es) = let rest = hooks_where-length es in ground arith

mutual
  unfolding seal_cancelled_tree held_hooks

  sealed-held :
      (n : Node)
      → held_hooks (seal_cancelled_tree n).0 + accounted (seal_cancelled_tree n).1 ≡ held_hooks n
  sealed-held (node active cancelled hooks children) =
      let below = children-held children in
      let taken = hooks_where-length hooks in
      let sum = accounted-then_take (take_active_hooks hooks) (seal_children children) in
      ground arith

  children-held : (cs : Children) → accounted (seal_children cs) ≡ held_below cs
  children-held no_more = omega arith
  children-held (child alive n rest) =
      let here = sealed-held n in
      let others = children-held rest in
      let s = seal_cancelled_tree n in
      let outer = accounted-then_take s.1 (then_take (retained s.0) (seal_children rest)) in
      let inner = accounted-then_take (retained s.0) (seal_children rest) in ground arith

-- An open token is cancelled and gives up its hooks and its children; any other stays as it is.
abbrev pub cancelled_node : Node → Node
cancelled_node (node true false hooks children) = node true true [] no_more
cancelled_node n = n

-- The hooks of the open tokens that are reached from a token through open ones, each before those below it.
unfoldable mutual
  pub reached_hooks : Node → List CancelHookEntry
  reached_hooks (node true false hooks children) = hooks ++ reached_below children
  reached_hooks n = []

  pub reached_below : Children → List CancelHookEntry
  reached_below no_more = []
  reached_below (child true n rest) = reached_hooks n ++ reached_below rest
  reached_below (child false n rest) = reached_below rest

-- The children of those tokens that can be upgraded, each behind those below it.
unfoldable mutual
  pub reached_children : Node → List Node
  reached_children (node true false hooks children) = children_below children
  reached_children n = []

  pub children_below : Children → List Node
  children_below no_more = []
  children_below (child true n rest) = reached_children n ++ n ∷ children_below rest
  children_below (child false n rest) = children_below rest

-- The hooks whose lifetime holds, and the others.
abbrev pub runnable : List CancelHookEntry → List ℕ
runnable [] = []
runnable (e ∷ es) = elim e.is_active [ true ↦ e.hook ∷ runnable es | false ↦ runnable es ]

abbrev pub expired : List CancelHookEntry → List ℕ
expired [] = []
expired (e ∷ es) = elim e.is_active [ true ↦ expired es | false ↦ e.hook ∷ expired es ]

runnable-append : (es fs : List CancelHookEntry) → runnable (es ++ fs) ≡ runnable es ++ runnable fs
runnable-append [] fs = refl
runnable-append (e ∷ es) fs = ground (arith, runnable-append es fs)

expired-append : (es fs : List CancelHookEntry) → expired (es ++ fs) ≡ expired es ++ expired fs
expired-append [] fs = refl
expired-append (e ∷ es) fs = ground (arith, expired-append es fs)

runnable_where : (es : List CancelHookEntry) → hooks_where true es ≡ runnable es
runnable_where [] = refl
runnable_where (e ∷ es) = ground (arith, runnable_where es)

expired_where : (es : List CancelHookEntry) → hooks_where false es ≡ expired es
expired_where [] = refl
expired_where (e ∷ es) = ground (arith, expired_where es)

map-append :
    (ms ns : List Node)
    → map cancelled_node (ms ++ ns) ≡ map cancelled_node ms ++ map cancelled_node ns
map-append [] ns = refl
map-append (m ∷ ms) ns = ap (λ xs. cancelled_node m ∷ xs) (map-append ms ns)

-- What a cancellation takes of hooks and children.
abbrev pub taken : List CancelHookEntry → List Node → CancellationPropagation
taken es ns = record {
  hooks = runnable es;
  discarded = expired es;
  retained_children = map cancelled_node ns;
}

taken-append :
    (es fs : List CancelHookEntry) (ms ns : List Node)
    → then_take (taken es ms) (taken fs ns) ≡ taken (es ++ fs) (ms ++ ns)
taken-append es fs ms ns = rw (runnable-append es fs, expired-append es fs, map-append ms ns) refl

active-taken : (es : List CancelHookEntry) → take_active_hooks es ≡ taken es []
active-taken es = rw (runnable_where es, expired_where es) refl

mutual
  unfolding seal_cancelled_tree reached_hooks reached_children

  sealed-taken :
      (n : Node)
      → seal_cancelled_tree n ≡ (cancelled_node n, taken (reached_hooks n) (reached_children n))
  sealed-taken (node true false hooks children) =
      ap (λ p. (node true true [] no_more, p))
        (ap (λ p. then_take p (seal_children children)) (active-taken hooks)
          ∙ ap (then_take (taken hooks [])) (below-taken children)
          ∙ taken-append hooks (reached_below children) [] (children_below children))
  sealed-taken (node true true hooks children) = refl
  sealed-taken (node false cancelled hooks children) = refl

  below-taken : (cs : Children) → seal_children cs ≡ taken (reached_below cs) (children_below cs)
  below-taken no_more = refl
  below-taken (child true n rest) =
      rw (sealed-taken n, below-taken rest)
        (taken-append (reached_hooks n) (reached_below rest) (reached_children n)
          (n ∷ children_below rest))
  below-taken (child false n rest) = below-taken rest

sealed_again : (n : Node) → is_closed n ≡ true → seal_cancelled_tree n ≡ (n, nothing)
unfolding seal_cancelled_tree
sealed_again (node active cancelled hooks children) h = ground arith

cancelled_node-closed : (n : Node) → is_closed (cancelled_node n) ≡ true
cancelled_node-closed (node true false hooks children) = refl
cancelled_node-closed (node true true hooks children) = refl
cancelled_node-closed (node false cancelled hooks children) = refl

-- A cancellation cancels the token, if it is open, and every open token that live children lead to through open ones.
-- It gives up the hooks of these: those whose lifetime holds, to be run, in the order of the tokens, and the others to be
-- dropped; it returns the live children of these, cancelled if they were open. Every hook of the tree is taken or left
-- once, and another cancellation of the token takes nothing.
pub seal_cancelled_tree_once :
    (n : Node)
    → let s = seal_cancelled_tree n in
      (s ≡ (cancelled_node n, taken (reached_hooks n) (reached_children n)))
      × (held_hooks s.0 + accounted s.1 ≡ held_hooks n)
      × (seal_cancelled_tree s.0 ≡ (s.0, nothing))
seal_cancelled_tree_once n =
    let exact = sealed-taken n in
    let closed : is_closed (seal_cancelled_tree n).0 ≡ true = rw exact (cancelled_node-closed n) in
    (exact, sealed-held n, sealed_again (seal_cancelled_tree n).0 closed)
