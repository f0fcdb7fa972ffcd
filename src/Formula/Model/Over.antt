-- ===== src/Formula/Model/Over.antt =====
-- Every node that a generation adds is a node of the tree, over leaves that begin a block.
use mathlib.Core.Path.{subst}
use stratified_hash_tree.Prelude.{
  ℕ, zero, suc, ◌+◌, ◌-◌, ◌^◌, ◌≤◌, ◌<◌, ◌≡◌, sym, ap, ◌∙◌, List, [], ◌∷◌, All, arith,
}
use stratified_hash_tree.Formula.Arith.{ceil_log2}
use stratified_hash_tree.Formula.Arith.Logs.{ceil_log2_upper}
use stratified_hash_tree.Formula.Tree.{Addr, NodeIndex, root_of}
use stratified_hash_tree.Formula.Tree.Nodes.{IsNode}
use stratified_hash_tree.Formula.Tree.Subnodes.{subnodes_of_lem, right-IsNode, root_of-IsNode}
use stratified_hash_tree.Formula.Model.{INode}
use stratified_hash_tree.Formula.Model.Chain.{Falls, falling, falling-Falls}

-- Every node of the path stands over some leaves.
abbrev pub IsOver : ℕ → INode → Type 0
IsOver n x = (lo : ℕ) × IsNode lo n x.node.j

Falls-IsOver :
    (lo n top j : ℕ) (xs : List INode)
    → n < 2 ^ 64
    → top ≤ 64
    → IsNode lo n top
    → Falls n top j xs
    → All (IsOver n) xs
Falls-IsOver lo n top j [] h ht node f = tt
Falls-IsOver lo n zero j (x ∷ xs) h ht node f = absurd (omega (arith, f.1))
Falls-IsOver lo n (suc top) j (x ∷ xs) h ht node f =
    let ej : x.node.j ≡ suc top = ap (λ (a : Addr). a.j) f.0 in
    let split = sym (subnodes_of_lem lo n top h (omega arith) node) ∙ f.3 in
    let er : ceil_log2 (n - (lo + 2 ^ top)) ≡ x.right.j =
      ap (λ (p : NodeIndex × NodeIndex). p.1.1) split in
    let right = right-IsNode lo n top h node in
    (
      (lo, subst (IsNode lo n) (sym ej) node),
      Falls-IsOver (lo + 2 ^ top) n x.right.j j xs h (omega (arith, f.1))
          (subst (IsNode (lo + 2 ^ top) n) er right.0) f.4,
    )

pub falling-IsOver : (n : ℕ) → 0 < n → n < 2 ^ 64 → All (IsOver n) (falling n)
falling-IsOver n pos h =
    Falls-IsOver 0 n (root_of n).1 0 (falling n) h (unfold root_of in (ceil_log2_upper n pos h).1)
      (unfold root_of in root_of-IsNode n pos h) (falling-Falls n pos h)
