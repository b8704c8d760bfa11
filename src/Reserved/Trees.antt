-- ===== src/Reserved/Trees.antt =====
-- A device tree for the tests: a list of nodes that the scan walks in order.
use study_notes.Common.{
  ℕ, zero, suc, ◌+◌, ◌*◌, ◌%◌, ◌^◌, ◌≤◌, List, [], ◌∷◌, Option, none, some, Bool, true, false, ◌==◌,
  Run, done, ◌>>=◌, Returns, Returns->>=, Bool-cases, inl, inr, if◌then◌else◌, ullong_max, arith,
}
use study_notes.Reserved.Tree.{
  Name, size_prop, reg_prop, reserved_memory, other, Property, State, Fdt,
}
use study_notes.Reserved.Since.{IsFdt}

-- A cell of 32 bits after the other, the first being the highest.
abbrev read_cells : ℕ → List ℕ → ℕ → ℕ × List ℕ
read_cells zero cs acc = (acc % 2 ^ 64, cs)
read_cells (suc n) [] acc = (acc % 2 ^ 64, [])
read_cells (suc n) (c ∷ cs) acc = read_cells n cs (acc * 2 ^ 32 + c)

read_cells-le : (n : ℕ) (cs : List ℕ) (acc : ℕ) → (read_cells n cs acc).0 ≤ ullong_max
read_cells-le zero cs acc = omega arith
read_cells-le (suc n) [] acc = omega arith
read_cells-le (suc n) (c ∷ cs) acc = read_cells-le n cs (acc * 2 ^ 32 + c)

abbrev Visit : Type 0
Visit = ℕ → Name → ℕ → State → Run (State × Bool)

abbrev walk : Visit → List (ℕ × Name × ℕ) → State → Run State
walk f [] s = done s
walk f ((node, name, depth) ∷ nodes) s =
    f node name depth s >>= λ (s', stop). if stop then done s' else walk f nodes s'

walk-keeps :
    (f : Visit) (P : State → Type 0) (nodes : List (ℕ × Name × ℕ))
    → ((node : ℕ) (name : Name) (depth : ℕ) (s : State)
        → P s
        → Returns (λ o. P o.0) (f node name depth s))
    → (s : State) → P s
    → Returns P (walk f nodes s)
walk-keeps f P [] h s p = p
walk-keeps f P ((node, name, depth) ∷ nodes) h s p =
    Returns->>= (λ o. P o.0) P _ _ (h node name depth s p)
      λ (s', stop) p'. elim (Bool-cases stop) [
        | inl e ↦ rw e p'
        | inr e ↦ rw e (walk-keeps f P nodes h s' p')
      ]

-- `/reserved-memory` (node 1) with a node that has an address (2), and one that has a size only (3).
abbrev props : ℕ → Name → Option Property
props node reg_prop =
    if node == 2 then some (record { len = 16; cells = 0 ∷ 0x4000 ∷ 0 ∷ 0x800 ∷ [] }) else none
props node size_prop = if node == 3 then some (record { len = 8; cells = 0 ∷ 0x400 ∷ [] }) else none
props node _ = none

abbrev tree_nodes : List (ℕ × Name × ℕ)
tree_nodes = (0, other 0, 0) ∷ (1, reserved_memory, 1) ∷ (2, other 1, 2) ∷ (3, other 2, 2) ∷ []

abbrev pub board_tree : Fdt
board_tree = record {
  get_prop = props;
  next_cell = λ n cs. read_cells n cs 0;
  read_number = λ cs n. (read_cells n cs 0).0;
  root_addr_cells = 2;
  root_size_cells = 2;
  check_root = λ node. false;
  is_okay = λ q. true;
  is_compatible = λ node c. false;
  declared = [];
  max_regions = 16;
  scan = λ f s. walk f tree_nodes s;
  get_mem_rsv = λ n. (0, 0);
}

pub board_tree-IsFdt : IsFdt board_tree
board_tree-IsFdt = record {
  wide = omega arith;
  cells = λ n cs. read_cells-le n cs 0;
  rsv = λ n. omega arith;
  scans = λ f P h s p. walk-keeps f P tree_nodes h s p;
}
