-- ===== src/Buddy/Fallback.antt =====
-- What stands in the fallback list of a node.
use study_notes.Common.{
  ℕ, zero, suc, ◌+◌, ◌-◌, ◌*◌, ◌≤◌, ◌<◌, ◌≡◌, refl, ap, ◌∙◌, ◌⊎◌, inl, inr, none, some, Bool, true,
  false, ◌==◌, ltb-cases, Bool-cases, arith,
}
use study_notes.Buddy.Zone.{Node}
use study_notes.Buddy.Zonelist.{ZoneRef, Zonelist, build_zonelists_node, add_nodes, build_zonelists}
use study_notes.Buddy.Grew.{Grew, Grew-none, Grew-both, Populated, Of, build_zonelists_node-Grew}

module _ (nodes : ℕ → Node) where
  module _ (online : ℕ → Bool) where
    -- The populated zones of the online nodes of [from, to).
    abbrev Online : ℕ → ℕ → ZoneRef → Type 0
    Online from to r = (from ≤ r.node) × (r.node < to) × (online r.node ≡ true) × Populated nodes r

    add_nodes-Grew :
        (n node : ℕ) (l : Zonelist)
        → Grew (n * 3) (Online node (node + n)) l (add_nodes nodes online n node l)
    unfolding add_nodes
    add_nodes-Grew zero node l =
        Grew-none 0 (Online node (node + 0)) l (λ r (a, b, _, _). omega arith)
    add_nodes-Grew (suc n) node l =
        let room : suc n * 3 ≡ 3 + n * 3 = omega arith in
        elim (Bool-cases (online node)) [
          | inl e ↦
              rw (e, room, add_nodes)
                (Grew-both 3 (n * 3) (Of nodes node) (Online (suc node) (suc node + n))
                  (Online node (node + suc n)) l _ _
                  (λ r (q, p). (omega arith, omega arith, ap online q ∙ e, p))
                  (λ r (a, b, o, p). (omega arith, omega arith, o, p))
                  (λ r (a, b, o, p). elim (Bool-cases (r.node == node)) [
                    | inl x ↦ inl (ground arith, p)
                    | inr x ↦ inr (ground arith, omega arith, o, p)
                  ])
                  (build_zonelists_node-Grew nodes node l) (add_nodes-Grew n (suc node) _))
          | inr e ↦
              rw (e, room, add_nodes)
                (Grew-both 3 (n * 3) (λ r. ⊥) (Online (suc node) (suc node + n))
                  (Online node (node + suc n)) l _ _ (λ r x. absurd x)
                  (λ r (a, b, o, p). (omega arith, omega arith, o, p))
                  (λ r (a, b, o, p). elim (Bool-cases (r.node == node)) [
                    | inl x ↦
                        let same : r.node ≡ node = ground arith in
                        let off : online r.node ≡ false = ap online same ∙ e in cc
                    | inr x ↦ inr (ground arith, omega arith, o, p)
                  ])
                  (Grew-none 3 (λ r. ⊥) l (λ r x. x)) (add_nodes-Grew n (suc node) l))
        ]

    -- A populated zone of the node or of an online one.
    abbrev pub Wanted : ℕ → ℕ → ZoneRef → Type 0
    Wanted max_numnodes local r =
        (r.node < max_numnodes) × ((r.node ≡ local) ⊎ (online r.node ≡ true)) × Populated nodes r

    -- The list holds the wanted zones within its bounds, and ends with NULL.
    pub record Filled (max_numnodes local : ℕ) (l : Zonelist) : Type 0 where
      pub bound : l.nr_zones ≤ max_numnodes * 3
      pub ended : l.zonerefs l.nr_zones ≡ none
      pub only :
          (i : ℕ)
          → i < l.nr_zones
          → (r : ZoneRef) × (l.zonerefs i ≡ some r) × Wanted max_numnodes local r
      pub all :
          (r : ZoneRef)
          → Wanted max_numnodes local r
          → (i : ℕ) × (i < l.nr_zones) × (l.zonerefs i ≡ some r)

    -- `build_zonelists` for a node below MAX_NUMNODES, whatever the list held before: the list has
    -- at most three entries per node, so that with its end it fits the array, and ends with NULL;
    -- its entries are populated zones of this node or of online ones, and each of these zones has an
    -- entry.
    pub build_zonelists-Filled :
        (max_numnodes local : ℕ) (l : Zonelist)
        → local < max_numnodes
        → Filled max_numnodes local (build_zonelists nodes online max_numnodes local l)
    unfolding build_zonelists
    build_zonelists-Filled max_numnodes local l h = record {
      bound = omega (arith, whole.most);
      ended = let self : (built.nr_zones == built.nr_zones) ≡ true = ground arith in rw self refl;
      only = λ i o.
          let (r, e, x) = whole.new i (omega arith) o in
          let other : (built.nr_zones == i) ≡ false = ground arith in (r, rw other e, x);
      all = λ r x.
          let (i, _, o, e) = whole.all r x in
          let other : (built.nr_zones == i) ≡ false = ground arith in (i, o, rw other e);
    }
      where
        empty : Zonelist
        empty = record l { nr_zones = 0 }

        rest : ℕ
        rest = max_numnodes - (local + 1)

        own : Zonelist
        own = build_zonelists_node nodes local empty

        later : Zonelist
        later = add_nodes nodes online rest (local + 1) own

        built : Zonelist
        built = add_nodes nodes online local 0 later

        Near : ZoneRef → Type 0
        Near r = Of nodes local r ⊎ Online (local + 1) (local + 1 + rest) r

        sort_out : (r : ZoneRef) → Wanted max_numnodes local r → Near r ⊎ Online 0 (0 + local) r
        sort_out r (a, inl q, p) = inl (inl (q, p))
        sort_out r (a, inr o, p) = elim (ltb-cases r.node local) [
          | inl (_, u) ↦ inr (omega arith, omega arith, o, p)
          | inr (_, u) ↦ elim (Bool-cases (r.node == local)) [
            | inl e ↦ inl (inl (ground arith, p))
            | inr e ↦ inl (inr (ground arith, omega arith, o, p))
          ]
        ]

        whole : Grew (3 + rest * 3 + local * 3) (Wanted max_numnodes local) empty built
        whole =
            Grew-both (3 + rest * 3) (local * 3) Near (Online 0 (0 + local))
              (Wanted max_numnodes local) empty later built
              (λ r x. elim x [
                | inl (q, p) ↦ (omega arith, inl q, p)
                | inr (a, b, o, p) ↦ (omega arith, inr o, p)
              ])
              (λ r (a, b, o, p). (omega arith, inr o, p)) sort_out
              (Grew-both 3 (rest * 3) (Of nodes local) (Online (local + 1) (local + 1 + rest)) Near
                empty own later (λ r x. inl x) (λ r x. inr x) (λ r x. x)
                (build_zonelists_node-Grew nodes local empty) (add_nodes-Grew rest (local + 1) own))
              (add_nodes-Grew local 0 later)
