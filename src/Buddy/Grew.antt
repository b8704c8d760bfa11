-- ===== src/Buddy/Grew.antt =====
-- What a node adds to a fallback list (mm/build_all_zonelists.c).
use study_notes.Common.{
  ℕ, ◌+◌, ◌≤◌, ◌<◌, ◌≡◌, refl, ap, ◌∙◌, ◌⊎◌, inl, inr, some, true, false, ◌==◌, ltb-cases,
  Bool-cases, arith,
}
use study_notes.Buddy.Frames.{ZoneType, zone_dma, zone_normal, zone_movable}
use study_notes.Buddy.Zone.{Node}
use study_notes.Buddy.Zonelist.{ZoneRef, Zonelist, populated_zone, add_zone, build_zonelists_node}

-- At most `k` entries have been added, those that satisfy `S`.
pub record Grew (k : ℕ) (S : ZoneRef → Type 0) (l l' : Zonelist) : Type 0 where
  pub le : l.nr_zones ≤ l'.nr_zones
  pub most : l'.nr_zones ≤ l.nr_zones + k
  pub before : (i : ℕ) → i < l.nr_zones → l'.zonerefs i ≡ l.zonerefs i
  pub new :
      (i : ℕ) → l.nr_zones ≤ i → i < l'.nr_zones → (r : ZoneRef) × (l'.zonerefs i ≡ some r) × S r
  pub all :
      (r : ZoneRef)
      → S r
      → (i : ℕ) × (l.nr_zones ≤ i) × (i < l'.nr_zones) × (l'.zonerefs i ≡ some r)

pub Grew-none :
    (k : ℕ) (S : ZoneRef → Type 0) (l : Zonelist) → ((r : ZoneRef) → S r → ⊥) → Grew k S l l
Grew-none k S l h = record {
  le = omega arith;
  most = omega arith;
  before = λ i o. refl;
  new = λ i a b. absurd (omega arith);
  all = λ r s. absurd (h r s);
}

pub Grew-both :
    (k n : ℕ) (S T U : ZoneRef → Type 0) (a b c : Zonelist)
    → ((r : ZoneRef) → S r → U r)
    → ((r : ZoneRef) → T r → U r)
    → ((r : ZoneRef) → U r → S r ⊎ T r)
    → Grew k S a b
    → Grew n T b c
    → Grew (k + n) U a c
Grew-both k n S T U a b c f g h x y = record {
  le = omega (arith, x.le, y.le);
  most = omega (arith, x.most, y.most);
  before = λ i o. y.before i (omega (arith, x.le)) ∙ x.before i o;
  new = λ i o u. elim (ltb-cases i b.nr_zones) [
    | inl (_, v) ↦ let (r, e, s) = x.new i o v in (r, y.before i v ∙ e, f r s)
    | inr (_, v) ↦ let (r, e, s) = y.new i v u in (r, e, g r s)
  ];
  all = λ r s. elim (h r s) [
    | inl p ↦ let (i, o, u, e) = x.all r p in (i, o, omega (arith, y.le), y.before i u ∙ e)
    | inr p ↦ let (i, o, u, e) = y.all r p in (i, omega (arith, x.le), u, e)
  ];
}

Grew-iff :
    (k : ℕ) (S U : ZoneRef → Type 0) (a b : Zonelist)
    → ((r : ZoneRef) → S r → U r)
    → ((r : ZoneRef) → U r → S r)
    → Grew k S a b
    → Grew k U a b
Grew-iff k S U a b f g x = record {
  le = x.le;
  most = x.most;
  before = x.before;
  new = λ i o u. let (r, e, s) = x.new i o u in (r, e, f r s);
  all = λ r s. x.all r (g r s);
}

module _ (nodes : ℕ → Node) where
  -- A populated zone of the node.
  abbrev pub Populated : ZoneRef → Type 0
  Populated r = populated_zone ((nodes r.node).node_zones r.zone) ≡ true

  add_zone-Grew :
      (node : ℕ) (z : ZoneType) (l : Zonelist)
      → Grew 1
          (λ r. (r ≡ record { node = node; zone = z }) × Populated r)
          l
          (add_zone nodes node z l)
  unfolding add_zone
  add_zone-Grew node z l = elim (Bool-cases (populated_zone ((nodes node).node_zones z))) [
    | inr e ↦ rw e (
        Grew-none 1 _ l (λ r (q, p).
          let there : populated_zone ((nodes node).node_zones z) ≡ true = rw q at p in cc))
    | inl e ↦
        let self : (l.nr_zones == l.nr_zones) ≡ true = ground arith in
        rw e (record {
          le = omega arith;
          most = omega arith;
          before = λ i o. let other : (l.nr_zones == i) ≡ false = ground arith in rw other refl;
          new = λ i a b.
              let same : l.nr_zones ≡ i = omega arith in
              (record { node = node; zone = z }, rw (← same, self) refl, (refl, e));
          all = λ r (q, p). (l.nr_zones, omega arith, omega arith, rw (self, q) refl);
        })
  ]

  -- The populated zones of one node.
  abbrev pub Of : ℕ → ZoneRef → Type 0
  Of node r = (r.node ≡ node) × Populated r

  abbrev Is : ℕ → ZoneType → ZoneRef → Type 0
  Is node z r = (r ≡ record { node = node; zone = z }) × Populated r

  which :
      (node m : ℕ) (z : ZoneType)
      → m ≡ node
      → Populated (record { node = m; zone = z })
      → let r : ZoneRef = record { node = m; zone = z } in
        (Is node zone_movable r ⊎ Is node zone_normal r) ⊎ Is node zone_dma r
  which node m zone_movable e p =
      inl (inl (ap (λ n. record { node = n; zone = zone_movable }) e, p))
  which node m zone_normal e p = inl (inr (ap (λ n. record { node = n; zone = zone_normal }) e, p))
  which node m zone_dma e p = inr (ap (λ n. record { node = n; zone = zone_dma }) e, p)

  pub build_zonelists_node-Grew :
      (node : ℕ) (l : Zonelist) → Grew 3 (Of node) l (build_zonelists_node nodes node l)
  unfolding build_zonelists_node
  build_zonelists_node-Grew node l =
      Grew-iff 3 (λ r. (Is node zone_movable r ⊎ Is node zone_normal r) ⊎ Is node zone_dma r)
        (Of node) l _
        (λ r s. elim s [
          | inl (inl (q, p)) ↦ (ap (λ x. x.node) q, p)
          | inl (inr (q, p)) ↦ (ap (λ x. x.node) q, p)
          | inr (q, p) ↦ (ap (λ x. x.node) q, p)
        ])
        (λ r (e, p). which node r.node r.zone e p)
        (Grew-both 2 1 (λ r. Is node zone_movable r ⊎ Is node zone_normal r) (Is node zone_dma) _ l
          _ _ (λ r x. inl x) (λ r x. inr x) (λ r x. x)
          (Grew-both 1 1 (Is node zone_movable) (Is node zone_normal) _ l _ _ (λ r x. inl x)
            (λ r x. inr x) (λ r x. x) (add_zone-Grew node zone_movable l)
            (add_zone-Grew node zone_normal (add_zone nodes node zone_movable l)))
          (add_zone-Grew node zone_dma _))
