-- ===== src/Buddy/Round.antt =====
-- A round of `free_area_init_core`: what becomes of a zone.
use study_notes.Common.{
  ℕ, ◌+◌, ◌*◌, ◌%◌, ◌≤◌, ◌<◌, ◌≡◌, ◌≢◌, refl, sym, ap, subst, ◌∙◌, List, [], Option, some, true,
  false, not, ◌==◌, ltb, if◌then◌else◌, word, add64, Returns, Returns->>=, arith,
}
use study_notes.Buddy.Frames.{ZoneType}
use study_notes.Buddy.WaitTable.{Entries, wait_table_hash_nr_entries-Entries}
use study_notes.Buddy.Zone.{Zone, Node, Memmap, Kernel, Config, zone_idx, write_zone}
use study_notes.Buddy.Memmap.{early, skips}
use study_notes.Buddy.Painted.{
  Mapped, painted, painted-none, Initialised, memmap_init_zone-Initialised,
}
use study_notes.Buddy.Core.{
  init_heads, free_size, account_zone, zone_wait_table_init, init_currently_empty_zone,
  populate_zone,
}

pub write_zone-same :
    (zones : ZoneType → Zone) (j : ZoneType) (z : Zone) → write_zone zones j z j ≡ z
write_zone-same zones j z =
    let self : (zone_idx j == zone_idx j) ≡ true = ground arith in rw self refl

pub write_zone-other :
    (zones : ZoneType → Zone) (j : ZoneType) (z : Zone) (i : ZoneType)
    → zone_idx j ≢ zone_idx i
    → write_zone zones j z i ≡ zones i
write_zone-other zones j z i h =
    let other : (zone_idx j == zone_idx i) ≡ false = ground arith in rw other refl

-- The page counts of the node.
abbrev pub SameTotals : Node → Node → Type 0
SameTotals n n' =
    (n'.node_spanned_pages ≡ n.node_spanned_pages) × (n'.node_present_pages ≡ n.node_present_pages)

-- The counts of a zone.
pub record Counted (size hole : ℕ) (j : ZoneType) (z : Zone) : Type 0 where
  pub spanned : z.spanned_pages ≡ size
  pub present : z.present_pages + hole ≡ size
  pub managed : z.managed_pages ≤ z.present_pages
  pub named : z.name ≡ some j

-- Where a zone that is not empty starts, and its wait table: a queue per entry, and empty.
pub record Placed (size start : ℕ) (z : Zone) : Type 0 where
  pub starts : z.zone_start_pfn ≡ start
  pub entries : Entries size z.wait_table_hash_nr_entries
  pub table :
      (t : ℕ → List ℕ) × (z.wait_table ≡ some t)
      × ((i : ℕ) → i < z.wait_table_hash_nr_entries → t i ≡ [])

module _ (c : Config) where
  pub free_size-le :
      (reserve : ℕ) (j : ZoneType) (realsize memmap_pages : ℕ)
      → free_size c reserve j realsize memmap_pages ≤ realsize
  unfolding free_size
  free_size-le reserve j realsize memmap_pages = ground arith

  -- An allocation of the wait table does not fail.
  abbrev pub HasHeap : Type 0
  HasHeap =
      (bytes nid : ℕ)
      → (t : ℕ → List ℕ) × ((if not c.slab_is_available
            then c.virt_alloc bytes nid
            else c.vmalloc bytes)
          ≡ some t)

  module _ (heap : HasHeap) (zones_size zholes_size : ZoneType → ℕ) where
    pub record Round (j : ZoneType) (start : ℕ) (k k' : Kernel) : Type 0 where
      pub counted : Counted (zones_size j) (zholes_size j) j (k'.node.node_zones j)
      pub placed : zones_size j ≢ 0 → Placed (zones_size j) start (k'.node.node_zones j)
      pub others :
          (i : ZoneType) → zone_idx j ≢ zone_idx i → k'.node.node_zones i ≡ k.node.node_zones i
      pub node_id : k'.node.node_id ≡ k.node.node_id
      pub totals : SameTotals k.node k'.node
      pub pages :
          (q : ℕ)
          → k'.memmap.page q
            ≡ painted c j k.node.node_id early start (start + zones_size j) k.memmap.page q
      pub mapped : (q : ℕ) → Mapped c k.memmap q → Mapped c k'.memmap q
      pub all : k'.nr_all_pages ≡ add64 k.nr_all_pages (k'.node.node_zones j).managed_pages

    -- The round up to `mod_zone_page_state`.
    pub record Accounted (j : ZoneType) (k k' : Kernel) : Type 0 where
      pub counted : Counted (zones_size j) (zholes_size j) j (k'.node.node_zones j)
      pub others :
          (i : ZoneType) → zone_idx j ≢ zone_idx i → k'.node.node_zones i ≡ k.node.node_zones i
      pub node_id : k'.node.node_id ≡ k.node.node_id
      pub totals : SameTotals k.node k'.node
      pub memmap : k'.memmap ≡ k.memmap
      pub all : k'.nr_all_pages ≡ add64 k.nr_all_pages (k'.node.node_zones j).managed_pages

    written :
        (zones : ZoneType → Zone) (j : ZoneType) (z : Zone) (P : Zone → Type 0)
        → P z
        → P (write_zone zones j z j)
    written zones j z P p = subst P (sym (write_zone-same zones j z)) p

    pub account_zone-Accounted :
        (j : ZoneType) (k : Kernel)
        → zholes_size j ≤ zones_size j
        → zones_size j < word
        → Accounted j k (account_zone c zones_size (some zholes_size) j k)
    unfolding account_zone
    account_zone-Accounted j k h w = record {
      counted = written k.node.node_zones j _ (Counted (zones_size j) (zholes_size j) j) (record {
        spanned = refl;
        present = omega arith;
        managed = free_size-le k.dma_reserve j _ _;
        named = refl;
      });
      others = λ i d. write_zone-other k.node.node_zones j _ i d;
      node_id = refl;
      totals = (refl, refl);
      memmap = refl;
      all =
          written k.node.node_zones j _
            (λ z.
              (account_zone c zones_size (some zholes_size) j k).nr_all_pages
              ≡ add64 k.nr_all_pages z.managed_pages)
            refl;
    }

    pub empty-Round :
        (j : ZoneType) (start : ℕ) (k k' : Kernel)
        → zones_size j ≡ 0
        → Accounted j k k'
        → Round j start k k'
    empty-Round j start k k' z a = record {
      counted = a.counted;
      placed = λ h. absurd (h z);
      others = a.others;
      node_id = a.node_id;
      totals = a.totals;
      pages = λ q.
          ap (λ m. m.page q) a.memmap
          ∙ sym (
              painted-none c j k.node.node_id early start (start + zones_size j) k.memmap.page q
                (omega arith));
      mapped = λ q m. subst (λ x. Mapped c x q) (sym a.memmap) m;
      all = a.all;
    }

    -- The zone has a wait table.
    abbrev Tabled : Zone → ℕ → Option Zone → Type 0
    Tabled z size out =
        (entries : ℕ) × (t : ℕ → List ℕ) × Entries size entries
        × (out
            ≡ some (record z {
              wait_table_hash_nr_entries = entries;
              wait_table_bits = c.wait_table_bits entries;
              wait_table = some (init_heads entries t);
            }))

    zone_wait_table_init-Tabled :
        (nid : ℕ) (z : Zone) (size : ℕ)
        → size < word
        → Returns (Tabled z size) (zone_wait_table_init c nid z size)
    unfolding zone_wait_table_init
    zone_wait_table_init-Tabled nid z size w =
        Returns->>= (Entries size) (Tabled z size) _ _
          (wait_table_hash_nr_entries-Entries size (omega arith))
          λ entries x.
            let (t, e) = heap (entries * c.wait_queue_bytes % word) nid in
            rw e (entries, t, x, refl)

    -- What `init_currently_empty_zone` does to the zone.
    record Emptied (j : ZoneType) (start size : ℕ) (n n' : Node) : Type 0 where
      pub placed : Placed size start (n'.node_zones j)
      pub counted : (s h : ℕ) → Counted s h j (n.node_zones j) → Counted s h j (n'.node_zones j)
      pub managed : (n'.node_zones j).managed_pages ≡ (n.node_zones j).managed_pages
      pub others : (i : ZoneType) → zone_idx j ≢ zone_idx i → n'.node_zones i ≡ n.node_zones i
      pub node_id : n'.node_id ≡ n.node_id
      pub totals : SameTotals n n'

    abbrev SomeEmptied : ZoneType → ℕ → ℕ → Node → Option Node → Type 0
    SomeEmptied j start size n out = (n' : Node) × (out ≡ some n') × Emptied j start size n n'

    queues-empty :
        (entries : ℕ) (t : ℕ → List ℕ) (i : ℕ) → i < entries → init_heads entries t i ≡ []
    queues-empty entries t i h = let at : ltb i entries ≡ true = ground arith in rw at refl

    init_currently_empty_zone-Emptied :
        (n : Node) (j : ZoneType) (start size : ℕ)
        → size < word
        → Returns (SomeEmptied j start size n) (init_currently_empty_zone c n j start size)
    unfolding init_currently_empty_zone
    init_currently_empty_zone-Emptied n j start size w =
        Returns->>= (Tabled (n.node_zones j) size) (SomeEmptied j start size n) _ _
          (zone_wait_table_init-Tabled n.node_id (n.node_zones j) size w)
          λ out (entries, t, x, e). rw e (
            _,
            refl,
            record {
              placed = written n.node_zones j _ (Placed size start) (record {
                starts = refl;
                entries = x;
                table = (init_heads entries t, refl, queues-empty entries t);
              });
              counted = λ s h a. written n.node_zones j _ (Counted s h j) (record {
                spanned = a.spanned;
                present = a.present;
                managed = a.managed;
                named = a.named;
              });
              managed =
                  written n.node_zones j _ (λ z. z.managed_pages ≡ (n.node_zones j).managed_pages)
                    refl;
              others = λ i d. write_zone-other n.node_zones j _ i d;
              node_id = refl;
              totals = (refl, refl);
            },
          )

    -- The frames of the zone that are valid have a bitmap.
    abbrev pub HasSections : ℕ → ℕ → Memmap → Type 0
    HasSections start size m =
        (q : ℕ) → start ≤ q → q < start + size → skips c early q ≡ false → Mapped c m q

    pub populate_zone-Round :
        (j : ZoneType) (start : ℕ) (k k' : Kernel)
        → zones_size j ≢ 0
        → start + zones_size j < word
        → HasSections start (zones_size j) k.memmap
        → Accounted j k k'
        → Returns (Round j start k) (populate_zone c (zones_size j) j start k')
    unfolding populate_zone
    populate_zone-Round j start k k' z w h a =
        Returns->>= (SomeEmptied j start (zones_size j) k'.node) (Round j start k) _ _
          (init_currently_empty_zone-Emptied k'.node j start (zones_size j) (omega arith))
          λ out (n, e, x). rw e (
            Returns->>= (Initialised c j n.node_id early start (zones_size j) k'.memmap)
              (Round j start k) _ _
              (memmap_init_zone-Initialised c j n.node_id (n.node_zones j) (zones_size j) start
                early k'.memmap (omega arith) w
                (subst (HasSections start (zones_size j)) (sym a.memmap) h))
              λ m y. record {
                counted = x.counted (zones_size j) (zholes_size j) a.counted;
                placed = λ _. x.placed;
                others = λ i d. x.others i d ∙ a.others i d;
                node_id = x.node_id ∙ a.node_id;
                totals = (x.totals.0 ∙ a.totals.0, x.totals.1 ∙ a.totals.1);
                pages = λ q.
                    y.pages q
                    ∙ ap (λ i. painted c j i early start (start + zones_size j) k'.memmap.page q)
                        (x.node_id ∙ a.node_id)
                    ∙ ap
                        (λ r.
                          painted c j k.node.node_id early start (start + zones_size j) r.page q)
                        a.memmap;
                mapped = λ q b. y.mapped q (subst (λ r. Mapped c r q) (sym a.memmap) b);
                all = a.all ∙ ap (λ r. add64 k.nr_all_pages r) (sym x.managed);
              })
