-- ===== src/Buddy/Rounds.antt =====
-- `free_area_init_core` of mm/buddy.c: the rounds for all the zones.
use study_notes.Common.{
  ℕ, ◌+◌, ◌≤◌, ◌<◌, ◌≡◌, refl, List, [], ◌∷◌, some, ◌==◌, Bool-cases, inl, inr, word, add64,
  Returns, Returns-map, Returns->>=, arith,
}
use study_notes.Buddy.Frames.{ZoneType}
use study_notes.Buddy.Zone.{Memmap, Kernel, Config}
use study_notes.Buddy.Painted.{Mapped}
use study_notes.Buddy.Core.{account_zone, init_zones}
use study_notes.Buddy.Round.{
  HasHeap, HasSections, Round, account_zone-Accounted, empty-Round, populate_zone-Round,
}

module _ (c : Config) (heap : HasHeap c) (zones_size zholes_size : ZoneType → ℕ) where
  -- The rounds for the zones of a list, each starting where the one before ends.
  abbrev pub Rounds : List ZoneType → ℕ → Kernel → Kernel → Type 0
  Rounds [] start k k' = k' ≡ k
  Rounds (j ∷ js) start k k' =
      (k1 : Kernel) × Round c heap zones_size zholes_size j start k k1
      × Rounds js (start + zones_size j) k1 k'

  -- What the rounds need: sizes that hold their holes and stay within 64 bits, and the bitmaps.
  abbrev pub Fits : List ZoneType → ℕ → Memmap → Type 0
  Fits [] start m = Unit {0}
  Fits (j ∷ js) start m =
      (zholes_size j ≤ zones_size j)
      × (start + zones_size j < word)
      × HasSections c heap zones_size zholes_size start (zones_size j) m
      × Fits js (start + zones_size j) m

  Fits-Mapped :
      (js : List ZoneType) (start : ℕ) (m m' : Memmap)
      → ((q : ℕ) → Mapped c m q → Mapped c m' q)
      → Fits js start m
      → Fits js start m'
  Fits-Mapped [] start m m' h f = tt
  Fits-Mapped (j ∷ js) start m m' h f =
      (f.0, f.1, λ q a b s. h q (f.2 q a b s), Fits-Mapped js (start + zones_size j) m m' h f.3)

  -- The loop of `free_area_init_core` over any list of zones, where an allocation of a wait table
  -- does not fail, each zone has no more holes than pages and ends below 2 ^ 64 if laid out after
  -- those before it, and the sections of its valid frames have bitmaps: it returns, so `BUG_ON(ret)`
  -- is not met, and it is a sequence of rounds in which each zone is counted, starts where the one
  -- before ends, leaves the other zones alone and adds its managed pages to `nr_all_pages`.
  pub init_zones-Rounds :
      (js : List ZoneType) (start : ℕ) (k : Kernel)
      → Fits js start k.memmap
      → Returns (Rounds js start k) (init_zones c zones_size (some zholes_size) js start k)
  unfolding init_zones
  init_zones-Rounds [] start k f = refl
  init_zones-Rounds (j ∷ js) start k f =
      let a = account_zone-Accounted c heap zones_size zholes_size j k f.0 (omega (arith, f.1)) in
      elim (Bool-cases (zones_size j == 0)) [
        | inl e ↦
            let k1 = account_zone c zones_size (some zholes_size) j k in
            let r = empty-Round c heap zones_size zholes_size j start k k1 (ground arith) a in
            let here : start + zones_size j ≡ start = ground arith in
            let f' : Fits js start k1.memmap =
              rw here at (Fits-Mapped js (start + zones_size j) k.memmap k1.memmap r.mapped f.3) in
            rw (e, init_zones)
              (Returns-map (Rounds js start k1) (Rounds (j ∷ js) start k) _
                (λ k' x. (k1, r, rw here x)) (init_zones-Rounds js start k1 f'))
        | inr e ↦
            let next : add64 start (zones_size j) ≡ start + zones_size j = omega (arith, f.1) in
            rw (e, next, init_zones)
              (Returns->>= (Round c heap zones_size zholes_size j start k) (Rounds (j ∷ js) start k)
                _ _
                (populate_zone-Round c heap zones_size zholes_size j start k _ (ground arith) f.1
                  f.2 a)
                λ k1 r.
                  Returns-map (Rounds js (start + zones_size j) k1) (Rounds (j ∷ js) start k) _
                    (λ k' x. (k1, r, x))
                    (init_zones-Rounds js (start + zones_size j) k1
                      (Fits-Mapped js (start + zones_size j) k.memmap k1.memmap r.mapped f.3)))
      ]
