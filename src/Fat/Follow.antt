-- ===== src/Fat/Follow.antt =====
-- The steps of kernel/fat.c from cluster to cluster, against the entries of the table.
use neptune_os.Common.{
  get_or, ltb, leb, ltb→lt, ltb→ge, leb→le, Bool-cases, Option-cases, leb→gt, add32, ℕ, zero, suc,
  ◌+◌, ◌-◌, ◌*◌, ◌/◌, ◌%◌, ◌≤◌, ◌<◌, ◌≡◌, refl, ap, subst, ◌∙◌, ◌≢◌, ◌⊎◌, inl, inr, Option, none,
  some, List, arith,
}
use neptune_os.Fat.{
  Disk, Fat, is_end_cluster, fat_next_cluster, table_sector, table_offset, read_u16,
}
use neptune_os.Fat.Read.{follow}
use neptune_os.Fat.Chain.{here, later, Leads, EntryIs, Ends, Stops, low, last, unreadable, goes_on}

module _ {S : Type 0} (disk : Disk S) (f : Fat) (bps : f.bytes_per_sector ≡ 512) (s : S) where
  abbrev table_read : ℕ → Option (List ℕ)
  table_read c = disk.read (add32 f.fat_start (c * 2 / 512)) s

  abbrev entry_of : ℕ → Option (List ℕ) → ℕ
  entry_of c none = 0
  entry_of c (some buf) = get_or buf (c * 2 % 512) 0 + get_or buf (c * 2 % 512 + 1) 0 * 256

  next-entry_of : (c : ℕ) → fat_next_cluster disk f c s ≡ entry_of c (table_read c)
  unfolding fat_next_cluster table_sector table_offset read_u16
  next-entry_of c =
      ap
        (λ b. elim (disk.read (add32 f.fat_start (c * 2 / b)) s) [
          | none ↦ 0
          | some buf ↦ get_or buf (c * 2 % b) 0 + get_or buf (c * 2 % b + 1) 0 * 256
        ])
        bps
      ∙ by_cases (table_read c)
    where
      by_cases :
          (o : Option (List ℕ))
          → (elim o [
            | none ↦ 0
            | some buf ↦ get_or buf (c * 2 % 512) 0 + get_or buf (c * 2 % 512 + 1) 0 * 256
          ])
            ≡ entry_of c o
      by_cases none = refl
      by_cases (some buf) = refl

  read-EntryIs :
      (c : ℕ) (sector : List ℕ)
      → table_read c ≡ some sector
      → EntryIs disk f s c (fat_next_cluster disk f c s)
  read-EntryIs c sector r = (sector, r, next-entry_of c ∙ ap (entry_of c) r ∙ omega arith)

  EntryIs-next : (c n : ℕ) → EntryIs disk f s c n → fat_next_cluster disk f c s ≡ n
  EntryIs-next c n (sector, r, e) = next-entry_of c ∙ ap (entry_of c) r ∙ omega (arith, e)

  unread-next : (c : ℕ) → table_read c ≡ none → fat_next_cluster disk f c s ≡ 0
  unread-next c r = next-entry_of c ∙ ap (entry_of c) r

  pub Leads-follow : (c n : ℕ) → Leads disk f s c n → follow disk f s c ≡ some n
  unfolding follow is_end_cluster
  Leads-follow c n (entry, nz, lt) = let e = EntryIs-next c n entry in rw e (ground (arith, nz, lt))

  pub follow-Leads : (c n : ℕ) → follow disk f s c ≡ some n → Leads disk f s c n
  unfolding follow is_end_cluster
  follow-Leads c n e = elim (Option-cases (table_read c)) [
    | inl failed ↦ let z = unread-next c failed in absurd (ground (arith, z, e))
    | inr (sector, r) ↦
        let next = fat_next_cluster disk f c s in
        let facts : (next ≡ n) × (next ≢ 0) × (next < 0xFFF8) = ground (arith, e) in
        (
          subst (EntryIs disk f s c) facts.0 (read-EntryIs c sector r),
          omega (arith, facts),
          omega (arith, facts),
        )
  ]

  follow-Stops :
      (c p : ℕ) → follow disk f s c ≡ none → f.sectors_per_cluster * 512 ≤ p → Stops disk f s c p
  unfolding follow is_end_cluster
  follow-Stops c p e far = elim (Option-cases (table_read c)) [
    | inl failed ↦ unreadable failed far
    | inr (sector, r) ↦ last (read-EntryIs c sector r) (ground (arith, e)) far
  ]

  -- Where the chain has no place, it stops, or goes on to a cluster from which it has no place.
  stops_or_on :
      (c p : ℕ)
      → Ends disk f s c p
      → Stops disk f s c p
        ⊎ ((n : ℕ) × (f.sectors_per_cluster * 512 ≤ p)
            × Leads disk f s c n
            × Ends disk f s n (p - f.sectors_per_cluster * 512))
  stops_or_on c p ends = elim (Bool-cases (leb 2 c)) [
    | inr small ↦ inl (low (leb→gt 2 c small))
    | inl real ↦ elim (Bool-cases (ltb p (f.sectors_per_cluster * 512))) [
      | inl inside ↦
          absurd (ends c p (here (leb→le 2 c real) (ltb→lt p (f.sectors_per_cluster * 512) inside)))
      | inr past ↦
          let far = ltb→ge p (f.sectors_per_cluster * 512) past in
          elim (Option-cases (follow disk f s c)) [
            | inl stop ↦ inl (follow-Stops c p stop far)
            | inr (n, e) ↦
                let leads = follow-Leads c n e in
                inr (
                  n,
                  far,
                  leads,
                  λ d o a. ends d o (later (leb→le 2 c real) leads (omega (arith, far)) a),
                )
          ]
    ]
  ]

  pub Ends-Stops :
      (fuel c p : ℕ) → p ≤ fuel → 0 < f.sectors_per_cluster → Ends disk f s c p → Stops disk f s c p
  Ends-Stops zero c p h pos ends = elim (stops_or_on c p ends) [
    | inl stop ↦ stop
    | inr (n, far, leads, behind) ↦ absurd (omega arith)
  ]
  Ends-Stops (suc fuel) c p h pos ends = elim (stops_or_on c p ends) [
    | inl stop ↦ stop
    | inr (n, far, leads, behind) ↦
        goes_on leads (omega (arith, far))
          (Ends-Stops fuel n (p - f.sectors_per_cluster * 512) (omega arith) pos behind)
  ]
