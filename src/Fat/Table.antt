-- ===== src/Fat/Table.antt =====
-- The allocation table of kernel/fat.c: what `fat_set_cluster` and `fat_alloc_cluster` change in it.
use neptune_os.Common.{
  length, set, length-set, get_or-set_self, get_or-set_ne, ◌==◌, ==→eq, ==→ne, Bool-cases,
  Option-cases, add32, ℕ, zero, suc, ◌+◌, ◌-◌, ◌*◌, ◌/◌, ◌%◌, ◌≤◌, ◌<◌, ◌≡◌, refl, sym, ap, subst,
  ◌∙◌, ◌≢◌, inl, inr, Option, none, some, List, arith, mod-eq_of_lt,
}
use neptune_os.Fat.{
  and_then, return, alloc_from, fat_alloc_cluster, ◌>>◌, write_sector, read_sector, fat_set_cluster,
  fat_eoc, Disk, Fat, u16, read_u16, put_u16, table_sector, table_offset, fat_next_cluster,
}

-- What is needed of the block layer: a sector reads as it was last written, and has 512 bytes.
pub record DiskLaws {S : Type 0} (disk : Disk S) : Type 0 where
  pub read-write :
      (lba : ℕ) (buf : List ℕ) (s s' : S)
      → length buf ≡ 512
      → disk.write lba buf s ≡ some s'
      → disk.read lba s' ≡ some buf
  pub read-write_other :
      (lba lba' : ℕ) (buf : List ℕ) (s s' : S)
      → length buf ≡ 512
      → disk.write lba buf s ≡ some s'
      → lba' ≢ lba
      → disk.read lba' s' ≡ disk.read lba' s
  pub length-read : (lba : ℕ) (s : S) {buf : List ℕ} → disk.read lba s ≡ some buf → length buf ≡ 512

-- A geometry whose table entries all have a 16-bit number.
pub record IsMounted (f : Fat) : Type 0 where
  pub sector_bytes : f.bytes_per_sector ≡ 512
  pub table_low : f.fat_start < u16
  pub numbered : f.cluster_count + 2 ≤ u16

length-put_u16 : (buf : List ℕ) (at v : ℕ) → length (put_u16 buf at v) ≡ length buf
unfolding put_u16
length-put_u16 buf at v =
    length-set (set buf at (v % 256)) (at + 1) (v / 256 % 256) ∙ length-set buf at (v % 256)

read_u16-put_u16 :
    (buf : List ℕ) (at v : ℕ) → at + 1 < length buf → v < u16 → read_u16 (put_u16 buf at v) at ≡ v
unfolding read_u16 put_u16
read_u16-put_u16 buf at v h k =
    let first = set buf at (v % 256) in
    let len = length-set buf at (v % 256) in
    let low = get_or-set_ne first (at + 1) at (v / 256 % 256) 0 (λ e. absurd (omega (arith, e))) in
    let low' = get_or-set_self buf at (v % 256) 0 (omega arith) in
    let high = get_or-set_self first (at + 1) (v / 256 % 256) 0 (omega (arith, len)) in
    omega (arith, low, low', high)

read_u16-put_u16_other :
    (buf : List ℕ) (at i v : ℕ)
    → i % 2 ≡ at % 2
    → i ≢ at
    → read_u16 (put_u16 buf at v) i ≡ read_u16 buf i
unfolding read_u16 put_u16
read_u16-put_u16_other buf at i v e ne =
    let first = set buf at (v % 256) in
    let a = get_or-set_ne first (at + 1) i (v / 256 % 256) 0 (λ q. absurd (omega (arith, q, e))) in
    let b = get_or-set_ne buf at i (v % 256) 0 (λ q. ne (sym q)) in
    let c = get_or-set_ne first (at + 1) (i + 1) (v / 256 % 256) 0 (λ q. ne (omega (arith, q))) in
    let d = get_or-set_ne buf at (i + 1) (v % 256) 0 (λ q. absurd (omega (arith, q, e))) in
    omega (arith, a, b, c, d)

module _ {S : Type 0} {disk : Disk S} {f : Fat} (laws : DiskLaws disk) (m : IsMounted f) where
  sector-eq : (c : ℕ) → c < u16 → table_sector disk f c ≡ f.fat_start + c * 2 / 512
  unfolding table_sector
  sector-eq c h = rw m.sector_bytes (mod-eq_of_lt (omega (arith, m.table_low)))

  offset-eq : (c : ℕ) → table_offset disk f c ≡ c * 2 % 512
  unfolding table_offset
  offset-eq c = rw m.sector_bytes refl

  next-read :
      (d : ℕ) (s : S) (buf : List ℕ)
      → disk.read (table_sector disk f d) s ≡ some buf
      → fat_next_cluster disk f d s ≡ read_u16 buf (table_offset disk f d)
  unfolding fat_next_cluster
  next-read d s buf r = rw (r, fat_next_cluster) refl

  next-same :
      (d : ℕ) (s s' : S)
      → disk.read (table_sector disk f d) s' ≡ disk.read (table_sector disk f d) s
      → fat_next_cluster disk f d s' ≡ fat_next_cluster disk f d s
  unfolding fat_next_cluster
  next-same d s s' r = rw (r, fat_next_cluster) refl

  -- What a write of one table entry leaves in the table.
  set-entries :
      (c v : ℕ) (s s' : S) (buf : List ℕ)
      → c < u16
      → v < u16
      → disk.read (table_sector disk f c) s ≡ some buf
      → disk.write (table_sector disk f c) (put_u16 buf (table_offset disk f c) v) s ≡ some s'
      → (fat_next_cluster disk f c s' ≡ v)
        × ((d : ℕ) → d < u16 → d ≢ c → fat_next_cluster disk f d s' ≡ fat_next_cluster disk f d s)
  unfolding fat_next_cluster
  set-entries c v s s' buf hc hv r w =
      let len = laws.length-read (table_sector disk f c) s r in
      let new = put_u16 buf (table_offset disk f c) v in
      let len' : length new ≡ 512 = length-put_u16 buf (table_offset disk f c) v ∙ len in
      let back = laws.read-write (table_sector disk f c) new s s' len' w in
      let off = offset-eq c in
      (
        next-read c s' new back
            ∙ read_u16-put_u16 buf (table_offset disk f c) v (omega (arith, off)) hv,
        λ d hd ne. elim (Bool-cases (table_sector disk f d == table_sector disk f c)) [
          | inr other ↦ next-same d s s' (
              laws.read-write_other (table_sector disk f c) (table_sector disk f d) new s s' len' w
                (==→ne _ _ other))
          | inl e ↦
              let same = ==→eq (table_sector disk f d) (table_sector disk f c) e in
              let sd = sector-eq d hd in
              let sc = sector-eq c hc in
              let od = offset-eq d in
              let differ : table_offset disk f d ≢ table_offset disk f c =
                λ q. ne (omega (arith, q, od, off, sd, sc, same)) in
              next-read d s' new (ap (λ l. disk.read l s') same ∙ back)
              ∙ (read_u16-put_u16_other buf (table_offset disk f c) (table_offset disk f d) v
                  (omega (arith, od, off)) differ)
              ∙ sym (next-read d s buf (ap (λ l. disk.read l s) same ∙ r))
        ],
      )

  -- Writing a table entry, where it succeeds, changes that entry alone.
  pub set_cluster-entries :
      (c v : ℕ) (s s' : S)
      → c < u16
      → v < u16
      → fat_set_cluster disk f c v s ≡ (some tt, s')
      → (fat_next_cluster disk f c s' ≡ v)
        × ((d : ℕ) → d < u16 → d ≢ c → fat_next_cluster disk f d s' ≡ fat_next_cluster disk f d s)
  unfolding fat_set_cluster read_sector write_sector
  set_cluster-entries c v s s' hc hv e = elim (Option-cases (disk.read (table_sector disk f c) s)) [
    | inl failed ↦ absurd (ground arith)
    | inr (buf, r) ↦
        elim (Option-cases
          (disk.write (table_sector disk f c) (put_u16 buf (table_offset disk f c) v) s)) [
            | inl refused ↦ absurd (ground arith)
            | inr (t, w) ↦
                let q : t ≡ s' = ground arith in
                subst
                  (λ x.
                    (fat_next_cluster disk f c x ≡ v)
                    × ((d : ℕ)
                        → d < u16
                        → d ≢ c
                        → fat_next_cluster disk f d x ≡ fat_next_cluster disk f d s))
                  q (set-entries c v s t buf hc hv r w)
          ]
  ]

  -- The state `s'` has the cluster `c` taken, the first free one from `from` on, below `end`.
  pub record Taken (s s' : S) (from end c : ℕ) : Type 0 where
    pub in_range : (from ≤ c) × (c < end)
    pub was_free : fat_next_cluster disk f c s ≡ 0
    pub first : (d : ℕ) → from ≤ d → d < c → fat_next_cluster disk f d s ≢ 0
    pub ends_chain : fat_next_cluster disk f c s' ≡ fat_eoc
    pub others :
        (d : ℕ) → d < u16 → d ≢ c → fat_next_cluster disk f d s' ≡ fat_next_cluster disk f d s

  alloc_here :
      (c : ℕ) (s s' : S) (r : ℕ)
      → c < u16
      → fat_next_cluster disk f c s ≡ 0
      → (fat_set_cluster disk f c fat_eoc >> return c) s ≡ (some r, s')
      → (r ≡ c) × Taken s s' c (c + 1) c
  alloc_here c s s' r hc free e = go (fat_set_cluster disk f c fat_eoc s) refl e
    where
      go :
          (o : Option (Unit {0}) × S)
          → fat_set_cluster disk f c fat_eoc s ≡ o
          → and_then (λ _. return c) o ≡ (some r, s')
          → (r ≡ c) × Taken s s' c (c + 1) c
      go (none, t) q e' = absurd (ground arith)
      go (some tt, t) q e' =
          let same : t ≡ s' = ground arith in
          let entries =
            set_cluster-entries c fat_eoc s s' hc (omega arith) (q ∙ ap (λ x. (some tt, x)) same) in
          (
            ground arith,
            record {
              in_range = omega arith;
              was_free = free;
              first = λ d a b. absurd (omega arith);
              ends_chain = entries.0;
              others = entries.1;
            },
          )

  alloc_from-Taken :
      (rounds c : ℕ) (s s' : S) (r : ℕ)
      → c + rounds ≤ u16
      → alloc_from disk f rounds c s ≡ (some r, s')
      → Taken s s' c (c + rounds) r
  unfolding alloc_from
  alloc_from-Taken zero c s s' r h e = absurd (ground arith)
  alloc_from-Taken (suc rounds) c s s' r h e =
      let low : c % u16 ≡ c = mod-eq_of_lt (omega arith) in
      elim (Bool-cases (fat_next_cluster disk f (c % u16) s == 0)) [
        | inl free ↦
            let free' : fat_next_cluster disk f c s ≡ 0 =
              ap (λ x. fat_next_cluster disk f x s) (sym low)
              ∙ ==→eq (fat_next_cluster disk f (c % u16) s) 0 free in
            let (same, t) = alloc_here c s s' r (omega arith) free' (
              ap (λ x. (fat_set_cluster disk f x fat_eoc >> return x) s) (sym low)
              ∙ rw (free, alloc_from) at e) in
            record {
              in_range = omega (arith, same);
              was_free = ap (λ x. fat_next_cluster disk f x s) same ∙ t.was_free;
              first = λ d a b. absurd (omega (arith, same, a, b));
              ends_chain = ap (λ x. fat_next_cluster disk f x s') same ∙ t.ends_chain;
              others = λ d hd ne. t.others d hd (λ q. ne (q ∙ sym same));
            }
        | inr used ↦
            let used' : fat_next_cluster disk f c s ≢ 0 = λ q.
              ==→ne (fat_next_cluster disk f (c % u16) s) 0 used
                (ap (λ x. fat_next_cluster disk f x s) low ∙ q) in
            let t =
              alloc_from-Taken rounds (c + 1) s s' r (omega arith) (rw (used, alloc_from) at e) in
            record {
              in_range = omega (arith, t.in_range);
              was_free = t.was_free;
              first = λ d a b. elim (Bool-cases (c == d)) [
                | inl eq ↦ λ q. used' (ap (λ x. fat_next_cluster disk f x s) (==→eq c d eq) ∙ q)
                | inr ne ↦ t.first d (omega (arith, ==→ne c d ne)) b
              ];
              ends_chain = t.ends_chain;
              others = t.others;
            }
      ]

-- With a mounted table and a lawful disk, the cluster that `fat_alloc_cluster` returns is the first one
-- whose entry was 0, its entry now ends a chain, and the entry of every other cluster is as it was.
pub fat_alloc_cluster-Taken :
    {S : Type 0} {disk : Disk S} {f : Fat} (laws : DiskLaws disk) (m : IsMounted f) (s s' : S)
    (c : ℕ)
    → fat_alloc_cluster disk f s ≡ (some c, s')
    → Taken laws m s s' 2 (f.cluster_count + 2) c
unfolding fat_alloc_cluster
fat_alloc_cluster-Taken {S} {disk} {f} laws m s s' c e =
    let total : add32 f.cluster_count 2 ≡ f.cluster_count + 2 =
      mod-eq_of_lt (omega (arith, m.numbered)) in
    let rounds : add32 f.cluster_count 2 - 2 ≡ f.cluster_count = omega arith in
    let t =
      alloc_from-Taken laws m f.cluster_count 2 s s' c (omega (arith, m.numbered))
        (rw rounds at e) in
    subst (λ n. Taken laws m s s' 2 n c) (omega arith) t
