-- ===== src/Fat/Search.antt =====
-- What the search of a directory in kernel/fat.c finds is there.
use neptune_os.Common.{
  length, get_or, leb, ◌==◌, if◌then◌else◌, ==→eq, ==→ne, Option-cases, if_intro, add32, ℕ, zero,
  suc, ◌+◌, ◌*◌, ◌/◌, ◌<◌, ◌≡◌, ◌≢◌, ◌⊎◌, inl, inr, Bool, true, false, ◌&&◌, ◌||◌, Option, none,
  some, List,
}
use neptune_os.Fat.{cluster_to_sector, is_end_cluster, fat_next_cluster, Fat, Disk, FatFile, DirLoc}
use neptune_os.Fat.Dir.{
  scan_root, scan_chain, chain_fuel, scan_sectors, dir_find_entry, Want, Found, entry, free_at,
  missing, endless, Scan, Verdict, goes_on, returns, same_name, skips_kind, entry_file, note_free,
  finish, look_at, scan_entries,
}
use neptune_os.Fat.Entries.{Wanted, Fields, entry_file-Fields, same_name-bytes, skips_kind-Wanted}

module _ {S : Type 0} (disk : Disk S) (s : S) where
  -- No entry in use stands at the place.
  pub record FreeAt (loc : DirLoc) : Type 0 where
    pub sector : List ℕ
    pub on_disk : disk.read loc.sector s ≡ some sector
    pub unused : (get_or sector loc.offset 0 ≡ 0) ⊎ (get_or sector loc.offset 0 ≡ 0xE5)

  abbrev Noted : Option DirLoc → Type 0
  Noted none = Unit
  Noted (some loc) = FreeAt loc

  abbrev NotedScan : Scan → Type 0
  NotedScan scan = Noted scan.free_loc

  -- The 32 bytes at `at` of a sector are an entry in use with the eleven characters of `name`, and
  -- `found` has its fields: cluster, size and attributes, the kind from bit 4 of these.
  pub record EntryAt (name : List ℕ) (want : Want) (found : FatFile) : Type 0 where
    pub sector : List ℕ
    pub on_disk : disk.read found.dir_sector s ≡ some sector
    pub fields : Fields (λ i. get_or sector (found.dir_offset + i) 0) found
    pub in_use : (get_or sector found.dir_offset 0 ≢ 0) × (get_or sector found.dir_offset 0 ≢ 0xE5)
    pub named :
        (i : ℕ)
        → i < 11
        → i < length name
        → get_or sector (found.dir_offset + i) 0 ≡ get_or name i 0
    pub wanted : Wanted want found.is_dir

  abbrev pub Sound : List ℕ → Want → Bool → Found → Type 0
  Sound name want allow_free (entry found) = EntryAt name want found
  Sound name want allow_free (free_at loc) = FreeAt loc × (allow_free ≡ true)
  Sound name want allow_free missing = Unit
  Sound name want allow_free endless = Unit

  note_free-Noted :
      (allow_free : Bool) (loc : DirLoc) (scan : Scan)
      → FreeAt loc
      → Noted scan.free_loc
      → Noted (note_free allow_free loc scan).free_loc
  unfolding note_free
  note_free-Noted allow_free loc scan h n = go scan.free_loc allow_free
    where
      go :
          (o : Option DirLoc) (b : Bool)
          → NotedScan (elim o [
            | none ↦ if b then record scan { free_loc = some loc } else scan
            | some first ↦ scan
          ])
      go none true = h
      go none false = n
      go (some l) b = n

module _ {S : Type 0} (disk : Disk S) (s : S) (root : Bool) (limit : ℕ) (name : List ℕ)
    (want : Want) (allow_free : Bool) where
  abbrev Fine : Verdict → Type 0
  Fine (goes_on scan) = Noted disk s scan.free_loc
  Fine (returns r) = Sound disk s name want allow_free r

  finish-Sound :
      (scan : Scan)
      → Noted disk s scan.free_loc
      → Sound disk s name want allow_free (finish allow_free scan)
  unfolding finish
  finish-Sound scan n = go scan.free_loc n
    where
      go :
          (o : Option DirLoc)
          → Noted disk s o
          → Sound disk s name want allow_free
              (elim o [ none ↦ missing | some loc ↦ if allow_free then free_at loc else missing ])
      go none m = tt
      go (some loc) m =
          if_intro (Sound disk s name want allow_free) allow_free (λ e. (m, e)) (λ e. tt)

  counted-Noted :
      (scan : Scan)
      → Noted disk s scan.free_loc
      → Noted disk s (if root then record scan { seen = add32 scan.seen 1 } else scan).free_loc
  counted-Noted scan n = if_intro (λ (x : Scan). Noted disk s x.free_loc) root (λ e. n) (λ e. n)

  look_at-Fine :
      (lba : ℕ) (sector : List ℕ) (idx : ℕ) (scan : Scan)
      → disk.read lba s ≡ some sector
      → Noted disk s scan.free_loc
      → Fine (look_at root limit name want allow_free lba sector idx scan)
  unfolding look_at entry_file
  look_at-Fine lba sector idx scan r n =
      let counted = if root then record scan { seen = add32 scan.seen 1 } else scan in
      let c = counted-Noted scan n in
      let loc : DirLoc = record { sector = lba; offset = idx } in
      if_intro Fine (root && leb limit scan.seen) (λ e. finish-Sound scan n)
        (λ e0.
          if_intro Fine (get_or sector idx 0 == 0)
            (λ e. finish-Sound (note_free allow_free loc counted) (
              note_free-Noted disk s allow_free loc counted
                (record {
                  sector = sector;
                  on_disk = r;
                  unused = inl (==→eq (get_or sector idx 0) 0 e);
                })
                c))
            (λ e1.
              if_intro Fine (get_or sector idx 0 == 0xE5)
                (λ e.
                  note_free-Noted disk s allow_free loc counted
                    (record {
                      sector = sector;
                      on_disk = r;
                      unused = inr (==→eq (get_or sector idx 0) 0xE5 e);
                    })
                    c)
                (λ e2.
                  if_intro Fine (get_or sector (idx + 11) 0 == 0x0F) (λ e. c)
                    (λ e3.
                      if_intro Fine (skips_kind want (entry_file lba sector idx).is_dir) (λ e. c)
                        (λ e4.
                          if_intro Fine (same_name 11 sector idx name)
                            (λ e. record {
                              sector = sector;
                              on_disk = r;
                              fields = entry_file-Fields lba sector idx;
                              in_use = (
                                ==→ne (get_or sector idx 0) 0 e1,
                                ==→ne (get_or sector idx 0) 0xE5 e2,
                              );
                              named = same_name-bytes 11 sector idx name e;
                              wanted = skips_kind-Wanted want (entry_file lba sector idx).is_dir e4;
                            })
                            (λ e. c))))))

  scan_entries-Fine :
      (rounds lba : ℕ) (sector : List ℕ) (e : ℕ) (scan : Scan)
      → disk.read lba s ≡ some sector
      → Noted disk s scan.free_loc
      → Fine (scan_entries root limit name want allow_free rounds lba sector e scan)
  unfolding scan_entries
  scan_entries-Fine zero lba sector e scan r n = n
  scan_entries-Fine (suc rounds) lba sector e scan r n =
      go (look_at root limit name want allow_free lba sector (e * 32) scan)
        (look_at-Fine lba sector (e * 32) scan r n)
        (λ scan' n'. scan_entries-Fine rounds lba sector (e + 1) scan' r n')
    where
      go :
          (v : Verdict)
          → Fine v
          → ((scan' : Scan)
              → Noted disk s scan'.free_loc
              → Fine (scan_entries root limit name want allow_free rounds lba sector (e + 1) scan'))
          → Fine (elim v [
            | returns x ↦ returns x
            | goes_on scan' ↦
                scan_entries root limit name want allow_free rounds lba sector (e + 1) scan'
          ])
      go (returns x) h k = h
      go (goes_on scan') h k = k scan' h

  module _ (f : Fat) where
    scan_sectors-Fine :
        (rounds lba : ℕ) (scan : Scan)
        → Noted disk s scan.free_loc
        → Fine (scan_sectors root limit name want allow_free disk f s rounds lba scan)
    unfolding scan_sectors
    scan_sectors-Fine zero lba scan n = n
    scan_sectors-Fine (suc rounds) lba scan n = elim (Option-cases (disk.read lba s)) [
      | inl e ↦ rw (e, scan_sectors) tt
      | inr (sector, e) ↦
          rw (e, scan_sectors)
            (go
              (scan_entries root limit name want allow_free (f.bytes_per_sector / 32) lba sector 0
                scan)
              (scan_entries-Fine (f.bytes_per_sector / 32) lba sector 0 scan e n)
              (λ scan' n'. scan_sectors-Fine rounds (add32 lba 1) scan' n'))
    ]
      where
        go :
            (v : Verdict)
            → Fine v
            → ((scan' : Scan)
                → Noted disk s scan'.free_loc
                → Fine (
                    scan_sectors root limit name want allow_free disk f s rounds
                      (add32 lba 1)
                      scan'))
            → Fine (elim v [
              | returns x ↦ returns x
              | goes_on scan' ↦
                  scan_sectors root limit name want allow_free disk f s rounds (add32 lba 1) scan'
            ])
        go (returns x) h k = h
        go (goes_on scan') h k = k scan' h

    scan_root-Sound :
        Sound disk s name want allow_free (scan_root root limit name want allow_free disk f s)
    unfolding scan_root
    scan_root-Sound =
        go
          (scan_sectors root limit name want allow_free disk f s f.root_dir_sectors f.root_start
            (record { seen = 0; free_loc = none }))
          (scan_sectors-Fine f.root_dir_sectors f.root_start (record { seen = 0; free_loc = none })
            tt)
      where
        go :
            (v : Verdict)
            → Fine v
            → Sound disk s name want allow_free
                (elim v [ returns r ↦ r | goes_on scan ↦ finish allow_free scan ])
        go (returns x) h = h
        go (goes_on scan) h = finish-Sound scan h

    scan_chain-Sound :
        (fuel cluster : ℕ) (scan : Scan)
        → Noted disk s scan.free_loc
        → Sound disk s name want allow_free
            (scan_chain root limit name want allow_free disk f s fuel cluster scan)
    unfolding scan_chain
    scan_chain-Sound zero cluster scan n = tt
    scan_chain-Sound (suc fuel) cluster scan n =
        go
          (scan_sectors root limit name want allow_free disk f s f.sectors_per_cluster
            (cluster_to_sector f cluster) scan)
          (scan_sectors-Fine f.sectors_per_cluster (cluster_to_sector f cluster) scan n)
          (λ next scan' n'. scan_chain-Sound fuel next (record scan' { seen = 0 }) n')
      where
        go :
            (v : Verdict)
            → Fine v
            → ((next : ℕ) (scan' : Scan)
                → Noted disk s scan'.free_loc
                → Sound disk s name want allow_free (
                    scan_chain root limit name want allow_free disk f s fuel next
                      (record scan' { seen = 0 })))
            → Sound disk s name want allow_free (elim v [
              | returns r ↦ r
              | goes_on scan' ↦
                  elim (fat_next_cluster disk f cluster s == 0
                    || is_end_cluster (fat_next_cluster disk f cluster s)) [
                      | true ↦ finish allow_free scan'
                      | false ↦
                          scan_chain root limit name want allow_free disk f s fuel
                            (fat_next_cluster disk f cluster s)
                            (record scan' { seen = 0 })
                    ]
            ])
        go (returns x) h k = h
        go (goes_on scan') h k =
            elim (fat_next_cluster disk f cluster s == 0
                || is_end_cluster (fat_next_cluster disk f cluster s))
              as (λ b. Sound disk s name want allow_free (elim b [
                | true ↦ finish allow_free scan'
                | false ↦
                    scan_chain root limit name want allow_free disk f s fuel
                      (fat_next_cluster disk f cluster s) (record scan' { seen = 0 })
              ])) [
                | true ↦ finish-Sound scan' h
                | false ↦ k (fat_next_cluster disk f cluster s) scan' h
              ]

-- Whatever the directory's chain of clusters looks like: an entry that `dir_find_entry` finds has the
-- cluster (bytes 26 and 27), size (28 to 31) and attributes (11) of the 32 bytes on the disk at the place
-- that it names, and the kind that bit 4 of the attributes says; these start with neither 0 nor 0xE5,
-- their first eleven bytes are the characters of the name (of as many as it has), and the kind is the
-- one that was asked for. A free place that it gives starts with 0 or 0xE5 on the disk, and is given only
-- where one was asked for.
pub dir_find_entry-Sound :
    {S : Type 0} (disk : Disk S) (f : Fat) (dir_cluster : ℕ) (name : List ℕ) (want : Want)
    (allow_free : Bool) (s : S)
    → Sound disk s name want allow_free (dir_find_entry disk f dir_cluster name want allow_free s)
unfolding dir_find_entry
dir_find_entry-Sound disk f dir_cluster name want allow_free s =
    if_intro (Sound disk s name want allow_free) (dir_cluster == 0)
      (λ e. scan_root-Sound disk s true f.root_entries name want allow_free f)
      (λ e.
        scan_chain-Sound disk s false 0 name want allow_free f chain_fuel dir_cluster
          (record { seen = 0; free_loc = none }) tt)
