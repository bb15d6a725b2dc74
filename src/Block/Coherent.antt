-- ===== src/Block/Coherent.antt =====
-- The sector cache of kernel/block.c is invisible, as long as sectors are written one at a time.
use neptune_os.Common.{
  length, take_all, ◌==◌, ==→eq, ==→ne, ne→==, Bool-cases, Option-cases, ℕ, ◌%◌, ◌≤◌, ◌≡◌, refl,
  sym, ap, ◌∙◌, ◌≢◌, ◌⊎◌, inl, inr, true, false, Option, none, some, List, arith,
}
use neptune_os.Block.{
  sector_size, cache_entries, Devices, CacheEntry, Block, cache_reset, cache_lookup, cache_store,
  fetched, block_read, stored, block_write,
}

-- What the cache relies on: a device gives back what was written to a sector, keeps the others, and
-- reads whole sectors. `Ramdisk` proves it of the RAM disk.
pub record Laws {S : Type 0} (ops : Devices S) : Type 0 where
  pub read-write :
      (dev lba : ℕ) (buf : List ℕ) (s s' : S)
      → length buf ≡ sector_size
      → ops.write dev lba 1 buf s ≡ some s'
      → ops.read dev lba 1 s' ≡ some buf
  pub read-write_other :
      (dev lba dev' lba' : ℕ) (buf : List ℕ) (s s' : S)
      → length buf ≡ sector_size
      → ops.write dev lba 1 buf s ≡ some s'
      → (dev' ≢ dev) ⊎ (lba' ≢ lba)
      → ops.read dev' lba' 1 s' ≡ ops.read dev' lba' 1 s
  pub length-read :
      (dev lba : ℕ) (s : S) {buf : List ℕ}
      → ops.read dev lba 1 s ≡ some buf
      → length buf ≡ sector_size

module _ {S : Type 0} (ops : Devices S) (laws : Laws ops) where
  -- An entry at index `i` stands at the index of its sector, and holds what its device would read.
  abbrev pub EntryOk : S → ℕ → CacheEntry → Type 0
  EntryOk s i e = (ops.read e.dev e.lba 1 s ≡ some e.bytes) × (e.lba % cache_entries ≡ i)

  -- Every valid entry is so.
  abbrev pub IsCoherent : Block S → Type 0
  IsCoherent b = (i : ℕ) → (b.cache i).valid ≡ true → EntryOk b.devices i (b.cache i)

  lookup-read :
      (dev lba : ℕ) (b : Block S) (bytes : List ℕ)
      → IsCoherent b
      → cache_lookup dev lba b.cache ≡ some bytes
      → ops.read dev lba 1 b.devices ≡ some bytes
  unfolding cache_lookup
  lookup-read dev lba b bytes coh h = ground (arith, coh (lba % cache_entries))

  pub cache_reset-IsCoherent :
      (b : Block S)
      → ((i : ℕ) → cache_entries ≤ i → (b.cache i).valid ≡ false)
      → IsCoherent (record b { cache = cache_reset b.cache })
  unfolding cache_reset
  cache_reset-IsCoherent b outside i v = absurd (ground (arith, outside i))

  store-IsCoherent :
      (dev lba : ℕ) (buf : List ℕ) (b : Block S)
      → ((i : ℕ)
          → i ≢ lba % cache_entries
          → (b.cache i).valid ≡ true
          → EntryOk b.devices i (b.cache i))
      → length buf ≡ sector_size
      → ops.read dev lba 1 b.devices ≡ some buf
      → IsCoherent (record b { cache = cache_store dev lba buf b.cache })
  unfolding cache_store
  store-IsCoherent dev lba buf b coh len fresh i = elim (Bool-cases (lba % cache_entries == i)) [
    | inl e ↦ rw e (λ v.
        (rw (take_all sector_size buf (omega (arith, len))) fresh, ==→eq (lba % cache_entries) i e))
    | inr ne ↦ rw ne (coh i (λ q. ==→ne _ _ ne (sym q)))
  ]

  fetched-IsCoherent :
      (dev lba count : ℕ) (b : Block S) (o : Option (List ℕ))
      → IsCoherent b
      → ops.read dev lba count b.devices ≡ o
      → let (out, b') = fetched ops dev lba count o b in
        (out ≡ o) × (b'.devices ≡ b.devices) × IsCoherent b'
  unfolding fetched
  fetched-IsCoherent dev lba count b none coh e = (refl, refl, coh)
  fetched-IsCoherent dev lba count b (some buf) coh e = elim (Bool-cases (count == 1)) [
    | inl one ↦
        let at : ops.read dev lba 1 b.devices ≡ some buf =
          ap (λ n. ops.read dev lba n b.devices) (sym (==→eq count 1 one)) ∙ e in
        rw one (
          refl,
          refl,
          store-IsCoherent dev lba buf b (λ i ne. coh i) (laws.length-read dev lba b.devices at) at,
        )
    | inr many ↦ rw many (refl, refl, coh)
  ]

  -- On a coherent cache a read of any number of sectors gives what the device gives, leaves the devices
  -- alone, and keeps the cache coherent. (The null device reads nothing.)
  pub block_read-read :
      (dev lba count : ℕ) (b : Block S)
      → IsCoherent b
      → dev ≢ 0
      → let (out, b') = block_read ops dev lba count b in
        (out ≡ ops.read dev lba count b.devices) × (b'.devices ≡ b.devices) × IsCoherent b'
  unfolding block_read
  block_read-read dev lba count b coh real =
      let d = ops.read dev lba count b.devices in
      let f = fetched-IsCoherent dev lba count b d coh refl in
      let nz = ne→== dev 0 real in
      elim (Bool-cases (count == 1)) [
        | inl one ↦ elim (Option-cases (cache_lookup dev lba b.cache)) [
          | inl miss ↦ rw (nz, one, miss) f
          | inr (bytes, hit) ↦
              let at = lookup-read dev lba b bytes coh hit in
              rw (nz, one, hit)
                (
                  sym at ∙ ap (λ n. ops.read dev lba n b.devices) (sym (==→eq count 1 one)),
                  refl,
                  coh,
                )
        ]
        | inr many ↦ rw (nz, many) f
      ]

  -- The entries that a write of one sector does not replace stay right.
  keeps :
      (dev lba : ℕ) (buf : List ℕ) (b : Block S) (s : S)
      → IsCoherent b
      → length buf ≡ sector_size
      → ops.write dev lba 1 buf b.devices ≡ some s
      → (i : ℕ) → i ≢ lba % cache_entries
      → (b.cache i).valid ≡ true
      → EntryOk s i (b.cache i)
  keeps dev lba buf b s coh len e i ne v =
      let old = coh i v in
      (
        laws.read-write_other dev lba (b.cache i).dev (b.cache i).lba buf b.devices s len e
              (inr (λ q. ne (sym old.1 ∙ ap (λ n. n % cache_entries) q)))
            ∙ old.0,
        old.1,
      )

  -- On a coherent cache the write of one sector does what the device does, and keeps the cache coherent.
  pub block_write-write :
      (dev lba : ℕ) (buf : List ℕ) (b : Block S)
      → IsCoherent b
      → dev ≢ 0
      → length buf ≡ sector_size
      → let (done, b') = block_write ops dev lba 1 buf b in
        IsCoherent b'
        × (((done ≡ true) × (ops.write dev lba 1 buf b.devices ≡ some b'.devices))
            ⊎ ((done ≡ false) × (ops.write dev lba 1 buf b.devices ≡ none) × (b' ≡ b)))
  unfolding block_write
  block_write-write dev lba buf b coh real len =
      rw (ne→== dev 0 real) (written (ops.write dev lba 1 buf b.devices) refl)
    where
      written :
          (o : Option S)
          → ops.write dev lba 1 buf b.devices ≡ o
          → let (done, b') = stored ops dev lba 1 buf o b in
            IsCoherent b'
            × (((done ≡ true) × (ops.write dev lba 1 buf b.devices ≡ some b'.devices))
                ⊎ ((done ≡ false) × (ops.write dev lba 1 buf b.devices ≡ none) × (b' ≡ b)))
      written none e = (coh, inr (refl, e, refl))
      written (some s) e =
          let at = laws.read-write dev lba buf b.devices s len e in
          (
            store-IsCoherent dev lba buf (record b { devices = s })
                (keeps dev lba buf b s coh len e) len at,
            inl (refl, e),
          )
