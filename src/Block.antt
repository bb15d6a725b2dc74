-- ===== src/Block.antt =====
-- kernel/block.c: the sector cache in front of the block devices, and the RAM disk. A device is a number
-- (its `struct block_device *`), and its functions `read` and `write` act on a state of all devices;
-- `none` is the result -1, and a buffer is the list of its bytes.
pub mod Ramdisk
pub mod Coherent
mod Tests
use neptune_os.Common.{
  take, ltb, ◌==◌, if◌then◌else◌, update, ℕ, ◌%◌, Bool, true, false, ◌&&◌, Option, none, some, List,
}

abbrev pub sector_size : ℕ
sector_size = 512

abbrev pub cache_entries : ℕ
cache_entries = 16

-- The function pointers of `struct block_device`, for every device.
pub record Devices (S : Type 0) : Type 0 where
  pub read : ℕ → ℕ → ℕ → S → Option (List ℕ)
  pub write : ℕ → ℕ → ℕ → List ℕ → S → Option S

-- `struct block_cache_entry`
pub record CacheEntry : Type 0 where
  pub dev : ℕ
  pub lba : ℕ
  pub bytes : List ℕ
  pub valid : Bool

abbrev pub Cache : Type 0
Cache = ℕ → CacheEntry

pub record Block (S : Type 0) : Type 0 where
  pub devices : S
  pub cache : Cache

-- `block_cache_reset`: the cached bytes stay, but no entry is valid.
unfoldable pub cache_reset : Cache → Cache
cache_reset c i =
    if ltb i cache_entries then record (c i) { dev = 0; lba = 0; valid = false } else c i

unfoldable pub cache_lookup : ℕ → ℕ → Cache → Option (List ℕ)
cache_lookup dev lba c =
    let entry = c (lba % cache_entries) in
    if entry.valid && entry.dev == dev && entry.lba == lba then some entry.bytes else none

unfoldable pub cache_store : ℕ → ℕ → List ℕ → Cache → Cache
cache_store dev lba buf c =
    update c (lba % cache_entries)
      (record { dev = dev; lba = lba; bytes = take sector_size buf; valid = true })

module _ {S : Type 0} (ops : Devices S) where
  -- What a device has read, and the cache after it.
  unfoldable pub fetched : ℕ → ℕ → ℕ → Option (List ℕ) → Block S → Option (List ℕ) × Block S
  fetched dev lba count none b = (none, b)
  fetched dev lba count (some buf) b =
      (some buf, if count == 1 then record b { cache = cache_store dev lba buf b.cache } else b)

  unfoldable pub block_read : ℕ → ℕ → ℕ → Block S → Option (List ℕ) × Block S
  unfolding fetched
  block_read dev lba count b =
      let miss = fetched dev lba count (ops.read dev lba count b.devices) b in
      if dev == 0
      then (none, b)
      else (if count == 1
          then elim (cache_lookup dev lba b.cache) [ some bytes ↦ (some bytes, b) | none ↦ miss ]
          else miss)

  -- What a device has done on a write, and the cache after it; the result says if it succeeded.
  unfoldable pub stored : ℕ → ℕ → ℕ → List ℕ → Option S → Block S → Bool × Block S
  stored dev lba count buf none b = (false, b)
  stored dev lba count buf (some s) b = (
    true,
    if count == 1
        then record { devices = s; cache = cache_store dev lba buf b.cache }
        else record b { devices = s },
  )

  unfoldable pub block_write : ℕ → ℕ → ℕ → List ℕ → Block S → Bool × Block S
  unfolding stored
  block_write dev lba count buf b =
      if dev == 0
      then (false, b)
      else stored dev lba count buf (ops.write dev lba count buf b.devices) b
