-- ===== src/Fat/Places.antt =====
-- Where the bytes that `fat_read` of kernel/fat.c returns stand in the chain of clusters of a file.
use neptune_os.Common.{
  length, get_or, length-append, get_or-append, ltb, leb, ◌==◌, if◌then◌else◌, ltb→lt, ltb→ge,
  ==→eq, ==→ne, Bool-cases, Option-cases, some_inj, add64, ℕ, zero, suc, ◌+◌, ◌-◌, ◌*◌, ◌%◌, ◌^◌,
  ◌≤◌, ◌<◌, min, ◌≡◌, sym, ap, subst, ◌∙◌, ◌≢◌, ◌⊎◌, inl, inr, ◌&&◌, ◌||◌, none, some, List, ◌++◌,
  arith,
}
use neptune_os.Fat.{Disk, Fat, FatFile, u16, cluster_to_sector}
use neptune_os.Fat.Read.{follow, skip_clusters, read_cluster, read_chain, fat_read}
use neptune_os.Fat.Table.{DiskLaws}
use neptune_os.Fat.Skips.{Skipped, skip_clusters-Skipped}
use neptune_os.Fat.Follow.{Leads-follow, follow-Leads}
use neptune_os.Fat.Chain.{
  At, here, later, ByteAt, Holds, Ends, low-Ends, behind-At, read_cluster-bytes,
}

module _ {S : Type 0} {disk : Disk S} (f : Fat) (laws : DiskLaws disk)
    (bps : f.bytes_per_sector ≡ 512) (s : S) where
  -- What the outer loop has read, at most `len` bytes from place `p` of the chain from `c` on; where it
  -- read fewer, the chain has no more.
  pub record Placed (c p len : ℕ) (bytes : List ℕ) : Type 0 where
    pub bounded : length bytes ≤ len
    pub held : (i : ℕ) → i < length bytes → Holds disk f s c (p + i) (get_or bytes i 0)
    pub whole : length bytes < len → Ends disk f s c (p + length bytes)

  abbrev size : ℕ
  size = f.sectors_per_cluster * 512

  -- The bytes of the rest of cluster `c`, and then those from the next cluster on.
  first-Placed :
      (c p len : ℕ) (bytes : List ℕ)
      → 2 ≤ c
      → p < size
      → length bytes ≡ min len (size - p)
      → ((i : ℕ)
          → i < length bytes
          → ByteAt disk s (cluster_to_sector f c) (p + i) (get_or bytes i 0))
      → (len ≤ length bytes) ⊎ (follow disk f s c ≡ none)
      → Placed c p len bytes
  first-Placed c p len bytes l h n b e = record {
    bounded = omega arith;
    held = λ i lt. (c, p + i, here l (omega arith), b i lt);
    whole = λ lt d o a. elim e [
      | inl all ↦ absurd (omega arith)
      | inr last ↦
          let (m, go_on, a') = behind-At disk f s a 0 (omega arith) in
          absurd (none_some (sym last ∙ Leads-follow disk f bps s _ _ go_on))
    ];
  }
    where
      none_some : {x : ℕ} → none ≢ some x
      none_some q = absurd (ground arith)

  both-Placed :
      (c n p len : ℕ) (bytes rest : List ℕ)
      → 2 ≤ c
      → p < size
      → follow disk f s c ≡ some n
      → length bytes ≡ size - p
      → length bytes ≤ len
      → ((i : ℕ)
          → i < length bytes
          → ByteAt disk s (cluster_to_sector f c) (p + i) (get_or bytes i 0))
      → Placed n 0 (len - length bytes) rest
      → Placed c p len (bytes ++ rest)
  both-Placed c n p len bytes rest l h e full fits b r =
      let total = length-append bytes rest in
      record {
        bounded = omega (arith, r.bounded);
        held = λ i lt. elim (Bool-cases (ltb i (length bytes))) [
          | inl early ↦
              let value : get_or (bytes ++ rest) i 0 ≡ get_or bytes i 0 =
                get_or-append bytes rest i 0
                ∙ ap (λ t. if t then get_or bytes i 0 else get_or rest (i - length bytes) 0)
                    early in
              subst (Holds disk f s c (p + i)) (sym value) (
                c,
                p + i,
                here l (omega (arith, ltb→lt i (length bytes) early)),
                b i (ltb→lt i (length bytes) early),
              )
          | inr late ↦
              let past = ltb→ge i (length bytes) late in
              let value : get_or (bytes ++ rest) i 0 ≡ get_or rest (i - length bytes) 0 =
                get_or-append bytes rest i 0
                ∙ ap (λ t. if t then get_or bytes i 0 else get_or rest (i - length bytes) 0) late in
              let (d, o, a, x) = r.held (i - length bytes) (omega arith) in
              subst (Holds disk f s c (p + i)) (sym value)
                (d, o, later l (follow-Leads disk f bps s _ _ e) (omega arith) a, x)
        ];
        whole = λ lt d o a.
            let (m, e', a') = behind-At disk f s a (length rest) (omega arith) in
            let same : m ≡ n = some_inj (sym (Leads-follow disk f bps s _ _ e') ∙ e) in
            r.whole (omega arith) d o (
              subst (λ k. At disk f s k (0 + length rest) d o) same
                (subst (λ k. At disk f s m k d o) (omega arith) a'));
      }

  read_chain-Placed :
      (fuel c p len : ℕ) (bytes : List ℕ)
      → len ≤ fuel
      → (p < size) ⊎ (c < 2)
      → read_chain disk f s fuel c p len ≡ some bytes
      → Placed c p len bytes
  unfolding read_chain
  read_chain-Placed zero c p len bytes h at e =
      let empty : length bytes ≡ 0 = ap length (sym (some_inj e)) in
      record {
        bounded = omega arith;
        held = λ i lt. absurd (omega arith);
        whole = λ lt. absurd (omega arith);
      }
  read_chain-Placed (suc fuel) c p len bytes h at e = elim (Bool-cases (ltb 0 len && leb 2 c)) [
    | inr done ↦
        let empty : length bytes ≡ 0 = ap length (sym (some_inj (rw (done, read_chain) at e))) in
        record {
          bounded = omega arith;
          held = λ i lt. absurd (omega arith);
          whole = λ lt d o a. absurd (ground (arith, low-Ends disk f s a));
        }
    | inl more ↦
        let room : (0 < len) × (2 ≤ c) = ground arith in
        let inside : p < size = elim at [ inl lt ↦ lt | inr low ↦ absurd (omega arith) ] in
        elim (Option-cases (read_cluster disk f s len (cluster_to_sector f c) p len)) [
          | inl failed ↦ absurd (ground (arith, rw (more, failed, read_chain) at e))
          | inr (part, q) ↦
              let (n, b) =
                read_cluster-bytes f laws bps s len (cluster_to_sector f c) p len part (omega arith)
                  q in
              elim (Bool-cases (len - length part == 0)) [
                | inl full ↦
                    subst (Placed c p len) (some_inj (rw (more, q, full, read_chain) at e)) (
                      first-Placed c p len part room.1 inside n b
                        (inl (omega (arith, ==→eq (len - length part) 0 full))))
                | inr open_end ↦ elim (Option-cases (follow disk f s c)) [
                  | inl last ↦
                      subst (Placed c p len)
                        (some_inj (rw (more, q, open_end, last, read_chain) at e))
                        (first-Placed c p len part room.1 inside n b (inr last))
                  | inr (m, go_on) ↦
                      elim (Option-cases (read_chain disk f s fuel m 0 (len - length part))) [
                        | inl failed ↦
                            absurd (
                              ground
                                (arith, rw (more, q, open_end, go_on, failed, read_chain) at e))
                        | inr (rest, q') ↦
                            let left = ==→ne (len - length part) 0 open_end in
                            subst (Placed c p len)
                              (some_inj (rw (more, q, open_end, go_on, q', read_chain) at e))
                              (both-Placed c m p len part rest room.1 inside go_on (omega arith)
                                (omega arith) b
                                (read_chain-Placed fuel m 0 (len - length part) rest (omega arith)
                                  (inl (omega arith)) q'))
                      ]
                ]
              ]
        ]
  ]

  none-Placed :
      (c p len : ℕ) (bytes : List ℕ)
      → length bytes ≡ 0
      → (0 < len → Ends disk f s c p)
      → Placed c p len bytes
  none-Placed c p len bytes e h = record {
    bounded = omega arith;
    held = λ i lt. absurd (omega arith);
    whole = λ lt d o a. h (omega arith) d o (subst (λ q. At disk f s c q d o) (omega arith) a);
  }

  move-Placed :
      (c p c' k len : ℕ) (bytes : List ℕ)
      → Skipped f laws bps s c p (some (c', k))
      → Placed c' k len bytes
      → Placed c p len bytes
  move-Placed c p c' k len bytes sk r = record {
    bounded = r.bounded;
    held = λ i lt. let (d, o, a, x) = r.held i lt in (d, o, sk.1 i d o a, x);
    whole = λ lt d o a. r.whole lt d o (sk.2 (length bytes) d o a);
  }

here_after :
    (bytes : List ℕ) (offset : ℕ)
    → offset < 2 ^ 64
    → length bytes ≡ 0
    → offset ≡ add64 offset (length bytes)
here_after bytes offset word e = omega arith

pub fat_read-Placed :
    {S : Type 0} {disk : Disk S} (f : Fat) (laws : DiskLaws disk) (bps : f.bytes_per_sector ≡ 512)
    (s : S) (file : FatFile) (offset len : ℕ) (bytes : List ℕ) (after : ℕ)
    → 0 < f.sectors_per_cluster
    → offset < 2 ^ 64
    → fat_read disk f s file offset len ≡ some (bytes, after)
    → (after ≡ add64 offset (length bytes))
      × Placed f laws bps s (file.start_cluster % u16) offset (min len (file.size - offset)) bytes
unfolding fat_read
fat_read-Placed {S} {disk} f laws bps s file offset len bytes after pos word e =
    let n = min len (file.size - offset) in
    elim (Bool-cases f.ready) [
      | inr off ↦ absurd (ground arith)
      | inl on ↦ elim (Bool-cases (file.start_cluster == 0 || leb file.size offset || len == 0)) [
        | inl empty ↦
            let nothing : length bytes ≡ 0 =
              sym (ap (λ r. length r.0) (some_inj (rw (on, empty, fat_read) at e))) in
            let stays : offset ≡ after = ap (λ r. r.1) (some_inj (rw (on, empty, fat_read) at e)) in
            (
              sym stays ∙ here_after bytes offset word nothing,
              none-Placed f laws bps s (file.start_cluster % u16) offset n bytes nothing
                  (λ some_left d o a. absurd (ground (arith, low-Ends disk f s a))),
            )
        | inr asks ↦
            elim (Option-cases (skip_clusters disk f s offset (file.start_cluster % u16) offset)) [
              | inl ended ↦
                  let nothing : length bytes ≡ 0 =
                    sym (ap (λ r. length r.0) (some_inj (rw (on, asks, ended, fat_read) at e))) in
                  let stays : offset ≡ after =
                    ap (λ r. r.1) (some_inj (rw (on, asks, ended, fat_read) at e)) in
                  let reached =
                    skip_clusters-Skipped f laws bps s offset (file.start_cluster % u16) offset
                      (omega arith) (omega arith) in
                  (
                    sym stays ∙ here_after bytes offset word nothing,
                    none-Placed f laws bps s (file.start_cluster % u16) offset n bytes nothing
                        (λ some_left.
                          subst (Ends disk f s (file.start_cluster % u16)) (omega arith) (
                            subst (Skipped f laws bps s (file.start_cluster % u16) offset) ended
                              reached 0)),
                  )
              | inr ((c, k), q) ↦ elim (Option-cases (read_chain disk f s n c k n)) [
                | inl failed ↦ absurd (ground (arith, rw (on, asks, q, failed, fat_read) at e))
                | inr (part, q') ↦
                    let p = some_inj (rw (on, asks, q, q', fat_read) at e) in
                    let reached =
                      skip_clusters-Skipped f laws bps s offset (file.start_cluster % u16) offset
                        (omega arith) (omega arith) in
                    let sk =
                      subst (Skipped f laws bps s (file.start_cluster % u16) offset) q reached in
                    let r = read_chain-Placed f laws bps s n c k n part (omega arith) sk.0 q' in
                    let same : part ≡ bytes = ap (λ z. z.0) p in
                    (
                      sym (ap (λ z. z.1) p) ∙ ap (λ z. add64 offset (length z)) same,
                      subst (Placed f laws bps s (file.start_cluster % u16) offset n) same (
                          move-Placed f laws bps s (file.start_cluster % u16) offset c k n part sk
                            r),
                    )
              ]
            ]
      ]
    ]
