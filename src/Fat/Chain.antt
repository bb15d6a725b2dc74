-- ===== src/Fat/Chain.antt =====
-- The chain of clusters of a file of kernel/fat.c, and the bytes that one round of `fat_read` takes.
use neptune_os.Common.{
  length, get_or, take, drop, length-append, length-take, get_or-append, get_or-take, get_or-drop,
  length-drop, ltb, if◌then◌else◌, ltb→lt, lt→ltb, ltb→ge, ge→ltb, Bool-cases, Option-cases,
  some_inj, u32, add32, ℕ, zero, suc, ◌+◌, ◌-◌, ◌*◌, ◌/◌, ◌%◌, ◌≤◌, ◌<◌, min, ◌≡◌, sym, ap, subst,
  ◌∙◌, ◌≢◌, ◌⊎◌, inl, inr, ◌&&◌, none, some, List, [], ◌++◌, arith,
}
use neptune_os.Fat.{Disk, Fat, cluster_to_sector}
use neptune_os.Fat.Read.{read_cluster}
use neptune_os.Fat.Table.{DiskLaws}

-- Byte `x` stands at place `o` from sector `base` on.
abbrev pub ByteAt : {S : Type 0} → Disk S → S → ℕ → ℕ → ℕ → Type 0
ByteAt disk s base o x =
    (sector : List ℕ) × (disk.read (add32 base (o / 512 % u32)) s ≡ some sector)
    × (x ≡ get_or sector (o % 512) 0)

module _ {S : Type 0} (disk : Disk S) (f : Fat) (s : S) where
  -- The table has `n` for cluster `c`: 16 bits, the low byte first, in sectors of 512 bytes.
  abbrev pub EntryIs : ℕ → ℕ → Type 0
  EntryIs c n =
      (sector : List ℕ) × (disk.read (add32 f.fat_start (c * 2 / 512)) s ≡ some sector)
      × (n ≡ get_or sector (c * 2 % 512) 0 + 256 * get_or sector (c * 2 % 512 + 1) 0)

  -- The chain goes on from `c` with `n`: neither 0 nor an end mark.
  abbrev pub Leads : ℕ → ℕ → Type 0
  Leads c n = EntryIs c n × (n ≢ 0) × (n < 0xFFF8)

  -- Place `p` of the chain from cluster `c` on is place `o` of cluster `d`.
  pub data At : ℕ → ℕ → ℕ → ℕ → Type 0 where
    here : {c p : ℕ} → 2 ≤ c → p < f.sectors_per_cluster * 512 → At c p c p
    later :
        {c n p q d o : ℕ}
        → 2 ≤ c
        → Leads c n
        → q ≡ f.sectors_per_cluster * 512 + p
        → At n p d o
        → At c q d o

  -- Byte `x` stands at place `p` of the chain from `c` on.
  abbrev pub Holds : ℕ → ℕ → ℕ → Type 0
  Holds c p x = (d : ℕ) × (o : ℕ) × At c p d o × ByteAt disk s (cluster_to_sector f d) o x

  abbrev pub Ends : ℕ → ℕ → Type 0
  Ends c p = (d o : ℕ) → ¬ At c p d o

  pub low-Ends : {c p d o : ℕ} → At c p d o → 2 ≤ c
  low-Ends (here l h) = l
  low-Ends (later l e q a) = l

  -- Where the chain goes on behind a whole cluster.
  pub behind-At :
      {c q d o : ℕ}
      → At c q d o
      → (p : ℕ) → q ≡ f.sectors_per_cluster * 512 + p
      → (n : ℕ) × Leads c n × At n p d o
  behind-At (here l h) p e = absurd (omega arith)
  behind-At (later {c} {n} {p} {q} {d} {o} l f' e a) r e' =
      let same : p ≡ r = omega arith in (n, f', subst (λ x. At n x d o) same a)

  -- On the way to place `p` the chain from `c` on stops: at a number below 2, at a cluster whose entry is 0
  -- or an end mark, or at one whose entry is in a sector that cannot be read.
  pub data Stops : ℕ → ℕ → Type 0 where
    low : {c p : ℕ} → c < 2 → Stops c p
    last :
        {c n p : ℕ}
        → EntryIs c n
        → (n ≡ 0) ⊎ (0xFFF8 ≤ n)
        → f.sectors_per_cluster * 512 ≤ p
        → Stops c p
    unreadable :
        {c p : ℕ}
        → disk.read (add32 f.fat_start (c * 2 / 512)) s ≡ none
        → f.sectors_per_cluster * 512 ≤ p
        → Stops c p
    goes_on :
        {c n p q : ℕ} → Leads c n → q ≡ f.sectors_per_cluster * 512 + p → Stops n p → Stops c q

part-Byte :
    {S : Type 0} {disk : Disk S} (laws : DiskLaws disk) (s : S) (base co off chunk i : ℕ)
    (sector rest : List ℕ)
    → disk.read (add32 base (co / 512 % u32)) s ≡ some sector
    → off ≡ co % 512
    → off + chunk ≤ 512
    → i < chunk
    → ByteAt disk s base (co + i) (get_or (take chunk (drop off sector) ++ rest) i 0)
part-Byte {S} {disk} laws s base co off chunk i sector rest r e h lt =
    let full = laws.length-read (add32 base (co / 512 % u32)) s r in
    let same : co / 512 ≡ (co + i) / 512 = omega arith in
    let at : off + i ≡ (co + i) % 512 = omega arith in
    let part = take chunk (drop off sector) in
    let inside : i < length part =
      omega (arith, length-take chunk (drop off sector), length-drop off sector, full) in
    (
      sector,
      ap (λ n. disk.read (add32 base (n % u32)) s) (sym same) ∙ r,
      get_or-append part rest i 0
          ∙ ap (λ b. if b then get_or part i 0 else get_or rest (i - length part) 0)
              (lt→ltb i (length part) inside)
          ∙ get_or-take chunk (drop off sector) i 0 lt
          ∙ get_or-drop off sector i 0
          ∙ ap (λ n. get_or sector n 0) at,
    )

-- The bytes of `rest`, which stand `chunk` places later.
rest-Byte :
    {S : Type 0} (disk : Disk S) (s : S) (base co i : ℕ) (part rest : List ℕ)
    → length part ≤ i
    → ByteAt disk s base (co + length part + (i - length part)) (get_or rest (i - length part) 0)
    → ByteAt disk s base (co + i) (get_or (part ++ rest) i 0)
rest-Byte disk s base co i part rest h b =
    let at : co + length part + (i - length part) ≡ co + i = omega arith in
    let value =
      get_or-append part rest i 0
      ∙ ap (λ c. if c then get_or part i 0 else get_or rest (i - length part) 0)
          (ge→ltb i (length part) h) in
    subst (λ n. ByteAt disk s base n (get_or (part ++ rest) i 0)) at (b.0, b.1, value ∙ b.2)

module _ {S : Type 0} {disk : Disk S} (f : Fat) (laws : DiskLaws disk)
    (bps : f.bytes_per_sector ≡ 512) (s : S) where
  pub read_cluster-bytes :
      (fuel base co len : ℕ) (bytes : List ℕ)
      → len ≤ fuel
      → read_cluster disk f s fuel base co len ≡ some bytes
      → (length bytes ≡ min len (f.sectors_per_cluster * 512 - co))
        × ((i : ℕ) → i < length bytes → ByteAt disk s base (co + i) (get_or bytes i 0))
  unfolding read_cluster
  read_cluster-bytes zero base co len bytes h e =
      let empty : bytes ≡ [] = sym (some_inj e) in
      let none_left : length bytes ≡ 0 = ap length empty in
      (omega arith, λ i lt. absurd (omega arith))
  read_cluster-bytes (suc fuel) base co len bytes h e =
      let cs : f.sectors_per_cluster * f.bytes_per_sector ≡ f.sectors_per_cluster * 512 =
        ap (λ b. f.sectors_per_cluster * b) bps in
      let off : co % f.bytes_per_sector ≡ co % 512 = ap (λ b. co % b) bps in
      let chunk = min (f.bytes_per_sector - co % f.bytes_per_sector) len in
      let place = add32 base (co / f.bytes_per_sector % u32) in
      elim (Bool-cases (ltb co (f.sectors_per_cluster * f.bytes_per_sector) && ltb 0 len)) [
        | inr done ↦
            let empty : bytes ≡ [] = sym (some_inj (rw (done, read_cluster) at e)) in
            let none_left : length bytes ≡ 0 = ap length empty in
            (ground (arith, cs), λ i lt. absurd (omega arith))
        | inl more ↦ elim (Option-cases (disk.read place s)) [
          | inl failed ↦ absurd (ground (arith, rw (more, read_cluster) at e))
          | inr (sector, r) ↦
              elim (Option-cases (read_cluster disk f s fuel base (co + chunk) (len - chunk))) [
                | inl failed ↦ absurd (ground (arith, rw (more, read_cluster) at e))
                | inr (rest, q) ↦
                    let part = take chunk (drop (co % f.bytes_per_sector) sector) in
                    let eq : part ++ rest ≡ bytes = some_inj (rw (more, r, q, read_cluster) at e) in
                    let inside : (co < f.sectors_per_cluster * 512) × (0 < len) =
                      ground (arith, cs) in
                    let r' : disk.read (add32 base (co / 512 % u32)) s ≡ some sector =
                      ap (λ b. disk.read (add32 base (co / b % u32)) s) (sym bps) ∙ r in
                    let full = laws.length-read place s r in
                    let lp : length part ≡ chunk = omega (
                      arith,
                      bps,
                      off,
                      full,
                      length-take chunk (drop (co % f.bytes_per_sector) sector),
                      length-drop (co % f.bytes_per_sector) sector,
                    ) in
                    let ih =
                      read_cluster-bytes fuel base (co + chunk) (len - chunk) rest
                        (omega (arith, bps, off)) q in
                    let total : length bytes ≡ length part + length rest =
                      ap length (sym eq) ∙ length-append part rest in
                    (
                      omega (arith, bps, off),
                      λ i lt.
                          subst (λ bs. ByteAt disk s base (co + i) (get_or bs i 0)) eq
                            (elim (Bool-cases (ltb i chunk)) [
                              | inl early ↦
                                  part-Byte laws s base co (co % f.bytes_per_sector) chunk i sector
                                    rest r' off (omega (arith, bps, off)) (ltb→lt i chunk early)
                              | inr late ↦
                                  let past = ltb→ge i chunk late in
                                  rest-Byte disk s base co i part rest (omega arith) (
                                    subst
                                      (λ n.
                                        ByteAt disk s base (co + n + (i - n))
                                          (get_or rest (i - n) 0))
                                      (sym lp) (ih.1 (i - chunk) (omega arith)))
                            ]),
                    )
              ]
        ]
      ]
