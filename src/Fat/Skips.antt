-- ===== src/Fat/Skips.antt =====
-- Where the first loop of `fat_read` in kernel/fat.c comes to in the chain of clusters.
use neptune_os.Common.{
  ltb, leb, ltb→lt, Bool-cases, Option-cases, some_inj, ℕ, zero, suc, ◌+◌, ◌-◌, ◌*◌, ◌≤◌, ◌<◌, ◌≡◌,
  sym, ap, subst, ◌∙◌, ◌⊎◌, inl, inr, ◌&&◌, Option, none, some, arith,
}
use neptune_os.Fat.{Disk, Fat}
use neptune_os.Fat.Read.{follow, skip_clusters}
use neptune_os.Fat.Table.{DiskLaws}
use neptune_os.Fat.Follow.{Leads-follow, follow-Leads}
use neptune_os.Fat.Chain.{At, later, Ends, behind-At}

module _ {S : Type 0} {disk : Disk S} (f : Fat) (laws : DiskLaws disk)
    (bps : f.bytes_per_sector ≡ 512) (s : S) where
  abbrev size : ℕ
  size = f.sectors_per_cluster * 512

  -- Where `skip_clusters` has come to, and what the chain from there on is.
  abbrev pub Skipped : ℕ → ℕ → Option (ℕ × ℕ) → Type 0
  Skipped c p none = (i : ℕ) → Ends disk f s c (p + i)
  Skipped c p (some (c', k)) =
      ((k < size) ⊎ (c' < 2))
      × ((i d o : ℕ) → At disk f s c' (k + i) d o → At disk f s c (p + i) d o)
      × ((i d o : ℕ) → At disk f s c (p + i) d o → At disk f s c' (k + i) d o)

  same-Skipped : (c p : ℕ) → (p < size) ⊎ (c < 2) → Skipped c p (some (c, p))
  same-Skipped c p h = (h, λ i d o a. a, λ i d o a. a)

  next-Skipped :
      (c n p : ℕ) (r : Option (ℕ × ℕ))
      → 2 ≤ c
      → size ≤ p
      → follow disk f s c ≡ some n
      → Skipped n (p - size) r
      → Skipped c p r
  next-Skipped c n p none l h e k = λ i d o a.
      let (m, e', a') = behind-At disk f s a (p - size + i) (omega arith) in
      let same : m ≡ n = some_inj (sym (Leads-follow disk f bps s _ _ e') ∙ e) in
      k i d o (subst (λ x. At disk f s x (p - size + i) d o) same a')
  next-Skipped c n p (some (c', k')) l h e k = (
    k.0,
    λ i d o a. later l (follow-Leads disk f bps s _ _ e) (omega arith) (k.1 i d o a),
    λ i d o a.
        let (m, e', a') = behind-At disk f s a (p - size + i) (omega arith) in
        let same : m ≡ n = some_inj (sym (Leads-follow disk f bps s _ _ e') ∙ e) in
        k.2 i d o (subst (λ x. At disk f s x (p - size + i) d o) same a'),
  )

  pub skip_clusters-Skipped :
      (fuel c p : ℕ) → p ≤ fuel → 0 < size → Skipped c p (skip_clusters disk f s fuel c p)
  unfolding skip_clusters
  skip_clusters-Skipped zero c p h pos = same-Skipped c p (inl (omega arith))
  skip_clusters-Skipped (suc fuel) c p h pos =
      let cs : f.sectors_per_cluster * f.bytes_per_sector ≡ size =
        ap (λ b. f.sectors_per_cluster * b) bps in
      elim (Bool-cases (leb (f.sectors_per_cluster * f.bytes_per_sector) p && leb 2 c)) [
        | inr done ↦
            rw (done, skip_clusters)
              (same-Skipped c p (elim (Bool-cases (ltb p size)) [
                | inl lt ↦ inl (ltb→lt p size lt)
                | inr ge ↦ inr (ground (arith, cs))
              ]))
        | inl more ↦
            let far : (size ≤ p) × (2 ≤ c) = ground (arith, cs) in
            elim (Option-cases (follow disk f s c)) [
              | inl last ↦
                  rw (more, last, skip_clusters)
                    (λ i d o a.
                      let (m, e', a') = behind-At disk f s a (p - size + i) (omega arith) in
                      absurd (ground (arith, Leads-follow disk f bps s _ _ e', last)))
              | inr (n, e) ↦
                  rw (more, e, skip_clusters)
                    (next-Skipped c n p
                      (skip_clusters disk f s fuel n
                        (p - f.sectors_per_cluster * f.bytes_per_sector))
                      far.1 far.0 e
                      (subst
                        (λ z. Skipped n (p - z) (
                          skip_clusters disk f s fuel n
                            (p - f.sectors_per_cluster * f.bytes_per_sector)))
                        cs
                        (skip_clusters-Skipped fuel n
                          (p - f.sectors_per_cluster * f.bytes_per_sector) (omega (arith, cs))
                          pos)))
            ]
      ]
