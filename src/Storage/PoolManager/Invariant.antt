-- ===== src/Storage/PoolManager/Invariant.antt =====
-- The shards together: each is in order, they share the disk, and a page is only ever in its own
-- shard (src/storage/buffer_pool_manager.rs).
use dip_v.Base.{
  ℕ, ◌≡◌, ◌≢◌, refl, false, Bool-cases, ◌⊎◌, inl, inr, List, ◌==◌, ==_refl, arith, none, some,
  Option-cases, Result, ok, sym, subst, ◌∙◌,
}
use dip_v.Storage.Disk.{page_size, read_page}
use dip_v.Storage.BufferPool.{BufferPoolInstance, lookup}
use dip_v.Storage.BufferPool.Invariant.{IsPool}
use dip_v.Storage.BufferPool.Content.{content, content_mapped, content_absent, IsSynced}
use dip_v.Storage.BufferPool.Update.{moved_disk-IsPool}
use dip_v.Storage.PoolManager.{BufferPoolManager, shard, put, get_shard_idx}

module _ (hash : ℕ → ℕ) where
  pub record IsManager (m : BufferPoolManager) : Type 0 where
    pub pool : (i : ℕ) → IsPool (shard m i)
    pub synced : (i : ℕ) → IsSynced (shard m i)
    pub homed : (i p f : ℕ) → lookup p (shard m i).page_table ≡ some f → get_shard_idx hash p ≡ i

  -- The bytes of a page, in its shard or on disk.
  unfoldable pub page_content : BufferPoolManager → ℕ → Result (List ℕ)
  page_content m q = content (shard m (get_shard_idx hash q)) q

  -- What a call on shard `i` for the page `p` leaves.
  pub record Stepped (m : BufferPoolManager) (i p : ℕ) (s : BufferPoolInstance) : Type 0 where
    pub valid : IsPool s
    pub synced : IsSynced s
    pub home : get_shard_idx hash p ≡ i
    pub only :
        (q f : ℕ)
        → lookup q s.page_table ≡ some f
        → ((lookup q (shard m i).page_table ≡ some f) ⊎ (q ≡ p))
    pub away :
        (q : ℕ) (bytes : List ℕ) → p ≢ q → content (shard m i) q ≡ ok bytes → content s q ≡ ok bytes

  pub shard-put_self :
      (m : BufferPoolManager) (i : ℕ) (s : BufferPoolInstance) → shard (put m i s) i ≡ s
  shard-put_self m i s = rw (==_refl i) refl

  pub shard-put_other :
      (m : BufferPoolManager) (i j : ℕ) (s : BufferPoolInstance)
      → j ≢ i
      → shard (put m i s) j ≡ record (m.shards j) { disk_manager = s.disk_manager }
  shard-put_other m i j s apart = let differ : (j == i) ≡ false = ground arith in rw differ refl

  -- A page of another shard is not in this one.
  foreign :
      (m : BufferPoolManager) (i q : ℕ)
      → IsManager m
      → get_shard_idx hash q ≢ i
      → lookup q (shard m i).page_table ≡ none
  foreign m i q v apart = elim (Option-cases (lookup q (shard m i).page_table)) [
    | inl e ↦ e
    | inr (f, e) ↦ absurd (apart (v.homed i q f e))
  ]

  -- The disk keeps the pages of the other shards.
  disk_away :
      (m : BufferPoolManager) (i p : ℕ) (s : BufferPoolInstance)
      → IsManager m
      → Stepped m i p s
      → (q : ℕ) (bytes : List ℕ) → get_shard_idx hash q ≢ i
      → read_page m.disk_manager q page_size ≡ ok bytes
      → read_page s.disk_manager q page_size ≡ ok bytes
  disk_away m i p s v step q bytes apart h =
      let was : lookup q (shard m i).page_table ≡ none = foreign m i q v apart in
      let other : p ≢ q = λ e. apart (subst (λ (n : ℕ). get_shard_idx hash n ≡ i) e step.home) in
      let now : lookup q s.page_table ≡ none = elim (Option-cases (lookup q s.page_table)) [
        | inl e ↦ e
        | inr (f, e) ↦ elim (step.only q f e) [
          | inl k ↦ absurd (apart (v.homed i q f k))
          | inr k ↦ absurd (other (sym k))
        ]
      ] in
      sym (content_absent s q now) ∙ step.away q bytes other (content_absent (shard m i) q was ∙ h)

  other-IsSynced :
      (m : BufferPoolManager) (i p j : ℕ) (s : BufferPoolInstance)
      → IsManager m
      → Stepped m i p s
      → j ≢ i
      → IsSynced (record (m.shards j) { disk_manager = s.disk_manager })
  unfolding IsSynced
  other-IsSynced m i p j s v step apart = λ q f h k.
      disk_away m i p s v step q _ (λ e. apart (sym (v.homed j q f h) ∙ e)) (v.synced j q f h k)

  pub put-IsManager :
      (m : BufferPoolManager) (i p : ℕ) (s : BufferPoolInstance)
      → IsManager m
      → Stepped m i p s
      → IsManager (put m i s)
  put-IsManager m i p s v step = record {
    pool = λ j. elim (Bool-cases (j == i)) [
      | inl e ↦
          let at : i ≡ j = ground arith in
          subst (λ (n : ℕ). IsPool (shard (put m i s) n)) at
            (subst IsPool (sym (shard-put_self m i s)) step.valid)
      | inr e ↦
          subst IsPool (sym (shard-put_other m i j s (ground arith)))
            (moved_disk-IsPool (shard m j) s.disk_manager (v.pool j))
    ];
    synced = λ j. elim (Bool-cases (j == i)) [
      | inl e ↦
          let at : i ≡ j = ground arith in
          subst (λ (n : ℕ). IsSynced (shard (put m i s) n)) at
            (subst IsSynced (sym (shard-put_self m i s)) step.synced)
      | inr e ↦
          subst IsSynced (sym (shard-put_other m i j s (ground arith)))
            (other-IsSynced m i p j s v step (ground arith))
    ];
    homed = λ j q f h. elim (Bool-cases (j == i)) [
      | inl e ↦
          let here : lookup q s.page_table ≡ some f = ground arith in
          let at : j ≡ i = ground arith in
          elim (step.only q f here) [
            | inl k ↦ v.homed i q f k ∙ sym at
            | inr k ↦ subst (λ (n : ℕ). get_shard_idx hash n ≡ i) (sym k) step.home ∙ sym at
          ]
      | inr e ↦ v.homed j q f (ground arith)
    ];
  }

  -- The page of the call holds what its shard says.
  pub page_content-put_self :
      (m : BufferPoolManager) (i p : ℕ) (s : BufferPoolInstance)
      → get_shard_idx hash p ≡ i
      → page_content (put m i s) p ≡ content s p
  unfolding page_content
  page_content-put_self m i p s e = rw e (rw (shard-put_self m i s) refl)

  pub page_content-put_other :
      (m : BufferPoolManager) (i p : ℕ) (s : BufferPoolInstance)
      → IsManager m
      → Stepped m i p s
      → (q : ℕ) (bytes : List ℕ) → p ≢ q
      → page_content m q ≡ ok bytes
      → page_content (put m i s) q ≡ ok bytes
  unfolding page_content
  page_content-put_other m i p s v step q bytes apart h =
      elim (Bool-cases (get_shard_idx hash q == i)) [
        | inl e ↦
            let at : get_shard_idx hash q ≡ i = ground arith in
            page_content-put_self m i q s at
            ∙ step.away q bytes apart (subst (λ (n : ℕ). content (shard m n) q ≡ ok bytes) at h)
        | inr e ↦
            let j : ℕ = get_shard_idx hash q in
            let differ : j ≢ i = ground arith in
            subst (λ (t : BufferPoolInstance). content t q ≡ ok bytes)
              (sym (shard-put_other m i j s differ))
              (elim (Option-cases (lookup q (shard m j).page_table)) [
                | inl k ↦
                    content_absent (record (m.shards j) { disk_manager = s.disk_manager }) q k
                    ∙ disk_away m i p s v step q bytes differ
                        (sym (content_absent (shard m j) q k) ∙ h)
                | inr (f, k) ↦
                    content_mapped (record (m.shards j) { disk_manager = s.disk_manager }) q f k
                    ∙ (sym (content_mapped (shard m j) q f k) ∙ h)
              ])
      ]
