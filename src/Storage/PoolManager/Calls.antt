-- ===== src/Storage/PoolManager/Calls.antt =====
-- What fetching, writing and unpinning a page do to all pages (src/storage/buffer_pool_manager.rs).
use dip_v.Base.{
  ℕ, ◌≡◌, ◌≢◌, refl, Bool, Bool-cases, inl, inr, List, length, ◌==◌, arith, some, ok, ok-injective,
  sym, ap, subst, ◌∙◌,
}
use dip_v.Storage.Disk.{page_size}
use dip_v.Storage.BufferPool
use dip_v.Storage.BufferPool.{BufferPoolInstance, lookup, read_from_page}
use dip_v.Storage.BufferPool.Content.{content, content_mapped}
use dip_v.Storage.BufferPool.Fetch
use dip_v.Storage.BufferPool.Fetch.{HasFrame, MayFree}
use dip_v.Storage.BufferPool.Update
use dip_v.Storage.BufferPool.Unpin
use dip_v.Storage.PoolManager
use dip_v.Storage.PoolManager.{
  BufferPoolManager, shard, put, get_shard_idx, fetch_page, unpin_page, write_to_page,
}
use dip_v.Storage.PoolManager.Invariant.{
  IsManager, page_content, Stepped, shard-put_self, shard-put_other, put-IsManager,
  page_content-put_self, page_content-put_other,
}

module _ (hash : ℕ → ℕ) where
  -- From one manager to the next every page keeps its bytes.
  pub record Same (m m' : BufferPoolManager) : Type 0 where
    pub valid : IsManager hash m'
    pub same :
        (q : ℕ) (bytes : List ℕ)
        → page_content hash m q ≡ ok bytes
        → page_content hash m' q ≡ ok bytes

  pub Same-refl : (m : BufferPoolManager) → IsManager hash m → Same m m
  Same-refl m v = record { valid = v; same = λ q bytes h. h }

  pub Same-trans : (m1 m2 m3 : BufferPoolManager) → Same m1 m2 → Same m2 m3 → Same m1 m3
  Same-trans m1 m2 m3 a b = record {
    valid = b.valid;
    same = λ q bytes h. b.same q bytes (a.same q bytes h);
  }

  -- Every page but `p` keeps its bytes, and `p` now has these.
  pub record Saved (m m' : BufferPoolManager) (p : ℕ) (bytes : List ℕ) : Type 0 where
    pub valid : IsManager hash m'
    pub now : page_content hash m' p ≡ ok bytes
    pub others :
        (q : ℕ) (old : List ℕ)
        → p ≢ q
        → page_content hash m q ≡ ok old
        → page_content hash m' q ≡ ok old

  -- The shards are in order and each has a frame that is free or can be freed.
  pub record Ready (m : BufferPoolManager) : Type 0 where
    pub valid : IsManager hash m
    pub room : (i : ℕ) → HasFrame (shard m i)

  -- The page is in frame `f` of its shard, where one pin at most keeps the frames from being free.
  pub record Held (m : BufferPoolManager) (p f : ℕ) : Type 0 where
    pub valid : IsManager hash m
    pub there : lookup p (shard m (get_shard_idx hash p)).page_table ≡ some f
    pub own : MayFree (shard m (get_shard_idx hash p)) f
    pub others : (i : ℕ) → i ≢ get_shard_idx hash p → HasFrame (shard m i)

  -- All pages keep their bytes when the shard's do.
  put-Same :
      (m : BufferPoolManager) (p : ℕ) (s : BufferPoolInstance)
      → IsManager hash m
      → Stepped hash m (get_shard_idx hash p) p s
      → ((bytes : List ℕ)
          → content (shard m (get_shard_idx hash p)) p ≡ ok bytes
          → content s p ≡ ok bytes)
      → Same m (put m (get_shard_idx hash p) s)
  put-Same m p s v step own = record {
    valid = put-IsManager hash m (get_shard_idx hash p) p s v step;
    same = λ q bytes h. elim (Bool-cases (p == q)) [
      | inl e ↦
          let at : p ≡ q = ground arith in
          subst (λ (n : ℕ). page_content hash (put m (get_shard_idx hash p) s) n ≡ ok bytes) at
            (page_content-put_self hash m (get_shard_idx hash p) p s refl
              ∙ own bytes (
                  unfold page_content in
                  subst (λ (n : ℕ). page_content hash m n ≡ ok bytes) (sym at) h))
      | inr e ↦
          page_content-put_other hash m (get_shard_idx hash p) p s v step q bytes (ground arith) h
    ];
  }

  -- Frames of the other shards stay as they are.
  put-others :
      (m : BufferPoolManager) (i : ℕ) (s : BufferPoolInstance)
      → ((j : ℕ) → j ≢ i → HasFrame (shard m j))
      → (j : ℕ) → j ≢ i
      → HasFrame (shard (put m i s) j)
  put-others m i s room j apart =
      subst HasFrame (sym (shard-put_other hash m i j s apart)) (room j apart)

  pub fetch_page_lem :
      (m : BufferPoolManager) (p : ℕ) (bytes : List ℕ)
      → Ready m
      → page_content hash m p ≡ ok bytes
      → (f : ℕ) × (m' : BufferPoolManager) × (fetch_page hash m p ≡ ok (some f, m'))
        × Same m m'
        × Held m' p f
  unfolding fetch_page page_content
  fetch_page_lem m p bytes ready held =
      let i : ℕ = get_shard_idx hash p in
      let v = ready.valid in
      let ((frame, s), runs, good) = Fetch.fetch_page_lem (shard m i) p (v.pool i) (v.synced i) in
      let (f, served) = good.served bytes held (ready.room i) in
      let step : Stepped hash m i p s = record {
        valid = good.valid;
        synced = good.keeps.synced;
        home = refl;
        only = good.moves.only;
        away = λ q old apart h. good.keeps.same q old h;
      } in
      let self = sym (shard-put_self hash m i s) in
      let same : Same m (put m i s) = put-Same m p s v step (λ old h. good.keeps.same p old h) in
      (
        f,
        put m i s,
        rw (runs, served) refl,
        same,
        record {
          valid = same.valid;
          there =
              subst (λ (t : BufferPoolInstance). lookup p t.page_table ≡ some f) self
                (good.there f served);
          own =
              subst (λ (t : BufferPoolInstance). MayFree t f) self
                (good.room f served (ready.room i));
          others = put-others m i s (λ j h. ready.room j);
        },
      )

  pub unpin_page_lem :
      (m : BufferPoolManager) (p f : ℕ) (is_dirty : Bool)
      → Held m p f
      → Same m (unpin_page hash m p is_dirty).1 × Ready (unpin_page hash m p is_dirty).1
  unfolding unpin_page
  unpin_page_lem m p f is_dirty held =
      let i : ℕ = get_shard_idx hash p in
      let v = held.valid in
      let good = Unpin.unpin_page_lem (shard m i) p is_dirty (v.pool i) (v.synced i) in
      let s : BufferPoolInstance = (BufferPool.unpin_page (shard m i) p is_dirty).1 in
      let same : Same m (put m i s) =
        put-Same m p s v
          (record {
            valid = good.valid;
            synced = good.keeps.synced;
            home = refl;
            only = λ q g h. inl (rw (← good.table) h);
            away = λ q old apart h. good.keeps.same q old h;
          })
          (λ old h. good.keeps.same p old h) in
      (
        same,
        record {
          valid = same.valid;
          room = λ j. elim (Bool-cases (j == i)) [
            | inl e ↦
                let at : i ≡ j = ground arith in
                subst (λ (n : ℕ). HasFrame (shard (put m i s) n)) at
                  (subst HasFrame (sym (shard-put_self hash m i s))
                    (good.room f held.there held.own))
            | inr e ↦ put-others m i s held.others j (ground arith)
          ];
        },
      )

  pub write_to_page_lem :
      (m : BufferPoolManager) (p f : ℕ) (bytes : List ℕ)
      → Held m p f
      → length bytes ≡ page_size
      → Saved m (write_to_page hash m p bytes) p bytes × Held (write_to_page hash m p bytes) p f
  unfolding write_to_page read_from_page
  write_to_page_lem m p f bytes held size =
      let i : ℕ = get_shard_idx hash p in
      let v = held.valid in
      let there = held.there in
      let good =
        Update.write_to_page_lem (shard m i) p f bytes (v.pool i) (v.synced i) there size in
      let s : BufferPoolInstance = BufferPool.write_to_page (shard m i) p bytes in
      let step : Stepped hash m i p s = record {
        valid = good.valid;
        synced = good.synced;
        home = refl;
        only = λ q g h. inl (rw (← good.table) h);
        away = λ q old apart h. good.others q apart ∙ h;
      } in
      let mapped : lookup p s.page_table ≡ some f = rw good.table there in
      let read : (s.pages f).bytes ≡ bytes = ground (arith, good.reads, mapped) in
      let self = sym (shard-put_self hash m i s) in
      let valid : IsManager hash (put m i s) = put-IsManager hash m i p s v step in
      (
        record {
          valid = valid;
          now =
              page_content-put_self hash m i p s refl ∙ (content_mapped s p f mapped ∙ ap ok read);
          others = λ q old apart h. page_content-put_other hash m i p s v step q old apart h;
        },
        record {
          valid = valid;
          there = subst (λ (t : BufferPoolInstance). lookup p t.page_table ≡ some f) self mapped;
          own = subst (λ (t : BufferPoolInstance). MayFree t f) self (good.room f held.own);
          others = put-others m i s held.others;
        },
      )

  -- The page in its frame is what `read_from_page` reads, and it is whole.
  pub read_from_page_lem :
      (m : BufferPoolManager) (p f : ℕ) (bytes : List ℕ)
      → Held m p f
      → page_content hash m p ≡ ok bytes
      → (PoolManager.read_from_page hash m p ≡ bytes) × (length bytes ≡ page_size)
  unfolding PoolManager.read_from_page read_from_page page_content
  read_from_page_lem m p f bytes held h =
      let s : BufferPoolInstance = shard m (get_shard_idx hash p) in
      let there : lookup p s.page_table ≡ some f = held.there in
      let same : (s.pages f).bytes ≡ bytes =
        ok-injective _ _ (sym (content_mapped s p f there) ∙ h) in
      (ground (arith, there, same), rw (← same) ((held.valid.pool (get_shard_idx hash p)).sized f))
