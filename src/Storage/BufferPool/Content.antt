-- ===== src/Storage/BufferPool/Content.antt =====
-- What a page holds, in its frame or on disk, whoever moves it
-- (src/storage/buffer_pool_instance.rs).
use dip_v.Base.{
  ℕ, ◌+◌, ◌*◌, ◌-◌, ◌≡◌, ◌≢◌, ap, ◌∙◌, true, false, Bool-cases, ◌⊎◌, inl, inr, List, length, leb,
  ltb, ◌==◌, ==_refl, arith, Option, none, some, Option-cases, sym, Result, ok, ok-injective, fail,
  take, drop,
}
use dip_v.Base.Bytes.{slice}
use dip_v.Storage.Disk.{DiskManager, page_size, read_page}
use dip_v.Storage.BufferPool.{BufferPoolInstance, lookup, install, pin_again}
use dip_v.Storage.BufferPool.Table.{lookup-insert}
use dip_v.Storage.BufferPool.Invariant.{
  IsPool, Vacant, VictimOf, from_free, from_lru, nothing, WroteBack, evicted, lookup-unmap,
}

-- The bytes of a page: those of its frame, or those on disk.
unfoldable pub content : BufferPoolInstance → ℕ → Result (List ℕ)
content pool q = elim (lookup q pool.page_table) [
  | some f ↦ ok (pool.pages f).bytes
  | none ↦ read_page pool.disk_manager q page_size
]

pub content_mapped :
    (pool : BufferPoolInstance) (q f : ℕ)
    → lookup q pool.page_table ≡ some f
    → content pool q ≡ ok (pool.pages f).bytes
unfolding content
content_mapped pool q f e = ground (arith, e)

pub content_absent :
    (pool : BufferPoolInstance) (q : ℕ)
    → lookup q pool.page_table ≡ none
    → content pool q ≡ read_page pool.disk_manager q page_size
unfolding content
content_absent pool q e = ground (arith, e)

-- A frame that is not dirty holds what the disk holds.
unfoldable pub IsSynced : BufferPoolInstance → Type 0
IsSynced pool =
    (q f : ℕ)
    → lookup q pool.page_table ≡ some f
    → (pool.pages f).is_dirty ≡ false
    → read_page pool.disk_manager q page_size ≡ ok (pool.pages f).bytes

-- From one pool to the next every page keeps its bytes.
pub record Keeps (pool pool' : BufferPoolInstance) : Type 0 where
  pub synced : IsSynced pool'
  pub same : (q : ℕ) (bytes : List ℕ) → content pool q ≡ ok bytes → content pool' q ≡ ok bytes

pub read_page-answers :
    (d : DiskManager) (q : ℕ)
    → (read_page d q page_size ≡ fail) ⊎ ((bytes : List ℕ) × (read_page d q page_size ≡ ok bytes))
unfolding read_page slice
read_page-answers d q = elim (Bool-cases (ltb (q * page_size) (length d.file))) [
  | inr e ↦ inl (rw e)
  | inl e ↦ elim (Bool-cases (leb (q * page_size + page_size) (length d.file))) [
    | inr k ↦ inl (rw (e, k))
    | inl k ↦
        let ordered : leb (q * page_size) (q * page_size + page_size) ≡ true = ground arith in
        inr (
          take (q * page_size + page_size - q * page_size) (drop (q * page_size) d.file),
          rw (e, k, ordered),
        )
  ]
]

pub pin_again-Keeps :
    (pool : BufferPoolInstance) (f : ℕ) → IsSynced pool → Keeps pool (pin_again pool f)
unfolding pin_again IsSynced
pin_again-Keeps pool f s = record {
  synced = λ q g h k. ground (arith, s q g);
  same = λ q bytes h. elim (Option-cases (lookup q pool.page_table)) [
    | inl e ↦ content_absent (pin_again pool f) q e ∙ (sym (content_absent pool q e) ∙ h)
    | inr (g, e) ↦
        content_mapped (pin_again pool f) q g e
        ∙ (ground (arith) ∙ (sym (content_mapped pool q g e) ∙ h))
  ];
}

evicted_mapped :
    (pool : BufferPoolInstance) (f : ℕ) (rest : List ℕ) (disk : DiskManager)
    → IsPool pool
    → IsSynced pool
    → WroteBack pool.disk_manager (pool.pages f) disk
    → (q g : ℕ) (bytes : List ℕ) → lookup q pool.page_table ≡ some g
    → (pool.pages g).bytes ≡ bytes
    → content (evicted pool f rest disk) q ≡ ok bytes
unfolding evicted IsSynced
evicted_mapped pool f rest disk v s back q g bytes e held = elim (Bool-cases (g == f)) [
  | inr apart ↦
      let there : lookup q (evicted pool f rest disk).page_table ≡ some g =
        ground (arith, lookup-unmap (pool.pages f).id q pool.page_table, v.tracked f q) in
      content_mapped (evicted pool f rest disk) q g there ∙ rw apart (ap ok held)
  | inl same ↦
      let its : (pool.pages f).id ≡ some q = ground (arith, v.mapped q g) in
      let gone : lookup q (evicted pool f rest disk).page_table ≡ none =
        ground (arith, lookup-unmap (pool.pages f).id q pool.page_table) in
      let here : lookup q pool.page_table ≡ some f = v.tracked f q its in
      let held_f : (pool.pages f).bytes ≡ bytes = ground arith in
      let tidy : (pool.pages f).is_dirty ≡ false
          → read_page disk q page_size ≡ ok (pool.pages f).bytes =
        λ c. rw (back.clean c) (s q f here c) in
      content_absent (evicted pool f rest disk) q gone
      ∙ (elim (Bool-cases (pool.pages f).is_dirty) [ inl d ↦ back.fresh q its d | inr c ↦ tidy c ]
          ∙ ap ok held_f)
]

evicted-Keeps :
    (pool : BufferPoolInstance) (f : ℕ) (rest : List ℕ) (disk : DiskManager)
    → IsPool pool
    → IsSynced pool
    → WroteBack pool.disk_manager (pool.pages f) disk
    → Keeps pool (evicted pool f rest disk)
unfolding evicted IsSynced
evicted-Keeps pool f rest disk v s back = record {
  synced = λ q g h k.
      let was : lookup q pool.page_table ≡ some g =
        ground (arith, lookup-unmap (pool.pages f).id q pool.page_table) in
      let other : (pool.pages f).id ≢ some q =
        λ i. ground (arith, lookup-unmap (pool.pages f).id q pool.page_table) in
      let apart : (g == f) ≡ false = elim (Bool-cases (g == f)) [
        | inl e ↦ absurd (other (ground (arith, v.mapped q g)))
        | inr e ↦ e
      ] in
      let clean : (pool.pages g).is_dirty ≡ false = ground arith in
      rw apart (back.kept q (pool.pages g).bytes other (s q g was clean));
  same = λ q bytes h. elim (Option-cases (lookup q pool.page_table)) [
    | inl e ↦
        let gone : lookup q (evicted pool f rest disk).page_table ≡ none =
          ground (arith, lookup-unmap (pool.pages f).id q pool.page_table) in
        content_absent (evicted pool f rest disk) q gone
        ∙ back.kept q bytes (λ i. ground (arith, v.tracked f q)) (sym (content_absent pool q e) ∙ h)
    | inr (g, e) ↦
        let held : (pool.pages g).bytes ≡ bytes =
          ok-injective _ _ (sym (content_mapped pool q g e) ∙ h) in
        evicted_mapped pool f rest disk v s back q g bytes e held
  ];
}

pub install-Keeps :
    (pool : BufferPoolInstance) (p f : ℕ) (bytes : List ℕ)
    → IsPool pool
    → IsSynced pool
    → Vacant pool f
    → lookup p pool.page_table ≡ none
    → read_page pool.disk_manager p page_size ≡ ok bytes
    → Keeps pool (install pool p f bytes)
unfolding install IsSynced
install-Keeps pool p f bytes v s w absent reads = record {
  synced = λ q g h k.
      ground
        (arith, s q g, lookup-insert p q f pool.page_table, v.mapped q g, w.no_id, v.mapped q f);
  same = λ q old h. elim (Bool-cases (p == q)) [
    | inl e ↦
        let now : lookup q pool.page_table ≡ none = ground (arith, absent) in
        let disk_q : read_page pool.disk_manager q page_size ≡ ok bytes = ground (arith, reads) in
        content_mapped (install pool p f bytes) q f
          (ground (arith, lookup-insert p q f pool.page_table))
        ∙ rw (==_refl f) (sym disk_q ∙ (sym (content_absent pool q now) ∙ h))
    | inr e ↦ elim (Option-cases (lookup q pool.page_table)) [
      | inl k ↦
          content_absent (install pool p f bytes) q
            (ground (arith, lookup-insert p q f pool.page_table))
          ∙ (sym (content_absent pool q k) ∙ h)
      | inr (g, k) ↦
          let apart : (g == f) ≡ false = ground (arith, v.mapped q g, w.no_id) in
          content_mapped (install pool p f bytes) q g
            (ground (arith, lookup-insert p q f pool.page_table))
          ∙ rw apart (sym (content_mapped pool q g k) ∙ h)
    ]
  ];
}

pub Keeps-trans : (a b c : BufferPoolInstance) → Keeps a b → Keeps b c → Keeps a c
Keeps-trans a b c k l = record {
  synced = l.synced;
  same = λ q bytes h. l.same q bytes (k.same q bytes h);
}

pub VictimOf-Keeps :
    {pool : BufferPoolInstance} {out : Option ℕ × BufferPoolInstance}
    → IsPool pool
    → IsSynced pool
    → VictimOf pool out
    → Keeps pool out.1
VictimOf-Keeps {pool} v s (from_free f rest e) = record {
  synced = unfold IsSynced in s;
  same = λ q bytes h. (unfold content in h);
}
VictimOf-Keeps {pool} v s (from_lru f rest disk e back) = evicted-Keeps pool f rest disk v s back
VictimOf-Keeps v s (nothing e k) = record { synced = s; same = λ q bytes h. h }

-- After the victim is found, the page that was absent is still absent.
pub VictimOf-absent :
    {pool : BufferPoolInstance} {out : Option ℕ × BufferPoolInstance} (p : ℕ)
    → lookup p pool.page_table ≡ none
    → VictimOf pool out
    → lookup p out.1.page_table ≡ none
VictimOf-absent p absent (from_free f rest e) = absent
VictimOf-absent {pool} p absent (from_lru f rest disk e back) =
    unfold evicted in ground (arith, lookup-unmap (pool.pages f).id p pool.page_table)
VictimOf-absent p absent (nothing e k) = absent
