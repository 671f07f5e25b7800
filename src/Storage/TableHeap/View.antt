-- ===== src/Storage/TableHeap/View.antt =====
-- What a table shows: the tuple that each record id stands for
-- (src/storage/table/table_heap.rs).
use dip_v.Base.{
  ℕ, ◌≤◌, ◌<◌, ◌≡◌, ◌≢◌, refl, ◌%◌, ◌^◌, ◌⊎◌, inl, inr, Bool-cases, true, leb, ◌==◌, arith, List,
  Option, none, Result, ok, ◌>>=◌, >>=-eq-ok, subst, sym, ◌∙◌,
}
use dip_v.Storage.Rid.{Rid}
use dip_v.Storage.Tuple.{Tuple}
use dip_v.Storage.SlottedPage
use dip_v.Storage.SlottedPage.{get_u16}
use dip_v.Storage.SlottedPage.Insert.{IsPage}
use dip_v.Storage.SlottedPage.Delete
use dip_v.Storage.PoolManager.{BufferPoolManager}
use dip_v.Storage.PoolManager.Invariant.{page_content}
use dip_v.Storage.PoolManager.Calls.{Same, Saved, Ready}
use dip_v.Storage.PageAccess.{close_page, save_page}
use dip_v.Storage.TableHeap.{with_rid, get_tuple, mark_delete, finish}
use dip_v.Storage.PageAccess.Laws.{open_page_lem, close_page_lem, save_page_lem}

-- On a valid page a slot that is not in use has no tuple.
pub unused :
    (page : List ℕ) (count fp k : ℕ)
    → IsPage page count fp
    → count ≤ k
    → SlottedPage.get_tuple page k ≡ ok none
unfolding SlottedPage.get_tuple
unused page count fp k v h =
    let above : leb count k ≡ true = ground arith in rw (v.counts, above) refl

module _ (hash : ℕ → ℕ) where
  -- The tuple of a record id, by the bytes of its page.
  unfoldable pub view : BufferPoolManager → Rid → Result (Option Tuple)
  view m rid = do
    page ← page_content hash m rid.page_id
    found ← SlottedPage.get_tuple page (rid.slot_num % 2 ^ 16)
    ok (with_rid rid found)

  pub view_page :
      (m : BufferPoolManager) (rid : Rid) (page : List ℕ) (found : Option Tuple)
      → page_content hash m rid.page_id ≡ ok page
      → SlottedPage.get_tuple page (rid.slot_num % 2 ^ 16) ≡ ok found
      → view m rid ≡ ok (with_rid rid found)
  unfolding view
  view_page m rid page found h k = rw (h, k) refl

  -- A record id that shows something has a page with a slot that was read.
  viewed :
      (m : BufferPoolManager) (rid : Rid) (t : Option Tuple)
      → view m rid ≡ ok t
      → (page : List ℕ) × (page_content hash m rid.page_id ≡ ok page)
        × (found : Option Tuple) × (SlottedPage.get_tuple page (rid.slot_num % 2 ^ 16) ≡ ok found)
        × (ok (with_rid rid found) ≡ ok t)
  unfolding view
  viewed m rid t h =
      let (page, there, rest) = >>=-eq-ok (page_content hash m rid.page_id) _ h in
      let (found, read, last) =
        >>=-eq-ok (SlottedPage.get_tuple page (rid.slot_num % 2 ^ 16)) _ rest in
      (page, there, found, read, last)

  -- What a record id shows depends on the bytes of the pages only.
  pub kept_view :
      (m m' : BufferPoolManager) (rid : Rid) (t : Option Tuple)
      → Same hash m m'
      → view m rid ≡ ok t
      → view m' rid ≡ ok t
  kept_view m m' rid t same shown =
      let (page, there, found, read, last) = viewed m rid t shown in
      view_page m' rid page found (same.same rid.page_id page there) read ∙ last

  -- If the pool is ready and the record id shows a tuple or none, `get_tuple` returns just that; the
  -- pool stays ready and every page keeps its bytes.
  pub get_tuple_table :
      (m : BufferPoolManager) (rid : Rid) (t : Option Tuple)
      → Ready hash m
      → view m rid ≡ ok t
      → (m' : BufferPoolManager) × (get_tuple hash m rid ≡ ok (t, m'))
        × Same hash m m'
        × Ready hash m'
  unfolding get_tuple
  get_tuple_table m rid t ready h =
      let (page, there, found, read, last) = viewed m rid t h in
      let (f, m1, opened, same, held, size) = open_page_lem hash m rid.page_id page ready there in
      let (kept, ready') = close_page_lem hash m1 rid.page_id f held in
      let found_is_t : with_rid rid found ≡ t = cc in
      (
        close_page hash m1 rid.page_id,
        rw (opened, read, found_is_t) refl,
        record { valid = kept.valid; same = λ q old k. kept.same q old (same.same q old k) },
        ready',
      )

  -- One page was saved: a record id shows the same if it lies elsewhere or its slot reads the same.
  pub Saved-view :
      (m m' : BufferPoolManager) (p : ℕ) (page page' : List ℕ) (rid : Rid) (t : Option Tuple)
      → page_content hash m p ≡ ok page
      → Saved hash m m' p page'
      → (rid.page_id ≡ p
          → SlottedPage.get_tuple page' (rid.slot_num % 2 ^ 16)
            ≡ SlottedPage.get_tuple page (rid.slot_num % 2 ^ 16))
      → view m rid ≡ ok t
      → view m' rid ≡ ok t
  Saved-view m m' p page page' rid t h saved same shown =
      let (old, there, found, read, last) = viewed m rid t shown in
      elim (Bool-cases (p == rid.page_id)) [
        | inr e ↦
            view_page m' rid old found (saved.others rid.page_id old (ground arith) there) read
            ∙ last
        | inl e ↦
            let at : p ≡ rid.page_id = ground arith in
            let its : ok old ≡ ok page =
              sym there ∙ subst (λ (n : ℕ). page_content hash m n ≡ ok page) at h in
            let now : page_content hash m' rid.page_id ≡ ok page' =
              subst (λ (n : ℕ). page_content hash m' n ≡ ok page') at saved.now in
            let read' : SlottedPage.get_tuple page (rid.slot_num % 2 ^ 16) ≡ ok found = cc in
            view_page m' rid page' found now (same (sym at) ∙ read') ∙ last
      ]

  -- A record id on another page, or with another slot.
  abbrev pub Elsewhere : Rid → Rid → Type 0
  Elsewhere rid other = (rid.page_id ≢ other.page_id) ⊎ (rid.slot_num ≢ (other.slot_num % 2 ^ 16))

  pub record Hidden (m : BufferPoolManager) (rid : Rid) (count fp : ℕ) (m' : BufferPoolManager)
      : Type 0 where
    pub ready : Ready hash m'
    pub page : List ℕ
    pub there : page_content hash m' rid.page_id ≡ ok page
    pub valid : IsPage page count fp
    pub gone : view m' rid ≡ ok none
    pub others :
        (other : Rid) (t : Option Tuple)
        → Elsewhere rid other
        → view m other ≡ ok t
        → view m' other ≡ ok t

  -- Slots of the page that are not in use, too, read as before.
  others_read :
      (page page' : List ℕ) (count fp k : ℕ)
      → IsPage page count fp
      → IsPage page' count fp
      → ((j : ℕ) → j < count → j ≢ k → SlottedPage.get_tuple page' j ≡ SlottedPage.get_tuple page j)
      → (j : ℕ) → k ≢ j
      → SlottedPage.get_tuple page' j ≡ SlottedPage.get_tuple page j
  others_read page page' count fp k v v' same j apart = elim (Bool-cases (leb count j)) [
    | inl e ↦
        unused page' count fp j v' (ground arith) ∙ sym (unused page count fp j v (ground arith))
    | inr e ↦ same j (ground arith) (λ h. apart (sym h))
  ]

  -- If the pool is ready and a record id names a slot in use on a valid page, `mark_delete`
  -- succeeds: the record id then shows no tuple, every other record id shows what it showed before,
  -- and the page stays valid and the pool ready.
  pub mark_delete_table :
      (m : BufferPoolManager) (rid : Rid) (page : List ℕ) (count fp : ℕ)
      → Ready hash m
      → page_content hash m rid.page_id ≡ ok page
      → IsPage page count fp
      → rid.slot_num < count
      → (m' : BufferPoolManager) × (mark_delete hash m rid ≡ ok (true, m'))
        × Hidden m rid count fp m'
  unfolding mark_delete finish with_rid
  mark_delete_table m rid page count fp ready h v used =
      let (f, m1, opened, same, held, size) = open_page_lem hash m rid.page_id page ready h in
      let (page', marked, deleted) = Delete.mark_delete_lem page count fp rid.slot_num v used in
      let (saved, ready') = save_page_lem hash m1 rid.page_id f page' held deleted.valid.size in
      let slot : rid.slot_num % 2 ^ 16 ≡ rid.slot_num = omega (arith, v.below, v.top, used) in
      let after = save_page hash m1 rid.page_id page' in
      (
        after,
        rw (opened, slot, marked) refl,
        record {
          ready = ready';
          page = page';
          there = saved.now;
          valid = deleted.valid;
          gone = view_page after rid page' none saved.now (rw slot deleted.hidden);
          others = λ other t apart shown.
              Saved-view m1 after rid.page_id page page' other t (same.same rid.page_id page h)
                saved
                (λ at.
                  others_read page page' count fp rid.slot_num v deleted.valid deleted.others
                    (other.slot_num % 2 ^ 16)
                    (elim apart [ inl away ↦ absurd (away (sym at)) | inr away ↦ away ]))
                (kept_view m m1 other t same shown);
        },
      )
