-- ===== src/Storage/TableHeap/Chain.antt =====
-- Inserting into a table: the walk along the pages (src/storage/table/table_heap.rs).
use dip_v.Base.{
  ℕ, zero, suc, ◌+◌, ◌*◌, ◌-◌, ◌≤◌, ◌<◌, ◌≡◌, ◌≢◌, refl, ◌%◌, ◌^◌, false, ◌==◌, arith, List, length,
  Option, none, some, ok, Bool-cases, inl, inr, leb, ◌∙◌, sym,
}
use dip_v.Storage.Rid
use dip_v.Storage.Rid.{Rid}
use dip_v.Storage.Tuple
use dip_v.Storage.Tuple.{Tuple, set_rid}
use dip_v.Storage.SlottedPage
use dip_v.Storage.SlottedPage.Insert
use dip_v.Storage.SlottedPage.Insert.{IsPage}
use dip_v.Storage.PoolManager.{BufferPoolManager}
use dip_v.Storage.PoolManager.Invariant.{page_content}
use dip_v.Storage.PoolManager.Calls.{Same, Same-trans, Ready}
use dip_v.Storage.PageAccess.{open_page, close_page, save_page}
use dip_v.Storage.TableHeap.{TableHeap, with_rid, insert_from, insert_tuple}
use dip_v.Storage.PageAccess.Laws.{open_page_lem, close_page_lem, save_page_lem}
use dip_v.Storage.TableHeap.View.{Elsewhere, unused, view, kept_view, view_page, Saved-view}

module _ (hash : ℕ → ℕ) where
  -- The page has no room for the tuple, and another page follows it.
  pub record Full (m : BufferPoolManager) (tuple : Tuple) (p next : ℕ) : Type 0 where
    pub page : List ℕ
    pub there : page_content hash m p ≡ ok page
    pub refuses : SlottedPage.insert_tuple page tuple ≡ ok (none, page)
    pub follows : SlottedPage.get_next_page_id page ≡ ok next
    pub goes_on : next ≢ 0

  -- From one page to another over `n` full pages.
  pub data Chain (m : BufferPoolManager) (tuple : Tuple) : ℕ → ℕ → ℕ → Type 0 where
    here : (p : ℕ) → Chain m tuple 0 p p
    further :
        (n p next last : ℕ)
        → Full m tuple p next
        → Chain m tuple n next last
        → Chain m tuple (suc n) p last

  Chain-Same :
      {m m' : BufferPoolManager} {tuple : Tuple} {n p last : ℕ}
      → Same hash m m'
      → Chain m tuple n p last
      → Chain m' tuple n p last
  Chain-Same same (here p) = here p
  Chain-Same same (further n p next last full rest) =
      further n p next last
        (record {
          page = full.page;
          there = same.same p full.page full.there;
          refuses = full.refuses;
          follows = full.follows;
          goes_on = full.goes_on;
        })
        (Chain-Same same rest)

  pub record Added (m : BufferPoolManager) (tuple : Tuple) (rid : Rid) (m' : BufferPoolManager)
      : Type 0 where
    pub ready : Ready hash m'
    pub shown : view hash m' rid ≡ ok (some (set_rid (Tuple.new tuple.bytes) rid))
    pub others :
        (other : Rid) (t : Option Tuple)
        → Elsewhere hash rid other
        → view hash m other ≡ ok t
        → view hash m' other ≡ ok t

  full_round :
      (rounds : ℕ) (m m1 : BufferPoolManager) (p next : ℕ) (tuple : Tuple) (page : List ℕ)
      → open_page hash m p ≡ ok (some page, m1)
      → SlottedPage.insert_tuple page tuple ≡ ok (none, page)
      → SlottedPage.get_next_page_id page ≡ ok next
      → next ≢ 0
      → insert_from hash (suc rounds) m p tuple
        ≡ insert_from hash rounds (close_page hash m1 p) next tuple
  unfolding insert_from
  full_round rounds m m1 p next tuple page opened refuses follows goes_on =
      let more : (next == 0) ≡ false = ground arith in
      ground (arith, opened, refuses, follows, more)

  last_round :
      (rounds : ℕ) (m m1 : BufferPoolManager) (p slot_id : ℕ) (tuple : Tuple) (page page' : List ℕ)
      → open_page hash m p ≡ ok (some page, m1)
      → SlottedPage.insert_tuple page tuple ≡ ok (some slot_id, page')
      → insert_from hash (suc rounds) m p tuple
        ≡ ok (some (Rid.new p slot_id), save_page hash m1 p page')
  unfolding insert_from
  last_round rounds m m1 p slot_id tuple page page' opened placed = rw (opened, placed) refl

  -- The slots but the new one read as before, those not in use too.
  others_read :
      (page page' : List ℕ) (count fp fp' : ℕ)
      → IsPage page count fp
      → IsPage page' (count + 1) fp'
      → ((j : ℕ) → j < count → SlottedPage.get_tuple page' j ≡ SlottedPage.get_tuple page j)
      → (j : ℕ) → count ≢ j
      → SlottedPage.get_tuple page' j ≡ SlottedPage.get_tuple page j
  others_read page page' count fp fp' v v' same j apart = elim (Bool-cases (leb count j)) [
    | inl e ↦
        let above : count + 1 ≤ j = ground arith in
        unused page' (count + 1) fp' j v' above ∙ sym (unused page count fp j v (ground arith))
    | inr e ↦ same j (ground arith)
  ]

  -- The walk ends on a page with room for a tuple that is not empty.
  module _ (tuple : Tuple) (some_bytes : 0 < length tuple.bytes) where
    insert_here :
        (m : BufferPoolManager) (rounds p count fp : ℕ) (page : List ℕ)
        → Ready hash m
        → page_content hash m p ≡ ok page
        → IsPage page count fp
        → 16 + count * 4 + length tuple.bytes ≤ fp
        → (m' : BufferPoolManager) × (insert_from hash (suc rounds) m p tuple
            ≡ ok (some (Rid.new p count), m'))
          × Added m tuple (Rid.new p count) m'
    unfolding with_rid
    insert_here m rounds p count fp page ready h v room =
        let (f, m1, opened, same, held, size) = open_page_lem hash m p page ready h in
        let (page', placed, inserted) =
          Insert.insert_tuple_lem page count fp tuple v some_bytes room in
        let (saved, ready') = save_page_lem hash m1 p f page' held inserted.valid.size in
        let slot : count % 2 ^ 16 ≡ count = omega (arith, v.top, room) in
        let after = save_page hash m1 p page' in
        (
          after,
          last_round rounds m m1 p count tuple page page' opened placed,
          record {
            ready = ready';
            shown =
                view_page hash after (Rid.new p count) page' (some (Tuple.new tuple.bytes))
                  saved.now (rw slot inserted.reads);
            others = λ other t apart shown.
                Saved-view hash m1 after p page page' other t (same.same p page h) saved
                  (λ at.
                    others_read page page' count fp (fp - length tuple.bytes) v inserted.valid
                      inserted.others (other.slot_num % 2 ^ 16)
                      (elim apart [ inl away ↦ absurd (away (sym at)) | inr away ↦ away ]))
                  (kept_view hash m m1 other t same shown);
          },
        )

    insert_from_lem :
        (m : BufferPoolManager) (n rounds p last count fp : ℕ) (page : List ℕ)
        → n < rounds
        → Ready hash m
        → Chain m tuple n p last
        → page_content hash m last ≡ ok page
        → IsPage page count fp
        → 16 + count * 4 + length tuple.bytes ≤ fp
        → (m' : BufferPoolManager) × (insert_from hash rounds m p tuple
            ≡ ok (some (Rid.new last count), m'))
          × Added m tuple (Rid.new last count) m'
    insert_from_lem m n zero p last count fp page more ready chain h v room = absurd (omega arith)
    insert_from_lem m n (suc r) p last count fp page more ready (here q) h v room =
        insert_here m r p count fp page ready h v room
    insert_from_lem m n (suc r) p last count fp page more ready (further n0 q next last0 full rest)
          h v room =
        let (f, m1, opened, same, held, size) = open_page_lem hash m p full.page ready full.there in
        let (kept, ready') = close_page_lem hash m1 p f held in
        let m2 = close_page hash m1 p in
        let same2 : Same hash m m2 = Same-trans hash m m1 m2 same kept in
        let (m', runs, added) =
          insert_from_lem m2 n0 r next last count fp page (omega arith) ready'
            (Chain-Same same2 rest) (same2.same last page h) v room in
        (
          m',
          full_round r m m1 p next tuple full.page opened full.refuses full.follows full.goes_on
              ∙ runs,
          record {
            ready = added.ready;
            shown = added.shown;
            others = λ other t apart shown.
                added.others other t apart (kept_view hash m m2 other t same2 shown);
          },
        )

  -- If the pool is ready, the table's pages from the first over `n` full ones lead to a valid page
  -- with room, and the tuple is not empty, then `insert_tuple` with more than `n` rounds returns the
  -- next record id of that page: it shows the tuple, every other record id shows what it showed
  -- before, and the pool stays ready.
  pub insert_tuple_table :
      (m : BufferPoolManager) (table : TableHeap) (tuple : Tuple) (n rounds last count fp : ℕ)
      (page : List ℕ)
      → n < rounds
      → Ready hash m
      → 0 < length tuple.bytes
      → Chain m tuple n table.first_page_id last
      → page_content hash m last ≡ ok page
      → IsPage page count fp
      → 16 + count * 4 + length tuple.bytes ≤ fp
      → (m' : BufferPoolManager) × (insert_tuple hash rounds table m tuple
          ≡ ok (some (Rid.new last count), m'))
        × Added m tuple (Rid.new last count) m'
  unfolding insert_tuple
  insert_tuple_table m table tuple n rounds last count fp page more ready some_bytes chain h v
        room =
      insert_from_lem tuple some_bytes m n rounds table.first_page_id last count fp page more ready
        chain h v room
