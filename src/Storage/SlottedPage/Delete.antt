-- ===== src/Storage/SlottedPage/Delete.antt =====
-- A tuple marked as deleted, and brought back (src/storage/table/slotted_page.rs).
use dip_v.Base.{
  ℕ, ◌+◌, ◌*◌, ◌%◌, ◌≤◌, ◌<◌, ◌≡◌, ◌≢◌, inl, inr, ◌∙◌, sym, subst, List, leb, ◌==◌, true, false,
  Bool-cases, arith, none, ok, ok-injective, ap,
}
use dip_v.Storage.SlottedPage.{
  get_u16, get_slot, deleted_bit, get_tuple, mark_delete, rollback_delete,
  is_tuple_marked_for_delete,
}
use dip_v.Storage.SlottedPage.Insert.{IsPage, slot_answer, get_tuple_slot}
use dip_v.Storage.SlottedPage.Reslot.{
  reslot, set_slot_lem, reslot_len, reslot_offset, answer_same, reslot-IsPage, others_stay,
  reslot_tuple,
}

-- What a slot loses when it is marked: nothing but its visibility.
pub record Deleted (page : List ℕ) (count fp k : ℕ) (page' : List ℕ) : Type 0 where
  pub valid : IsPage page' count fp
  pub hidden : get_tuple page' k ≡ ok none
  pub marked : is_tuple_marked_for_delete page' k ≡ ok true
  pub others : (j : ℕ) → j < count → j ≢ k → get_tuple page' j ≡ get_tuple page j
  pub restored :
      (len : ℕ)
      → get_u16 page (12 + k * 4 + 2) ≡ ok len
      → len < 32768
      → (back : List ℕ) × (rollback_delete page' k len ≡ ok (true, back))
        × IsPage back count fp
        × ((j : ℕ) → j < count → get_tuple back j ≡ get_tuple page j)

mark_runs :
    (page : List ℕ) (count fp k : ℕ) (v : IsPage page count fp) (used : k < count)
    → mark_delete page k
      ≡ ok (true, reslot page k (v.slots k used).offset ((v.slots k used).len % 32768 + 32768))
unfolding mark_delete get_slot
mark_runs page count fp k v used =
    let s = v.slots k used in
    let there : leb count k ≡ false = ground arith in
    rw (
      v.counts,
      there,
      s.offset_word,
      s.len_word,
      set_slot_lem page count fp k s.offset (s.len % 32768 + 32768) v used,
    )

rollback_runs :
    (page : List ℕ) (count fp k offset old len : ℕ) (v : IsPage page count fp) (used : k < count)
    → get_u16 page (12 + k * 4) ≡ ok offset
    → get_u16 page (12 + k * 4 + 2) ≡ ok old
    → rollback_delete page k len ≡ ok (true, reslot page k offset (len % 32768))
unfolding rollback_delete get_slot
rollback_runs page count fp k offset old len v used o l =
    let there : leb count k ≡ false = ground arith in
    rw (v.counts, there, o, l, set_slot_lem page count fp k offset (len % 32768) v used)

marked_bit :
    (page : List ℕ) (count k offset len : ℕ)
    → get_u16 page 6 ≡ ok count
    → k < count
    → get_u16 page (12 + k * 4) ≡ ok offset
    → get_u16 page (12 + k * 4 + 2) ≡ ok len
    → is_tuple_marked_for_delete page k ≡ ok (deleted_bit len)
unfolding is_tuple_marked_for_delete get_slot
marked_bit page count k offset len counts used o l =
    let there : leb count k ≡ false = ground arith in rw (counts, there, o, l)

module _ (page : List ℕ) (count fp k offset len : ℕ) (v : IsPage page count fp) (used : k < count)
    (o : get_u16 page (12 + k * 4) ≡ ok offset) (l : get_u16 page (12 + k * 4 + 2) ≡ ok len)
    (above : fp ≤ offset) (inside : offset + len % 32768 ≤ 4096) where
  abbrev gone : List ℕ
  gone = reslot page k offset (len % 32768 + 32768)

  gone-IsPage : IsPage gone count fp
  gone-IsPage =
      reslot-IsPage page count fp k offset (len % 32768 + 32768) v used above
        (omega (arith, inside)) (omega arith)

  gone_hidden : get_tuple gone k ≡ ok none
  unfolding slot_answer
  gone_hidden =
      let bit : deleted_bit (len % 32768 + 32768) ≡ true = ground arith in
      reslot_tuple page count fp k offset (len % 32768 + 32768) v used above (omega (arith, inside))
        (omega arith)
      ∙ (rw bit)

  gone_offset : get_u16 gone (12 + k * 4) ≡ ok offset
  gone_offset =
      reslot_offset page count fp k offset (len % 32768 + 32768) v used (omega (arith, inside))

  gone_len : get_u16 gone (12 + k * 4 + 2) ≡ ok (len % 32768 + 32768)
  gone_len = reslot_len page count fp k offset (len % 32768 + 32768) v used (omega arith)

  gone_marked : is_tuple_marked_for_delete gone k ≡ ok true
  gone_marked =
      let bit : deleted_bit (len % 32768 + 32768) ≡ true = ground arith in
      marked_bit gone count k offset (len % 32768 + 32768) gone-IsPage.counts used gone_offset
        gone_len
      ∙ (rw bit)

  gone_others : (j : ℕ) → j < count → j ≢ k → get_tuple gone j ≡ get_tuple page j
  gone_others =
      others_stay page count fp k offset (len % 32768 + 32768) v used above (omega (arith, inside))
        (omega arith)

  module _ (live : len < 32768) where
    abbrev again : List ℕ
    again = reslot gone k offset (len % 32768)

    again_runs : rollback_delete gone k len ≡ ok (true, again)
    again_runs =
        rollback_runs gone count fp k offset (len % 32768 + 32768) len gone-IsPage used gone_offset
          gone_len

    again-IsPage : IsPage again count fp
    again-IsPage =
        reslot-IsPage gone count fp k offset (len % 32768) gone-IsPage used above
          (omega (arith, inside)) (omega arith)

    again_tuples : (j : ℕ) → j < count → get_tuple again j ≡ get_tuple page j
    again_tuples j h = elim (Bool-cases (j == k)) [
      | inr e ↦
          let apart : j ≢ k = λ same. ground arith in
          others_stay gone count fp k offset (len % 32768) gone-IsPage used above
            (omega (arith, inside)) (omega arith) j h apart
          ∙ gone_others j h apart
      | inl e ↦
          let at : k ≡ j = ground arith in
          let whole : len % 32768 ≡ len = omega arith in
          let now : get_tuple again k ≡ slot_answer gone offset (len % 32768) =
            reslot_tuple gone count fp k offset (len % 32768) gone-IsPage used above
              (omega (arith, inside)) (omega arith) in
          let same : slot_answer gone offset len ≡ slot_answer page offset len =
            answer_same page count fp k offset (len % 32768 + 32768) v used offset len above in
          let was : get_tuple page k ≡ slot_answer page offset len =
            get_tuple_slot page count k offset len v.counts used o l in
          let back : get_tuple again k ≡ get_tuple page k =
            now ∙ (ap (slot_answer gone offset) whole ∙ (same ∙ sym was)) in
          subst (λ (i : ℕ). get_tuple again i ≡ get_tuple page i) at back
    ]

-- On a valid page, `mark_delete` of a slot in use succeeds and keeps the page valid: the tuple is
-- hidden and its slot reads as marked, every other slot in use reads as before, and `rollback_delete`
-- with the slot's length before the mark, where that was below 32768, makes every slot in use read
-- again what it read before.
pub mark_delete_lem :
    (page : List ℕ) (count fp k : ℕ)
    → IsPage page count fp
    → k < count
    → (page' : List ℕ) × (mark_delete page k ≡ ok (true, page')) × Deleted page count fp k page'
mark_delete_lem page count fp k v used =
    let s = v.slots k used in
    (
      gone page count fp k s.offset s.len v used s.offset_word s.len_word s.above s.inside,
      mark_runs page count fp k v used,
      record {
        valid =
            gone-IsPage page count fp k s.offset s.len v used s.offset_word s.len_word s.above
              s.inside;
        hidden =
            gone_hidden page count fp k s.offset s.len v used s.offset_word s.len_word s.above
              s.inside;
        marked =
            gone_marked page count fp k s.offset s.len v used s.offset_word s.len_word s.above
              s.inside;
        others =
            gone_others page count fp k s.offset s.len v used s.offset_word s.len_word s.above
              s.inside;
        restored = λ len l live.
            let same : s.len ≡ len = ok-injective _ _ (sym s.len_word ∙ l) in
            let live' : s.len < 32768 = omega arith in
            subst
              (λ (n : ℕ).
                (back : List ℕ) × (rollback_delete (reslot page k s.offset (s.len % 32768 + 32768))
                    k n
                  ≡ ok (true, back))
                × IsPage back count fp
                × ((j : ℕ) → j < count → get_tuple back j ≡ get_tuple page j))
              same
              (
                again page count fp k s.offset s.len v used s.offset_word s.len_word s.above
                    s.inside live',
                again_runs page count fp k s.offset s.len v used s.offset_word s.len_word s.above
                    s.inside live',
                again-IsPage page count fp k s.offset s.len v used s.offset_word s.len_word s.above
                    s.inside live',
                again_tuples page count fp k s.offset s.len v used s.offset_word s.len_word s.above
                    s.inside live',
              );
      },
    )
