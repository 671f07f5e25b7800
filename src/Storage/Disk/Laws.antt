-- ===== src/Storage/Disk/Laws.antt =====
-- What is written to a page is read back, and other pages keep their bytes
-- (src/storage/disk_manager.rs).
use dip_v.Base.{
  ℕ, zero, suc, ◌+◌, ◌-◌, ◌*◌, ◌≤◌, ◌≡◌, ◌≢◌, ◌∙◌, subst, sym, refl, true, List, ◌++◌, length,
  length-append, leb, ltb, ◌==◌, arith, ok, Bool-cases, ◌⊎◌, inl, inr,
}
use dip_v.Base.Bytes.{slice}
use dip_v.Base.Splice.{
  length-splice, slice-splice_self, slice-splice_other, slice-append, length-slice,
}
use dip_v.Storage.Disk.{DiskManager, page_size, zeros, write_at, write_page, read_page}

pub length-zeros : (n : ℕ) → length (zeros n) ≡ n
unfolding zeros
length-zeros zero = refl
length-zeros (suc n) = omega (arith, length-zeros n)

module _ (file : List ℕ) (offset : ℕ) (bytes : List ℕ) where
  padded : List ℕ
  padded = file ++ zeros (offset + length bytes - length file)

  room : offset + length bytes ≤ length padded
  unfolding padded
  room = omega (
    arith,
    length-append file (zeros (offset + length bytes - length file)),
    length-zeros (offset + length bytes - length file),
  )

  length-write_at :
      (length file ≤ length (write_at file offset bytes))
      × (offset + length bytes ≤ length (write_at file offset bytes))
  unfolding write_at padded
  length-write_at = omega (
    arith,
    length-splice padded offset bytes room,
    room,
    length-append file (zeros (offset + length bytes - length file)),
  )

  slice-write_at_self : slice (write_at file offset bytes) offset (offset + length bytes) ≡ ok bytes
  unfolding write_at padded
  slice-write_at_self = slice-splice_self padded offset bytes room (offset + length bytes) refl

  slice-write_at_other :
      (a b : ℕ)
      → b ≤ length file
      → ((b ≤ offset) ⊎ (offset + length bytes ≤ a))
      → slice (write_at file offset bytes) a b ≡ slice file a b
  unfolding write_at padded
  slice-write_at_other a b inside apart =
      slice-splice_other padded offset bytes room a b apart
      ∙ slice-append file (zeros (offset + length bytes - length file)) a b inside

pages_apart :
    (p q : ℕ)
    → p ≢ q
    → (q * page_size + page_size ≤ p * page_size) ⊎ (p * page_size + page_size ≤ q * page_size)
pages_apart p q h = elim (Bool-cases (ltb p q)) [
  | inl e ↦ inr (ground arith)
  | inr e ↦ inl (ground arith)
]

readable :
    (d : DiskManager) (q : ℕ) (old : List ℕ)
    → read_page d q page_size ≡ ok old
    → (q * page_size + page_size ≤ length d.file)
      × (slice d.file (q * page_size) (q * page_size + page_size) ≡ ok old)
unfolding read_page
readable d q old h = ground arith

reads :
    (d : DiskManager) (q : ℕ) (old : List ℕ)
    → q * page_size + page_size ≤ length d.file
    → slice d.file (q * page_size) (q * page_size + page_size) ≡ ok old
    → read_page d q page_size ≡ ok old
unfolding read_page
reads d q old h e =
    let begins : ltb (q * page_size) (length d.file) ≡ true = ground arith in
    let ends : leb (q * page_size + page_size) (length d.file) ≡ true = ground arith in
    rw (begins, ends) e

pub length-read_page :
    (d : DiskManager) (q : ℕ) (old : List ℕ)
    → read_page d q page_size ≡ ok old
    → length old ≡ page_size
length-read_page d q old h =
    let (inside, part) = readable d q old h in
    omega (arith, length-slice d.file old (q * page_size) (q * page_size + page_size) part)

-- A page of 4096 bytes is written without an error and reads back, and every other page that could
-- be read reads as before.
pub read_page-write_page :
    (d : DiskManager) (p : ℕ) (bytes : List ℕ)
    → length bytes ≡ page_size
    → (d' : DiskManager) × (write_page d p bytes ≡ ok d')
      × (read_page d' p page_size ≡ ok bytes)
      × ((q : ℕ) (old : List ℕ)
          → p ≢ q
          → read_page d q page_size ≡ ok old
          → read_page d' q page_size ≡ ok old)
unfolding write_page
read_page-write_page d p bytes size =
    let sized : (length bytes == page_size) ≡ true = ground arith in
    let (grown, covers) = length-write_at d.file (p * page_size) bytes in
    let d' : DiskManager = record d { file = write_at d.file (p * page_size) bytes } in
    (
      d',
      rw sized,
      reads d' p bytes (omega arith) (
          subst
            (λ (n : ℕ).
              slice (write_at d.file (p * page_size) bytes) (p * page_size) (p * page_size + n)
              ≡ ok bytes)
            size (slice-write_at_self d.file (p * page_size) bytes)),
      λ q old apart h.
          let (inside, part) = readable d q old h in
          reads d' q old (omega arith) (
            slice-write_at_other d.file (p * page_size) bytes (q * page_size)
              (q * page_size + page_size) inside
              (subst
                (λ (n : ℕ).
                  (q * page_size + page_size ≤ p * page_size) ⊎ (p * page_size + n ≤ q * page_size))
                (sym size) (pages_apart p q apart))
            ∙ part),
    )

-- A write gives out no page id.
pub next_page_id-write_page :
    (d : DiskManager) {d' : DiskManager} (p : ℕ) (bytes : List ℕ)
    → write_page d p bytes ≡ ok d'
    → d'.next_page_id ≡ d.next_page_id
unfolding write_page
next_page_id-write_page d p bytes h = ground arith
