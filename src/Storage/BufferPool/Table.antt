-- ===== src/Storage/BufferPool/Table.antt =====
-- The page table as a map, and the queue of the replacer as a set
-- (src/storage/buffer_pool_instance.rs, src/storage/replacer.rs).
use dip_v.Base.{
  ℕ, zero, suc, ◌≤◌, ◌<◌, ltb, Bool-cases, inl, inr, ◌≡◌, refl, Bool, true, false, not, ◌&&◌, ◌||◌,
  List, [], ◌∷◌, ◌++◌, none, some, ◌==◌, arith, if◌then◌else◌,
}
use dip_v.Storage.Replacer.{contains, remove_first}
use dip_v.Storage.BufferPool.{lookup, insert, remove, frames_below}

pub lookup-insert :
    (page_id q frame_id : ℕ) (table : List (ℕ × ℕ))
    → lookup q (insert page_id frame_id table)
      ≡ (if page_id == q then some frame_id else lookup q table)
unfolding insert lookup
lookup-insert page_id q frame_id ((p, f) ∷ rest) =
    ground (arith, lookup-insert page_id q frame_id rest)
lookup-insert page_id q frame_id [] = refl

pub lookup-remove :
    (k j : ℕ) (m : List (ℕ × ℕ)) → lookup j (remove k m) ≡ (if k == j then none else lookup j m)
unfolding lookup remove
lookup-remove k j [] = ground arith
lookup-remove k j ((i, w) ∷ m) = ground (arith, lookup-remove k j m)

-- No frame stands twice in the queue.
unfoldable pub distinct : List ℕ → Bool
distinct [] = true
distinct (f ∷ fs) = not (contains fs f) && distinct fs

absent_stays : (l : List ℕ) (f g : ℕ) → contains l g ≡ false → contains (remove_first l f) g ≡ false
unfolding contains remove_first
absent_stays [] f g h = refl
absent_stays (x ∷ l) f g h = ground (arith, absent_stays l f g)

pub remove_absent : (l : List ℕ) (f : ℕ) → contains l f ≡ false → remove_first l f ≡ l
unfolding contains remove_first
remove_absent [] f h = refl
remove_absent (x ∷ l) f h = ground (arith, remove_absent l f)

pub contains-remove_first :
    (l : List ℕ) (f g : ℕ)
    → distinct l ≡ true
    → contains (remove_first l f) g ≡ (contains l g && not (f == g))
unfolding contains remove_first distinct
contains-remove_first [] f g h = refl
contains-remove_first (x ∷ l) f g h = ground (arith, contains-remove_first l f g)

pub distinct-remove_first :
    (l : List ℕ) (f : ℕ) → distinct l ≡ true → distinct (remove_first l f) ≡ true
unfolding remove_first distinct
distinct-remove_first [] f h = refl
distinct-remove_first (x ∷ l) f h = ground (arith, distinct-remove_first l f, absent_stays l f x)

pub contains-append :
    (l : List ℕ) (f g : ℕ) → contains (l ++ (f ∷ [])) g ≡ (contains l g || (f == g))
unfolding contains
contains-append [] f g = ground arith
contains-append (x ∷ l) f g = ground (arith, contains-append l f g)

pub distinct-append :
    (l : List ℕ) (f : ℕ)
    → distinct l ≡ true
    → contains l f ≡ false
    → distinct (l ++ (f ∷ [])) ≡ true
unfolding distinct contains
distinct-append [] f h k = refl
distinct-append (x ∷ l) f h k = ground (arith, distinct-append l f, contains-append l f x)

contains-frames_below : (n g : ℕ) → n ≤ g → contains (frames_below n) g ≡ false
unfolding contains frames_below
contains-frames_below zero g h = refl
contains-frames_below (suc n) g h = ground (arith, contains-frames_below n g)

-- The frames of a new pool are below its size.
pub frames_below-lt : (n g : ℕ) → contains (frames_below n) g ≡ true → g < n
frames_below-lt n g h = elim (Bool-cases (ltb g n)) [
  | inl e ↦ ground arith
  | inr e ↦ let absent = contains-frames_below n g (ground arith) in cc
]

pub lt-frames_below : (n g : ℕ) → g < n → contains (frames_below n) g ≡ true
unfolding contains frames_below
lt-frames_below zero g h = absurd (omega arith)
lt-frames_below (suc n) g h = ground (arith, lt-frames_below n g)

pub distinct-frames_below : (n : ℕ) → distinct (frames_below n) ≡ true
unfolding distinct frames_below
distinct-frames_below zero = refl
distinct-frames_below (suc n) = ground (arith, distinct-frames_below n, contains-frames_below n n)
