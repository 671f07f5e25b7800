-- ===== src/Storage/Rid.antt =====
-- Record ids (src/storage/table/rid.rs).
use dip_v.Base.{ℕ, ◌≡◌, ◌↔◌, Bool, true, ◌&&◌, ◌==◌, arith}

pub record Rid : Type 0 where
  pub page_id : ℕ
  pub slot_num : ℕ

-- `RID::new`
abbrev pub new : ℕ → ℕ → Rid
new page_id slot_num = record { page_id = page_id; slot_num = slot_num }

-- The derived `==`.
unfoldable pub rid_eq : Rid → Rid → Bool
rid_eq a b = (a.page_id == b.page_id) && (a.slot_num == b.slot_num)

pub rid_eq_iff : (a b : Rid) → (rid_eq a b ≡ true) ↔ (a ≡ b)
unfolding rid_eq
rid_eq_iff a b = ground arith
