-- ===== src/Types/Tests.antt =====
-- Values to try the encoding and the order on (src/types/mod.rs).
use dip_v.Base.{◌≡◌, refl, [], ◌∷◌, ◌++◌, arith, ok}
use dip_v.Types.{Value, TypeId, is_utf8, get_type_id, to_bytes, from_bytes}
use dip_v.Types.RoundTrip.{from_bytes-to_bytes}

from_bytes-to_bytes_example :
    from_bytes (to_bytes (Value.varchar (195 ∷ 169 ∷ [])) ++ (1 ∷ [])) TypeId.varchar
    ≡ ok (Value.varchar (195 ∷ 169 ∷ []))
unfolding is_utf8 get_type_id
from_bytes-to_bytes_example =
    from_bytes-to_bytes (Value.varchar (195 ∷ 169 ∷ [])) (1 ∷ [])
      ((omega arith, (omega arith, tt)), refl, omega arith)
