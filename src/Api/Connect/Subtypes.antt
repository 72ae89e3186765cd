-- ===== src/Api/Connect/Subtypes.antt =====
-- api/connect.go: the names of the subtypes, and the conversions to 32 bits.
use coinnews_indexer.Prelude.{
  ℕ, zero, suc, ◌-◌, ◌^◌, ◌≡◌, refl, ltb, if◌then◌else◌, arith, bytes_beq,
}
use coinnews_indexer.Prelude.Int.{ℤ, pos, negsuc, ◌≤ℤ◌, ◌<ℤ◌, ◌-ℤ◌}
use coinnews_indexer.Api.Connect.{
  subtype_name, subtype_from_name, unmarshal_json, to_uint32, to_int32, name, name_at,
  from_name_loop,
}

-- The name that an answer gives a subtype is read back as that subtype if it is below 6, and as 0
-- if it is not.
pub unmarshal-subtype_name :
    (s : ℕ) → unmarshal_json (name (subtype_name s)) ≡ (if ltb s 6 then s else 0)
unfolding unmarshal_json subtype_name subtype_from_name name_at from_name_loop bytes_beq
unmarshal-subtype_name zero = refl
unmarshal-subtype_name (suc zero) = refl
unmarshal-subtype_name (suc (suc zero)) = refl
unmarshal-subtype_name (suc (suc (suc zero))) = refl
unmarshal-subtype_name (suc (suc (suc (suc zero)))) = refl
unmarshal-subtype_name (suc (suc (suc (suc (suc zero))))) = refl
unmarshal-subtype_name (suc (suc (suc (suc (suc (suc n)))))) = ground arith

pub to_int32-identity : (n : ℤ) → negsuc (2 ^ 31 - 1) ≤ℤ n → n <ℤ pos (2 ^ 31) → to_int32 n ≡ n
unfolding to_int32 to_uint32 ◌-ℤ◌
to_int32-identity n l h = ground arith
