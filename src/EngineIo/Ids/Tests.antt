-- ===== src/EngineIo/Ids/Tests.antt =====
-- Two ids in a row, and a store in which the first of them is taken.
use Prim.Native.String.{String}
use socket_io.Base.{
  if◌then◌else◌, ◌==◌, ℕ, ◌%◌, ◌^◌, ◌≤◌, ◌<◌, ◌≡◌, ◌↔◌, refl, arith, true, false, some, [], ◌∷◌,
  Bytes, ok, err,
}
use socket_io.Base.Maps.{StringMap, lookup, str_eq}
use socket_io.EngineIo.Ids.{base64_id_max_try, max_try_reached, generate_base64_id, generate_sid}
use socket_io.EngineIo.Ids.Distinct.{generate_base64_id_iff}
use socket_io.EngineIo.Ids.Tries.{taken, draws, generate_sid-first_free}

abbrev random : Bytes
random = 9 ∷ 8 ∷ []

-- The random bytes go over the first byte of the number.
generate-random : generate_base64_id 5 0x01020304 (some random) ≡ ok (9 ∷ 8 ∷ 2 ∷ 3 ∷ 4 ∷ [])
unfolding generate_base64_id
generate-random = refl

generate_base64_id_iff_example :
    (generate_base64_id 5 7 (some random) ≡ generate_base64_id 5 8 (some random))
    ↔ ((random ≡ random) × (7 % 2 ^ 24 ≡ 8 % 2 ^ 24))
generate_base64_id_iff_example =
    generate_base64_id_iff 5 7 8 random random (omega arith) (omega arith) (omega arith)

abbrev store : StringMap ℕ
store = ("a", 0) ∷ []

abbrev ids : ℕ → String
ids i = if i == 0 then "a" else "b"

generate-second : generate_sid store (draws store ids) ≡ ok "b"
unfolding generate_sid lookup str_eq
generate-second = refl

generate_sid-first_free_example :
    ((k : ℕ)
      → k ≤ base64_id_max_try
      → ((j : ℕ) → j < k → taken store ids j ≡ true)
      → taken store ids k ≡ false
      → generate_sid store (draws store ids) ≡ ok (ids k))
    × (((j : ℕ) → j ≤ base64_id_max_try → taken store ids j ≡ true)
        → generate_sid store (draws store ids) ≡ err max_try_reached)
generate_sid-first_free_example = generate_sid-first_free store ids
