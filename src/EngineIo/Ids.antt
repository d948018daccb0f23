-- ===== src/EngineIo/Ids.antt =====
-- engine.io/base64id.go: the ids of sockets. The bytes that crypto/rand gives are an argument; the
-- base64 text of the bytes, which differs where they do, is left out.
pub mod Distinct
pub mod Tries
mod Tests
use Prim.Native.String.{String}
use socket_io.Base.{
  ℕ, zero, suc, ◌+◌, ◌-◌, ◌*◌, ◌/◌, ◌%◌, ◌^◌, Bool, true, false, Option, none, some, List, [], ◌∷◌,
  ◌++◌, Bytes, length, drop, leb, ◌==◌, if◌then◌else◌, Result, ok, err,
}
use socket_io.Base.Maps.{StringMap, lookup, is_some}

pub data Error : Type 0 where
  invalid_size max_try_reached random_failed : Error

abbrev pub base64_id_size : ℕ
base64_id_size = 15

abbrev pub base64_id_max_try : ℕ
base64_id_max_try = 10

-- `binary.BigEndian.PutUint32`.
unfoldable pub put_uint32 : ℕ → Bytes
put_uint32 n = n / 2 ^ 24 % 256 ∷ n / 2 ^ 16 % 256 ∷ n / 2 ^ 8 % 256 ∷ n % 256 ∷ []

unfoldable pub zeros : ℕ → Bytes
zeros zero = []
zeros (suc n) = 0 ∷ zeros n

-- Reading `random` into the front of b.
unfoldable pub overwrite : Bytes → Bytes → Bytes
overwrite random b = random ++ drop (length random) b

-- `GenerateBase64ID` with the number that it has taken from `base64IDSeq`; crypto/rand fills
-- size - 3 bytes, or fails.
unfoldable pub generate_base64_id : ℕ → ℕ → Option Bytes → Result Error Bytes
unfolding put_uint32 zeros overwrite
generate_base64_id size seq random = if leb size 4 then err invalid_size else elim random [
  | none ↦ err random_failed
  | some bytes ↦ ok (overwrite bytes (zeros (size - 4) ++ put_uint32 seq))
]

-- `generateSID` with `left` more rounds after this one; `draws` are the ids that are generated.
generate_from : {V : Type 0} → StringMap V → (ℕ → Result Error String) → ℕ → Result Error String
generate_from store draws zero = elim (draws base64_id_max_try) [
  | err e ↦ err e
  | ok sid ↦ if is_some (lookup sid store) then err max_try_reached else ok sid
]
generate_from store draws (suc left) =
    let rest = generate_from store draws left in
    elim (draws (base64_id_max_try - suc left)) [
      | err e ↦ err e
      | ok sid ↦ if is_some (lookup sid store) then rest else ok sid
    ]

unfoldable pub generate_sid :
    {V : Type 0} → StringMap V → (ℕ → Result Error String) → Result Error String
unfolding generate_from
generate_sid store draws = generate_from store draws base64_id_max_try
