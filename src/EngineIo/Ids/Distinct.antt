-- ===== src/EngineIo/Ids/Distinct.antt =====
-- When two generated ids are the same.
use socket_io.Base.{
  ℕ, zero, suc, ◌-◌, ◌/◌, ◌%◌, ◌^◌, ◌<◌, ◌≡◌, ◌↔◌, refl, sym, ap, ap₂, ◌∙◌, arith, false, some, [],
  ◌∷◌, ◌++◌, Bytes, length, drop-add_at, leb, if-false, Result, ok,
}
use socket_io.EngineIo.Ids.{Error, put_uint32, zeros, overwrite, generate_base64_id}

length-zeros : (n : ℕ) → length (zeros n) ≡ n
unfolding zeros
length-zeros zero = refl
length-zeros (suc n) = omega (arith, length-zeros n)

-- The last three bytes of the sequence number.
low_bytes : ℕ → Bytes
low_bytes seq = seq / 2 ^ 16 % 256 ∷ seq / 2 ^ 8 % 256 ∷ seq % 256 ∷ []

id_of :
    (size seq : ℕ) (random : Bytes)
    → 4 < size
    → length random ≡ size - 3
    → generate_base64_id size seq (some random) ≡ ok (random ++ low_bytes seq)
unfolding generate_base64_id overwrite put_uint32 low_bytes
id_of size seq random h l =
    let big : leb size 4 ≡ false = ground arith in
    if-false _ big
    ∙ ap (λ b. ok (random ++ b))
        (drop-add_at (length random) 1 (zeros (size - 4)) (put_uint32 seq)
          (omega (arith, l, h, length-zeros (size - 4))))

append-same :
    (xs ys : Bytes) (us vs : Bytes)
    → length xs ≡ length ys
    → xs ++ us ≡ ys ++ vs
    → (xs ≡ ys) × (us ≡ vs)
append-same [] [] us vs l e = (refl, e)
append-same [] (y ∷ ys) us vs l e = absurd (omega (arith, l))
append-same (x ∷ xs) [] us vs l e = absurd (omega (arith, l))
append-same (x ∷ xs) (y ∷ ys) us vs l e =
    let head : x ≡ y = cc in
    let tail : xs ++ us ≡ ys ++ vs = cc in
    let rest = append-same xs ys us vs (omega (arith, l)) tail in (ap₂ ◌∷◌ head rest.0, rest.1)

low_bytes_iff : (m n : ℕ) → (low_bytes m ≡ low_bytes n) ↔ (m % 2 ^ 24 ≡ n % 2 ^ 24)
unfolding low_bytes
low_bytes_iff m n = (ground arith, ground arith)

abbrev as_result : Bytes → Result Error Bytes
as_result xs = ok xs

-- Ids of one size are the same exactly if their random bytes are and their sequence numbers agree in
-- the last 24 bits.
pub generate_base64_id_iff :
    (size m n : ℕ) (random other : Bytes)
    → 4 < size
    → length random ≡ size - 3
    → length other ≡ size - 3
    → (generate_base64_id size m (some random) ≡ generate_base64_id size n (some other))
      ↔ ((random ≡ other) × (m % 2 ^ 24 ≡ n % 2 ^ 24))
generate_base64_id_iff size m n random other h k l =
    let first = id_of size m random h k in
    let second = id_of size n other h l in
    (
      λ e.
          let same = bytes (sym first ∙ e ∙ second) in
          let parts = append-same random other (low_bytes m) (low_bytes n) (k ∙ sym l) same in
          (parts.0, (low_bytes_iff m n).0 parts.1),
      λ (r, q). first ∙ ap₂ (λ xs ys. ok (xs ++ ys)) r ((low_bytes_iff m n).1 q) ∙ sym second,
    )
  where
    bytes : {xs ys : Bytes} → as_result xs ≡ as_result ys → xs ≡ ys
    bytes e = cc
