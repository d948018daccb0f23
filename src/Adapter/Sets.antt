-- ===== src/Adapter/Sets.antt =====
-- Sets of names. The program takes them from the package golang-set, which is not part of the
-- repository: it is an argument of the adapter, with the laws that the adapter relies on.
use Prim.Native.String.{String}
use socket_io.Base.{
  ℕ, ◌≡◌, refl, Bool, true, false, not, ◌&&◌, ◌||◌, List, [], ◌∷◌, length, if◌then◌else◌, arith,
  Bool-cases, inl, inr,
}
use socket_io.Base.Maps.{str_eq, str_eq_iff, str_elem}

abbrev pub Room : Type 0
Room = String

abbrev pub SocketId : Type 0
SocketId = String

-- `each` gives the names in the order in which `Each` visits them.
pub record Sets : Type 1 where
  pub Set : Type 0
  pub empty : Set
  pub add : String → Set → Set
  pub remove : String → Set → Set
  pub contains : String → Set → Bool
  pub cardinality : Set → ℕ
  pub each : Set → List String
  pub contains-empty : (k : String) → contains k empty ≡ false
  pub contains-add : (k j : String) (s : Set) → contains j (add k s) ≡ (str_eq k j || contains j s)
  pub contains-remove :
      (k j : String) (s : Set) → contains j (remove k s) ≡ (not (str_eq k j) && contains j s)
  pub elem-each : (k : String) (s : Set) → str_elem k (each s) ≡ contains k s
  pub length-each : (s : Set) → length (each s) ≡ cardinality s

-- Lists of names meet the laws.
unfoldable pub remove_name : String → List String → List String
remove_name k [] = []
remove_name k (j ∷ s) = if str_eq k j then remove_name k s else j ∷ remove_name k s

pub str_elem-remove_name :
    (k j : String) (s : List String)
    → str_elem j (remove_name k s) ≡ (not (str_eq k j) && str_elem j s)
unfolding remove_name str_elem
str_elem-remove_name k j [] = ground arith
str_elem-remove_name k j (i ∷ s) =
    ground (arith, str_elem-remove_name k j s, str_eq_iff k j, str_eq_iff k i, str_eq_iff i j)

unfoldable pub add_name : String → List String → List String
add_name k s = if str_elem k s then s else k ∷ s

absorbed :
    (k j : String) (s : List String)
    → str_elem k s ≡ true
    → str_elem j s ≡ (str_eq k j || str_elem j s)
absorbed k j s e = elim (Bool-cases (str_eq k j)) [
  | inl q ↦ rw q (rw ((str_eq_iff k j).0 q) at e)
  | inr q ↦ rw q
]

pub str_elem-add_name :
    (k j : String) (s : List String) → str_elem j (add_name k s) ≡ (str_eq k j || str_elem j s)
unfolding add_name
str_elem-add_name k j s = elim (Bool-cases (str_elem k s)) [
  | inl e ↦ rw e (absorbed k j s e)
  | inr e ↦ rw e (unfold str_elem in refl)
]

pub str_elem-nil : (k : String) → str_elem k [] ≡ false
unfolding str_elem
str_elem-nil k = refl

abbrev pub list_sets : Sets
list_sets = record {
  Set = List String;
  empty = [];
  add = add_name;
  remove = remove_name;
  contains = str_elem;
  cardinality = length;
  each = λ s. s;
  contains-empty = str_elem-nil;
  contains-add = str_elem-add_name;
  contains-remove = str_elem-remove_name;
  elem-each = λ k s. refl;
  length-each = λ s. refl;
}
