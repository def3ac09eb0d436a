-- ===== src/OpDumper/Tables.antt =====
-- The three maps of op_dumper/operation_opcodes.cpp agree: what one says of a code the others say
-- of its number.
use cmpe220fall.Base.{
  ℕ, Bool, true, false, ◌&&◌, ◌==◌, ==_iff, ltb, List, [], ◌∷◌, Option, none, some, ◌≡◌, refl, ◌<◌,
  arith,
}
use cmpe220fall.OpDumper.Codes.{load_opnum_map, store_opnum_map}
use cmpe220fall.OpDumper.Outcome.{Outcome, ok, exited, out_of_range, map_at, among}
use cmpe220fall.OpDumper.Operation.{
  optype_load, optype_store, get_by_op_num, get_load_by_opcode, get_store_by_opcode,
  get_op_type_by_op_num, load_data_size, store_data_size,
}

abbrev answers : ℕ → Outcome ℕ → Bool
answers n (ok m) = m == n
answers n (exited code) = false
answers n out_of_range = false

-- The sizes that an operation may have, in bytes.
abbrev pub sizes : List ℕ
sizes = 0 ∷ 1 ∷ 2 ∷ 4 ∷ 8 ∷ 16 ∷ 32 ∷ 64 ∷ []

abbrev is_size : Option ℕ → Bool
is_size none = false
is_size (some n) = among sizes n

all_pairs : (ℕ → ℕ → Bool) → List (ℕ × ℕ) → Bool
all_pairs p [] = true
all_pairs p ((k, v) ∷ m) = p k v && all_pairs p m

all_pairs-map_at :
    (p : ℕ → ℕ → Bool) (m : List (ℕ × ℕ)) (k v : ℕ)
    → all_pairs p m ≡ true
    → map_at m k ≡ ok v
    → p k v ≡ true
unfolding all_pairs map_at
all_pairs-map_at p [] k v h e = cc
all_pairs-map_at p ((j, w) ∷ m) k v h e = ground (arith, ==_iff j k, all_pairs-map_at p m k v)

load_pair : ℕ → ℕ → Bool
load_pair k v =
    ltb 0 v
    && ltb v 256
    && answers optype_load (get_op_type_by_op_num v)
    && answers k (get_by_op_num v)
    && is_size (load_data_size v)

store_pair : ℕ → ℕ → Bool
store_pair k v =
    ltb 0 v
    && ltb v 256
    && answers optype_store (get_op_type_by_op_num v)
    && answers k (get_by_op_num v)
    && is_size (store_data_size v)

load_pairs : all_pairs load_pair load_opnum_map ≡ true
unfolding all_pairs load_pair among get_op_type_by_op_num get_by_op_num load_data_size
load_pairs = refl

store_pairs : all_pairs store_pair store_opnum_map ≡ true
unfolding all_pairs store_pair among get_op_type_by_op_num get_by_op_num store_data_size
store_pairs = refl

answers_lem : (n : ℕ) (r : Outcome ℕ) → answers n r ≡ true → r ≡ ok n
answers_lem n (ok m) h = ground (arith, ==_iff m n)
answers_lem n (exited code) h = cc
answers_lem n out_of_range h = cc

is_size_lem : (o : Option ℕ) → is_size o ≡ true → (n : ℕ) × (o ≡ some n) × (among sizes n ≡ true)
is_size_lem none h = absurd (cc)
is_size_lem (some n) h = (n, refl, h)

-- What the maps and switches say of an operation number with the code `k`.
pub record IsNumbered (op_type k n : ℕ) (size : Option ℕ) : Type 0 where
  pub pos : 0 < n
  pub small : n < 256
  pub typed : get_op_type_by_op_num n ≡ ok op_type
  pub coded : get_by_op_num n ≡ ok k
  pub bytes : ℕ
  pub sized : size ≡ some bytes
  pub among_sizes : among sizes bytes ≡ true

module _ (k n : ℕ) where
  pub load-IsNumbered : get_load_by_opcode k ≡ ok n → IsNumbered optype_load k n (load_data_size n)
  unfolding get_load_by_opcode load_pair
  load-IsNumbered e =
      let p = all_pairs-map_at load_pair load_opnum_map k n load_pairs e in
      let s = is_size_lem (load_data_size n) (ground arith) in
      record {
        pos = ground arith;
        small = ground arith;
        typed = answers_lem optype_load (get_op_type_by_op_num n) (ground arith);
        coded = answers_lem k (get_by_op_num n) (ground arith);
        bytes = s.0;
        sized = s.1;
        among_sizes = s.2;
      }

  pub store-IsNumbered :
      get_store_by_opcode k ≡ ok n → IsNumbered optype_store k n (store_data_size n)
  unfolding get_store_by_opcode store_pair
  store-IsNumbered e =
      let p = all_pairs-map_at store_pair store_opnum_map k n store_pairs e in
      let s = is_size_lem (store_data_size n) (ground arith) in
      record {
        pos = ground arith;
        small = ground arith;
        typed = answers_lem optype_store (get_op_type_by_op_num n) (ground arith);
        coded = answers_lem k (get_by_op_num n) (ground arith);
        bytes = s.0;
        sized = s.1;
        among_sizes = s.2;
      }
