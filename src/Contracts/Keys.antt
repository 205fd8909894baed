-- ===== src/Contracts/Keys.antt =====
-- The text form of a memory's identity can be parsed back.
use openclaw_memory_os.Prelude.{◌≡◌, refl, true, false, [], ◌∷◌, ◌++◌, arith, nat_eq, string_eq, ok}
use openclaw_memory_os.Prelude.Text.{Text, is_empty, contains_char, before_char, after_char}
use openclaw_memory_os.Contracts.{MemoryRef, colon, key, from_key}

-- What a ref must be for its key to name it: both parts present, no colon in the collection.
pub record IsAddressable (r : MemoryRef) : Type 0 where
  pub named : is_empty r.collection ≡ false
  pub plain : contains_char colon r.collection ≡ false
  pub identified : is_empty r.memory_id ≡ false

before-append :
    (c m : Text) → contains_char colon c ≡ false → before_char colon (c ++ (colon ∷ m)) ≡ c
before-append [] m h = refl
before-append (d ∷ c) m h = ground (arith, before-append c m)

after-append :
    (c m : Text) → contains_char colon c ≡ false → after_char colon (c ++ (colon ∷ m)) ≡ m
after-append [] m h = refl
after-append (d ∷ c) m h = ground (arith, after-append c m)

contains-append : (c m : Text) → contains_char colon (c ++ (colon ∷ m)) ≡ true
contains-append [] m = refl
contains-append (d ∷ c) m = ground (arith, contains-append c m)

before-after :
    (k : Text)
    → contains_char colon k ≡ true
    → before_char colon k ++ (colon ∷ after_char colon k) ≡ k
before-after [] h = ground arith
before-after (d ∷ k) h = ground (arith, before-after k)

before-plain : (k : Text) → contains_char colon (before_char colon k) ≡ false
before-plain [] = refl
before-plain (d ∷ k) = ground (arith, before-plain k)

-- A ref whose parts are not empty and whose collection has no colon is what `from_key` reads from
-- its key, whatever colons the memory id holds.
pub from_key-key : (r : MemoryRef) → IsAddressable r → from_key (key r) ≡ ok r
unfolding from_key key
from_key-key r v = ground (
  arith,
  before-append r.collection r.memory_id,
  after-append r.collection r.memory_id,
  contains-append r.collection r.memory_id,
)

-- A text that `from_key` accepts is the key of the ref that it returns, and that ref is addressable.
pub key-from_key : (k : Text) (r : MemoryRef) → from_key k ≡ ok r → (key r ≡ k) × IsAddressable r
unfolding from_key key
key-from_key k r h = ground (arith, before-after k, before-plain k)
