-- ===== src/Contracts.antt =====
-- openclaw_memory_os/contracts.py: the identity of a memory, `MemoryRef`, and its text form.
pub mod Keys
use openclaw_memory_os.Prelude.{
  ℕ, ◌||◌, not, Option, ◌∷◌, ◌++◌, or_else, if◌then◌else◌, value_error, Result, ok, err, guard, [],
  ◌>>◌, ◌>>=◌,
}
use openclaw_memory_os.Prelude.Text.{Text, strip, is_empty, contains_char, before_char, after_char}

pub record MemoryRef : Type 0 where
  pub collection : Text
  pub memory_id : Text

abbrev pub colon : ℕ
colon = b':'

-- The model's constructor refuses empty fields (`min_length=1`).
unfoldable pub make_ref : Text → Text → Result MemoryRef
make_ref collection memory_id =
    if is_empty collection || is_empty memory_id
    then err value_error
    else ok (record { collection = collection; memory_id = memory_id })

unfoldable pub key : MemoryRef → Text
key r = r.collection ++ (colon ∷ r.memory_id)

unfoldable pub from_key : Text → Result MemoryRef
unfolding make_ref
from_key k = do
  guard (not (is_empty k)) value_error
  guard (contains_char colon k) value_error
  let collection = before_char colon k
  let memory_id = after_char colon k
  guard (not (is_empty collection || is_empty memory_id)) value_error
  make_ref collection memory_id

-- `x or d`: an empty text counts as missing.
abbrev text_or : Text → Text → Text
text_or [] d = d
text_or (c ∷ s) d = c ∷ s

abbrev unknown : Text
unknown = b'u' ∷ b'n' ∷ b'k' ∷ b'n' ∷ b'o' ∷ b'w' ∷ b'n' ∷ []

unfoldable pub candidate_key : Option Text → Option Text → Result Text
candidate_key collection memory_id = do
  let c = text_or (strip (or_else collection [])) unknown
  let m = strip (or_else memory_id [])
  guard (not (is_empty m)) value_error
  ok (c ++ (colon ∷ m))
