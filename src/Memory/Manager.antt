-- ===== src/Memory/Manager.antt =====
-- SpatialAgentMemoryManager: policies, quotas with eviction, and the operations on entries. A value is
-- its JSON text. The estimates of the pixel store are parameters: the size of a namespace with given
-- entries, and of the document with a given root.
use zdx_paralell_pyxel_vm.Base.{
  ℕ, zero, suc, ◌+◌, String, Bool, true, false, not, ◌&&◌, ◌||◌, Option, none, some, [], ◌∷◌, ltb,
  leb, ◌==◌, str_eq, if◌then◌else◌, length,
}
use zdx_paralell_pyxel_vm.Base.Dict.{Dict, get, contains, insert, delete}
use zdx_paralell_pyxel_vm.Base.Results.{Result, ok, err, ◌>>=◌, ◌>>◌, refuse_if}
use zdx_paralell_pyxel_vm.Compiler.Text.{Text, codes, text_lt}

pub data Eviction : Type 0 where
  reject fifo : Eviction

pub record Policy : Type 0 where
  pub max_bytes : ℕ
  pub max_entries : ℕ
  pub eviction : Eviction

pub record Entry : Type 0 where
  pub sequence : ℕ
  pub value : Text

pub record Root : Type 0 where
  pub next_sequence : ℕ
  pub namespaces : Dict (Dict Entry)

pub record Store : Type 0 where
  pub value_size : Dict Entry → ℕ
  pub document_size : Root → ℕ
  pub capacity_bytes : ℕ

pub data MemoryError : Type 0 where
  unknown_namespace invalid_key reserved_key quota_exceeded cannot_fit out_of_fuel : MemoryError
  document_too_large key_collision : MemoryError

-- Of two candidates (sequence, key), the one that `min` takes first.
abbrev pub comes_before : ℕ × String → ℕ × String → Bool
comes_before p q = ltb p.0 q.0 || (p.0 == q.0 && text_lt (codes p.1) (codes q.1))

abbrev pub earlier : ℕ × String → Option (ℕ × String) → ℕ × String
earlier p none = p
earlier p (some q) = if comes_before q p then q else p

-- `_oldest_key`, with the sequence number of the entry.
unfoldable pub oldest : String → Dict Entry → Option (ℕ × String)
oldest exclude [] = none
oldest exclude ((k, e) ∷ d) =
    let rest = oldest exclude d in
    if str_eq k exclude then rest else some (earlier (e.sequence, k) rest)

-- `_enforce_namespace` on the entries of the namespace, with `fuel` rounds.
unfoldable pub enforce_namespace :
    Store → Policy → String → ℕ → Dict Entry → Result MemoryError (Dict Entry)
unfolding oldest
enforce_namespace st p protected zero entries = err out_of_fuel
enforce_namespace st p protected (suc fuel) entries =
    if ltb p.max_entries (length entries) || ltb p.max_bytes (st.value_size entries)
    then (elim p.eviction [
      | reject ↦ err quota_exceeded
      | fifo ↦ elim (oldest protected entries) [
        | none ↦ err cannot_fit
        | some victim ↦ enforce_namespace st p protected fuel (delete victim.1 entries)
      ]
    ])
    else ok entries

-- The root with other entries in the namespace.
abbrev pub with_entries : String → Dict Entry → Root → Root
with_entries n entries r = record r { namespaces = insert n entries r.namespaces }

-- `_ensure_global_capacity_with_fifo`: it evicts from the entries of the namespace.
unfoldable pub ensure_capacity :
    Store → Policy → String → String → ℕ → Dict Entry → Root → Result MemoryError (Dict Entry)
ensure_capacity st p n protected zero entries r = err out_of_fuel
ensure_capacity st p n protected (suc fuel) entries r =
    if ltb st.capacity_bytes (st.document_size (with_entries n entries r))
    then (elim p.eviction [
      | reject ↦ err document_too_large
      | fifo ↦ elim (oldest protected entries) [
        | none ↦ err document_too_large
        | some victim ↦ ensure_capacity st p n protected fuel (delete victim.1 entries) r
      ]
    ])
    else ok entries

-- `_set_locked`, for a namespace with these entries: the root that replaces the session's, or an error
-- and the session's root stays. A round of a loop drops an entry, so one more than there are is enough.
unfoldable pub set_locked :
    Store → Policy → String → String → Text → Dict Entry → Root → Result MemoryError Root
unfolding enforce_namespace ensure_capacity
set_locked st p n key value entries r =
    let stored = insert key (record { sequence = r.next_sequence; value = value }) entries in
    let counted = record r { next_sequence = r.next_sequence + 1 } in
    enforce_namespace st p key (suc (length stored)) stored >>= λ some_left.
    ensure_capacity st p n key (suc (length some_left)) some_left counted >>= λ left.
    ok (with_entries n left counted)

-- The key pattern `[A-Za-z0-9_.:/-]{1,160}`.
unfoldable pub all_key_chars : Text → Bool
all_key_chars [] = true
all_key_chars (c ∷ s) =
    ((leb b'A' c && leb c b'Z')
      || (leb b'a' c && leb c b'z')
      || (leb b'-' c && leb c b':')
      || c == b'_')
    && all_key_chars s

unfoldable pub valid_key : String → Bool
unfolding all_key_chars
valid_key key = let s = codes key in leb 1 (length s) && leb (length s) 160 && all_key_chars s

unfoldable pub starts_with : Text → Text → Bool
starts_with [] s = true
starts_with (c ∷ p) [] = false
starts_with (c ∷ p) (d ∷ s) = c == d && starts_with p s

-- The entries of the namespace. The constructor gives every namespace that has a policy its entries, so
-- that the source finds them where it has found the policy.
abbrev pub entries_of : String → Root → Dict Entry
entries_of n r = elim (get n r.namespaces) [ none ↦ [] | some entries ↦ entries ]

unfoldable pub set : Store → Dict Policy → String → String → Text → Root → Result MemoryError Root
unfolding set_locked valid_key starts_with
set st policies n key value r = elim (get n policies) [
  | none ↦ err unknown_namespace
  | some p ↦
      refuse_if (not (valid_key key)) invalid_key
      >> refuse_if (starts_with (codes "_append/") (codes key)) reserved_key
      >> set_locked st p n key value (entries_of n r) r
]

-- `get`; `none` is the default.
unfoldable pub get_value : Dict Policy → String → String → Root → Result MemoryError (Option Text)
unfolding valid_key
get_value policies n key r =
    if not (contains n policies)
    then err unknown_namespace
    else if not (valid_key key)
    then err invalid_key
    else ok (elim (get key (entries_of n r)) [ none ↦ none | some e ↦ some e.value ])

-- `delete`: whether the key was there, and the root.
unfoldable pub delete_key : Dict Policy → String → String → Root → Result MemoryError (Bool × Root)
unfolding valid_key
delete_key policies n key r =
    if not (contains n policies)
    then err unknown_namespace
    else if not (valid_key key)
    then err invalid_key
    else if contains key (entries_of n r)
    then ok (true, with_entries n (delete key (entries_of n r)) r)
    else ok (false, r)

unfoldable pub clear : Dict Policy → String → Root → Result MemoryError Root
clear policies n r = if contains n policies then ok (with_entries n [] r) else err unknown_namespace
