-- ===== src/Memory/Append.antt =====
-- `append` of SpatialAgentMemoryManager, under keys of sequence numbers below 16^16, and its readers.
use Prim.Native.String.{◌++◌ as text_append}
use zdx_paralell_pyxel_vm.Base.{
  ℕ, zero, suc, ◌/◌, ◌%◌, ◌≡◌, subst, String, Bool, none, some, List, [], ◌∷◌, map, get_or, length,
  if◌then◌else◌, Bool-cases, inl, inr,
}
use zdx_paralell_pyxel_vm.Base.Dict.{Dict, get, contains, keys}
use zdx_paralell_pyxel_vm.Base.Results.{Result, ok, err, ◌>>=◌, bind_ok}
use zdx_paralell_pyxel_vm.Base.Sort.{sort_by}
use zdx_paralell_pyxel_vm.Compiler.Text.{Text, codes, text_lt}
use zdx_paralell_pyxel_vm.Memory.Manager.{
  Entry, Policy, Root, Store, MemoryError, unknown_namespace, key_collision, set_locked, entries_of,
}
use zdx_paralell_pyxel_vm.Memory.Quota.{IsStored, set_locked-IsStored}

abbrev hex_digits : List String
hex_digits =
    "0" ∷ "1" ∷ "2" ∷ "3" ∷ "4" ∷ "5" ∷ "6" ∷ "7" ∷ "8" ∷ "9" ∷ "a" ∷ "b" ∷ "c" ∷ "d" ∷ "e" ∷ "f"
    ∷ []

-- So many hexadecimal digits of a number.
unfoldable hex_text : ℕ → ℕ → String
hex_text zero n = ""
hex_text (suc digits) n = text_append (hex_text digits (n / 16)) (get_or hex_digits (n % 16) "")

unfoldable append_key : ℕ → String
unfolding hex_text
append_key sequence = text_append "_append/" (hex_text 16 sequence)

-- `append`: the key, and the root that replaces the session's.
unfoldable append_value :
    Store → Dict Policy → String → Text → Root → Result MemoryError (String × Root)
unfolding set_locked append_key
append_value st policies n value r = elim (get n policies) [
  | none ↦ err unknown_namespace
  | some p ↦
      let key = append_key r.next_sequence in
      let stored = set_locked st p n key value (entries_of n r) r in
      if contains key (entries_of n r)
      then err key_collision
      else (stored >>= λ after. ok (key, after))
]

abbrev key_before : String × Entry → String × Entry → Bool
key_before a b = text_lt (codes a.0) (codes b.0)

-- `keys`
unfoldable sorted_keys : Dict Policy → String → Root → Result MemoryError (List String)
sorted_keys policies n r =
    if contains n policies
    then ok (keys (sort_by key_before (entries_of n r)))
    else err unknown_namespace

unfoldable snapshot : Dict Policy → String → Root → Result MemoryError (Dict Text)
snapshot policies n r =
    if contains n policies
    then ok (map (λ e. (e.0, e.1.value)) (sort_by key_before (entries_of n r)))
    else err unknown_namespace

-- What `usage` says of a namespace.
record Usage : Type 0 where
  entries : ℕ
  encoded_bytes : ℕ
  policy : Policy

unfoldable usage_of : Store → Dict Policy → String → Root → Result MemoryError Usage
usage_of st policies n r = elim (get n policies) [
  | none ↦ err unknown_namespace
  | some p ↦ ok (record {
    entries = length (entries_of n r);
    encoded_bytes = st.value_size (entries_of n r);
    policy = p;
  })
]

-- An append that succeeds stores the value as a `set` does, under the key that it returns.
append_value_stores :
    (st : Store) (policies : Dict Policy) (p : Policy) (n key : String) (value : Text)
    (r after : Root)
    → get n policies ≡ some p
    → append_value st policies n value r ≡ ok (key, after)
    → IsStored st p n key value (entries_of n r) r after
unfolding append_value
append_value_stores st policies p n key value r after there h =
    elim (Bool-cases (contains (append_key r.next_sequence) (entries_of n r))) [
      | inl taken ↦ cc (rw (there, taken, append_value) at h)
      | inr free ↦
          let (root, stored, last) =
            bind_ok (set_locked st p n (append_key r.next_sequence) value (entries_of n r) r) _
              (rw (there, free, append_value) at h) in
          let same_key : append_key r.next_sequence ≡ key = cc last in
          let same_root : root ≡ after = cc last in
          subst (λ k. IsStored st p n k value (entries_of n r) r after) same_key
            (subst (λ x. IsStored st p n (append_key r.next_sequence) value (entries_of n r) r x)
              same_root
              (set_locked-IsStored st p n (append_key r.next_sequence) value (entries_of n r) r root
                stored))
    ]
