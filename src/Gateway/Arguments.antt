-- ===== src/Gateway/Arguments.antt =====
-- `_canonical_arguments`: the checked form of a tool's arguments, with the keys of every object sorted. A
-- key that is not a text is left out. The order in which the items are visited decides only which of
-- several faults is raised, so that one error stands for all, and the members are sorted afterwards.
use zdx_paralell_pyxel_vm.Base.{ℕ, zero, suc, ◌+◌, String, Bool, [], ◌∷◌, ltb, if◌then◌else◌}
use zdx_paralell_pyxel_vm.Base.Results.{Result, ok, err, ◌>>=◌, ◌>>◌, refuse_if}
use zdx_paralell_pyxel_vm.Compiler.Text.{Text, codes, text_lt}

-- The values that JSON has, floats by their text.
mutual
  pub data Argument : Type 0 where
    null : Argument
    flag : Bool → Argument
    whole : Bool → ℕ → Argument
    float_text : String → Argument
    text : String → Argument
    items : Items → Argument
    object : Members → Argument

  pub data Items : Type 0 where
    no_items : Items
    item : Argument → Items → Items

  pub data Members : Type 0 where
    no_members : Members
    member : String → Argument → Members → Members

-- Bytes in UTF-8.
unfoldable pub encoded_length : Text → ℕ
encoded_length [] = 0
encoded_length (c ∷ s) =
    (if ltb c 128 then 1 else if ltb c 2048 then 2 else if ltb c 65536 then 3 else 4)
    + encoded_length s

pub data ArgumentError : Type 0 where
  invalid_arguments : ArgumentError

-- A member put in its place among sorted ones.
unfoldable pub insert_member : String → Argument → Members → Members
insert_member k v no_members = member k v no_members
insert_member k v (member j w ms) =
    let rest = insert_member k v ms in
    if text_lt (codes j) (codes k) then member j w rest else member k v (member j w ms)

abbrev pub spend_one : ℕ → Result ArgumentError ℕ
spend_one zero = err invalid_arguments
spend_one (suc budget) = ok budget

-- At a depth and with a budget of items: the canonical form, and the budget that is left.
unfoldable mutual
  unfolding encoded_length insert_member

  pub canonical_value : ℕ → ℕ → Argument → Result ArgumentError (Argument × ℕ)
  canonical_value depth budget (items l) =
      refuse_if (ltb 16 depth) invalid_arguments >> spend_one budget >>= λ left.
      canonical_items (suc depth) left l >>= λ r. ok (items r.0, r.1)
  canonical_value depth budget (object ms) =
      refuse_if (ltb 16 depth) invalid_arguments >> spend_one budget >>= λ left.
      canonical_members (suc depth) left ms >>= λ r. ok (object r.0, r.1)
  canonical_value depth budget (text s) =
      refuse_if (ltb 16 depth) invalid_arguments >> spend_one budget >>= λ left.
      refuse_if (ltb 16384 (encoded_length (codes s))) invalid_arguments >> ok (text s, left)
  canonical_value depth budget (float_text s) = err invalid_arguments
  canonical_value depth budget null =
      refuse_if (ltb 16 depth) invalid_arguments >> spend_one budget >>= λ left. ok (null, left)
  canonical_value depth budget (flag b) =
      refuse_if (ltb 16 depth) invalid_arguments >> spend_one budget >>= λ left. ok (flag b, left)
  canonical_value depth budget (whole sign n) =
      refuse_if (ltb 16 depth) invalid_arguments >> spend_one budget >>= λ left.
      ok (whole sign n, left)

  pub canonical_items : ℕ → ℕ → Items → Result ArgumentError (Items × ℕ)
  canonical_items depth budget no_items = ok (no_items, budget)
  canonical_items depth budget (item v l) = canonical_value depth budget v >>= λ first.
      canonical_items depth first.1 l >>= λ rest. ok (item first.0 rest.0, rest.1)

  pub canonical_members : ℕ → ℕ → Members → Result ArgumentError (Members × ℕ)
  canonical_members depth budget no_members = ok (no_members, budget)
  canonical_members depth budget (member k v ms) =
      refuse_if (ltb 512 (encoded_length (codes k))) invalid_arguments
      >> canonical_value depth budget v
      >>= λ first.
          canonical_members depth first.1 ms >>= λ rest. ok (insert_member k first.0 rest.0, rest.1)

-- `_canonical_arguments(dict(arguments or {}))`
unfoldable pub canonical_arguments : Members → Result ArgumentError Members
unfolding canonical_members
canonical_arguments ms = canonical_members 1 2047 ms >>= λ r. ok r.0
