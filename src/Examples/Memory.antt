-- ===== src/Examples/Memory.antt =====
-- A namespace of two entries at most, whose oldest entry is evicted.
use zdx_paralell_pyxel_vm.Base.{ℕ, ◌*◌, refl, [], ◌∷◌, length}
use zdx_paralell_pyxel_vm.Base.Dict.{get, insert, delete}
use zdx_paralell_pyxel_vm.Compiler.Text.{codes, text_lt}
use zdx_paralell_pyxel_vm.Memory.Manager.{
  fifo, Policy, Entry, Root, Store, oldest, enforce_namespace, ensure_capacity, set_locked, set,
  valid_key, all_key_chars, starts_with, entries_of,
}
use zdx_paralell_pyxel_vm.Memory.Quota.{IsStored, set_stores}

abbrev policy : Policy
policy = record { max_bytes = 1000; max_entries = 2; eviction = fifo }

abbrev store : Store
store = record {
  value_size = λ d. length d * 10;
  document_size = λ r. length r.namespaces * 100;
  capacity_bytes = 4096;
}

abbrev entry : ℕ → Entry
entry s = record { sequence = s; value = codes "1" }

abbrev before : Root
before = record {
  next_sequence = 7;
  namespaces = ("notes", ("b", entry 4) ∷ ("a", entry 3) ∷ []) ∷ [];
}

abbrev later : Root
later = record {
  next_sequence = 8;
  namespaces =
      ("notes", ("b", entry 4) ∷ ("c", record { sequence = 7; value = codes "2" }) ∷ []) ∷ [];
}

set_stores_example :
    IsStored store policy "notes" "c" (codes "2") (entries_of "notes" before) before later
unfolding set set_locked enforce_namespace ensure_capacity oldest valid_key all_key_chars
    starts_with get insert delete text_lt
set_stores_example =
    set_stores store (("notes", policy) ∷ []) policy "notes" "c" (codes "2") before later refl refl
