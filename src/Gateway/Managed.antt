-- ===== src/Gateway/Managed.antt =====
-- SpatialAgentMemoryManager as the memory of the gateway: its namespaces reject instead of evicting, and
-- a record is stored as its JSON text, with `print` and `parse` as parameters.
use zdx_paralell_pyxel_vm.Base.{
  ℕ, ◌+◌, ◌≡◌, refl, sym, ap, ◌∙◌, String, Bool, true, Option, none, some, List, [], eq_iff, arith,
  Bool-cases, Option-cases, inl, inr,
}
use zdx_paralell_pyxel_vm.Base.Dict.{
  Dict, get, contains, insert, delete, contains_lem, get-insert, get-delete,
}
use zdx_paralell_pyxel_vm.Base.Results.{Result, ok, err}
use zdx_paralell_pyxel_vm.Compiler.Text.{Text}
use zdx_paralell_pyxel_vm.Memory.Manager.{
  Policy, reject, Entry, Root, Store, MemoryError, with_entries, set_locked, set, entries_of,
  valid_key, get_value, delete_key,
}
use zdx_paralell_pyxel_vm.Gateway.Policy.{AgentToolPolicy}
use zdx_paralell_pyxel_vm.Gateway.Proposal.{Action, Marker}
use zdx_paralell_pyxel_vm.Gateway.Store.{Stored, ToolMemory, Handler}
use zdx_paralell_pyxel_vm.Gateway.Execute.{World}
use zdx_paralell_pyxel_vm.Gateway.Execute.Once.{IsOnceEach}
use zdx_paralell_pyxel_vm.Gateway.Execute.Calls.{Event, served, served-IsOnceEach}
use zdx_paralell_pyxel_vm.Memory.Rejecting.{
  stored_root, IsElsewhere, entries_of-own, entry_elsewhere, get_value_same, set_locked-reject,
}

module _ (st : Store) (policies : Dict Policy)
    (rejecting : (n : String) (p : Policy) → get n policies ≡ some p → p.eviction ≡ reject)
    (print : Stored → Text) (parse : Text → Stored)
    (parse-print : (v : Stored) → parse (print v) ≡ v) where
  abbrev pub parsed : Result MemoryError (Option Text) → Option Stored
  parsed (err e) = none
  parsed (ok none) = none
  parsed (ok (some t)) = some (parse t)

  abbrev pub kept : Result MemoryError Root → Option Root
  kept (err e) = none
  kept (ok r) = some r

  abbrev pub removed : Result MemoryError (Bool × Root) → Option (Bool × Root)
  removed (err e) = none
  removed (ok r) = some r

  -- A write that succeeds was allowed, and put the entry in its place.
  written :
      (n key : String) (v : Text) (r after : Root)
      → kept (set st policies n key v r) ≡ some after
      → (contains n policies ≡ true)
        × (valid_key key ≡ true)
        × (after ≡ stored_root n key v (entries_of n r) r)
  unfolding set
  written n key v r after h = elim (Option-cases (get n policies)) [
    | inl unknown ↦ cc (rw (unknown, set) at h)
    | inr (p, there) ↦
        let valid : valid_key key ≡ true = ground (arith, rw (there, set) at h) in
        let stored : set_locked st p n key v (entries_of n r) r ≡ ok after =
          ground (arith, rw (there, set) at h) in
        (
          ground (arith, contains_lem n policies, there),
          valid,
          set_locked-reject st p (rejecting n p there) n key v (entries_of n r) r after stored,
        )
  ]

  abbrev pub managed_read : String → String → Root → Option Stored
  managed_read n k r = parsed (get_value policies n k r)

  pub managed_read-write :
      (n k : String) (v : Stored) (r after : Root)
      → kept (set st policies n k (print v) r) ≡ some after
      → managed_read n k after ≡ some v
  unfolding get_value
  managed_read-write n k v r after h =
      let (known, valid, same) = written n k (print v) r after h in
      let d : Dict Entry =
        insert k (record { sequence = r.next_sequence; value = print v }) (entries_of n r) in
      let there : get k (entries_of n after)
          ≡ some (record { sequence = r.next_sequence; value = print v }) =
        ap (λ x. get k (entries_of n x)) same
        ∙ ap (get k) (entries_of-own n d (record r { next_sequence = r.next_sequence + 1 }))
        ∙ ground (
          arith,
          get-insert k k (record { sequence = r.next_sequence; value = print v }) (entries_of n r),
          eq_iff k k,
        ) in
      rw (known, valid, there, get_value) (ap (λ x. some x) (parse-print v))

  pub managed_read_other-write :
      (n k j i : String) (v : Stored) (r after : Root)
      → kept (set st policies n k (print v) r) ≡ some after
      → IsElsewhere n k j i
      → managed_read j i after ≡ managed_read j i r
  managed_read_other-write n k j i v r after h other =
      let (known, valid, same) = written n k (print v) r after h in
      let e : Entry = record { sequence = r.next_sequence; value = print v } in
      ap parsed (
        ap (get_value policies j i) same
        ∙ get_value_same policies j i (stored_root n k (print v) (entries_of n r) r) r (
            entry_elsewhere n j i (insert k e (entries_of n r)) r
              (record r { next_sequence = r.next_sequence + 1 }) refl
              (λ here. ground (arith, here, other, get-insert k i e (entries_of n r)))))

  pub managed_read_other-remove :
      (n k j i : String) (r after : Root) (there : Bool)
      → removed (delete_key policies n k r) ≡ some (there, after)
      → IsElsewhere n k j i
      → managed_read j i after ≡ managed_read j i r
  unfolding delete_key
  managed_read_other-remove n k j i r after there h other =
      elim (Bool-cases (contains n policies)) [
        | inr unknown ↦ cc (rw (unknown, delete_key) at h)
        | inl known ↦ elim (Bool-cases (valid_key k)) [
          | inr invalid ↦ cc (rw (known, invalid, delete_key) at h)
          | inl valid ↦ elim (Bool-cases (contains k (entries_of n r))) [
            | inr absent ↦
                let same : r ≡ after = cc (rw (known, valid, absent, delete_key) at h) in
                ap (managed_read j i) (sym same)
            | inl present ↦
                let same : with_entries n (delete k (entries_of n r)) r ≡ after =
                  cc (rw (known, valid, present, delete_key) at h) in
                ap (managed_read j i) (sym same)
                ∙ ap parsed (
                    get_value_same policies j i (with_entries n (delete k (entries_of n r)) r) r (
                      entry_elsewhere n j i (delete k (entries_of n r)) r r refl
                        (λ here. ground (arith, here, other, get-delete k i (entries_of n r)))))
          ]
        ]
      ]

  abbrev pub managed_memory : ToolMemory Root
  managed_memory = record {
    read = managed_read;
    write = λ n k v r. kept (set st policies n k (print v) r);
    remove = λ n k r. removed (delete_key policies n k r);
    read-write = managed_read-write;
    read_other-write = managed_read_other-write;
    read_other-remove = managed_read_other-remove;
  }

  -- Over the agent memory manager, too, any sequence of requests and VM steps calls a handler at most once
  -- for an action hash.
  managed-IsOnceEach :
      (checkpoint : Root → Marker → Option Marker) (digest : Action → String)
      (encoded_size : Action → ℕ) (policy_digest : AgentToolPolicy → String)
      (policy : AgentToolPolicy) (handlers : Dict Handler) (es : List Event) (w : World Root)
      → w.calls ≡ []
      → IsOnceEach managed_memory
          (served managed_memory checkpoint digest encoded_size policy_digest policy handlers es w)
  managed-IsOnceEach checkpoint digest encoded_size policy_digest policy handlers es w none_yet =
      served-IsOnceEach managed_memory checkpoint digest encoded_size policy_digest policy handlers
        es w none_yet
