-- ===== src/Memory/Quota.antt =====
-- `set`: its loops, its quotas and what it stores.
use zdx_paralell_pyxel_vm.Base.{
  subst, ℕ, zero, suc, ◌+◌, ◌≤◌, ◌≡◌, ◌≢◌, refl, sym, ◌∙◌, String, false, some, arith, eq_iff,
  length, Option-cases, inl, inr, ◌⊎◌, ap,
}
use zdx_paralell_pyxel_vm.Base.Dict.{
  Dict, get, insert, delete, get-delete, get-insert, length-delete-le,
}
use zdx_paralell_pyxel_vm.Base.Results.{ok, err}
use zdx_paralell_pyxel_vm.Compiler.Text.{Text}
use zdx_paralell_pyxel_vm.Memory.Manager.{
  Entry, Policy, Root, Store, MemoryError, out_of_fuel, with_entries, set_locked, set, entries_of,
}
use zdx_paralell_pyxel_vm.Memory.Eviction.{
  oldest-Stands, Evicted, enforce_namespace-Ends, ensure_capacity-Ends, over_quota, over_capacity,
}

-- Evictions keep the protected key, and add nothing.
Evicted-protected :
    (protected : String) (n : ℕ) (d left : Dict Entry)
    → Evicted protected n d left
    → get protected left ≡ get protected d
Evicted-protected protected zero d left e = ap (get protected) (sym e)
Evicted-protected protected (suc n) d left (v, chosen, rest) =
    let (other, _, _) = oldest-Stands protected d v chosen in
    Evicted-protected protected n (delete v.1 d) left rest
    ∙ ground (arith, get-delete v.1 protected d, eq_iff v.1 protected, other)

Evicted-length :
    (protected : String) (n : ℕ) (d left : Dict Entry)
    → Evicted protected n d left
    → length left ≤ length d
Evicted-length protected zero d left e = rw e (omega arith)
Evicted-length protected (suc n) d left (v, chosen, rest) =
    omega (arith, Evicted-length protected n (delete v.1 d) left rest, length-delete-le v.1 d)

module _ (st : Store) (p : Policy) (n key : String) (value : Text) (d : Dict Entry) (r : Root) where
  abbrev fresh_entry : Entry
  fresh_entry = record { sequence = r.next_sequence; value = value }

  abbrev counted : Root
  counted = record r { next_sequence = r.next_sequence + 1 }

  -- The entries that a `set` leaves, and what the two loops have done to get there.
  abbrev Leaves : Dict Entry → Type 0
  Leaves left =
      (i j : ℕ) × (some_left : Dict Entry) × Evicted key i (insert key fresh_entry d) some_left
      × (over_quota st p some_left ≡ false)
      × Evicted key j some_left left
      × (over_capacity st n counted left ≡ false)

  set_locked-Ends :
      ((e : MemoryError) × (set_locked st p n key value d r ≡ err e) × (e ≢ out_of_fuel))
      ⊎ ((left : Dict Entry) × (set_locked st p n key value d r ≡ ok (with_entries n left counted))
          × Leaves left)
  unfolding set_locked
  set_locked-Ends =
      let stored = insert key fresh_entry d in
      elim (enforce_namespace-Ends st p key (suc (length stored)) stored (omega arith)) [
        | inl (e, raised, known) ↦ inl (e, rw (raised, set_locked) refl, known)
        | inr (i, some_left, done, evicted, within) ↦
            elim (ensure_capacity-Ends st p n key (suc (length some_left)) some_left counted
              (omega arith)) [
                | inl (e, raised, known) ↦ inl (e, rw (done, raised, set_locked) refl, known)
                | inr (j, left, finished, dropped, fits) ↦ inr (
                  left,
                  rw (done, finished, set_locked) refl,
                  (i, j, some_left, evicted, within, dropped, fits),
                )
              ]
      ]

  abbrev pub IsStored : Root → Type 0
  IsStored after =
      (left : Dict Entry) × (get n after.namespaces ≡ some left)
      × (get key left ≡ some fresh_entry)
      × (length left ≤ p.max_entries)
      × (st.document_size after ≤ st.capacity_bytes)
      × (after.next_sequence ≡ r.next_sequence + 1)
      × ((m : String) → m ≢ n → get m after.namespaces ≡ get m r.namespaces)

  pub set_locked-IsStored :
      (after : Root) → set_locked st p n key value d r ≡ ok after → IsStored after
  set_locked-IsStored after h = elim set_locked-Ends [
    | inl (e, raised, known) ↦ cc
    | inr (left, done, (i, j, some_left, evicted, within, dropped, fits)) ↦
        let same : with_entries n left counted ≡ after = cc in
        subst IsStored same (
          left,
          ground (arith, get-insert n n left r.namespaces, eq_iff n n),
          Evicted-protected key j some_left left dropped
              ∙ Evicted-protected key i (insert key fresh_entry d) some_left evicted
              ∙ ground (arith, get-insert key key fresh_entry d, eq_iff key key),
          ground (arith, Evicted-length key j some_left left dropped, within),
          ground (arith, fits),
          refl,
          λ m other. ground (arith, get-insert n m left r.namespaces, eq_iff n m, other),
        )
  ]

  set_locked_ends : set_locked st p n key value d r ≢ err out_of_fuel
  set_locked_ends h = elim set_locked-Ends [
    | inl (e, raised, known) ↦ known (cc (raised, h))
    | inr (left, done, leaves) ↦ cc (done, h)
  ]

-- `set` always ends: neither of its loops runs for ever.
set_ends :
    (st : Store) (policies : Dict Policy) (n key : String) (value : Text) (r : Root)
    → set st policies n key value r ≢ err out_of_fuel
unfolding set
set_ends st policies n key value r h = elim (Option-cases (get n policies)) [
  | inl unknown ↦ cc (rw (unknown, set) at h)
  | inr (p, there) ↦
      ground (arith, rw (there, set) at h, set_locked_ends st p n key value (entries_of n r) r)
]

-- A `set` that succeeds stores the value under the key with the next sequence number, whatever it
-- evicts: the namespace then has at most its maximum of entries, the document fits in the store, and
-- every other namespace is as it was.
pub set_stores :
    (st : Store) (policies : Dict Policy) (p : Policy) (n key : String) (value : Text)
    (r after : Root)
    → get n policies ≡ some p
    → set st policies n key value r ≡ ok after
    → IsStored st p n key value (entries_of n r) r after
unfolding set
set_stores st policies p n key value r after there h =
    let stored : set_locked st p n key value (entries_of n r) r ≡ ok after =
      ground (arith, rw (there, set) at h) in
    set_locked-IsStored st p n key value (entries_of n r) r after stored
