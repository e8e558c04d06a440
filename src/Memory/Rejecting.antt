-- ===== src/Memory/Rejecting.antt =====
-- What `set` does in a namespace that rejects, and what it leaves of the other entries.
use zdx_paralell_pyxel_vm.Base.{
  ℕ, zero, suc, ◌+◌, ◌≡◌, sym, ap, subst, ◌∙◌, String, true, false, ◌&&◌, str_eq, eq_iff, length,
  arith, Bool-cases, inl, inr,
}
use zdx_paralell_pyxel_vm.Base.Dict.{Dict, get, insert, get-insert}
use zdx_paralell_pyxel_vm.Base.Results.{ok, bind_ok}
use zdx_paralell_pyxel_vm.Compiler.Text.{Text}
use zdx_paralell_pyxel_vm.Memory.Manager.{
  Policy, reject, Entry, Root, Store, with_entries, enforce_namespace, ensure_capacity, set_locked,
  entries_of, get_value,
}

-- The root after a value is stored without evictions.
abbrev pub stored_root : String → String → Text → Dict Entry → Root → Root
stored_root n key value d r =
    with_entries n (insert key (record { sequence = r.next_sequence; value = value }) d)
      (record r { next_sequence = r.next_sequence + 1 })

-- Another entry than the one at this place.
abbrev pub IsElsewhere : String → String → String → String → Type 0
IsElsewhere n k j i = (str_eq n j && str_eq k i) ≡ false

pub entries_of-own :
    (n : String) (d : Dict Entry) (r : Root) → entries_of n (with_entries n d r) ≡ d
entries_of-own n d r = ground (arith, get-insert n n d r.namespaces, eq_iff n n)

pub entry_elsewhere :
    (n j i : String) (d : Dict Entry) (r s : Root)
    → s.namespaces ≡ r.namespaces
    → (str_eq n j ≡ true → get i d ≡ get i (entries_of n r))
    → get i (entries_of j (with_entries n d s)) ≡ get i (entries_of j r)
entry_elsewhere n j i d r s h e = elim (Bool-cases (str_eq n j)) [
  | inl same ↦
      let q : n ≡ j = ground (arith, same, eq_iff n j) in
      ap (get i) (subst (λ x. entries_of x (with_entries n d s) ≡ d) q (entries_of-own n d s))
      ∙ e same
      ∙ ap (λ x. get i (entries_of x r)) q
  | inr other ↦ ap (get i) (other_entries other)
]
  where
    other_entries : str_eq n j ≡ false → entries_of j (with_entries n d s) ≡ entries_of j r
    other_entries other = ground (arith, get-insert n j d s.namespaces, other, h)

module _ (policies : Dict Policy) (j i : String) where
  pub get_value_same :
      (r s : Root)
      → get i (entries_of j r) ≡ get i (entries_of j s)
      → get_value policies j i r ≡ get_value policies j i s
  unfolding get_value
  get_value_same r s h = ground (arith, h)

module _ (st : Store) (p : Policy) (rejects : p.eviction ≡ reject) where
  enforce_namespace-reject :
      (key : String) (fuel : ℕ) (d left : Dict Entry)
      → enforce_namespace st p key fuel d ≡ ok left
      → left ≡ d
  unfolding enforce_namespace
  enforce_namespace-reject key zero d left h = cc
  enforce_namespace-reject key (suc fuel) d left h =
      ground (arith, rejects, rw (rejects, enforce_namespace) at h)

  ensure_capacity-reject :
      (n key : String) (fuel : ℕ) (d left : Dict Entry) (r : Root)
      → ensure_capacity st p n key fuel d r ≡ ok left
      → left ≡ d
  unfolding ensure_capacity
  ensure_capacity-reject n key zero d left r h = cc
  ensure_capacity-reject n key (suc fuel) d left r h =
      ground (arith, rejects, rw (rejects, ensure_capacity) at h)

  pub set_locked-reject :
      (n key : String) (value : Text) (d : Dict Entry) (r after : Root)
      → set_locked st p n key value d r ≡ ok after
      → after ≡ stored_root n key value d r
  unfolding set_locked
  set_locked-reject n key value d r after h =
      let stored : Dict Entry =
        insert key (record { sequence = r.next_sequence; value = value }) d in
      let counted : Root = record r { next_sequence = r.next_sequence + 1 } in
      let (some_left, enforced, rest) =
        bind_ok (enforce_namespace st p key (suc (length stored)) stored) _ h in
      let (left, ensured, last) =
        bind_ok (ensure_capacity st p n key (suc (length some_left)) some_left counted) _ rest in
      let same : left ≡ stored =
        ensure_capacity-reject n key (suc (length some_left)) some_left left counted ensured
        ∙ enforce_namespace-reject key (suc (length stored)) stored some_left enforced in
      let done : with_entries n left counted ≡ after = cc last in
      sym done ∙ ap (λ x. with_entries n x counted) same
