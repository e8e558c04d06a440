-- ===== src/Memory/Eviction.antt =====
-- The oldest entry, and the loops that evict it.
use zdx_paralell_pyxel_vm.Base.{
  ℕ, zero, suc, ◌<◌, ◌≡◌, ◌≢◌, refl, String, Bool, false, Option, none, some, [], ◌∷◌, ◌||◌, arith,
  ltb, str_eq, eq_iff, length, Bool-cases, Option-cases, inl, inr, ◌⊎◌,
}
use zdx_paralell_pyxel_vm.Base.Dict.{Dict, get, delete, length-delete}
use zdx_paralell_pyxel_vm.Base.Results.{Result, ok, err}
use zdx_paralell_pyxel_vm.Memory.Manager.{
  Eviction, quota_exceeded, cannot_fit, document_too_large, Entry, Policy, Root, Store, reject,
  fifo, oldest, earlier, comes_before, enforce_namespace, ensure_capacity, out_of_fuel,
  with_entries, MemoryError,
}

Eviction-cases : (e : Eviction) → (e ≡ reject) ⊎ (e ≡ fifo)
Eviction-cases reject = inl refl
Eviction-cases fifo = inr refl

earlier-holds {κ} :
    (P : ℕ × String → Type κ) (p : ℕ × String) (o : Option (ℕ × String))
    → P p
    → ((q : ℕ × String) → o ≡ some q → P q)
    → P (earlier p o)
earlier-holds P p none h all = h
earlier-holds P p (some q) h all = elim (Bool-cases (comes_before q p)) [
  | inl first ↦ rw first (all q refl)
  | inr second ↦ rw second h
]

-- The victim stands in the entries, and is not the protected key.
abbrev pub Stands : String → Dict Entry → ℕ × String → Type 0
Stands exclude d v = (v.1 ≢ exclude) × (e : Entry) × (get v.1 d ≡ some e)

get_head : (k : String) (e : Entry) (d : Dict Entry) → get k ((k, e) ∷ d) ≡ some e
unfolding get
get_head k e d = ground (arith, eq_iff k k)

get_tail :
    (j k : String) (e f : Entry) (d : Dict Entry)
    → get j d ≡ some f
    → (g : Entry) × (get j ((k, e) ∷ d) ≡ some g)
unfolding get
get_tail j k e f d h = elim (Bool-cases (str_eq k j)) [
  | inl same ↦ (e, rw (same, get) refl)
  | inr other ↦ (f, rw (other, get) h)
]

pub oldest-Stands :
    (exclude : String) (d : Dict Entry) (v : ℕ × String)
    → oldest exclude d ≡ some v
    → Stands exclude d v
unfolding oldest
oldest-Stands exclude [] v h = cc
oldest-Stands exclude ((k, e) ∷ d) v h =
    let below : (q : ℕ × String) → oldest exclude d ≡ some q → Stands exclude ((k, e) ∷ d) q =
      λ q f.
        let (other, g, there) = oldest-Stands exclude d q f in
        let (f, stands) = get_tail q.1 k e g d there in (other, f, stands) in
    elim (Bool-cases (str_eq k exclude)) [
      | inl skipped ↦ below v (rw (skipped, oldest) at h)
      | inr counted ↦
          let same : earlier (e.sequence, k) (oldest exclude d) ≡ v =
            cc (rw (counted, oldest) at h) in
          rw same at (
            earlier-holds (Stands exclude ((k, e) ∷ d)) (e.sequence, k) (oldest exclude d)
              (ground (arith, eq_iff k exclude, counted), e, get_head k e d) below)
    ]

-- The entries that are left when the oldest one has been dropped `n` times.
abbrev pub Evicted : String → ℕ → Dict Entry → Dict Entry → Type 0
Evicted protected zero d left = d ≡ left
Evicted protected (suc n) d left =
    (v : ℕ × String) × (oldest protected d ≡ some v) × Evicted protected n (delete v.1 d) left

abbrev pub over_quota : Store → Policy → Dict Entry → Bool
over_quota st p d = ltb p.max_entries (length d) || ltb p.max_bytes (st.value_size d)

-- How a loop ends: with an error of the source, or with what is left of the entries.
abbrev pub Ends :
    (Dict Entry → Bool) → String → Dict Entry → Result MemoryError (Dict Entry) → Type 0
Ends over protected d m =
    ((e : MemoryError) × (m ≡ err e) × (e ≢ out_of_fuel))
    ⊎ ((n : ℕ) × (left : Dict Entry) × (m ≡ ok left)
        × Evicted protected n d left
        × (over left ≡ false))

pub enforce_namespace-Ends :
    (st : Store) (p : Policy) (protected : String) (fuel : ℕ) (d : Dict Entry)
    → length d < fuel
    → Ends (over_quota st p) protected d (enforce_namespace st p protected fuel d)
unfolding enforce_namespace
enforce_namespace-Ends st p protected zero d enough = absurd (omega arith)
enforce_namespace-Ends st p protected (suc fuel) d enough = elim (Bool-cases (over_quota st p d)) [
  | inr within ↦ inr (zero, d, rw (within, enforce_namespace) refl, refl, within)
  | inl over ↦ elim (Eviction-cases p.eviction) [
    | inl rejects ↦ inl (quota_exceeded, rw (over, rejects, enforce_namespace) refl, λ h. cc)
    | inr drops ↦ elim (Option-cases (oldest protected d)) [
      | inl alone ↦ inl (cannot_fit, rw (over, drops, alone, enforce_namespace) refl, λ h. cc)
      | inr (v, chosen) ↦
          let (_, e, there) = oldest-Stands protected d v chosen in
          elim (enforce_namespace-Ends st p protected fuel (delete v.1 d)
            (omega (arith, length-delete v.1 d e there, enough))) [
              | inl (e, raised, known) ↦
                  inl (e, rw (over, drops, chosen, enforce_namespace) raised, known)
              | inr (n, left, done, evicted, within) ↦ inr (
                suc n,
                left,
                rw (over, drops, chosen, enforce_namespace) done,
                (v, chosen, evicted),
                within,
              )
            ]
    ]
  ]
]

abbrev pub over_capacity : Store → String → Root → Dict Entry → Bool
over_capacity st n r d = ltb st.capacity_bytes (st.document_size (with_entries n d r))

pub ensure_capacity-Ends :
    (st : Store) (p : Policy) (n protected : String) (fuel : ℕ) (d : Dict Entry) (r : Root)
    → length d < fuel
    → Ends (over_capacity st n r) protected d (ensure_capacity st p n protected fuel d r)
unfolding ensure_capacity
ensure_capacity-Ends st p n protected zero d r enough = absurd (omega arith)
ensure_capacity-Ends st p n protected (suc fuel) d r enough =
    elim (Bool-cases (over_capacity st n r d)) [
      | inr within ↦ inr (zero, d, rw (within, ensure_capacity) refl, refl, within)
      | inl over ↦ elim (Eviction-cases p.eviction) [
        | inl rejects ↦ inl (document_too_large, rw (over, rejects, ensure_capacity) refl, λ h. cc)
        | inr drops ↦ elim (Option-cases (oldest protected d)) [
          | inl alone ↦
              inl (document_too_large, rw (over, drops, alone, ensure_capacity) refl, λ h. cc)
          | inr (v, chosen) ↦
              let (_, e, there) = oldest-Stands protected d v chosen in
              elim (ensure_capacity-Ends st p n protected fuel (delete v.1 d) r
                (omega (arith, length-delete v.1 d e there, enough))) [
                  | inl (e, raised, known) ↦
                      inl (e, rw (over, drops, chosen, ensure_capacity) raised, known)
                  | inr (m, left, done, evicted, within) ↦ inr (
                    suc m,
                    left,
                    rw (over, drops, chosen, ensure_capacity) done,
                    (v, chosen, evicted),
                    within,
                  )
                ]
        ]
      ]
    ]
