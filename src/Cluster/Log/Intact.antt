-- ===== src/Cluster/Log/Intact.antt =====
-- What `append` and `merge` do to a log whose operations carry their hashes.
use zdx_paralell_pyxel_vm.Base.{
  ℕ, ◌+◌, ◌≡◌, refl, ◌∙◌, String, true, false, not, ◌||◌, none, some, [], ◌∷◌, ltb, leb, ◌==◌,
  str_eq, eq_iff, length, arith, Bool-cases, inl, inr,
}
use zdx_paralell_pyxel_vm.Base.Dict.{
  Dict, get, contains, insert, contains_lem, get-insert, IsDict, insert-IsDict,
}
use zdx_paralell_pyxel_vm.Base.Results.{ok}
use zdx_paralell_pyxel_vm.Cluster.Log.{
  Payload, Operation, Snapshot, operation_hash, append, signed, is_intact, merge_operations, merge,
  max_operations,
}

module _ (digest : Operation → String) where
  -- No id stands twice, and every operation is filed under its id and carries its hash.
  pub record IsLog (log : Dict Operation) : Type 0 where
    pub keys_once : IsDict log
    pub intact : (id : String) (o : Operation) → get id log ≡ some o → is_intact digest id o ≡ true

  pub insert-IsLog :
      (id : String) (o : Operation) (log : Dict Operation)
      → IsLog log
      → is_intact digest id o ≡ true
      → IsLog (insert id o log)
  insert-IsLog id o log l h = record {
    keys_once = insert-IsDict id o log l.keys_once;
    intact = λ j p e. ground (arith, l.intact j p, get-insert id j o log, eq_iff id j, e, h);
  }

  -- The loop of `merge` keeps the log, also where it raises.
  pub merge_operations-IsLog :
      (added : ℕ) (incoming log : Dict Operation)
      → IsLog log
      → IsLog (merge_operations digest added incoming log).0
  unfolding merge_operations
  merge_operations-IsLog added [] log l = l
  merge_operations-IsLog added ((id, o) ∷ rest) log l = elim (Bool-cases (contains id log)) [
    | inl old ↦ rw (old, merge_operations) (merge_operations-IsLog added rest log l)
    | inr new ↦ elim (Bool-cases (is_intact digest id o)) [
      | inl good ↦
          rw (new, good, merge_operations)
            (merge_operations-IsLog (added + 1) rest (insert id o log)
              (insert-IsLog id o log l good))
      | inr bad ↦ rw (new, bad, merge_operations) l
    ]
  ]

  -- A loop that succeeds leaves every operation of the log, and of the incoming ones those that the log
  -- did not have.
  pub merge_operations-get :
      (added n : ℕ) (incoming log : Dict Operation) (j : String)
      → (merge_operations digest added incoming log).1 ≡ ok n
      → get j (merge_operations digest added incoming log).0
        ≡ (elim (get j log) [ none ↦ get j incoming | some o ↦ some o ])
  unfolding merge_operations get
  merge_operations-get added n [] log j h = ground arith
  merge_operations-get added n ((id, o) ∷ rest) log j h = elim (Bool-cases (contains id log)) [
    | inl old ↦
        rw (old, merge_operations)
          (merge_operations-get added n rest log j (rw (old, merge_operations) at h)
            ∙ ground (arith, contains_lem id log, old, eq_iff id j))
    | inr new ↦ elim (Bool-cases (is_intact digest id o)) [
      | inl good ↦
          rw (new, good, merge_operations)
            (merge_operations-get (added + 1) n rest (insert id o log) j
                (rw (new, good, merge_operations) at h)
              ∙ ground (arith, contains_lem id log, new, eq_iff id j, get-insert id j o log))
      | inr bad ↦ cc (rw (new, bad, merge_operations) at h)
    ]
  ]

  IsLog-tail :
      (id : String) (o : Operation) (log : Dict Operation)
      → IsLog ((id, o) ∷ log)
      → (is_intact digest id o ≡ true) × IsLog log
  unfolding get
  IsLog-tail id o log l = (
    l.intact id o (ground (arith, eq_iff id id)),
    record {
      keys_once = l.keys_once.1;
      intact = λ j p e. l.intact j p (ground (arith, eq_iff id j, e, l.keys_once.0));
    },
  )

  -- The loop does not raise on the operations of a log.
  pub merge_operations-ok :
      (added : ℕ) (incoming log : Dict Operation)
      → IsLog incoming
      → (n : ℕ) × ((merge_operations digest added incoming log).1 ≡ ok n)
  unfolding merge_operations
  merge_operations-ok added [] log l = (added, refl)
  merge_operations-ok added ((id, o) ∷ rest) log l = elim (Bool-cases (contains id log)) [
    | inl old ↦
        rw (old, merge_operations) (merge_operations-ok added rest log (IsLog-tail id o rest l).1)
    | inr new ↦
        rw (new, (IsLog-tail id o rest l).0, merge_operations)
          (merge_operations-ok (added + 1) rest (insert id o log) (IsLog-tail id o rest l).1)
  ]

  -- A state of the cluster `cluster` as the constructor, `append` and `merge` leave it.
  pub record IsReplica (cluster : String) (s : Snapshot) : Type 0 where
    pub first_version : s.version ≡ 1
    pub same_cluster : s.cluster_id ≡ cluster
    pub bounded : ltb max_operations (length s.operations) ≡ false
    pub log : IsLog s.operations

  -- Replicas do not have different operations under one id.
  abbrev pub Agree : Snapshot → Snapshot → Type 0
  Agree s t =
      (id : String) (o p : Operation)
      → get id s.operations ≡ some o
      → get id t.operations ≡ some p
      → o ≡ p

  signed-is_intact :
      (id : String) (o : Operation)
      → o.operation_id ≡ id
      → is_intact digest id (signed digest o) ≡ true
  unfolding operation_hash
  signed-is_intact id o h =
      let hash : String = digest (record o { operation_hash = "" }) in
      ground (arith, h, eq_iff o.operation_id id, eq_iff hash hash)

  append-IsLog :
      (s : Snapshot) (id kind origin : String) (now : ℕ) (payload : Payload)
      → IsLog s.operations
      → IsLog (append digest id now kind payload origin s).0.operations
  unfolding append
  append-IsLog s id kind origin now payload l =
      elim (Bool-cases (str_eq kind "" || str_eq origin "")) [
        | inl missing ↦ rw (missing, append) l
        | inr present ↦ elim (Bool-cases (leb max_operations (length s.operations))) [
          | inl full ↦ rw (present, full, append) l
          | inr room ↦
              rw (present, room, append)
                (insert-IsLog id _ s.operations l (
                  signed-is_intact id
                    (record {
                      operation_id = id;
                      kind = kind;
                      payload = payload;
                      origin = origin;
                      timestamp = now;
                      operation_hash = "";
                    })
                    refl))
        ]
      ]

  merge-IsLog : (s t : Snapshot) → IsLog s.operations → IsLog (merge digest t s).0.operations
  unfolding merge
  merge-IsLog s t l =
      elim (Bool-cases (not (t.version == 1) || not (str_eq t.cluster_id s.cluster_id))) [
        | inl other ↦ rw (other, merge) l
        | inr same ↦ elim (Bool-cases (ltb max_operations (length t.operations))) [
          | inl large ↦ rw (same, large, merge) l
          | inr fits ↦ rw (same, fits, merge) (merge_operations-IsLog 0 t.operations s.operations l)
        ]
      ]

  -- An append of any operation and a merge of any snapshot, refused or not, leave a log in which no id
  -- stands twice and every operation is filed under its id and carries its hash.
  pub append-merge-IsLog :
      (s t : Snapshot) (id kind origin : String) (now : ℕ) (payload : Payload)
      → IsLog s.operations
      → IsLog (append digest id now kind payload origin s).0.operations
        × IsLog (merge digest t s).0.operations
  append-merge-IsLog s t id kind origin now payload l =
      (append-IsLog s id kind origin now payload l, merge-IsLog s t l)

  -- Operations that the log has are skipped.
  merge_operations-known :
      (added : ℕ) (incoming log : Dict Operation)
      → ((k : String) → contains k incoming ≡ true → contains k log ≡ true)
      → merge_operations digest added incoming log ≡ (log, ok added)
  unfolding merge_operations contains
  merge_operations-known added [] log h = refl
  merge_operations-known added ((id, o) ∷ rest) log h =
      rw (h id (ground (arith, eq_iff id id)), merge_operations)
        (merge_operations-known added rest log (λ k e. h k (ground (arith, e))))

  merge-inv :
      (s t : Snapshot) (n : ℕ)
      → (merge digest t s).1 ≡ ok n
      → ((merge digest t s).0.operations ≡ (merge_operations digest 0 t.operations s.operations).0)
        × ((merge_operations digest 0 t.operations s.operations).1 ≡ ok n)
  unfolding merge
  merge-inv s t n h = (ground (arith, h), ground (arith, h))

  merge-contains :
      (s t : Snapshot) (n : ℕ) (k : String)
      → (merge digest t s).1 ≡ ok n
      → contains k t.operations ≡ true
      → contains k (merge digest t s).0.operations ≡ true
  merge-contains s t n k h there =
      let (same, done) = merge-inv s t n h in
      rw same (
        ground (
          arith,
          there,
          contains_lem k t.operations,
          merge_operations-get 0 n t.operations s.operations k done,
          contains_lem k (merge_operations digest 0 t.operations s.operations).0,
        ))

  -- A snapshot whose merge succeeded is merged again without effect: no operation is added and the
  -- state stays as it is.
  merge-again :
      (s t : Snapshot) (n : ℕ)
      → (merge digest t s).1 ≡ ok n
      → merge digest t (merge digest t s).0 ≡ ((merge digest t s).0, ok 0)
  unfolding merge
  merge-again s t n h = ground (
    arith,
    h,
    merge_operations-known 0 t.operations (merge digest t s).0.operations
        (λ k. merge-contains s t n k h),
  )
