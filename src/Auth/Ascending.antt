-- ===== src/Auth/Ascending.antt =====
-- The sequence numbers that are dispatched for a peer.
use zdx_paralell_pyxel_vm.Base.{
  ℕ, ◌≡◌, refl, subst, ◌∙◌, ◌⊎◌, inl, inr, String, Bool, true, false, Option, none, some, List, [],
  ◌∷◌, str_eq, eq_iff, if◌then◌else◌, arith, Bool-cases, Option-cases,
}
use zdx_paralell_pyxel_vm.Base.Dict.{Dict, insert, get-insert}
use zdx_paralell_pyxel_vm.Base.Results.{Result, ok, err, Result-cases}
use zdx_paralell_pyxel_vm.Auth.Guard.{
  ReplayGuardState, above, check_and_update_rate_limit, check_sequence,
}
use zdx_paralell_pyxel_vm.Auth.Pipeline.{
  Message, Arrival, Checks, AuthenticationError, guard_of, named_guard, verified, check_rate_limit,
  check_replay, admit, process_message,
}

-- Every number is above the one before it, the first above `last`.
abbrev pub IsAscending : Option ℕ → List ℕ → Type 0
IsAscending last [] = Unit
IsAscending last (s ∷ ss) = (above last s ≡ true) × IsAscending (some s) ss

check_sequence-last :
    (s : ℕ) (g : ReplayGuardState)
    → (check_sequence s g).0.last_sequence
      ≡ (if (check_sequence s g).1 then some s else g.last_sequence)
unfolding check_sequence
check_sequence-last s g = ground arith

check_sequence-above :
    (s : ℕ) (g : ReplayGuardState) → (check_sequence s g).1 ≡ true → above g.last_sequence s ≡ true
unfolding check_sequence
check_sequence-above s g h = ground (arith, h)

-- The last sequence number that the guard of a peer has taken.
abbrev pub last_of : String → Dict ReplayGuardState → Option ℕ
last_of p guards = (guard_of p guards).last_sequence

module _ (p q : String) (g : ReplayGuardState) (guards : Dict ReplayGuardState) where
  last_of-insert_same :
      g.last_sequence ≡ last_of p guards → last_of q (insert p g guards) ≡ last_of q guards
  last_of-insert_same h = elim (Bool-cases (str_eq p q)) [
    | inl same ↦
        let e : p ≡ q = ground (arith, same, eq_iff p q) in
        ground (arith, same, e, get-insert p q g guards, h)
    | inr other ↦ ground (arith, other, get-insert p q g guards)
  ]

  last_of-insert_other : str_eq p q ≡ false → last_of q (insert p g guards) ≡ last_of q guards
  last_of-insert_other other = ground (arith, other, get-insert p q g guards)

  last_of-insert_own : last_of p (insert p g guards) ≡ g.last_sequence
  last_of-insert_own = ground (arith, get-insert p p g guards, eq_iff p p)

check_rate_limit-last :
    (now : ℕ) (p q : String) (guards : Dict ReplayGuardState)
    → last_of q (check_rate_limit now p guards).0 ≡ last_of q guards
unfolding check_rate_limit check_and_update_rate_limit
check_rate_limit-last now p q guards =
    last_of-insert_same p q (check_and_update_rate_limit now (named_guard p guards)).0 guards
      (ground arith)

-- What a step does to the last number of a peer, for which it dispatched this number or none.
abbrev pub Follows : Option ℕ → Option ℕ → Option ℕ → Type 0
Follows last after none = after ≡ last
Follows last after (some s) = (above last s ≡ true) × (after ≡ some s)

-- The number that a step dispatches for a peer.
abbrev pub number_for : String → Message → Result AuthenticationError (Unit {0}) → Option ℕ
number_for p m (err e) = none
number_for p m (ok passed) = if str_eq m.peer_id p then m.sequence else none

check_replay-Follows :
    (s : ℕ) (p : String) (guards : Dict ReplayGuardState)
    → (check_replay s p guards).1 ≡ true
    → Follows (last_of p guards) (last_of p (check_replay s p guards).0) (some s)
unfolding check_replay
check_replay-Follows s p guards h =
    let g = named_guard p guards in
    (
      check_sequence-above s g h,
      last_of-insert_own p p (check_sequence s g).0 guards ∙ check_sequence-last s g ∙ rw h refl,
    )

check_replay-last :
    (s : ℕ) (p q : String) (guards : Dict ReplayGuardState)
    → ((check_replay s p guards).1 ≡ false) ⊎ (str_eq p q ≡ false)
    → last_of q (check_replay s p guards).0 ≡ last_of q guards
unfolding check_replay
check_replay-last s p q guards (inl refused) =
    let g = named_guard p guards in
    last_of-insert_same p q (check_sequence s g).0 guards
      (check_sequence-last s g ∙ rw refused refl)
check_replay-last s p q guards (inr other) =
    last_of-insert_other p q (check_sequence s (named_guard p guards)).0 guards other

admit-Follows :
    (now : ℕ) (p : String) (m : Message) (guards : Dict ReplayGuardState)
    → Follows
        (last_of p guards)
        (last_of p (admit now m guards).0)
        (number_for p m (admit now m guards).1)
unfolding admit
admit-Follows now p m guards =
    let limited : Dict ReplayGuardState × Bool = check_rate_limit now m.peer_id guards in
    let kept : last_of p limited.0 ≡ last_of p guards =
      check_rate_limit-last now m.peer_id p guards in
    elim (Bool-cases limited.1) [
      | inr refused ↦ rw (refused, admit) kept
      | inl passed ↦ elim (Option-cases m.sequence) [
        | inl no_number ↦ elim (Bool-cases (str_eq m.peer_id p)) [
          | inl own ↦ rw (passed, no_number, own, admit) kept
          | inr other ↦ rw (passed, no_number, other, admit) kept
        ]
        | inr (s, number) ↦ elim (Bool-cases (check_replay s m.peer_id limited.0).1) [
          | inr replayed ↦
              rw (passed, number, replayed, admit)
                (check_replay-last s m.peer_id p limited.0 (inl replayed) ∙ kept)
          | inl new ↦ elim (Bool-cases (str_eq m.peer_id p)) [
            | inr other ↦
                rw (passed, number, new, other, admit)
                  (check_replay-last s m.peer_id p limited.0 (inr other) ∙ kept)
            | inl own ↦
                let e : m.peer_id ≡ p = ground (arith, own, eq_iff m.peer_id p) in
                let f = check_replay-Follows s m.peer_id limited.0 new in
                let same : last_of m.peer_id limited.0 ≡ last_of m.peer_id guards =
                  check_rate_limit-last now m.peer_id m.peer_id guards in
                rw (passed, number, new, own, admit)
                  (
                    subst (λ x. above (last_of x guards) s ≡ true) e
                        (subst (λ l. above l s ≡ true) same f.0),
                    subst (λ x. last_of x (check_replay s m.peer_id limited.0).0 ≡ some s) e f.1,
                  )
          ]
        ]
      ]
    ]

module _ (c : Checks) where
  process_message-Follows :
      (p : String) (a : Arrival) (guards : Dict ReplayGuardState)
      → Follows
          (last_of p guards)
          (last_of p (process_message c a guards).0)
          (number_for p a.message (process_message c a guards).1)
  unfolding process_message
  process_message-Follows p a guards = elim (Result-cases (verified c a.checked_at a.message)) [
    | inl (e, refused) ↦ rw (refused, process_message) refl
    | inr (passed, fine) ↦
        rw (fine, process_message) (admit-Follows a.limited_at p a.message guards)
  ]

  abbrev pub dispatched : Option ℕ → List ℕ → List ℕ
  dispatched none rest = rest
  dispatched (some s) rest = s ∷ rest

  -- The sequence numbers of the messages of a peer that are dispatched, of a sequence of arrivals.
  unfoldable pub dispatched_for : String → List Arrival → Dict ReplayGuardState → List ℕ
  unfolding process_message
  dispatched_for p [] guards = []
  dispatched_for p (a ∷ later) guards =
      let r = process_message c a guards in
      dispatched (number_for p a.message r.1) (dispatched_for p later r.0)

  dispatched-IsAscending :
      (last after number : Option ℕ) (rest : List ℕ)
      → Follows last after number
      → IsAscending after rest
      → IsAscending last (dispatched number rest)
  dispatched-IsAscending last after none rest f i = subst (λ l. IsAscending l rest) f i
  dispatched-IsAscending last after (some s) rest f i = (f.0, subst (λ l. IsAscending l rest) f.1 i)

  -- Whatever arrives, from whom and when, the sequence numbers that are dispatched for a peer ascend
  -- strictly, from above the last one that its guard took: none is dispatched twice.
  pub dispatched_for-IsAscending :
      (p : String) (arrivals : List Arrival) (guards : Dict ReplayGuardState)
      → IsAscending (last_of p guards) (dispatched_for p arrivals guards)
  unfolding dispatched_for
  dispatched_for-IsAscending p [] guards = tt
  dispatched_for-IsAscending p (a ∷ arrivals) guards =
      let r : Dict ReplayGuardState × Result AuthenticationError (Unit {0}) =
        process_message c a guards in
      dispatched-IsAscending (last_of p guards) (last_of p r.0) (number_for p a.message r.1)
        (dispatched_for p arrivals r.0) (process_message-Follows p a guards)
        (dispatched_for-IsAscending p arrivals r.0)
