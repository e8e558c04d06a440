-- ===== src/Auth/Latest.antt =====
-- The pipeline against an account that keeps for a peer the last number and the count of the window only,
-- without the set of the numbers that were seen.
use zdx_paralell_pyxel_vm.Base.{
  ℕ, ◌+◌, ◌≡◌, refl, sym, subst, ap, ◌∙◌, inl, inr, String, Bool, true, false, Option, none, some,
  ltb, leb, str_eq, eq_iff, if◌then◌else◌, arith, Bool-cases, Option-cases,
}
use zdx_paralell_pyxel_vm.Base.Dict.{Dict, insert, get-insert}
use zdx_paralell_pyxel_vm.Base.Results.{Result, ok, err}
use zdx_paralell_pyxel_vm.Auth.Guard.{
  ReplayGuardState, above, check_and_update_rate_limit, check_sequence, was_seen,
}
use zdx_paralell_pyxel_vm.Auth.Pipeline.{
  Message, AuthenticationError, replay_stage, rate_stage, guard_of, named_guard, check_rate_limit,
  check_replay, replay_answer, admit,
}

pub record Account : Type 0 where
  pub last_taken : Option ℕ
  pub taken : ℕ
  pub window_start : ℕ

abbrev pub account_of : ReplayGuardState → Account
account_of g = record {
  last_taken = g.last_sequence;
  taken = g.message_count;
  window_start = g.rate_limit_window_start;
}

-- One more message, in a new window where the old one is over.
abbrev pub one_more : ℕ → Account → Account
one_more now a =
    if ltb (a.window_start + 10000000) now
    then record a { taken = 1; window_start = now }
    else record a { taken = a.taken + 1 }

abbrev pub take_number : Option ℕ → Account → Account × Result AuthenticationError (Unit {0})
take_number none a = (a, ok tt)
take_number (some s) a =
    if above a.last_taken s
    then (record a { last_taken = some s }, ok tt)
    else (a, err replay_stage)

abbrev pub account_step : Option ℕ → Account → Account × Result AuthenticationError (Unit {0})
account_step number a = if leb a.taken 100 then take_number number a else (a, err rate_stage)

-- At most 100 messages in a window, with numbers that ascend.
unfoldable pub promised : ℕ → Option ℕ → Account → Account × Result AuthenticationError (Unit {0})
promised now number a = account_step number (one_more now a)

-- The numbers that were seen are not above the last one.
abbrev pub IsBehind : ReplayGuardState → Type 0
IsBehind g = (s : ℕ) → was_seen s g.seen_sequences ≡ true → above g.last_sequence s ≡ false

was_seen-above :
    (s : ℕ) (g : ReplayGuardState) → IsBehind g → (check_sequence s g).1 ≡ above g.last_sequence s
unfolding check_sequence
was_seen-above s g b = ground (arith, b s)

check_sequence-IsBehind :
    (s : ℕ) (g : ReplayGuardState) → IsBehind g → IsBehind (check_sequence s g).0
unfolding check_sequence was_seen
check_sequence-IsBehind s g b t h = ground (arith, b s, b t, h)

check_and_update_rate_limit-one :
    (now : ℕ) (g : ReplayGuardState)
    → account_of (check_and_update_rate_limit now g).0 ≡ one_more now (account_of g)
unfolding check_and_update_rate_limit
check_and_update_rate_limit-one now g = ground arith

check_sequence-account :
    (s : ℕ) (g : ReplayGuardState)
    → IsBehind g
    → (account_of (check_sequence s g).0 ≡ (take_number (some s) (account_of g)).0)
      × (replay_answer (check_sequence s g).1 ≡ (take_number (some s) (account_of g)).1)
unfolding check_sequence
check_sequence-account s g b = (ground (arith, b s), ground (arith, b s))

guard_of-own :
    (p : String) (g : ReplayGuardState) (guards : Dict ReplayGuardState)
    → guard_of p (insert p g guards) ≡ g
guard_of-own p g guards = ground (arith, get-insert p p g guards, eq_iff p p)

guard_of-other :
    (p q : String) (g : ReplayGuardState) (guards : Dict ReplayGuardState)
    → str_eq p q ≡ false
    → guard_of q (insert p g guards) ≡ guard_of q guards
guard_of-other p q g guards other = ground (arith, other, get-insert p q g guards)

-- A step of the pipeline and one of the account, with the same answer and the same account after it.
abbrev pub Agrees :
    String
    → Dict ReplayGuardState × Result AuthenticationError (Unit {0})
    → Account × Result AuthenticationError (Unit {0})
    → Type 0
Agrees p x y = (x.1 ≡ y.1) × (account_of (guard_of p x.0) ≡ y.0) × IsBehind (guard_of p x.0)

inserted-Agrees :
    (p : String) (g : ReplayGuardState) (guards : Dict ReplayGuardState)
    (answer : Result AuthenticationError (Unit {0}))
    (y : Account × Result AuthenticationError (Unit {0}))
    → answer ≡ y.1
    → account_of g ≡ y.0
    → IsBehind g
    → Agrees p (insert p g guards, answer) y
inserted-Agrees p g guards answer y h k b =
    let same : guard_of p (insert p g guards) ≡ g = guard_of-own p g guards in
    (h, ap account_of same ∙ k, subst (λ x. IsBehind x) (sym same) b)

module _ (now : ℕ) (m : Message) (guards : Dict ReplayGuardState) where
  abbrev limited_guard : ReplayGuardState × Bool
  limited_guard = check_and_update_rate_limit now (named_guard m.peer_id guards)

  limited_guard-IsBehind : IsBehind (guard_of m.peer_id guards) → IsBehind limited_guard.0
  unfolding check_and_update_rate_limit
  limited_guard-IsBehind b s h = ground (arith, b s, h)

  check_replay-Agrees :
      (s : ℕ)
      → IsBehind limited_guard.0
      → Agrees m.peer_id
          (let r = check_replay s m.peer_id (insert m.peer_id limited_guard.0 guards) in
            (r.0, replay_answer r.1))
          (take_number (some s) (account_of limited_guard.0))
  unfolding check_replay
  check_replay-Agrees s b =
      let g : ReplayGuardState = named_guard m.peer_id (insert m.peer_id limited_guard.0 guards) in
      let same : guard_of m.peer_id (insert m.peer_id limited_guard.0 guards) ≡ limited_guard.0 =
        guard_of-own m.peer_id limited_guard.0 guards in
      let behind : IsBehind g = subst (λ x. IsBehind x) (sym same) b in
      let (account, answer) = check_sequence-account s g behind in
      let accounts : account_of g ≡ account_of limited_guard.0 = ap account_of same in
      inserted-Agrees m.peer_id (check_sequence s g).0 (insert m.peer_id limited_guard.0 guards) _
        (take_number (some s) (account_of limited_guard.0))
        (answer ∙ ap (λ a. (take_number (some s) a).1) accounts)
        (account ∙ ap (λ a. (take_number (some s) a).0) accounts)
        (check_sequence-IsBehind s g behind)

  admit-settled :
      IsBehind limited_guard.0
      → Agrees m.peer_id (admit now m guards) (account_step m.sequence (account_of limited_guard.0))
  unfolding admit check_rate_limit
  admit-settled b = elim (Bool-cases limited_guard.1) [
    | inr full ↦
        rw (full, admit, check_rate_limit)
          (inserted-Agrees m.peer_id limited_guard.0 guards (err rate_stage)
            (account_of limited_guard.0, err rate_stage) refl refl b)
    | inl room ↦ elim (Option-cases m.sequence) [
      | inl no_number ↦
          rw (room, no_number, admit, check_rate_limit)
            (inserted-Agrees m.peer_id limited_guard.0 guards (ok tt)
              (account_of limited_guard.0, ok tt) refl refl b)
      | inr (s, number) ↦ rw (room, number, admit, check_rate_limit) (check_replay-Agrees s b)
    ]
  ]

  pub admit-Agrees :
      IsBehind (guard_of m.peer_id guards)
      → Agrees m.peer_id
          (admit now m guards)
          (promised now m.sequence (account_of (guard_of m.peer_id guards)))
  unfolding promised
  admit-Agrees b =
      subst (λ a. Agrees m.peer_id (admit now m guards) (account_step m.sequence a))
        (check_and_update_rate_limit-one now (named_guard m.peer_id guards))
        (admit-settled (limited_guard-IsBehind b))

  pub admit-other :
      (q : String)
      → str_eq m.peer_id q ≡ false
      → guard_of q (admit now m guards).0 ≡ guard_of q guards
  unfolding admit check_rate_limit check_replay
  admit-other q other =
      let p = m.peer_id in
      let first : guard_of q (insert p limited_guard.0 guards) ≡ guard_of q guards =
        guard_of-other p q limited_guard.0 guards other in
      elim (Bool-cases limited_guard.1) [
        | inr full ↦ rw (full, admit, check_rate_limit) first
        | inl room ↦ elim (Option-cases m.sequence) [
          | inl no_number ↦ rw (room, no_number, admit, check_rate_limit) first
          | inr (s, number) ↦
              rw (room, number, admit, check_rate_limit, check_replay)
                (guard_of-other p q
                    (check_sequence s (named_guard p (insert p limited_guard.0 guards))).0
                    (insert p limited_guard.0 guards) other
                  ∙ first)
        ]
      ]
