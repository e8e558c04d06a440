-- ===== src/Auth/Refines.antt =====
-- The answers of the pipeline to a sequence of arrivals.
use zdx_paralell_pyxel_vm.Base.{
  ℕ, ◌≡◌, refl, sym, subst, ap, ◌∙◌, inl, inr, String, List, [], ◌∷◌, str_eq, eq_iff, if◌then◌else◌,
  arith, Bool-cases,
}
use zdx_paralell_pyxel_vm.Base.Dict.{Dict}
use zdx_paralell_pyxel_vm.Base.Results.{Result, ok, err, Result-cases}
use zdx_paralell_pyxel_vm.Auth.Guard.{ReplayGuardState}
use zdx_paralell_pyxel_vm.Auth.Pipeline.{
  Message, Arrival, Checks, AuthenticationError, guard_of, verified, admit, process_message,
}
use zdx_paralell_pyxel_vm.Auth.Latest.{
  Account, account_of, promised, IsBehind, Agrees, admit-Agrees, admit-other,
}

-- The guards stand for the accounts.
pub record Refines (guards : Dict ReplayGuardState) (accounts : String → Account) : Type 0 where
  pub behind : (p : String) → IsBehind (guard_of p guards)
  pub same_account : (p : String) → account_of (guard_of p guards) ≡ accounts p

abbrev pub updated : String → Account → (String → Account) → String → Account
updated p a accounts q = if str_eq p q then a else accounts q

module _ (c : Checks) where
  unfoldable pub answers :
      List Arrival → Dict ReplayGuardState → List (Result AuthenticationError (Unit {0}))
  unfolding process_message
  answers [] guards = []
  answers (a ∷ later) guards = let r = process_message c a guards in r.1 ∷ answers later r.0

  -- The answers that the accounts give.
  unfoldable pub promises :
      List Arrival → (String → Account) → List (Result AuthenticationError (Unit {0}))
  unfolding promised verified
  promises [] accounts = []
  promises (a ∷ later) accounts =
      let peer = a.message.peer_id in
      let r = promised a.limited_at a.message.sequence (accounts peer) in
      let refused_ones = promises later accounts in
      let admitted_ones = promises later (updated peer r.0 accounts) in
      elim (verified c a.checked_at a.message) [
        | err e ↦ err e ∷ refused_ones
        | ok passed ↦ r.1 ∷ admitted_ones
      ]

  admit-Refines :
      (now : ℕ) (m : Message) (guards : Dict ReplayGuardState) (accounts : String → Account)
      → Refines guards accounts
      → ((admit now m guards).1 ≡ (promised now m.sequence (accounts m.peer_id)).1)
        × Refines
            (admit now m guards).0
            (updated m.peer_id (promised now m.sequence (accounts m.peer_id)).0 accounts)
  admit-Refines now m guards accounts r =
      let (answer, account, behind) =
        subst (λ a. Agrees m.peer_id (admit now m guards) (promised now m.sequence a))
          (r.same_account m.peer_id) (admit-Agrees now m guards (r.behind m.peer_id)) in
      (
        answer,
        record {
          behind = λ p. elim (Bool-cases (str_eq m.peer_id p)) [
            | inl own ↦
                subst (λ q. IsBehind (guard_of q (admit now m guards).0))
                  (ground (arith, own, eq_iff m.peer_id p)) behind
            | inr other ↦
                subst (λ g. IsBehind g) (sym (admit-other now m guards p other)) (r.behind p)
          ];
          same_account = λ p. elim (Bool-cases (str_eq m.peer_id p)) [
            | inl own ↦ rw own (
                subst
                  (λ q.
                    account_of (guard_of q (admit now m guards).0)
                    ≡ (promised now m.sequence (accounts m.peer_id)).0)
                  (ground (arith, own, eq_iff m.peer_id p)) account)
            | inr other ↦
                rw other (ap account_of (admit-other now m guards p other) ∙ r.same_account p)
          ];
        },
      )

  -- From guards that stand for the accounts, every sequence of arrivals gets the answers that the accounts
  -- promise, which hold of a peer its last sequence number and the count of the window only: at most 100
  -- verified messages in a window, with numbers that ascend.
  pub answers_promised :
      (arrivals : List Arrival) (guards : Dict ReplayGuardState) (accounts : String → Account)
      → Refines guards accounts
      → answers arrivals guards ≡ promises arrivals accounts
  unfolding answers promises
  answers_promised [] guards accounts r = refl
  answers_promised (a ∷ later) guards accounts r =
      elim (Result-cases (verified c a.checked_at a.message)) [
        | inl (e, refused) ↦
            rw (refused, process_message, promises)
              (ap (λ l. err e ∷ l) (answers_promised later guards accounts r))
        | inr (passed, fine) ↦
            let (answer, after) = admit-Refines a.limited_at a.message guards accounts r in
            rw (fine, process_message, promises, answer)
              (ap
                (λ l. (promised a.limited_at a.message.sequence (accounts a.message.peer_id)).1 ∷ l)
                (answers_promised later (admit a.limited_at a.message guards).0 _ after))
      ]
