-- ===== src/Examples/Auth.antt =====
-- The authentication pipeline at concrete inputs.
use zdx_paralell_pyxel_vm.Base.{ℕ, ◌≡◌, ◌≢◌, refl, ◌⊎◌, String, true, some, List, [], ◌∷◌, str_eq}
use zdx_paralell_pyxel_vm.Base.Dict.{get, insert}
use zdx_paralell_pyxel_vm.Base.Results.{ok}
use zdx_paralell_pyxel_vm.Auth.Guard.{new_guard, was_seen}
use zdx_paralell_pyxel_vm.Auth.Pipeline.{Arrival, Checks, process_message}
use zdx_paralell_pyxel_vm.Auth.Ascending.{
  IsAscending, last_of, dispatched_for, dispatched_for-IsAscending,
}
use zdx_paralell_pyxel_vm.Auth.Verified.{IsVerified, process_message-IsVerified}
use zdx_paralell_pyxel_vm.Auth.Latest.{account_of}
use zdx_paralell_pyxel_vm.Auth.Refines.{Refines, answers, promises, answers_promised}

abbrev some_checks : Checks
some_checks = record {
  verify_signature = λ peer payload signature. str_eq signature "s";
  check_revocation = λ peer. str_eq peer "r";
  check_enrollment = λ peer. true;
}

abbrev numbered : String → ℕ → Arrival
numbered peer n = record {
  message = record {
    peer_id = peer;
    protocol_version = 1;
    timestamp = 1000;
    signature = "s";
    payload = [];
    sequence = some n;
  };
  checked_at = 1500;
  limited_at = 1600;
}

-- The second message of "a" is a replay, and the last one is out of order.
abbrev some_arrivals : List Arrival
some_arrivals =
    numbered "a" 4 ∷ numbered "a" 4 ∷ numbered "b" 1 ∷ numbered "a" 7 ∷ numbered "a" 5 ∷ []

two_pass : dispatched_for some_checks "a" some_arrivals [] ≡ 4 ∷ 7 ∷ []
unfolding dispatched_for get insert
two_pass = refl

dispatched_for-IsAscending_example :
    IsAscending (last_of "a" []) (dispatched_for some_checks "a" some_arrivals [])
dispatched_for-IsAscending_example = dispatched_for-IsAscending some_checks "a" some_arrivals []

process_message-IsVerified_example :
    (((process_message some_checks (numbered "r" 1) []).0 ≡ [])
      × ((process_message some_checks (numbered "r" 1) []).1 ≢ ok tt))
    ⊎ IsVerified some_checks 1500 (numbered "r" 1).message
process_message-IsVerified_example = process_message-IsVerified some_checks (numbered "r" 1) []

no_guards-Refines : Refines [] (λ p. account_of new_guard)
unfolding get was_seen
no_guards-Refines = record { behind = λ p s h. cc h; same_account = λ p. refl }

answers_promised_example :
    answers some_checks some_arrivals []
    ≡ promises some_checks some_arrivals (λ p. account_of new_guard)
answers_promised_example =
    answers_promised some_checks some_arrivals [] (λ p. account_of new_guard) no_guards-Refines
