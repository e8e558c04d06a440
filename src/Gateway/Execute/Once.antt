-- ===== src/Gateway/Execute/Once.antt =====
-- How often the gateway calls a handler for an action.
use text.Mathlib.TextLemmas.{append_cancel_left}
use zdx_paralell_pyxel_vm.Base.{
  ◌≡◌, subst, String, Bool, true, false, ◌||◌, Option, none, some, ◌∷◌, str_eq, eq_iff, arith,
  Bool-cases, inl, inr,
}
use zdx_paralell_pyxel_vm.Gateway.Policy.{is_among, all_different}
use zdx_paralell_pyxel_vm.Gateway.Store.{Stored, ToolMemory, intent_key, result_key}
use zdx_paralell_pyxel_vm.Gateway.Execute.{World}

abbrev pub present : Option Stored → Bool
present none = false
present (some v) = true

intent_key-injective : (g h : String) → str_eq (intent_key g) (intent_key h) ≡ str_eq g h
intent_key-injective g h =
    ground (
      arith,
      eq_iff g h,
      eq_iff (intent_key g) (intent_key h),
      append_cancel_left "tool-intent/" g h,
    )

result_key-injective : (g h : String) → str_eq (result_key g) (result_key h) ≡ str_eq g h
result_key-injective g h =
    ground (
      arith,
      eq_iff g h,
      eq_iff (result_key g) (result_key h),
      append_cancel_left "tool-result/" g h,
    )

module _ {M : Type 0} (ops : ToolMemory M) where
  -- The memory has a result or an intent of the action.
  abbrev pub recorded : String → M → Bool
  recorded h m =
      present (ops.read "tool_results" (result_key h) m)
      || present (ops.read "system" (intent_key h) m)

  abbrev pub Grows : M → M → Type 0
  Grows m after = (h : String) → recorded h m ≡ true → recorded h after ≡ true

  -- No action hash was called twice, and every one that was called has a record.
  pub record IsOnceEach (w : World M) : Type 0 where
    pub once : all_different w.calls ≡ true
    pub remembered : (h : String) → is_among h w.calls ≡ true → recorded h w.memory ≡ true

  pub write_intent-Grows :
      (g : String) (v : Stored) (m after : M)
      → ops.write "system" (intent_key g) v m ≡ some after
      → (recorded g after ≡ true) × Grows m after
  write_intent-Grows g v m after h = (
    ground (arith, ops.read-write "system" (intent_key g) v m after h),
    λ j known. ground (
      arith,
      known,
      ops.read_other-write "system" (intent_key g) "tool_results" (result_key j) v m after h,
      ops.read_other-write "system" (intent_key g) "system" (intent_key j) v m after h,
      ops.read-write "system" (intent_key g) v m after h,
      eq_iff (intent_key g) (intent_key j),
    ),
  )

  pub write_result-Grows :
      (g : String) (v : Stored) (m after : M)
      → ops.write "tool_results" (result_key g) v m ≡ some after
      → Grows m after
  write_result-Grows g v m after h j known = ground (
    arith,
    known,
    ops.read_other-write "tool_results" (result_key g) "tool_results" (result_key j) v m after h,
    ops.read_other-write "tool_results" (result_key g) "system" (intent_key j) v m after h,
    ops.read-write "tool_results" (result_key g) v m after h,
    eq_iff (result_key g) (result_key j),
  )

  -- An intent may go where there is a result.
  pub remove_intent-Grows :
      (g : String) (there : Bool) (m after : M)
      → ops.remove "system" (intent_key g) m ≡ some (there, after)
      → present (ops.read "tool_results" (result_key g) m) ≡ true
      → Grows m after
  remove_intent-Grows g there m after h p j known = elim (Bool-cases (str_eq g j)) [
    | inl same ↦
        let e : g ≡ j = ground (arith, eq_iff g j, same) in
        subst (λ x. recorded x after ≡ true) e
          (ground (
            arith,
            p,
            ops.read_other-remove "system" (intent_key g) "tool_results" (result_key g) m after
                there h,
          ))
    | inr other ↦ ground (
      arith,
      known,
      other,
      intent_key-injective g j,
      ops.read_other-remove "system" (intent_key g) "tool_results" (result_key j) m after there h,
      ops.read_other-remove "system" (intent_key g) "system" (intent_key j) m after there h,
    )
  ]

  pub Grows-IsOnceEach :
      (w v : World M) → IsOnceEach w → v.calls ≡ w.calls → Grows w.memory v.memory → IsOnceEach v
  Grows-IsOnceEach w v i same grows = record {
    once = rw same i.once;
    remembered = λ h among. grows h (i.remembered h (rw same at among));
  }

  pub called-IsOnceEach :
      (g : String) (w : World M)
      → IsOnceEach w
      → recorded g w.memory ≡ true
      → is_among g w.calls ≡ false
      → IsOnceEach (record w { calls = g ∷ w.calls })
  unfolding is_among all_different
  called-IsOnceEach g w i there first = record {
    once = ground (arith, first, i.once);
    remembered = λ h among. elim (Bool-cases (str_eq g h)) [
      | inl same ↦ subst (λ x. recorded x w.memory ≡ true) (ground (arith, same, eq_iff g h)) there
      | inr other ↦ i.remembered h (ground (arith, among, other))
    ];
  }
