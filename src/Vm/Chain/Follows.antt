-- ===== src/Vm/Chain/Follows.antt =====
-- Which chains of frames `execute_texture` completes.
use zdx_paralell_pyxel_vm.Base.{
  ℕ, zero, suc, ◌+◌, ◌-◌, ◌<◌, String, ◌≡◌, refl, sym, ◌∙◌, inl, inr, Bool, true, false, Option,
  none, some, arith, Bool-cases, Option-cases,
}
use zdx_paralell_pyxel_vm.Vm.Machine.{Vm, max_chain_reached}
use zdx_paralell_pyxel_vm.Vm.Checkpoint.{CheckpointState}
use zdx_paralell_pyxel_vm.Vm.Frame.{FrameResult, done, failed}
use zdx_paralell_pyxel_vm.Vm.Chain.{
  Files, ChainResult, completed, aborted, execute_single, finish, after_frame, chain,
  execute_texture,
}

module _ (files : Files) where
  -- From `vm` and the frame `path`, `n` frames run one after the other, each naming an existing
  -- successor; then the VM is `vm'` and the next frame to run is `path'`.
  abbrev pub Links : ℕ → Vm → String → Vm → String → Type 0
  Links zero vm path vm' path' = (vm ≡ vm') × (path ≡ path')
  Links (suc n) vm path vm' path' =
      (mid : Vm) × (follower : String) × (execute_single files path vm ≡ done mid)
      × (mid.next_frame ≡ some follower)
      × (files.exists follower ≡ true)
      × Links n mid follower vm' path'

  -- The last frame: it runs and names no successor.
  abbrev pub Stops : Vm → String → Vm → Type 0
  Stops vm path last = (execute_single files path vm ≡ done last) × (last.next_frame ≡ none)

module _ (files : Files) (digest : CheckpointState → String) where
  -- `chained` after `n` more rounds.
  abbrev flag : ℕ → Bool → Bool
  flag zero b = b
  flag (suc n) b = true

  flag_stays : (n : ℕ) → flag n true ≡ true
  flag_stays zero = refl
  flag_stays (suc n) = refl

  flag_kept : (n : ℕ) (b : Bool) → 0 < n → flag n b ≡ true
  flag_kept zero b h = absurd (omega arith)
  flag_kept (suc n) b h = refl

  linked :
      (rest : String → Vm → ChainResult) (o : FrameResult) (mid : Vm) (follower : String)
      → o ≡ done mid
      → mid.next_frame ≡ some follower
      → files.exists follower ≡ true
      → after_frame files digest rest o ≡ rest follower mid
  linked rest o mid follower ran named there = ground arith

  stopped :
      (rest : String → Vm → ChainResult) (o : FrameResult) (last : Vm)
      → o ≡ done last
      → last.next_frame ≡ none
      → after_frame files digest rest o ≡ finish digest last
  stopped rest o last ran ended = ground arith

  chain-Links :
      (n r rounds : ℕ) (b : Bool) (vm mid : Vm) (path current : String)
      → rounds ≡ n + r
      → Links files n vm path mid current
      → chain files digest rounds b path vm ≡ chain files digest r (flag n b) current mid
  unfolding chain
  chain-Links zero r rounds b vm mid path current e (same_vm, same_path) =
      let er : rounds ≡ r = omega arith in cc
  chain-Links (suc n) r zero b vm mid path current e l = absurd (omega arith)
  chain-Links (suc n) r (suc k) b vm mid path current e (v, follower, ran, named, there, l) =
      linked (chain files digest k true) (execute_single files path vm) v follower ran named there
      ∙ chain-Links n r k true v mid follower current (omega arith) l
      ∙ rw (flag_stays n)

  -- A chain of fewer than `max_chain` links and then a last frame completes, with the VM that the last
  -- frame leaves.
  short_chain_completes :
      (n : ℕ) (vm mid last : Vm) (path current : String)
      → Links files n vm path mid current
      → Stops files mid current last
      → n < vm.max_chain
      → execute_texture files digest path vm ≡ finish digest last
  unfolding execute_texture
  short_chain_completes n vm mid last path current l s h =
      chain-Links n (suc (vm.max_chain - n - 1)) vm.max_chain false vm mid path current
        (omega arith) l
      ∙ unfold chain in
        stopped (chain files digest (vm.max_chain - n - 1) true) (execute_single files current mid)
          last s.0 s.1

  -- After `max_chain` links the call raises, with the frame that was not run.
  long_chain_aborts :
      (vm mid : Vm) (path current : String)
      → 0 < vm.max_chain
      → Links files vm.max_chain vm path mid current
      → execute_texture files digest path vm ≡ aborted (max_chain_reached current) mid
  unfolding execute_texture
  long_chain_aborts vm mid path current h l =
      chain-Links vm.max_chain 0 vm.max_chain false vm mid path current (omega arith) l
      ∙ rw (flag_kept vm.max_chain false h, chain)

  -- The chain of a call that completes with `v` and `saved`, in at most `rounds` rounds.
  abbrev pub HasChain : ℕ → Vm → String → Vm → Option (ℕ → ℕ) → Type 0
  HasChain rounds vm path v saved =
      (n : ℕ) × (mid : Vm) × (current : String) × (last : Vm) × (n < rounds)
      × Links files n vm path mid current
      × Stops files mid current last
      × (finish digest last ≡ completed v saved)

  inverted :
      (rest : String → Vm → ChainResult) (k : ℕ) (vm : Vm) (path : String) (v : Vm)
      (saved : Option (ℕ → ℕ)) (o : FrameResult)
      → execute_single files path vm ≡ o
      → after_frame files digest rest o ≡ completed v saved
      → ((mid : Vm) (follower : String)
          → rest follower mid ≡ completed v saved
          → HasChain k mid follower v saved)
      → HasChain (suc k) vm path v saved
  inverted rest k vm path v saved (failed e w) ran h ih = cc
  inverted rest k vm path v saved (done w) ran h ih = elim (Option-cases w.next_frame) [
    | inl ended ↦ (0, vm, path, w, omega arith, (refl, refl), (ran, ended), ground arith)
    | inr (follower, named) ↦ elim (Bool-cases (files.exists follower)) [
      | inr gone ↦ absurd (ground arith)
      | inl there ↦
          let (n, mid, current, last, small, links, stops, ended) = ih w follower (ground arith) in
          (
            suc n,
            mid,
            current,
            last,
            omega arith,
            (w, follower, ran, named, there, links),
            stops,
            ended,
          )
    ]
  ]

  chain-HasChain :
      (rounds : ℕ) (path : String) (vm v : Vm) (saved : Option (ℕ → ℕ))
      → chain files digest rounds true path vm ≡ completed v saved
      → HasChain rounds vm path v saved
  unfolding chain
  chain-HasChain zero path vm v saved e = cc
  chain-HasChain (suc k) path vm v saved e =
      inverted (chain files digest k true) k vm path v saved (execute_single files path vm) refl e
        (λ mid follower h. chain-HasChain k follower mid v saved h)

  first_round :
      (rounds : ℕ) (path : String) (vm : Vm)
      → 0 < rounds
      → chain files digest rounds false path vm ≡ chain files digest rounds true path vm
  unfolding chain
  first_round zero path vm h = absurd (omega arith)
  first_round (suc k) path vm h = refl

  -- A call that completes has followed a chain of fewer than `max_chain` links and then a last frame.
  completed_is_chain :
      (path : String) (vm v : Vm) (saved : Option (ℕ → ℕ))
      → 0 < vm.max_chain
      → execute_texture files digest path vm ≡ completed v saved
      → HasChain vm.max_chain vm path v saved
  unfolding execute_texture
  completed_is_chain path vm v saved h e =
      chain-HasChain vm.max_chain path vm v saved (sym (first_round vm.max_chain path vm h) ∙ e)
