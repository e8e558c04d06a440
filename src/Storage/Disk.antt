-- ===== src/Storage/Disk.antt =====
-- src/zdx_storage.py: the files beside one state path, and the operations on them as actions that
-- the operating system carries out, refuses, or never answers because the process dies first.
--
-- `faults` is what becomes of the operations still to come, in their order; where it is used up
-- they all go well. A byte is of any type, since the code only moves the bytes of a payload.
use zdx_paralell_pyxel_vm.Base.{List, [], ◌∷◌, Bool, true, false, Option, if◌then◌else◌, refl, ◌≡◌}

pub data Fault : Type 0 where
  goes fails dies : Fault

-- The names that `failure_injector.hit` is called with.
pub data Point : Type 0 where
  after_temp_fsync after_backup before_replace : Point

-- The exceptions: `corrupt` is a CorruptStateError, `not_canonical` the StorageError of `_canonical`,
-- `type_error` what `secrets.compare_digest` raises, and `json_error` what `json.loads` raises besides
-- a JSONDecodeError.
pub data Failure : Type 0 where
  os_error corrupt newer_state migration_error not_canonical type_error json_error : Failure
  injected : Point → Failure

-- `target` and `backup` are the state file and its `.bak`, `temporaries` the files
-- `.{target.name}.*.tmp` and `quarantined` the `.corrupt.*` files, each newest first. `temporary`
-- and `moved_old` are the two locals of a commit that its handlers read: the first tells that
-- the newest temporary is the commit's own.
pub record Disk (Byte : Type 0) : Type 0 where
  pub target : Option (List Byte)
  pub backup : Option (List Byte)
  pub temporaries : List (List Byte)
  pub quarantined : List (List Byte)
  pub temporary : Bool
  pub moved_old : Bool
  pub faults : List Fault

pub data Outcome (A : Type 0) : Type 0 where
  returned : A → Outcome A
  raised : Failure → Outcome A
  died : Outcome A

module _ {Byte : Type 0} where
  -- The files, where nothing will go wrong with them.
  abbrev pub quiet :
      Option (List Byte)
      → Option (List Byte)
      → List (List Byte)
      → Bool
      → Bool
      → List (List Byte)
      → Disk Byte
  quiet t b q own moved left = record {
    target = t;
    backup = b;
    temporaries = left;
    quarantined = q;
    temporary = own;
    moved_old = moved;
    faults = [];
  }

  unfoldable pub andthen :
      {A B : Type 0}
      → Disk Byte × Outcome A
      → (A → Disk Byte → Disk Byte × Outcome B)
      → Disk Byte × Outcome B
  andthen (d, returned v) next = next v d
  andthen (d, raised f) next = (d, raised f)
  andthen (d, died) next = (d, died)

  infixl 5 ◌>>=◌ ◌>>◌
  abbrev pub ◌>>=◌ :
      {A B : Type 0}
      → (Disk Byte → Disk Byte × Outcome A)
      → (A → Disk Byte → Disk Byte × Outcome B)
      → Disk Byte
      → Disk Byte × Outcome B
  (first >>= next) d = andthen (first d) next

  abbrev pub ◌>>◌ :
      {A B : Type 0}
      → (Disk Byte → Disk Byte × Outcome A)
      → (Disk Byte → Disk Byte × Outcome B)
      → Disk Byte
      → Disk Byte × Outcome B
  (first >> next) d = andthen (first d) (λ _. next)

  abbrev pub give : {A : Type 0} → A → Disk Byte → Disk Byte × Outcome A
  give v d = (d, returned v)

  abbrev pub raise : {A : Type 0} → Failure → Disk Byte → Disk Byte × Outcome A
  raise f d = (d, raised f)

  -- `try: ... except Exception as f: handler`
  unfoldable pub catching :
      {A : Type 0}
      → Disk Byte × Outcome A
      → (Failure → Disk Byte → Disk Byte × Outcome A)
      → Disk Byte × Outcome A
  catching (d, returned v) handler = (d, returned v)
  catching (d, raised f) handler = handler f d
  catching (d, died) handler = (d, died)

  -- `try: ... finally: cleanup`
  unfoldable pub finally_do :
      {A : Type 0}
      → Disk Byte × Outcome A
      → (Disk Byte → Disk Byte × Outcome (Unit {0}))
      → Disk Byte × Outcome A
  finally_do (d, returned v) cleanup = andthen (cleanup d) (λ _. give v)
  finally_do (d, raised f) cleanup = andthen (cleanup d) (λ _. raise f)
  finally_do (d, died) cleanup = (d, died)

  abbrev pub answer :
      (Disk Byte → Disk Byte) → Disk Byte → List Fault → Disk Byte × Outcome (Unit {0})
  answer change d [] = (change (record d { faults = [] }), returned tt)
  answer change d (goes ∷ rest) = (change (record d { faults = rest }), returned tt)
  answer change d (fails ∷ rest) = (record d { faults = rest }, raised os_error)
  answer change d (dies ∷ rest) = (record d { faults = rest }, died)

  -- One operation of the operating system, which changes the files as `change` says.
  unfoldable pub perform : (Disk Byte → Disk Byte) → Disk Byte → Disk Byte × Outcome (Unit {0})
  perform change d = answer change d d.faults

  -- What holds where an action returns, and what holds where it raises or the process dies.
  abbrev pub Ends :
      {A : Type 0}
      → (A → Disk Byte → Type 0)
      → (Disk Byte → Type 0)
      → Disk Byte × Outcome A
      → Type 0
  Ends Good Bad (d, returned v) = Good v d
  Ends Good Bad (d, raised f) = Bad d
  Ends Good Bad (d, died) = Bad d

  module _ (Bad : Disk Byte → Type 0) where
    pub andthen-Ends :
        {A B : Type 0} (Good : A → Disk Byte → Type 0) (After : B → Disk Byte → Type 0)
        (r : Disk Byte × Outcome A) (next : A → Disk Byte → Disk Byte × Outcome B)
        → Ends Good Bad r
        → ((v : A) (d : Disk Byte) → Good v d → Ends After Bad (next v d))
        → Ends After Bad (andthen r next)
    unfolding andthen
    andthen-Ends Good After (d, returned v) next first later = later v d first
    andthen-Ends Good After (d, raised f) next first later = first
    andthen-Ends Good After (d, died) next first later = first

    pub catching-Ends :
        {A : Type 0} (Good : A → Disk Byte → Type 0) (Before : Disk Byte → Type 0)
        (r : Disk Byte × Outcome A) (handler : Failure → Disk Byte → Disk Byte × Outcome A)
        → Ends Good Before r
        → ((d : Disk Byte) → Before d → Bad d)
        → ((f : Failure) (d : Disk Byte) → Before d → Ends Good Bad (handler f d))
        → Ends Good Bad (catching r handler)
    unfolding catching
    catching-Ends Good Before (d, returned v) handler first weaker handled = first
    catching-Ends Good Before (d, raised f) handler first weaker handled = handled f d first
    catching-Ends Good Before (d, died) handler first weaker handled = weaker d first

    pub finally_do-Ends :
        {A : Type 0} (Good After : A → Disk Byte → Type 0) (r : Disk Byte × Outcome A)
        (cleanup : Disk Byte → Disk Byte × Outcome (Unit {0}))
        → Ends Good Bad r
        → ((v : A) (d : Disk Byte) → Good v d → Ends (λ _. After v) Bad (cleanup d))
        → ((d : Disk Byte) → Bad d → Ends (λ _. Bad) Bad (cleanup d))
        → Ends After Bad (finally_do r cleanup)
    unfolding finally_do andthen
    finally_do-Ends Good After (d, returned v) cleanup first good bad =
        andthen-Ends (λ _. After v) After (cleanup d) (λ _. give v) (good v d first) (λ _ _ q. q)
    finally_do-Ends Good After (d, raised f) cleanup first good bad =
        andthen-Ends (λ _. Bad) After (cleanup d) (λ _. raise f) (bad d first) (λ _ _ q. q)
    finally_do-Ends Good After (d, died) cleanup first good bad = first

    pub perform-Ends :
        (Good : Unit {0} → Disk Byte → Type 0) (change : Disk Byte → Disk Byte) (d : Disk Byte)
        → ((fs : List Fault) → Good tt (change (record d { faults = fs })))
        → ((fs : List Fault) → Bad (record d { faults = fs }))
        → Ends Good Bad (perform change d)
    unfolding perform
    perform-Ends Good change d good bad = by_fault d.faults
      where
        by_fault : (fs : List Fault) → Ends Good Bad (answer change d fs)
        by_fault [] = good []
        by_fault (goes ∷ rest) = good rest
        by_fault (fails ∷ rest) = bad rest
        by_fault (dies ∷ rest) = bad rest

    pub choose-Ends :
        {A : Type 0} (Good : A → Disk Byte → Type 0) (test : Bool)
        (one other : Disk Byte → Disk Byte × Outcome A) (d : Disk Byte)
        → (test ≡ true → Ends Good Bad (one d))
        → (test ≡ false → Ends Good Bad (other d))
        → Ends Good Bad ((if test then one else other) d)
    choose-Ends Good true one other d first second = first refl
    choose-Ends Good false one other d first second = second refl

    -- An operation, and then the rest.
    pub perform_then :
        {B : Type 0} (Good : Unit {0} → Disk Byte → Type 0) (After : B → Disk Byte → Type 0)
        (change : Disk Byte → Disk Byte) (d : Disk Byte)
        (next : Unit {0} → Disk Byte → Disk Byte × Outcome B)
        → ((fs : List Fault) → Good tt (change (record d { faults = fs })))
        → ((fs : List Fault) → Bad (record d { faults = fs }))
        → ((e : Disk Byte) → Good tt e → Ends After Bad (next tt e))
        → Ends After Bad (andthen (perform change d) next)
    perform_then Good After change d next good bad later =
        andthen-Ends Good After (perform change d) next (perform-Ends Good change d good bad)
          (λ v e g. later e g)

  pub weaken-Ends :
      {A : Type 0} (Good Weaker : A → Disk Byte → Type 0) (Bad WeakerBad : Disk Byte → Type 0)
      (r : Disk Byte × Outcome A)
      → Ends Good Bad r
      → ((v : A) (d : Disk Byte) → Good v d → Weaker v d)
      → ((d : Disk Byte) → Bad d → WeakerBad d)
      → Ends Weaker WeakerBad r
  weaken-Ends Good Weaker Bad WeakerBad (d, returned v) h good bad = good v d h
  weaken-Ends Good Weaker Bad WeakerBad (d, raised f) h good bad = bad d h
  weaken-Ends Good Weaker Bad WeakerBad (d, died) h good bad = bad d h
