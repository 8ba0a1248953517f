-- ===== src/Threadpool/Create.antt =====
-- `ce_tp_create` starts its threads one by one, and waits behind each for all of them.
use cevent_sample.Prelude.{ℕ, ◌+◌, ◌≤◌, ◌<◌, ◌≡◌, refl, Bool, true, false, arith}

-- the loop of `ce_tp_create`: its index, the threads started, those that have counted themselves in
-- `routines`, and whether it stands in its waiting loop
pub record Creating : Type 0 where
  pub index : ℕ
  pub started : ℕ
  pub routines : ℕ
  pub spinning : Bool

pub data CreateStep (nthreads : ℕ) (s : Creating) : Creating → Type 0 where
  create :
      s.spinning ≡ false
      → s.index < nthreads
      → CreateStep nthreads s (record s { started = s.started + 1; spinning = true })
  count : s.routines < s.started → CreateStep nthreads s (record s { routines = s.routines + 1 })
  leave :
      s.spinning ≡ true
      → nthreads ≤ s.routines
      → CreateStep nthreads s (record s { index = s.index + 1; spinning = false })

abbrev pub first : Creating
first = record { index = 0; started = 0; routines = 0; spinning = false }

pub data Creates (nthreads : ℕ) : Creating → Type 0 where
  here : Creates nthreads first
  next : {s t : Creating} → Creates nthreads s → CreateStep nthreads s t → Creates nthreads t

-- the call returns: the loop is at its test, and the test fails
abbrev pub IsCreated : ℕ → Creating → Type 0
IsCreated nthreads s = (s.spinning ≡ false) × (s.index ≡ nthreads)

record IsStuck (s : Creating) : Type 0 where
  at_first : s.index ≡ 0
  counted : s.routines ≤ s.started
  before : s.spinning ≡ false → s.started ≡ 0
  one : s.started ≤ 1

Step-IsStuck : {n : ℕ} {s t : Creating} → 2 ≤ n → CreateStep n s t → IsStuck s → IsStuck t
Step-IsStuck h (create e lt) k = record {
  at_first = k.at_first;
  counted = omega (arith, k.counted);
  before = λ f. cc;
  one = omega (arith, k.before e);
}
Step-IsStuck h (count lt) k = record {
  at_first = k.at_first;
  counted = omega arith;
  before = k.before;
  one = k.one;
}
Step-IsStuck h (leave e le) k = absurd (omega (arith, k.counted, k.one))

Creates-IsStuck : {n : ℕ} {s : Creating} → 2 ≤ n → Creates n s → IsStuck s
Creates-IsStuck h here = record {
  at_first = refl;
  counted = omega arith;
  before = λ e. refl;
  one = omega arith;
}
Creates-IsStuck h (next r st) = Step-IsStuck h st (Creates-IsStuck h r)

-- For two threads or more `ce_tp_create` never returns: behind the first thread it waits for all of
-- them to have counted themselves.
pub ce_tp_create-hangs : {n : ℕ} {s : Creating} → 2 ≤ n → Creates n s → ¬ (IsCreated n s)
ce_tp_create-hangs h r done = let k = Creates-IsStuck h r in omega (arith, k.at_first, done.1)

-- For one thread it can return.
pub ce_tp_create-one : (s : Creating) × Creates 1 s × IsCreated 1 s
ce_tp_create-one = (
  record { index = 1; started = 1; routines = 1; spinning = false },
  next (next (next here (create refl (omega arith))) (count (omega arith)))
      (leave refl (omega arith)),
  (refl, refl),
)
