-- ===== src/Loader/Calls.antt =====
-- The calls that a loader makes to the process (kernel/process.c), as they are seen from outside: which
-- calls, in which order, and whether they succeeded. What a call answers may depend on all that came
-- before it, and is not restricted.
use toyix.Loader.{
  Status, loaded, invalid, unsupported, too_large, load_failed, ProcessOperations, after, on_loaded,
}
use toyix.Loader.Contract.{InUser, Contract}
use toyix.Prelude.{
  ℕ, ◌+◌, ◌-◌, ◌<◌, ◌≤◌, ◌≡◌, ◌≢◌, ◌⊎◌, inl, inr, refl, Bool, true, false, List, [], ◌∷◌, ◌++◌,
}

pub data Call : Type 0 where
  map_region : (start size : ℕ) → Call
  copy_in : (dest offset size : ℕ) → Call
  zero_fill : (dest size : ℕ) → Call
  stack_at : (base top : ℕ) → Call
  enter_at : (at : ℕ) → Call
  code_at : (at : ℕ) → Call

-- The calls so far, the last one first, with their answers; `true` is the result 0.
abbrev pub Log : Type 0
Log = List (Call × Bool)

-- The answer to a call, after the calls of a log.
abbrev pub Answers : Type 0
Answers = Log → Call → Bool

-- The assignments of the stack, the entry point and the code base cannot fail.
abbrev pub reply : Answers → Log → Call → Bool
reply answers log (map_region start size) = answers log (map_region start size)
reply answers log (copy_in dest offset size) = answers log (copy_in dest offset size)
reply answers log (zero_fill dest size) = answers log (zero_fill dest size)
reply answers log (stack_at base top) = true
reply answers log (enter_at at) = true
reply answers log (code_at at) = true

abbrev pub make : Answers → Call → Log → Bool × Log
make answers call log = (reply answers log call, (call, reply answers log call) ∷ log)

-- The process is the log of the calls.
abbrev pub calling : Answers → ProcessOperations Log
calling answers = record {
  map_user_region = λ log start size. make answers (map_region start size) log;
  copy_to_user_init = λ log dest offset size. make answers (copy_in dest offset size) log;
  zero_user_init = λ log dest size. make answers (zero_fill dest size) log;
  set_user_stack = λ log base top. (make answers (stack_at base top) log).1;
  set_user_entry = λ log at. (make answers (enter_at at) log).1;
  set_code_base = λ log at. (make answers (code_at at) log).1;
}

-- A region that was mapped holds the address.
abbrev pub IsMapped : Log → ℕ → Type 0
IsMapped [] a = ⊥
IsMapped ((map_region start size, b) ∷ log) a =
    ((b ≡ true) × (start ≤ a) × (a < start + size)) ⊎ IsMapped log a
IsMapped ((copy_in dest offset size, b) ∷ log) a = IsMapped log a
IsMapped ((zero_fill dest size, b) ∷ log) a = IsMapped log a
IsMapped ((stack_at base top, b) ∷ log) a = IsMapped log a
IsMapped ((enter_at at, b) ∷ log) a = IsMapped log a
IsMapped ((code_at at, b) ∷ log) a = IsMapped log a

-- A call that may be made after those of the log: regions, stack and entry points lie in user space, what
-- is copied lies inside the image of `n` bytes, and what is written has been mapped.
abbrev pub MayCall : (n : ℕ) → Call → Log → Type 0
MayCall n (map_region start size) log = InUser start size
MayCall n (copy_in dest offset size) log =
    (offset + size ≤ n) × ((a : ℕ) → dest ≤ a → a < dest + size → IsMapped log a)
MayCall n (zero_fill dest size) log = (a : ℕ) → dest ≤ a → a < dest + size → IsMapped log a
MayCall n (stack_at base top) log = (base < top) × InUser base (top - base)
MayCall n (enter_at at) log = (0x1000000 ≤ at) × (at < 0xc0000000)
MayCall n (code_at at) log = (0x1000000 ≤ at) × (at < 0xc0000000)

abbrev pub AllMayCall : (n : ℕ) → Log → Type 0
AllMayCall n [] = Unit
AllMayCall n ((call, b) ∷ log) = MayCall n call log × AllMayCall n log

abbrev pub calling_contract : (answers : Answers) → (n : ℕ) → Contract Log (calling answers) n
calling_contract answers n = record {
  Inv = AllMayCall n;
  Mapped = IsMapped;
  map_region = λ p start size inside kept. (inside, kept);
  map_mapped = λ p start size a ok lo hi. inl (ok, lo, hi);
  map_keeps = λ p start size a mapped. inr mapped;
  copy = λ p dest offset size inside usable kept. ((inside, usable), kept);
  copy_keeps = λ p dest offset size a mapped. mapped;
  zero_bytes = λ p dest size usable kept. (usable, kept);
  stack = λ p base top lt inside kept. ((lt, inside), kept);
  entry = λ p at lo hi kept. ((lo, hi), kept);
  code_base = λ p at lo hi kept. ((lo, hi), kept);
}

unfoldable pub proceed : Bool × Log → (Log → Bool × Log) → Bool × Log
proceed (false, log) next = (false, log)
proceed (true, log) next = next log

-- The calls are made in this order, up to the first that fails.
unfoldable pub run : Answers → List Call → Log → Bool × Log
run answers [] log = (true, log)
run answers (call ∷ calls) log = proceed (make answers call log) (run answers calls)

abbrev pub status_of : Bool × Log → Status × Log
status_of (false, log) = (load_failed, log)
status_of (true, log) = (loaded, log)

-- Code that makes a call and then does what some calls do.
pub after-proceed :
    (r : Bool × Log) (next : Log → Status × Log) (calls : Log → Bool × Log)
    → ((log : Log) → next log ≡ status_of (calls log))
    → after r next ≡ status_of (proceed r calls)
unfolding after proceed
after-proceed (false, log) next calls h = refl
after-proceed (true, log) next calls h = h log

pub on_loaded-proceed :
    (r : Bool × Log) (next : Log → Status × Log) (calls : Log → Bool × Log)
    → ((log : Log) → next log ≡ status_of (calls log))
    → on_loaded (status_of r) next ≡ status_of (proceed r calls)
unfolding on_loaded proceed
on_loaded-proceed (false, log) next calls h = refl
on_loaded-proceed (true, log) next calls h = h log

-- A check passes, or its error is the result.
pub status_cases :
    (status : Status)
    → (status ≡ loaded)
      ⊎ ((status ≢ loaded)
          × ((log : Log) (next : Log → Status × Log)
              → on_loaded (status, log) next ≡ (status, log)))
unfolding on_loaded
status_cases loaded = inl refl
status_cases invalid = inr (λ e. cc, λ log next. refl)
status_cases unsupported = inr (λ e. cc, λ log next. refl)
status_cases too_large = inr (λ e. cc, λ log next. refl)
status_cases load_failed = inr (λ e. cc, λ log next. refl)

pub after-on_loaded :
    (r : Bool × Log) (first next : Log → Status × Log)
    → after r (λ log. on_loaded (first log) next) ≡ on_loaded (after r first) next
unfolding after on_loaded
after-on_loaded (false, log) first next = refl
after-on_loaded (true, log) first next = refl

proceed-proceed :
    (r : Bool × Log) (f g : Log → Bool × Log)
    → proceed (proceed r f) g ≡ proceed r (λ log. proceed (f log) g)
unfolding proceed
proceed-proceed (false, log) f g = refl
proceed-proceed (true, log) f g = refl

pub run-append :
    (answers : Answers) (first rest : List Call) (log : Log)
    → run answers (first ++ rest) log ≡ proceed (run answers first log) (run answers rest)
unfolding run proceed
run-append answers [] rest log = refl
run-append answers (call ∷ first) rest log =
    let same : run answers (first ++ rest)
        ≡ (λ log. proceed (run answers first log) (run answers rest)) =
      λ i log. run-append answers first rest log i in
    rw same
      (rw (proceed-proceed (make answers call log) (run answers first) (run answers rest)) refl)
