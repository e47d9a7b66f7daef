-- ===== src/Proxy/Slots.antt =====
-- The evaluation slots of proxy/proxy.go under concurrent requests: each is a step of one request.
use sentry_gate_ai.Prelude.{
  refl, ◌≡◌, ◌≤◌, ℕ, suc, Bool, true, false, List, [], ◌∷◌, ltb, nat_eq, arith, Bool-cases, inl,
  inr, if◌then◌else◌,
}
use sentry_gate_ai.Prelude.Int.{ℤ}
use sentry_gate_ai.Prelude.Lists.{length, any}
use sentry_gate_ai.Proxy.{slot_count}

-- The channel `workerPool` holds a token of each request that is being evaluated. `waiting` are the
-- requests at the `select`, and `done` those that have given their slot back.
pub record Slots : Type 0 where
  pub capacity : ℕ
  pub waiting : List ℕ
  pub evaluating : List ℕ
  pub done : List ℕ

abbrev pub new_slots : ℤ → Slots
new_slots n = record { capacity = slot_count n; waiting = []; evaluating = []; done = [] }

-- `MaxParallel`
abbrev pub max_parallel : Slots → ℕ
max_parallel s = s.capacity

unfoldable pub remove : ℕ → List ℕ → List ℕ
remove r [] = []
remove r (x ∷ xs) = let rest = remove r xs in if nat_eq x r then xs else x ∷ rest

abbrev pub holds : ℕ → List ℕ → Bool
holds r = any (λ x. nat_eq x r)

-- A request enters the `select` of `EvaluateThrottled`.
abbrev pub arrive : ℕ → Slots → Slots
arrive r s = record s { waiting = r ∷ s.waiting }

-- `p.workerPool <- struct{}{}`
abbrev pub take : ℕ → Slots → Slots
take r s = record s { waiting = remove r s.waiting; evaluating = r ∷ s.evaluating }

-- `<-ctx.Done()`
abbrev pub give_up : ℕ → Slots → Slots
give_up r s = record s { waiting = remove r s.waiting }

-- `<-p.workerPool`, after the evaluation
abbrev pub finish : ℕ → Slots → Slots
finish r s = record s { evaluating = remove r s.evaluating; done = r ∷ s.done }

-- A send on the channel blocks while it is full.
pub data Step (s u : Slots) : Type 0 where
  arrives : (r : ℕ) → u ≡ arrive r s → Step s u
  takes :
      (r : ℕ)
      → holds r s.waiting ≡ true
      → ltb (length s.evaluating) s.capacity ≡ true
      → u ≡ take r s
      → Step s u
  gives_up : (r : ℕ) → holds r s.waiting ≡ true → u ≡ give_up r s → Step s u
  finishes : (r : ℕ) → holds r s.evaluating ≡ true → u ≡ finish r s → Step s u

pub data Reach (s : Slots) : Slots → Type 0 where
  here : Reach s s
  next : {t u : Slots} → Reach s t → Step t u → Reach s u

-- The slots in use are within the capacity, which is not zero.
pub record IsBounded (s : Slots) : Type 0 where
  pub within : length s.evaluating ≤ max_parallel s
  pub positive : 1 ≤ max_parallel s

length-remove : (r : ℕ) (xs : List ℕ) → length (remove r xs) ≤ length xs
unfolding remove
length-remove r [] = omega arith
length-remove r (x ∷ xs) = ground (arith, length-remove r xs)

new_slots-IsBounded : (n : ℤ) → IsBounded (new_slots n)
unfolding slot_count
new_slots-IsBounded (ℤ.pos n) = record { within = ground arith; positive = ground arith }
new_slots-IsBounded (ℤ.negsuc n) = record { within = ground arith; positive = ground arith }

Step-IsBounded : (s u : Slots) → Step s u → IsBounded s → IsBounded u
Step-IsBounded s u (arrives r e) b = record {
  within = ground (arith, b.within);
  positive = ground (arith, b.positive);
}
Step-IsBounded s u (takes r w f e) b = record {
  within = ground (arith, b.within);
  positive = ground (arith, b.positive);
}
Step-IsBounded s u (gives_up r w e) b = record {
  within = ground (arith, b.within);
  positive = ground (arith, b.positive);
}
Step-IsBounded s u (finishes r w e) b = record {
  within = ground (arith, b.within, length-remove r s.evaluating);
  positive = ground (arith, b.positive);
}

Reach-IsBounded : {s t : Slots} → IsBounded s → Reach s t → IsBounded t
Reach-IsBounded h here = h
Reach-IsBounded h (next r st) = Step-IsBounded _ _ st (Reach-IsBounded h r)

-- When the channel is full, some request is being evaluated.
some_evaluating :
    (s : Slots)
    → IsBounded s
    → ltb (length s.evaluating) s.capacity ≡ false
    → (x : ℕ) × (holds x s.evaluating ≡ true)
some_evaluating s b full = go s.evaluating (ground (arith, b.positive))
  where
    go : (l : List ℕ) → 1 ≤ length l → (x : ℕ) × (holds x l ≡ true)
    go [] h = absurd (omega arith)
    go (x ∷ xs) h = (x, ground arith)

-- The slots in use stay within the capacity, and there is a way on from here in which the request
-- gets a slot, is evaluated and gives the slot back.
pub record IsServed (r : ℕ) (s : Slots) : Type 0 where
  pub bounded : length s.evaluating ≤ max_parallel s
  pub later : Slots
  pub reached : Reach s later
  pub served : holds r later.done ≡ true

take_then_finish :
    (r : ℕ) (s t : Slots)
    → Reach s t
    → holds r t.waiting ≡ true
    → ltb (length t.evaluating) t.capacity ≡ true
    → (u : Slots) × Reach s u × (holds r u.done ≡ true)
take_then_finish r s t way waits free = (
  finish r (take r t),
  next (next way (takes r waits free refl)) (finishes r (ground arith) refl),
  ground arith,
)

remove-shorter : (x : ℕ) (xs : List ℕ) → holds x xs ≡ true → suc (length (remove x xs)) ≡ length xs
unfolding remove
remove-shorter x [] h = absurd (ground arith)
remove-shorter x (y ∷ ys) h = ground (arith, remove-shorter x ys)

serve :
    (r : ℕ) (s : Slots)
    → IsBounded s
    → holds r s.waiting ≡ true
    → (u : Slots) × Reach s u × (holds r u.done ≡ true)
serve r s b waits = elim (Bool-cases (ltb (length s.evaluating) s.capacity)) [
  | inl free ↦ take_then_finish r s s here waits free
  | inr full ↦
      let (x, held) = some_evaluating s b full in
      take_then_finish r s (finish x s) (next here (finishes x held refl)) waits
        (ground (arith, remove-shorter x s.evaluating held, b.within))
]

-- In every state that the requests of a new proxy can reach, whatever the configured number of slots,
-- the evaluations in progress are within MaxParallel, and a request that waits for a slot can still
-- be evaluated: the evaluations in progress need only finish.
pub waiting-IsServed :
    (n : ℤ) (s : Slots) (r : ℕ) → Reach (new_slots n) s → holds r s.waiting ≡ true → IsServed r s
waiting-IsServed n s r way waits =
    let b = Reach-IsBounded (new_slots-IsBounded n) way in
    let (u, onward, served) = serve r s b waits in
    record { bounded = b.within; later = u; reached = onward; served = served }
