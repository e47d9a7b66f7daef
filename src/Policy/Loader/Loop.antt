-- ===== src/Policy/Loader/Loop.antt =====
-- internal/policy/loader.go: the background goroutine `loop` and `Close`, as steps. When both channels
-- of the `select` are ready, either branch may be taken.
use sentry_gate_ai.Prelude.{
  String, ◌≡◌, refl, sym, ◌∙◌, subst, ℕ, Bool, true, false, List, arith, Bool-cases, not, inl, inr,
  if◌then◌else◌,
}
use sentry_gate_ai.Prelude.Int.{ℤ, int_gt}
use sentry_gate_ai.Contracts.{ok, Time}
use sentry_gate_ai.Policy.Validity.{IsValid}
use sentry_gate_ai.Policy.Loader.{Decoded, Loader, FileRead, new_loader, reload}
use sentry_gate_ai.Policy.Loader.Reloads.{
  IsAccepted, new_loader-IsAccepted, reload-IsAccepted, accepted-IsValid,
}

-- The loader with its two channels: whether `stop` and `done` are closed, and whether the goroutine of
-- `loop` runs
pub record Process : Type 0 where
  pub loader : Loader
  pub stop : Bool
  pub done : Bool
  pub running : Bool

-- The end of `NewLoader`: it starts the goroutine when the interval is positive, and otherwise closes
-- `done`.
unfoldable pub start : Loader → ℤ → Process
start l interval =
    if int_gt interval 0
    then record { loader = l; stop = false; done = false; running = true }
    else record { loader = l; stop = false; done = true; running = false }

start-loader : (l : Loader) (interval : ℤ) → (start l interval).loader ≡ l
unfolding start
start-loader l interval = ground arith

-- Either the goroutine runs, or `done` is closed.
abbrev IsPaired : Process → Type 0
IsPaired p = p.running ≡ not p.done

start-IsPaired : (l : Loader) (interval : ℤ) → IsPaired (start l interval)
unfolding start
start-IsPaired l interval = ground arith

-- `close(l.stop)` in `Close`, once
abbrev pub close_stop : Process → Process
close_stop p = record p { stop = true }

-- `<-l.stop` in `loop`: it returns, and the deferred close runs.
abbrev pub exit_loop : Process → Process
exit_loop p = record p { done = true; running = false }

module _ (sha256_hex : List ℕ → String) (decode : List ℕ → Decoded) where
  -- `<-t.C` in `loop`
  abbrev pub tick : Process → FileRead → Time → Process
  tick p read now = record p { loader = (reload sha256_hex decode p.loader read now).0 }

  pub data Step (p q : Process) : Type 0 where
    closes : q ≡ close_stop p → Step p q
    ticks : (read : FileRead) (now : Time) → p.running ≡ true → q ≡ tick p read now → Step p q
    exits : p.running ≡ true → p.stop ≡ true → q ≡ exit_loop p → Step p q

  pub data Reach (p : Process) : Process → Type 0 where
    here : Reach p p
    next : {q r : Process} → Reach p q → Step q r → Reach p r

  Step-IsAccepted :
      (p q : Process)
      → Step p q
      → IsAccepted sha256_hex decode p.loader.current
      → IsAccepted sha256_hex decode q.loader.current
  Step-IsAccepted p q (closes e) v = rw e v
  Step-IsAccepted p q (ticks read now d e) v =
      rw e (reload-IsAccepted sha256_hex decode p.loader read now v)
  Step-IsAccepted p q (exits d s e) v = rw e v

  Reach-IsAccepted :
      {p q : Process}
      → Reach p q
      → IsAccepted sha256_hex decode p.loader.current
      → IsAccepted sha256_hex decode q.loader.current
  Reach-IsAccepted here v = v
  Reach-IsAccepted (next way step) v = Step-IsAccepted _ _ step (Reach-IsAccepted way v)

  Step-IsPaired : (p q : Process) → Step p q → IsPaired p → IsPaired q
  Step-IsPaired p q (closes e) v = ground arith
  Step-IsPaired p q (ticks read now r e) v = ground arith
  Step-IsPaired p q (exits r s e) v = ground arith

  Reach-IsPaired : {p q : Process} → Reach p q → IsPaired p → IsPaired q
  Reach-IsPaired here v = v
  Reach-IsPaired (next way step) v = Step-IsPaired _ _ step (Reach-IsPaired way v)

  Step-frozen :
      (p q : Process) → Step p q → p.running ≡ false → (q.running ≡ false) × (q.loader ≡ p.loader)
  Step-frozen p q (closes e) d = ground arith
  Step-frozen p q (ticks read now running e) d = absurd (ground arith)
  Step-frozen p q (exits running s e) d = absurd (ground arith)

  Reach-frozen :
      {p q : Process} → Reach p q → p.running ≡ false → (q.running ≡ false) × (q.loader ≡ p.loader)
  Reach-frozen here d = (d, refl)
  Reach-frozen (next way step) d =
      let (still, same) = Reach-frozen way d in
      let (later, kept) = Step-frozen _ _ step still in (later, kept ∙ same)

  -- The active policy is consistent, `Close` can return, and after the goroutine has returned it
  -- reloads nothing.
  pub record IsSafe (p : Process) : Type 0 where
    pub valid : IsValid p.loader.current
    pub closable : (q : Process) × Reach p q × (q.stop ≡ true) × (q.done ≡ true)
    pub frozen : p.done ≡ true → (q : Process) → Reach p q → q.loader ≡ p.loader

  closable :
      (p : Process) → IsPaired p → (q : Process) × Reach p q × (q.stop ≡ true) × (q.done ≡ true)
  closable p paired = elim (Bool-cases p.done) [
    | inl done ↦ (close_stop p, next here (closes refl), refl, done)
    | inr running ↦ (
      exit_loop (close_stop p),
      next (next here (closes refl)) (exits (ground (arith, paired, running)) refl refl),
      refl,
      refl,
    )
  ]

  -- From a loader that NewLoader made, whatever the interval, at every point of the reload loop: the
  -- active policy is consistent in the sense of build-IsValid, Close can still return, also when no
  -- goroutine was started, and once done is closed the loop changes the loader no more.
  pub Reach-IsSafe :
      (read : FileRead) (now : Time) (l : Loader) (interval : ℤ) (p : Process)
      → new_loader sha256_hex decode read now ≡ ok l
      → Reach (start l interval) p
      → IsSafe p
  Reach-IsSafe read now l interval p made way =
      let paired = Reach-IsPaired way (start-IsPaired l interval) in
      let first = new_loader-IsAccepted sha256_hex decode read now l made in
      record {
        valid = accepted-IsValid sha256_hex decode p.loader.current (
            Reach-IsAccepted way (
              subst (λ x. IsAccepted sha256_hex decode x.current) (sym (start-loader l interval))
                first));
        closable = closable p paired;
        frozen = λ d q onward. (Reach-frozen onward (ground (arith, paired, d))).1;
      }
