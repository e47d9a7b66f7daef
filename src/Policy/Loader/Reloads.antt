-- ===== src/Policy/Loader/Reloads.antt =====
-- The active policy is always one that was read and accepted, and a failed reload keeps it.
use sentry_gate_ai.Policy.Loader.{
  built, parsed, status, clear_error, record_error, Decoded, PolicyError, Loader, FileRead, parse,
  new_loader, reload,
}
use sentry_gate_ai.Policy.Document.{Document, BuildError}
use sentry_gate_ai.Prelude.{
  true, false, String, ◌≢◌, refl, subst, ℕ, List, [], ◌∷◌, none, some, ◌≡◌, arith, eq_iff, ◌==◌,
  inl, inr, Bool-cases,
}
use sentry_gate_ai.Contracts.{Result, ok, err, Time, Result-cases}
use sentry_gate_ai.Policy.{Snapshot}
use sentry_gate_ai.Policy.Build.{build}
use sentry_gate_ai.Policy.Validity.{IsValid, build-IsValid}

module _ (sha256_hex : List ℕ → String) (decode : List ℕ → Decoded) where
  -- The snapshot comes from a file that `Parse` accepts.
  pub record IsAccepted (s : Snapshot) : Type 0 where
    pub raw : List ℕ
    pub parsed : parse sha256_hex decode raw ≡ ok s

  unfoldable pub reload_all : Loader → List (FileRead × Time) → Loader
  reload_all l [] = l
  reload_all l ((read, now) ∷ rest) = reload_all (reload sha256_hex decode l read now).0 rest

  pub new_loader-IsAccepted :
      (read : FileRead) (now : Time) (l : Loader)
      → new_loader sha256_hex decode read now ≡ ok l
      → IsAccepted l.current
  unfolding new_loader
  new_loader-IsAccepted (err e) now l h = absurd (ground arith)
  new_loader-IsAccepted (ok raw) now l h = elim (Result-cases (parse sha256_hex decode raw)) [
    | inl (s, p) ↦ record { raw = raw; parsed = ground (arith, p) }
    | inr (e, p) ↦ absurd (ground (arith, p))
  ]

  -- A reload keeps the active policy, or makes the file's policy active.
  pub reload-IsAccepted :
      (l : Loader) (read : FileRead) (now : Time)
      → IsAccepted l.current
      → IsAccepted (reload sha256_hex decode l read now).0.current
  unfolding reload
  reload-IsAccepted l (err e) now v = v
  reload-IsAccepted l (ok raw) now v = elim (Bool-cases (sha256_hex raw == l.current.digest)) [
    | inl same ↦ rw same v
    | inr changed ↦ elim (Result-cases (parse sha256_hex decode raw)) [
      | inl (s, p) ↦ rw changed (rw p (record { raw = raw; parsed = p }))
      | inr (e, p) ↦ rw changed (rw p v)
    ]
  ]

  reload_all-IsAccepted :
      (l : Loader) (reads : List (FileRead × Time))
      → IsAccepted l.current
      → IsAccepted (reload_all l reads).current
  unfolding reload_all
  reload_all-IsAccepted l [] v = v
  reload_all-IsAccepted l ((read, now) ∷ rest) v =
      reload_all-IsAccepted (reload sha256_hex decode l read now).0 rest
        (reload-IsAccepted l read now v)

  -- The digest plays no part in the consistency of a snapshot.
  digest-IsValid : (s : Snapshot) (d : String) → IsValid s → IsValid (record s { digest = d })
  digest-IsValid s d v = record {
    tasks_lower = v.tasks_lower;
    tasks_upper = v.tasks_upper;
    modes = v.modes;
    agents = v.agents;
    targets = v.targets;
  }

  built-IsValid :
      (raw : List ℕ) (doc : Document) (r : Result BuildError Snapshot) (s : Snapshot)
      → build doc ≡ r
      → built sha256_hex decode raw r ≡ ok s
      → IsValid s
  unfolding built
  built-IsValid raw doc (ok x) s b h =
      subst IsValid (ground (arith, h)) (digest-IsValid x (sha256_hex raw) (build-IsValid doc x b))
  built-IsValid raw doc (err e) s b h = absurd (ground (arith, h))

  parsed-IsValid :
      (raw : List ℕ) (d : Decoded) (s : Snapshot)
      → parsed sha256_hex decode raw d ≡ ok s
      → IsValid s
  unfolding parsed
  parsed-IsValid raw Decoded.empty s h = absurd (ground (arith, h))
  parsed-IsValid raw (Decoded.malformed e) s h = absurd (ground (arith, h))
  parsed-IsValid raw (Decoded.document doc true) s h = absurd (ground (arith, h))
  parsed-IsValid raw (Decoded.document doc false) s h = built-IsValid raw doc (build doc) s refl h

  pub accepted-IsValid : (s : Snapshot) → IsAccepted s → IsValid s
  unfolding parse
  accepted-IsValid s v = parsed-IsValid v.raw (decode v.raw) s v.parsed

  -- From a loader that `NewLoader` made, after any reloads of any file contents, the active policy
  -- is consistent in the sense of `build-IsValid`.
  active_policy-IsValid :
      (read : FileRead) (now : Time) (l : Loader) (reads : List (FileRead × Time))
      → new_loader sha256_hex decode read now ≡ ok l
      → IsValid (reload_all l reads).current
  active_policy-IsValid read now l reads h =
      accepted-IsValid (reload_all l reads).current
        (reload_all-IsAccepted l reads (new_loader-IsAccepted read now l h))

  -- What `Reload` has done when it returns. Without an error, the active policy has the digest of
  -- the file and no error is on record. With an error, the active policy is the one before, and
  -- `Status` reports that error and the time of the reload.
  pub record IsReloaded (l : Loader) (read : FileRead) (now : Time) : Type 0 where
    pub done :
        (raw : List ℕ)
        → read ≡ ok raw
        → (reload sha256_hex decode l read now).1 ≡ none
        → ((reload sha256_hex decode l read now).0.current.digest ≡ sha256_hex raw)
          × ((status (reload sha256_hex decode l read now).0).last_reload_error ≡ none)
    pub failed :
        (e : PolicyError)
        → (reload sha256_hex decode l read now).1 ≡ some e
        → ((reload sha256_hex decode l read now).0.current ≡ l.current)
          × ((status (reload sha256_hex decode l read now).0).last_reload_error ≡ some (e, now))
    pub unreadable : (m : String) → read ≡ err m → (reload sha256_hex decode l read now).1 ≢ none

  parse-digest :
      (raw : List ℕ) (s : Snapshot) → parse sha256_hex decode raw ≡ ok s → s.digest ≡ sha256_hex raw
  unfolding parse parsed built
  parse-digest raw s h = ground (arith, h)

  -- `Reload` without an error leaves a policy active that has the file's digest and no error on
  -- record; with an error it keeps the active policy, and `Status` reports the error with the time
  -- of the reload. An unreadable file is an error.
  pub reload-IsReloaded : (l : Loader) (read : FileRead) (now : Time) → IsReloaded l read now
  unfolding reload status clear_error record_error
  reload-IsReloaded l (err m) now = record {
    done = λ raw r h. absurd (ground (arith, r));
    failed = λ e h. ground (arith, h);
    unreadable = λ m' r h. absurd (ground (arith, h));
  }
  reload-IsReloaded l (ok raw) now =
      let digests = eq_iff (sha256_hex raw) l.current.digest in
      elim (Result-cases (parse sha256_hex decode raw)) [
        | inl (s, p) ↦ record {
          done = λ raw' r h. ground (arith, r, h, p, digests, parse-digest raw s p);
          failed = λ e h. absurd (ground (arith, h, p));
          unreadable = λ m r. absurd (ground (arith, r));
        }
        | inr (x, p) ↦ record {
          done = λ raw' r h. ground (arith, r, h, p, digests);
          failed = λ e h. ground (arith, h, p);
          unreadable = λ m r. absurd (ground (arith, r));
        }
      ]
