-- ===== src/Runner/Connect/Bounds.antt =====
-- How often connect dials, and the delays between its attempts.
use remote_command_orchestra.Common.{
  ℕ, zero, suc, ◌+◌, ◌*◌, ◌≤◌, true, false, Option, none, some, ℤ, pos, negsuc, ◌≤ℤ◌, ◌<ℤ◌, ◌+ℤ◌,
  +ℤ_parts, ltb_ℤ, pos_part, neg_part, ◌≡◌, refl, ap, arith,
}
use remote_command_orchestra.Domain.{Category, Error, classified, other, is_retryable, as_failure}
use remote_command_orchestra.Runner.Env.{
  Env, World, Plan, Runner, refused, dial_plan, sleep_fails, dials,
}
use remote_command_orchestra.Runner.Connect.{
  Connection, linked, failed_with, panicked, half, capped, backoff, pause_then, connect_from,
  connect, retries_left,
}

abbrev pub attempts_of : {C : Type 0} → Connection C → ℕ
attempts_of (linked c n) = n
attempts_of (failed_with e n) = n
attempts_of panicked = 0

capped_negative : (base : ℤ) (n k : ℕ) → capped base (negsuc n) k ≡ negsuc n
unfolding capped
capped_negative base n k = ground arith

capped_bounds :
    (base : ℤ) (m k : ℕ) → (pos 0 ≤ℤ capped base (pos m) k) × (capped base (pos m) k ≤ℤ pos m)
unfolding capped
capped_bounds base m k = ground arith

half_bounds :
    (d : ℤ)
    → pos 0 ≤ℤ d
    → (2 * pos_part (half d) ≤ pos_part d) × (neg_part (half d) ≡ 0) × (neg_part d ≡ 0)
unfolding half
half_bounds (pos n) h = omega arith
half_bounds (negsuc n) h = absurd (omega arith)

-- A failure that no further attempt to connect can help with.
abbrev pub Final : Category → Type 0
Final Category.connection_timeout = ⊥
Final Category.connection_refused = ⊥
Final Category.handshake_failed = ⊥
Final Category.session_failed = ⊥
Final _ = Unit

abbrev pub FinalError : Error → Type 0
FinalError (classified f) = Final f.category
FinalError (other text) = Unit

Final-is_retryable : (c : Category) → Final c → is_retryable c ≡ false
unfolding is_retryable
Final-is_retryable Category.connection_timeout h = absurd h
Final-is_retryable Category.connection_refused h = absurd h
Final-is_retryable Category.handshake_failed h = absurd h
Final-is_retryable Category.session_failed h = absurd h
Final-is_retryable Category.dns_failure h = refl
Final-is_retryable Category.auth_failed h = refl
Final-is_retryable Category.host_key_mismatch h = refl
Final-is_retryable Category.host_key_unknown h = refl
Final-is_retryable Category.command_timeout h = refl
Final-is_retryable Category.command_failed h = refl
Final-is_retryable Category.template_error h = refl
Final-is_retryable Category.cancelled h = refl
Final-is_retryable Category.internal_error h = refl

FinalError-is_retryable :
    (err : Error) → FinalError err → is_retryable (as_failure err).category ≡ false
unfolding as_failure is_retryable
FinalError-is_retryable (classified f) h = Final-is_retryable f.category h
FinalError-is_retryable (other text) h = refl

module _ {C W : Type 0} (env : Env C W) (r : Runner) where
  sleep_fails-dials : (d : ℤ) (w : World W) → dials (sleep_fails env d w).1.trace ≡ dials w.trace
  unfolding sleep_fails dials
  sleep_fails-dials d w = ground arith

  backoff-trace :
      (base max_delay : ℤ) (k : ℕ) (w : World W)
      → (backoff env r base max_delay k w).1.trace ≡ w.trace
  unfolding backoff
  backoff-trace base max_delay k w = ground arith

  dial_plan-dials :
      (p : Plan) (w : World W) → dials (dial_plan env p none w).1.trace ≡ suc (dials w.trace)
  unfolding dial_plan dials
  dial_plan-dials p w = refl

  pause_then-dials :
      (delay : Option ℤ) (w : World W) (attempt m : ℕ) (again : World W → Connection C × World W)
      → ((v : World W)
          → (dials (again v).1.trace ≤ dials v.trace + m) × (attempts_of (again v).0 ≤ attempt + m))
      → let out = pause_then env r (delay, w) attempt again in
        (dials out.1.trace ≤ dials w.trace + m) × (attempts_of out.0 ≤ attempt + m)
  unfolding pause_then
  pause_then-dials none w attempt m again h = omega arith
  pause_then-dials (some d) w attempt m again h =
      ground (arith, sleep_fails-dials d w, h (sleep_fails env d w).1)

  connect_from-dials :
      (left done : ℕ) (p : Plan) (w : World W)
      → let out = connect_from env r left done p w in
        (dials out.1.trace ≤ dials w.trace + suc left) × (attempts_of out.0 ≤ done + suc left)
  unfolding connect_from
  connect_from-dials zero done p w = ground (arith, dial_plan-dials p w)
  connect_from-dials (suc left) done p w =
      let (answer, w1) = dial_plan env p none w in
      let (delay, w2) = backoff env r r.retry_delay r.max_retry_delay done w1 in
      ground (
        arith,
        dial_plan-dials p w,
        ap dials (backoff-trace r.retry_delay r.max_retry_delay done w1),
        pause_then-dials delay w2 (suc done) (suc left)
            (λ v. connect_from env r left (suc done) p v) (connect_from-dials left (suc done) p),
      )

  -- A host is dialled at most connect_retries + 1 times (once for a negative number), and the
  -- reported number of attempts is no greater.
  pub connect-dials :
      (p : Plan) (w : World W)
      → let out = connect env r p w in
        (dials out.1.trace ≤ dials w.trace + suc (retries_left r.connect_retries))
        × (attempts_of out.0 ≤ suc (retries_left r.connect_retries))
  unfolding connect
  connect-dials p w = omega (arith, connect_from-dials (retries_left r.connect_retries) 0 p w)

  -- An error of the first dial, of any kind but a connection that timed out or was refused, a
  -- failed handshake or a failed session (so authentication, host keys, DNS, cancellation and what
  -- has no category) is final, however many retries are set: the host is dialled once and the error
  -- is returned as it came.
  pub connect_final :
      (p : Plan) (w : World W) (err : Error)
      → (dial_plan env p none w).0 ≡ refused err
      → FinalError err
      → ((connect env r p w).0 ≡ failed_with err 1)
        × (dials (connect env r p w).1.trace ≡ dials w.trace + 1)
  unfolding connect
  connect_final p w err e final = once (retries_left r.connect_retries)
    where
      no_retry : is_retryable (as_failure err).category ≡ false
      no_retry = FinalError-is_retryable err final

      once :
          (left : ℕ)
          → ((connect_from env r left 0 p w).0 ≡ failed_with err 1)
            × (dials (connect_from env r left 0 p w).1.trace ≡ dials w.trace + 1)
      once zero = rw (e, connect_from) (refl, omega (arith, dial_plan-dials p w))
      once (suc left) =
          rw (e, connect_from) (rw no_retry (refl, omega (arith, dial_plan-dials p w)))

  -- For a maximal delay that is not negative and a jitter within its bound, backoff gives a delay
  -- from 0 to the maximal delay: whatever the base delay, and also where the shift overflows.
  pub backoff_bounds :
      (base : ℤ) (m k : ℕ) (w : World W)
      → ((bound : ℤ) (s : W)
          → pos 0 <ℤ bound
          → (pos 0 ≤ℤ (env.jitter bound s).0) × ((env.jitter bound s).0 <ℤ bound))
      → (d : ℤ) × ((backoff env r base (pos m) k w).0 ≡ some d) × (pos 0 ≤ℤ d) × (d ≤ℤ pos m)
  unfolding backoff
  backoff_bounds base m k w law =
      let c = capped base (pos m) k in
      let bound = half c +ℤ pos 1 in
      let positive : ltb_ℤ (pos 0) bound ≡ true =
        ground (arith, +ℤ_parts (half c) (pos 1), half_bounds c, capped_bounds base m k) in
      let good =
        law bound w.state
          (ground (arith, +ℤ_parts (half c) (pos 1), half_bounds c, capped_bounds base m k)) in
      (
        half c +ℤ (env.jitter bound w.state).0,
        rw (positive, backoff) refl,
        omega (
          arith,
          +ℤ_parts (half c) (env.jitter bound w.state).0,
          half_bounds c (capped_bounds base m k).0,
          good,
        ),
        omega (
          arith,
          +ℤ_parts (half c) (env.jitter bound w.state).0,
          +ℤ_parts (half c) (pos 1),
          half_bounds c (capped_bounds base m k).0,
          capped_bounds base m k,
          good,
        ),
      )

  -- For a maximal delay below -1ns backoff panics, whatever the base delay and the attempt.
  pub backoff_panics :
      (base : ℤ) (n k : ℕ) (w : World W) → (backoff env r base (negsuc (suc n)) k w).0 ≡ none
  unfolding backoff half
  backoff_panics base n k w =
      rw (capped_negative base (suc n) k, backoff)
        (ground (arith, +ℤ_parts (half (negsuc (suc n))) (pos 1)))
