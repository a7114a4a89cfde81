-- ===== src/Runner/Reconnect/Waiting.antt =====
-- The wait for a host ends: its rounds are enough, under conditions on the clock.
use remote_command_orchestra.Common.{
  ℕ, zero, suc, ◌+◌, ◌*◌, ◌/◌, ◌≤◌, ◌<◌, Bool, true, false, Bytes, Option, none, some, ℤ, pos, ◌≤ℤ◌,
  ltb_ℤ, ◌+ℤ◌, +ℤ_parts, pos_part, neg_part, ◌≡◌, ◌≢◌, arith, Bool-cases, inl, inr,
}
use remote_command_orchestra.Domain.{Failure, as_failure}
use remote_command_orchestra.Sshx.Exec.{Request}
use remote_command_orchestra.Runner.Env.{
  Env, World, Plan, Runner, Dialed, connected, refused, dial_plan, sleep_fails, exec_on,
}
use remote_command_orchestra.Runner.Reconnect.{
  Waited, boot_id, close_it, after_dial, wait_from, wait_for_host, reconnect_delay, last_of, saw_of,
  no_attempt,
}

module _ {C W : Type 0} (env : Env C W) (r : Runner) where
  -- The clock never runs backwards, and a pause that is not cut short lasts as long as it should.
  pub record Clock : Type 0 where
    pub on_dial : (p : Plan) (d : Option ℤ) (s : W) → env.now s ≤ℤ env.now (env.dial p d s).1
    pub on_session : (c : C) (q : Request) (s : W) → env.now s ≤ℤ env.now (env.session c q s).1
    pub on_close : (c : C) (s : W) → env.now s ≤ℤ env.now (env.close c s)
    pub on_wait :
        (n : ℕ) (s : W)
        → (env.wait (pos n) s).0 ≡ true
        → pos_part (env.now s) + neg_part (env.now (env.wait (pos n) s).1) + n
          ≤ pos_part (env.now (env.wait (pos n) s).1) + neg_part (env.now s)

  module _ (clock : Clock) where
    sleep-now :
        (w : World W)
        → (sleep_fails env reconnect_delay w).0 ≡ false
        → pos_part (env.now w.state)
            + neg_part (env.now (sleep_fails env reconnect_delay w).1.state)
            + 5000000000
          ≤ pos_part (env.now (sleep_fails env reconnect_delay w).1.state)
            + neg_part (env.now w.state)
    unfolding sleep_fails
    sleep-now w h = clock.on_wait 5000000000 w.state (ground arith)

    dial-now :
        (p : Plan) (d : Option ℤ) (w : World W)
        → env.now w.state ≤ℤ env.now (dial_plan env p d w).1.state
    unfolding dial_plan
    dial-now p d w = clock.on_dial p d w.state

    boot_id-now : (c : C) (w : World W) → env.now w.state ≤ℤ env.now (boot_id env r c w).1.state
    unfolding boot_id exec_on
    boot_id-now c w = clock.on_session c _ w.state

    -- The deadline lies less than `k` pauses ahead.
    abbrev Near : ℕ → ℤ → ℤ → Type 0
    Near k deadline now =
        pos_part deadline + neg_part now < pos_part now + neg_part deadline + k * 5000000000

    after_dial_ends :
        (old : Bytes) (saw : Bool) (answer : Dialed C) (w : World W)
        (again : Failure → Bool → World W → Option (Waited C) × World W)
        → ((f : Failure) (b : Bool) (v : World W)
            → env.now w.state ≤ℤ env.now v.state
            → (again f b v).0 ≢ none)
        → (after_dial env r old saw answer w again).0 ≢ none
    unfolding after_dial
    after_dial_ends old saw (refused err) w again h =
        ground (arith, h (as_failure err) saw w (omega arith))
    after_dial_ends old saw (connected c) w again h =
        let (id, w') = boot_id env r c w in
        ground (
          arith,
          h (last_of env r id) (saw_of env r saw id) (close_it env r c w')
              (omega (arith, boot_id-now c w, clock.on_close c w'.state)),
        )

    -- `b` is at least one pause later than `a`.
    abbrev Later : ℤ → ℤ → Type 0
    Later a b = pos_part a + neg_part b + 5000000000 ≤ pos_part b + neg_part a

    wait_round :
        (k : ℕ) (p : Plan) (timeout deadline : ℤ) (old : Bytes) (last : Failure) (saw : Bool)
        (w : World W)
        → ((f : Failure) (b : Bool) (v : World W)
            → Later (env.now w.state) (env.now v.state)
            → Later (env.now w.state) deadline
            → (wait_from env r k p timeout deadline old f b v).0 ≢ none)
        → (wait_from env r (suc k) p timeout deadline old last saw w).0 ≢ none
    unfolding wait_from
    wait_round k p timeout deadline old last saw w next =
        let w1 = (sleep_fails env reconnect_delay w).1 in
        let (answer, w2) = dial_plan env p (some deadline) w1 in
        elim (Bool-cases (sleep_fails env reconnect_delay w).0) [
          | inl cut ↦ rw (cut, wait_from) (λ e. cc)
          | inr on ↦ elim (Bool-cases (ltb_ℤ deadline (env.now w1.state))) [
            | inl over ↦ rw (on, over, wait_from) (λ e. cc)
            | inr early ↦
                rw (on, early, wait_from)
                  (after_dial_ends old saw answer w2
                    (λ f b v. wait_from env r k p timeout deadline old f b v)
                    (λ f b v later.
                      next f b v (omega (arith, sleep-now w on, dial-now p (some deadline) w1)) (
                        omega (arith, sleep-now w on, not_over deadline (env.now w1.state) early))))
          ]
        ]
      where
        not_over : (d t : ℤ) → ltb_ℤ d t ≡ false → t ≤ℤ d
        not_over d t e = ground arith

    wait_from_ends :
        (k : ℕ) (p : Plan) (timeout deadline : ℤ) (old : Bytes) (last : Failure) (saw : Bool)
        (w : World W)
        → Near k deadline (env.now w.state)
        → (wait_from env r (suc k) p timeout deadline old last saw w).0 ≢ none
    wait_from_ends zero p timeout deadline old last saw w near =
        wait_round zero p timeout deadline old last saw w (λ f b v later left. absurd (omega arith))
    wait_from_ends (suc k) p timeout deadline old last saw w near =
        wait_round (suc k) p timeout deadline old last saw w
          (λ f b v later left. wait_from_ends k p timeout deadline old f b v (omega arith))

    -- If the clock never runs backwards, and every pause that is not cut short takes at least its
    -- length by that clock, waitForHost returns: the rounds that its model allows are never used
    -- up, whatever the network and the host do.
    pub wait_for_host_ends :
        (p : Plan) (timeout : ℤ) (old : Bytes) (w : World W)
        → (wait_for_host env r p timeout old w).0 ≢ none
    unfolding wait_for_host
    wait_for_host_ends p timeout old w =
        wait_from_ends (suc (pos_part timeout / 5000000000)) p timeout (env.now w.state +ℤ timeout)
          old no_attempt false w (omega (arith, +ℤ_parts (env.now w.state) timeout))
