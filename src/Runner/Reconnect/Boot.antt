-- ===== src/Runner/Reconnect/Boot.antt =====
-- With which connection the wait for a host ends, and what it sends meanwhile.
use remote_command_orchestra.Common.{
  ℕ, zero, suc, ◌/◌, ◌+ℤ◌, pos_part, [], Bool, true, false, Bytes, eq_bytes_iff, Option, none, some,
  ℤ, ltb_ℤ, ◌≡◌, ◌≢◌, ◌⊎◌, ◌∙◌, refl, subst, arith, Bool-cases, inl, inr, is_nil,
}
use remote_command_orchestra.Domain.{Failure, as_failure}
use remote_command_orchestra.Sshx.Exec.{Result}
use remote_command_orchestra.Runner.Env.{
  Env, World, Plan, Runner, Dialed, connected, refused, dial_plan, sleep_fails, exec_on, runs,
  read_boot_id,
}
use remote_command_orchestra.Runner.Step.Retry.{sleep_fails-runs}
use remote_command_orchestra.Runner.Reconnect.{
  Waited, back, is_final, is_old, id_of, boot_id, close_it, after_dial, wait_from, wait_for_host,
  reconnect_delay, boot_id_request, last_of, saw_of, no_attempt,
}

module _ {C W : Type 0} (env : Env C W) (r : Runner) where
  -- The host answered on `c`, in the state that leads to `w`, with a boot ID other than `old`.
  abbrev pub Rebooted : Bytes → C → World W → Type 0
  Rebooted old c w =
      (before : World W) × (id : Bytes) × (boot_id env r c before ≡ (inl id, w)) × (id ≢ old)

  -- Whatever a part of the wait gives: a connection only to a rebooted host, and no command sent.
  abbrev Sound : Bytes → World W → Option (Waited C) × World W → Type 0
  Sound old w out =
      (runs out.1.trace ≡ runs w.trace)
      × ((c : C) → out.0 ≡ some (back c) → old ≢ [] → Rebooted old c out.1)

  id_of-ne-nil :
      (res : Result) (err : Option Failure) (id : Bytes) → id_of env r res err ≡ inl id → id ≢ []
  unfolding id_of
  id_of-ne-nil res (some f) id e = cc
  id_of-ne-nil res none id e = λ empty. ground arith

  -- A boot ID that was read is not empty.
  pub boot_id-ne-nil : (c : C) (w : World W) (id : Bytes) → (boot_id env r c w).0 ≡ inl id → id ≢ []
  unfolding boot_id
  boot_id-ne-nil c w id e =
      let ((res, err), w') = exec_on env read_boot_id c boot_id_request w in
      id_of-ne-nil res err id e

  boot_id-runs : (c : C) (w : World W) → runs (boot_id env r c w).1.trace ≡ runs w.trace
  unfolding boot_id exec_on runs
  boot_id-runs c w = refl

  dial_plan-runs :
      (p : Plan) (d : Option ℤ) (w : World W) → runs (dial_plan env p d w).1.trace ≡ runs w.trace
  unfolding dial_plan runs
  dial_plan-runs p d w = refl

  new_id :
      (old : Bytes) (c : C) (w : World W)
      → is_old env r old (boot_id env r c w).0 ≡ false
      → Rebooted old c (boot_id env r c w).1
  unfolding is_old
  new_id old c w h = go (boot_id env r c w) refl h
    where
      go :
          (out : (Bytes ⊎ Failure) × World W)
          → boot_id env r c w ≡ out
          → is_old env r old out.0 ≡ false
          → Rebooted old c out.1
      go (inl id, v) e differs = (w, id, e, λ same. ground (arith, eq_bytes_iff id old))
      go (inr f, v) e differs = cc

  after_dial-Sound :
      (old : Bytes) (saw : Bool) (answer : Dialed C) (w : World W)
      (again : Failure → Bool → World W → Option (Waited C) × World W)
      → ((f : Failure) (b : Bool) (v : World W) → Sound old v (again f b v))
      → Sound old w (after_dial env r old saw answer w again)
  unfolding after_dial
  after_dial-Sound old saw (refused err) w again h = elim (Bool-cases (env.is_cancelled w.state)) [
    | inl cut ↦ rw (cut, after_dial) (refl, λ c e n. cc)
    | inr on ↦ elim (Bool-cases (is_final (as_failure err).category)) [
      | inl final ↦ rw (on, final, after_dial) (refl, λ c e n. cc)
      | inr open_to ↦ rw (on, open_to, after_dial) (h (as_failure err) saw w)
    ]
  ]
  after_dial-Sound old saw (connected c) w again h = elim (Bool-cases (is_nil old)) [
    | inl any ↦ rw (any, after_dial) (refl, λ d e n. absurd (n (nil_of any)))
    | inr wanted ↦ elim (Bool-cases (is_old env r old (boot_id env r c w).0)) [
      | inr new ↦
          rw (wanted, new, after_dial)
            (
              boot_id-runs c w,
              λ d e n.
                  let same : c ≡ d = cc in
                  subst (λ x. Rebooted old x (boot_id env r c w).1) same (new_id old c w new),
            )
      | inl same ↦
          let (id, w') = boot_id env r c w in
          let (kept, sound) = h (last_of env r id) (saw_of env r saw id) (close_it env r c w') in
          rw (wanted, same, after_dial) (kept ∙ boot_id-runs c w, sound)
    ]
  ]
    where
      nil_of : is_nil old ≡ true → old ≡ []
      nil_of e = ground arith

  wait_from-Sound :
      (k : ℕ) (p : Plan) (timeout deadline : ℤ) (old : Bytes) (last : Failure) (saw : Bool)
      (w : World W)
      → Sound old w (wait_from env r k p timeout deadline old last saw w)
  unfolding wait_from
  wait_from-Sound zero p timeout deadline old last saw w = (refl, λ c e n. cc)
  wait_from-Sound (suc k) p timeout deadline old last saw w =
      let w1 = (sleep_fails env reconnect_delay w).1 in
      let (answer, w2) = dial_plan env p (some deadline) w1 in
      let slept = sleep_fails-runs env r reconnect_delay w in
      elim (Bool-cases (sleep_fails env reconnect_delay w).0) [
        | inl cut ↦ rw (cut, wait_from) (slept, λ c e n. cc)
        | inr on ↦ elim (Bool-cases (ltb_ℤ deadline (env.now w1.state))) [
          | inl over ↦ rw (on, over, wait_from) (slept, λ c e n. cc)
          | inr early ↦
              let (kept, sound) =
                after_dial-Sound old saw answer w2
                  (λ f b v. wait_from env r k p timeout deadline old f b v)
                  (λ f b v. wait_from-Sound k p timeout deadline old f b v) in
              rw (on, early, wait_from)
                (kept ∙ (dial_plan-runs p (some deadline) w1 ∙ slept), sound)
        ]
      ]

  pub wait_for_host-Sound :
      (p : Plan) (timeout : ℤ) (old : Bytes) (w : World W)
      → let out = wait_for_host env r p timeout old w in
        (runs out.1.trace ≡ runs w.trace)
        × ((c : C) → out.0 ≡ some (back c) → old ≢ [] → Rebooted old c out.1)
  unfolding wait_for_host
  wait_for_host-Sound p timeout old w =
      wait_from-Sound (suc (suc (pos_part timeout / 5000000000))) p timeout
        (env.now w.state +ℤ timeout) old no_attempt false w
