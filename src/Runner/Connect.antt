-- ===== src/Runner/Connect.antt =====
-- connect and backoff of internal/runner/runner.go: the first connection to a host, with retries
-- for transient failures only.
pub mod Bounds
use remote_command_orchestra.Common.{
  ℕ, zero, suc, ◌+◌, ◌-◌, ◌*◌, ◌/◌, ◌%◌, ◌^◌, Bool, true, false, not, ◌||◌, Bytes, codes, Option,
  none, some, ℤ, pos, negsuc, ltb, leb_ℤ, ltb_ℤ, ◌+ℤ◌, if◌then◌else◌,
}
use remote_command_orchestra.Domain.{Category, Error, classified, is_retryable, as_failure}
use remote_command_orchestra.Runner.Env.{
  Env, World, Plan, Runner, Dialed, connected, refused, dial_plan, sleep_fails,
}

-- An int64 from its bits.
abbrev signed : ℕ → ℤ
signed bits = if ltb bits (2 ^ 63) then pos bits else negsuc (2 ^ 64 - bits - 1)

-- base << k on an int64.
shifted : ℤ → ℕ → ℤ
shifted (pos n) k = signed (n * 2 ^ k % 2 ^ 64)
shifted (negsuc n) k = signed ((2 ^ 64 - suc n * 2 ^ k % 2 ^ 64) % 2 ^ 64)

-- d / 2 on an int64, which rounds towards zero.
half : ℤ → ℤ
half (pos n) = pos (n / 2)
half (negsuc zero) = pos 0
half (negsuc (suc n)) = negsuc (suc (suc n) / 2 - 1)

-- The delay before the jitter; `k` is attempt - 1.
unfoldable pub capped : ℤ → ℤ → ℕ → ℤ
unfolding shifted
capped base max_delay k =
    let d = shifted base k in if ltb_ℤ max_delay d || leb_ℤ d (pos 0) then max_delay else d

abbrev cancelled_connecting : Error
cancelled_connecting = classified (record {
  category = Category.cancelled;
  reason = codes "cancelled while waiting to reconnect";
})

-- attempt > ConnectRetries ends the loop at once for a negative number of retries.
abbrev pub retries_left : ℤ → ℕ
retries_left (pos n) = n
retries_left (negsuc n) = 0

-- What connect returns, with the number of the last attempt; `panicked` if backoff panicked.
pub data Connection (C : Type 0) : Type 0 where
  linked : C → ℕ → Connection C
  failed_with : Error → ℕ → Connection C
  panicked : Connection C

module _ {C W : Type 0} (env : Env C W) (r : Runner) where
  -- backoff; `none` stands for the panic of rand.N at a bound that is not positive.
  unfoldable pub backoff : ℤ → ℤ → ℕ → World W → Option ℤ × World W
  unfolding half
  backoff base max_delay k w =
      let d = capped base max_delay k in
      let bound = half d +ℤ pos 1 in
      elim (ltb_ℤ (pos 0) bound) [
        | false ↦ (none, w)
        | true ↦
            let (j, s) = env.jitter bound w.state in (some (half d +ℤ j), record w { state = s })
      ]

  -- The pause of a round; `again` is the rest of the loop.
  pause_then : Option ℤ × World W → ℕ → (World W → Connection C × World W) → Connection C × World W
  pause_then (none, w) attempt again = (panicked, w)
  pause_then (some d, w) attempt again =
      let (cut, w') = sleep_fails env d w in
      elim cut [ true ↦ (failed_with cancelled_connecting attempt, w') | false ↦ again w' ]

  -- The loop of connect: the retries that are left, and the attempts behind.
  connect_from : ℕ → ℕ → Plan → World W → Connection C × World W
  connect_from zero done p w =
      let (answer, w1) = dial_plan env p none w in
      elim answer [
        | connected c ↦ (linked c (suc done), w1)
        | refused err ↦ (failed_with err (suc done), w1)
      ]
  connect_from (suc left) done p w =
      let (answer, w1) = dial_plan env p none w in
      elim answer [
        | connected c ↦ (linked c (suc done), w1)
        | refused err ↦
            elim (not (is_retryable (as_failure err).category) || env.is_cancelled w1.state) [
              | true ↦ (failed_with err (suc done), w1)
              | false ↦
                  pause_then (backoff r.retry_delay r.max_retry_delay done w1) (suc done)
                    (λ v. connect_from left (suc done) p v)
            ]
      ]

  unfoldable pub connect : Plan → World W → Connection C × World W
  unfolding connect_from pause_then
  connect p w = connect_from (retries_left r.connect_retries) 0 p w
