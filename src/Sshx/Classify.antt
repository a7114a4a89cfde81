-- ===== src/Sshx/Classify.antt =====
-- internal/sshx/classify.go and prefix, knownAlgorithms of internal/sshx/dial.go: what kind of
-- failure an error of the network or of the SSH library is. An error is what the predicates of the
-- standard library say of it.
pub mod Retried
use remote_command_orchestra.Common.{
  ℕ, ◌==◌, Bool, true, false, not, ◌&&◌, ◌||◌, List, [], ◌∷◌, ◌++◌, Bytes, codes, contains,
  eq_bytes, among, Option, none, some, if◌then◌else◌,
}
use remote_command_orchestra.Domain.{Category, Failure, Error, as_failure}

-- *net.DNSError.
pub record DnsError : Type 0 where
  pub name : Bytes
  pub err : Bytes
  pub is_timeout : Bool

-- errors.Is with context.Canceled, ECONNREFUSED, context.DeadlineExceeded, EHOSTUNREACH or
-- ENETUNREACH; errors.As with a DNS error; a net.Error's Timeout; and the text.
pub record DialError : Type 0 where
  pub is_canceled : Bool
  pub dns : Option DnsError
  pub is_refused : Bool
  pub is_deadline : Bool
  pub is_timeout : Bool
  pub is_unreachable : Bool
  pub text : Bytes

fail : Category → Bytes → Failure
fail c text = record { category = c; reason = text }

classify_dns : DnsError → Failure
unfolding fail
classify_dns d =
    if d.is_timeout
    then fail Category.connection_timeout (codes "DNS lookup timeout for " ++ d.name)
    else fail Category.dns_failure
        (codes "DNS lookup failed for " ++ (d.name ++ (codes ": " ++ d.err)))

-- From the test for a refused connection on.
classify_tcp : DialError → Bytes → Failure
unfolding fail
classify_tcp e addr =
    if e.is_refused
    then fail Category.connection_refused (codes "connection refused by " ++ addr)
    else (if e.is_deadline || e.is_timeout
        then fail Category.connection_timeout
            (codes "connection to " ++ (addr ++ codes " timed out"))
        else (if e.is_unreachable
            then fail Category.connection_timeout
                (codes "network unreachable for " ++ (addr ++ (codes ": " ++ e.text)))
            else (if contains e.text (codes "connect failed")
                then fail Category.connection_refused
                    (codes "bastion could not reach " ++ (addr ++ (codes ": " ++ e.text)))
                else fail Category.connection_timeout
                    (codes "connection to " ++ (addr ++ (codes " failed: " ++ e.text))))))

classify_lookup : Option DnsError → DialError → Bytes → Failure
unfolding classify_dns classify_tcp
classify_lookup (some d) e addr = classify_dns d
classify_lookup none e addr = classify_tcp e addr

-- ClassifyDial.
unfoldable pub classify_dial : DialError → Bytes → Failure
unfolding classify_lookup fail
classify_dial e addr =
    if e.is_canceled
    then fail Category.cancelled (codes "cancelled while connecting to " ++ addr)
    else classify_lookup e.dns e addr

-- An error of the handshake: a Failure in its chain; the number of keys wanted, of a KeyError;
-- errors.Is with context.Canceled and io.EOF; and the text.
pub record HandshakeError : Type 0 where
  pub failure : Option Failure
  pub key_wanted : Option ℕ
  pub is_canceled : Bool
  pub is_eof : Bool
  pub text : Bytes

-- `split` is net.SplitHostPort: the host and the port.
module _ (split : Bytes → Bytes × Bytes) where
  classify_key : ℕ → Bytes → Failure
  unfolding fail
  classify_key wanted addr =
      let (host, port) = split addr in
      if not (wanted == 0)
      then fail Category.host_key_mismatch (
          codes "host key for "
          ++ (addr ++ codes " does not match known_hosts (possible man-in-the-middle)"))
      else fail Category.host_key_unknown (
          codes "host key for "
          ++ (addr
              ++ (codes " is not in known_hosts (verify the fingerprint, then: ssh-keyscan -p "
                  ++ (port
                      ++ (codes " "
                          ++ (host
                              ++ codes
                                  " >> ~/.ssh/known_hosts, or run with --accept-new-host-keys)"))))))

  -- From the test for a failed authentication on.
  classify_rest : HandshakeError → Bytes → Bool → Failure
  unfolding fail
  classify_rest e addr timed_out =
      if contains e.text (codes "unable to authenticate")
        || contains e.text (codes "no supported methods remain")
      then fail Category.auth_failed (codes "authentication failed for " ++ addr)
      else (if timed_out
          then fail Category.handshake_failed
              (codes "SSH handshake with " ++ (addr ++ codes " timed out"))
          else (if e.is_canceled
              then fail Category.cancelled (codes "cancelled during SSH handshake with " ++ addr)
              else (if e.is_eof
                  then fail Category.handshake_failed
                      (codes "connection closed during SSH handshake with " ++ addr)
                  else fail Category.handshake_failed
                      (codes "SSH handshake with " ++ (addr ++ (codes " failed: " ++ e.text))))))

  classify_unless_key : Option ℕ → HandshakeError → Bytes → Bool → Failure
  unfolding classify_key classify_rest
  classify_unless_key (some wanted) e addr timed_out = classify_key wanted addr
  classify_unless_key none e addr timed_out = classify_rest e addr timed_out

  classify_unless : Option Failure → HandshakeError → Bytes → Bool → Failure
  unfolding classify_unless_key
  classify_unless (some f) e addr timed_out = f
  classify_unless none e addr timed_out = classify_unless_key e.key_wanted e addr timed_out

  -- ClassifyHandshake.
  unfoldable pub classify_handshake : HandshakeError → Bytes → Bool → Failure
  unfolding classify_unless
  classify_handshake e addr timed_out = classify_unless e.failure e addr timed_out

-- prefix.
pub prefix : Error → Bytes → Failure
prefix err what =
    let f = as_failure err in
    record { category = f.category; reason = what ++ (codes ": " ++ f.reason) }

-- One RSA key verifies all RSA signature algorithms.
types_of : Bytes → List Bytes
types_of t =
    if eq_bytes t (codes "ssh-rsa")
    then codes "rsa-sha2-512" ∷ codes "rsa-sha2-256" ∷ codes "ssh-rsa" ∷ []
    else t ∷ []

unseen_into : List Bytes → List Bytes → List Bytes
unseen_into [] algos = algos
unseen_into (t ∷ types) algos = unseen_into types (if among algos t then algos else algos ++ t ∷ [])

-- knownAlgorithms, of the types of the keys that the probe's KeyError wants.
unfoldable pub known_algorithms : List Bytes → List Bytes → List Bytes
unfolding types_of unseen_into
known_algorithms [] algos = algos
known_algorithms (t ∷ wanted) algos = known_algorithms wanted (unseen_into (types_of t) algos)
